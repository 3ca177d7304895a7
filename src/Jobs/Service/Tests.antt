-- ===== src/Jobs/Service/Tests.antt =====
-- A batch that is submitted, worked on, aborted and recovered.
use alya.Prelude.{[], ◌∷◌, List, true, false, refl}
use alya.Jobs.Status.{queued, inprog}
use alya.Jobs.Tables.{IsValid}
use alya.Jobs.Tables.Closed.{Evolves}
use alya.Jobs.Fixture.{tables, tables-IsValid, a_world, an_env, two_lines, a_context}
use alya.Jobs.Service.{
  Operation, submits, aborts, aborts_query, iterates, recovers, sweeps, perform, perform_all,
}
use alya.Jobs.Service.Lifecycle.{AfterRows}
use alya.Jobs.Service.Steps.{perform-AfterRows}
use alya.Jobs.Service.Kept.{perform_all-IsValid, perform_all-Evolves}

abbrev a_day : List Operation
a_day =
    submits "crm" "load" a_context two_lines false
    ∷ iterates (λ n. false) (λ n. false) (λ ids. ids) "worker" 10
    ∷ aborts "b7"
    ∷ recovers "worker"
    ∷ sweeps (λ n. false)
    ∷ []

a_day-IsValid :
    IsValid (perform_all an_env (λ e. "error") a_day (a_world (tables queued queued))).db
a_day-IsValid =
    perform_all-IsValid an_env (λ e. "error") a_day (a_world (tables queued queued)) (λ d. refl)
      (tables-IsValid queued queued)

perform_all-Evolves_example :
    Evolves
      (tables queued queued)
      (perform_all an_env (λ e. "error") a_day (a_world (tables queued queued))).db
perform_all-Evolves_example =
    perform_all-Evolves an_env (λ e. "error") a_day (a_world (tables queued queued)) (λ d. refl)

perform-AfterRows_example :
    AfterRows true false
      (tables queued inprog)
      (perform an_env (λ e. "error") (aborts_query "b7") (a_world (tables queued inprog))).db
perform-AfterRows_example =
    perform-AfterRows an_env (λ e. "error") (aborts_query "b7") (a_world (tables queued inprog))
      refl (λ d. refl) (tables-IsValid queued inprog)
