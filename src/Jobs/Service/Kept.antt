-- ===== src/Jobs/Service/Kept.antt =====
-- What every operation of the service keeps.
use alya.Prelude.{List, [], ◌∷◌, String, ◌≡◌, refl, sym}
use mathlib.Core.Path.{subst}
use alya.Jobs.Db.{Db}
use alya.Jobs.Tables.{IsValid}
use alya.Jobs.Tables.Closed.{Closed, IsValid-Closed, Evolves, Evolves-refl, Evolves-Closed}
use alya.Jobs.Machine.{Env, World, Error, Holds, Preserves-of_Inert}
use alya.Jobs.Batch.Invariant.{
  batch_submit-Preserves, batch_append-Preserves, wait_off-Preserves, batch_abort-Preserves,
}
use alya.Jobs.BatchStatus.Still.{batch_status-Inert}
use alya.Jobs.SlowQuery.Kept.{slow_query_submit-Preserves, slow_query_abort-Preserves}
use alya.Jobs.BatchDone.Still.{batch_done-Inert}
use alya.Jobs.SlowQueryDone.Still.{slow_query_done-Inert}
use alya.Jobs.Completed.Kept.{sweep-Preserves}
use alya.Jobs.Recovery.Resets.{recover_abandoned_rows-Preserves}
use alya.Jobs.Worker.Iteration.Kept.{run_one_iteration-Preserves}
use alya.Jobs.Service.{
  Operation, submits, appends, waits_off, aborts, asks_status, submits_query, aborts_query,
  asks_result, asks_query, iterates, recovers, sweeps, perform, perform_all,
}

module _ {P : Db → Type 0} (c : Closed P) (env : Env) (error_text : Error → String) where
  perform-Holds : (x : Operation) (w : World) → Holds P w → Holds P (perform env error_text x w)
  unfolding perform
  perform-Holds (submits app op ctx input waitabit) w h =
      (batch_submit-Preserves c.growing env app op ctx input waitabit).after w h
  perform-Holds (appends i input waitabit) w h =
      (batch_append-Preserves c.growing env i input waitabit).after w h
  perform-Holds (waits_off i) w h = (wait_off-Preserves c.growing env i).after w h
  perform-Holds (aborts i) w h = (batch_abort-Preserves c env i).after w h
  perform-Holds (asks_status i) w h = (Preserves-of_Inert (batch_status-Inert env i)).after w h
  perform-Holds (submits_query app op ctx input) w h =
      (slow_query_submit-Preserves c.growing env app op ctx input).after w h
  perform-Holds (aborts_query i) w h = (slow_query_abort-Preserves c env i).after w h
  perform-Holds (asks_result i) w h = (Preserves-of_Inert (batch_done-Inert env i)).after w h
  perform-Holds (asks_query i) w h = (Preserves-of_Inert (slow_query_done-Inert env i)).after w h
  perform-Holds (iterates ctx_done locked map_order id n) w h =
      (run_one_iteration-Preserves c env error_text ctx_done locked map_order id n).after w h
  perform-Holds (recovers id) w h =
      (recover_abandoned_rows-Preserves
          (λ ids.
            c.update_batchrows-keeps _ _ (λ r. refl) (λ r. refl) (λ r. refl) (λ r. refl)
              (λ r. refl))
          env id).after
        w h
  perform-Holds (sweeps ctx_done) w h = (sweep-Preserves c env ctx_done).after w h

  perform_all-Holds :
      (xs : List Operation) (w : World) → Holds P w → Holds P (perform_all env error_text xs w)
  perform_all-Holds [] w h = h
  perform_all-Holds (x ∷ xs) w h =
      perform_all-Holds xs (perform env error_text x w) (perform-Holds x w h)

  -- Where no transaction is open at first.
  from_committed :
      (xs : List Operation) (w : World)
      → ((d : Db) → w.pending d ≡ d)
      → P w.db
      → P (perform_all env error_text xs w).db
  from_committed xs w idle p =
      (perform_all-Holds xs w
        (record { committed = p; uncommitted = λ d q. subst P (sym (idle d)) q })).committed

module _ (env : Env) (error_text : Error → String) where
  -- After any sequence of the service's operations, from tables where no row number stands twice,
  -- every row number is below the sequence and no UUID stands twice, the same holds, whatever calls
  -- fail and processors panic in them; no transaction is open at first.
  pub perform_all-IsValid :
      (xs : List Operation) (w : World)
      → ((d : Db) → w.pending d ≡ d)
      → IsValid w.db
      → IsValid (perform_all env error_text xs w).db
  perform_all-IsValid xs w idle v = from_committed IsValid-Closed env error_text xs w idle v

  -- After any sequence of the service's operations, every batch and every row that was there is
  -- still there, in its place, with its number, its batch, its line, its input and its time of
  -- submission, or its UUID, app, op, context and time, whatever calls fail and processors panic;
  -- no transaction is open at first.
  pub perform_all-Evolves :
      (xs : List Operation) (w : World)
      → ((d : Db) → w.pending d ≡ d)
      → Evolves w.db (perform_all env error_text xs w).db
  perform_all-Evolves xs w idle =
      from_committed (Evolves-Closed w.db) env error_text xs w idle (Evolves-refl w.db)
