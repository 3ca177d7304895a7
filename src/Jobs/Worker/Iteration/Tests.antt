-- ===== src/Jobs/Worker/Iteration/Tests.antt =====
-- Rounds of a worker under which every callback panics.
use alya.Prelude.{ℕ, ◌≤◌, true, false, ◌≡◌, refl}
use alya.Prelude.Int.{negsuc}
use alya.Jobs.Status.{queued}
use alya.Jobs.Machine.{Env, ok}
use alya.Jobs.Fixture.{tables, a_world, an_env}
use alya.Jobs.Worker.Iteration.{run_rounds}
use alya.Jobs.Worker.Iteration.Rounds.{run_rounds-run, after_iterations}

abbrev panicking_env : Env
panicking_env = record an_env { mark_done_panics = λ n. true; close_panics = λ n. true }

run_rounds-run_example :
    (d : ℕ) × (run_rounds panicking_env
        (λ e. "error")
        (λ n. false)
        (λ n. false)
        (λ ids. ids)
        "worker"
        (negsuc 4)
        (λ n m. 0)
        10
        5
        0
        (a_world (tables queued queued))
      ≡ (
        ok d,
        after_iterations panicking_env
            (λ e. "error")
            (λ n. false)
            (λ n. false)
            (λ ids. ids)
            "worker"
            10
            5
            (a_world (tables queued queued)),
      ))
    × (d ≤ 1)
run_rounds-run_example =
    run_rounds-run panicking_env (λ e. "error") (λ n. false) (λ n. false) (λ ids. ids) "worker"
      (negsuc 4) (λ n m. 0) 10 5 (a_world (tables queued queued)) (λ n. refl)
