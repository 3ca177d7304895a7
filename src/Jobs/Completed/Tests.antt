-- ===== src/Jobs/Completed/Tests.antt =====
-- The transactions of a loop over one batch.
use alya.Prelude.{◌+◌, [], ◌∷◌, false, ◌≡◌}
use alya.Jobs.Status.{inprog, failed}
use alya.Jobs.Machine.{World}
use alya.Jobs.Fixture.{a_world, tables, an_env}
use alya.Jobs.Completed.{summarize_completed_batches}
use alya.Jobs.Completed.Closing.{left_open, summarize_completed_batches_closes}

abbrev finished : World
finished = a_world (tables inprog failed)

summarize_completed_batches_closes_example :
    (summarize_completed_batches an_env (λ n. false) (7 ∷ []) finished).1.open_txs
    ≡ 0 + left_open (summarize_completed_batches an_env (λ n. false) (7 ∷ []) finished).0
summarize_completed_batches_closes_example =
    summarize_completed_batches_closes an_env (λ n. false) (7 ∷ []) finished
