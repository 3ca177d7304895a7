-- ===== src/Jobs/Completed.antt =====
-- The retries around a summary (`summarizeCompletedBatches` of jobs/jobmanager.go) and the sweep
-- for batches that were missed (jobs/recovery.go).
mod Closing
pub mod Kept
mod Tests
use alya.Prelude.{ℕ, zero, suc, List, [], ◌∷◌, Bool, if◌then◌else◌}
use alya.Jobs.Queries.{get_unsummarized_batches}
use alya.Jobs.Machine.{
  Env, World, M, Result, ◌>>=◌, ◌>>◌, pure, throw, log_error, begin, commit, rollback, query, ok,
  err, cancelled, panicked, lock_not_acquired, has_pending_rows,
}
use alya.Jobs.Summary.{summarize_batch}

-- `maxRetries`
abbrev pub max_retries : ℕ
max_retries = 5

module _ (env : Env) (ctx_done : ℕ → Bool) where
  -- What one attempt does with the result of the summary; `retry` is the next attempt. A panic
  -- passes through: no rollback is deferred here.
  unfoldable pub after_summary : Result (Unit {0}) → M (Unit {0}) → M (Unit {0})
  after_summary (ok _) retry = log_error (commit env)
  after_summary (err lock_not_acquired) retry = rollback >> retry
  after_summary (err has_pending_rows) retry = rollback >> retry
  after_summary (err panicked) retry = throw panicked
  after_summary (err _) retry = rollback

  -- A context that is done stops the whole loop; a transaction that cannot be begun ends the
  -- attempts for this batch.
  unfoldable pub attempts : ℕ → ℕ → M (Unit {0})
  attempts zero batch_id w = (ok tt, w)
  attempts (suc left) batch_id w =
      let retry : M (Unit {0}) = attempts left batch_id in
      if ctx_done w.calls
      then (err cancelled, w)
      else let (started, w1) = begin env w in
        elim started [
          | err e ↦ (ok tt, w1)
          | ok _ ↦ let (r, w2) = summarize_batch env batch_id w1 in after_summary r retry w2
        ]

  -- The batches of the set, in the order in which the map yields them.
  unfoldable pub summarize_completed_batches : List ℕ → M (Unit {0})
  summarize_completed_batches [] = pure tt
  summarize_completed_batches (batch_id ∷ rest) = do
    attempts max_retries batch_id
    summarize_completed_batches rest

  unfoldable pub sweep_unsummarized_batches : M (Unit {0})
  sweep_unsummarized_batches = do
    batch_ids ← query env get_unsummarized_batches
    summarize_completed_batches batch_ids
