-- ===== src/Jobs/Worker/Claim.antt =====
-- The first transaction of `RunOneIterationWithContext`: a block of queued rows is fetched and
-- marked in progress, with the batches they belong to. A run that returns false is an error here.
-- `locked` tells the rows that another session's transaction has locked.
pub mod Claimed
pub mod Kept
mod Tests
use alya.Prelude.{ℕ, List, [], ◌∷◌, Bool, true, not, if◌then◌else◌}
use alya.Jobs.Status.{queued, inprog, status_eq}
use alya.Jobs.Queries.{
  FetchBlockOfRowsRow, fetch_block_of_rows, update_batches_status_bulk,
  update_batch_rows_status_bulk,
}
use alya.Jobs.Machine.{
  Env, World, M, ◌>>=◌, ◌>>◌, pure, guard, with_rollback, begin, commit, tx_exec, tx_query, ok, err,
  no_rows, cancelled,
}
use alya.Jobs.Batch.{is_nil}

abbrev pub row_ids : List FetchBlockOfRowsRow → List ℕ
row_ids [] = []
row_ids (r ∷ rs) = r.rowid ∷ row_ids rs

-- The batches that are still queued; a batch may come more than once.
abbrev pub queued_batch_ids : List FetchBlockOfRowsRow → List ℕ
queued_batch_ids [] = []
queued_batch_ids (r ∷ rs) =
    let rest = queued_batch_ids rs in if status_eq r.status queued then r.batch ∷ rest else rest

module _ (env : Env) (ctx_done locked : ℕ → Bool) where
  -- A cancellation point.
  unfoldable pub check_context : M (Unit {0})
  check_context w = (if ctx_done w.calls then err cancelled else ok tt, w)

  unfoldable pub mark_batches : List ℕ → M (Unit {0})
  mark_batches batch_ids =
      if is_nil batch_ids
      then pure tt
      else tx_exec env (update_batches_status_bulk batch_ids inprog)

  unfoldable pub claim_block : ℕ → M (List FetchBlockOfRowsRow)
  claim_block batch_chunk_nrows = do
    check_context
    with_rollback do
      begin env
      block_of_rows ← tx_query env (fetch_block_of_rows locked queued batch_chunk_nrows)
      guard (not (is_nil block_of_rows)) no_rows
      check_context
      mark_batches (queued_batch_ids block_of_rows)
      tx_exec env (update_batch_rows_status_bulk (row_ids block_of_rows) inprog)
      check_context
      commit env
      pure block_of_rows
