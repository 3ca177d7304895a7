-- ===== src/Jobs/SlowQuery.antt =====
-- The calls that submit and abort a slow query (jobs/slowquery.go): a batch of one row, on line 0.
mod Effect
pub mod Kept
mod Tests
use alya.Prelude.{ℕ, ◌*◌, String, not, none, some}
use alya.Prelude.Int.{pos}
use alya.Jobs.Status.{StatusEnum, queued, aborted, is_final}
use alya.Jobs.Types.{JsonStr}
use alya.Jobs.Queries.{
  insert_into_batches, insert_into_batch_rows, get_batch_by_id, get_pending_batch_rows,
  update_batch_rows_status, update_batch_summary,
}
use alya.Jobs.Machine.{
  Env, M, ◌>>=◌, ◌>>◌, pure, or_throw, guard, with_rollback, log_error, begin, commit, now, exec,
  query, tx_exec, tx_insert, redis_set, status_key, ok, no_rows, invalid_id, final_status,
}
use alya.Jobs.Rows.{rowids}
use alya.Jobs.Cache.{status_string}

module _ (env : Env) where
  abbrev new_request_id : M ℕ
  new_request_id w = (ok (env.fresh_uuid w.calls), w)

  unfoldable pub slow_query_submit : String → String → JsonStr → JsonStr → M String
  slow_query_submit app op input_context input = with_rollback do
    begin env
    batch_id ← new_request_id
    reqat ← now env
    tx_insert env
        (insert_into_batches batch_id app (env.to_lower op) input_context.value queued reqat)
    row_reqat ← now env
    tx_exec env (insert_into_batch_rows batch_id (pos 0) input.value row_reqat)
    commit env
    pure (env.uuid_string batch_id)

  -- All statements go through the pool, not through the transaction.
  unfoldable pub slow_query_abort : String → M (Unit {0})
  slow_query_abort req_id = do
    req_id_uuid ← or_throw (env.parse_uuid req_id) invalid_id
    with_rollback do
      begin env
      found ← query env (get_batch_by_id req_id_uuid)
      batch ← or_throw found no_rows
      guard (not (is_final batch.status)) final_status
      doneat ← now env
      exec env (update_batch_summary req_id_uuid aborted (some doneat) none none none none)
      pending_rows ← query env (get_pending_batch_rows req_id_uuid)
      exec env (update_batch_rows_status aborted (rowids pending_rows))
      commit env
      log_error
          (redis_set env (status_key req_id) (status_string aborted) (100 * env.cache_dur_sec))
