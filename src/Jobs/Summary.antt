-- ===== src/Jobs/Summary.antt =====
-- The summary of a batch whose rows are all done (jobs/batchsummary.go).
mod OutputFiles
mod Counters
pub mod Skips
mod Tests
pub mod Scope
mod Still
use alya.Prelude.{
  ℕ, ◌+◌, ◌*◌, List, [], ◌∷◌, Option, some, none, String, Bool, true, false, not, ◌==◌, ltb,
  if◌then◌else◌, count_if, any_if, str_eq, str_append,
}
use alya.Prelude.Int.{ℤ, pos, int32}
use alya.Jobs.Status.{StatusEnum, success, failed, aborted, status_eq}
use alya.Jobs.Types.{JsonStr, Files, BatchDetails, new_json_str}
use alya.Jobs.Db.{Batch, BatchRow, Db}
use alya.Jobs.Queries.{
  get_batch_by_id, count_batch_rows_queued, count_batch_rows_in_prog,
  get_batch_rows_by_batch_id_sorted, get_processed_batch_rows_by_batch_id_sorted,
  update_batch_summary,
}
use alya.Jobs.Machine.{
  Env, World, M, ◌>>=◌, ◌>>◌, pure, throw, or_throw, guard, log_error, call, tx_exec, tx_query, now,
  ok, err, db_error, no_rows, lock_not_acquired, has_pending_rows, bad_json, no_initializer,
  init_failed, panicked,
}
use alya.Jobs.Cache.{update_status_in_redis, update_batch_summary_in_redis}
unfoldable pub use OutputFiles.*

-- `calculateSummaryCounters`: successes, failures and aborts, counted in one pass.
unfoldable pub calculate_summary_counters : List BatchRow → ℕ × ℕ × ℕ
calculate_summary_counters [] = (0, 0, 0)
calculate_summary_counters (r ∷ rs) =
    let (nsuccess, nfailed, naborted) = calculate_summary_counters rs in
    elim r.status [
      | success ↦ (nsuccess + 1, nfailed, naborted)
      | failed ↦ (nsuccess, nfailed + 1, naborted)
      | aborted ↦ (nsuccess, nfailed, naborted + 1)
      | _ ↦ (nsuccess, nfailed, naborted)
    ]

unfoldable pub determine_batch_status : ℕ → ℕ → ℕ → StatusEnum
determine_batch_status nsuccess nfailed naborted =
    if ltb 0 naborted then aborted else if ltb 0 nfailed then failed else success

module _ (env : Env) where
  unfoldable pub try_advisory_lock_batch : M Bool
  try_advisory_lock_batch = call env db_error >> λ w. (ok (env.lock_granted w.calls), w)

  -- `updateBatchSummary`
  unfoldable pub write_batch_summary : ℕ → StatusEnum → Files → ℕ → ℕ → ℕ → M (Unit {0})
  write_batch_summary batch_id status output_files nsuccess nfailed naborted = do
    output_files_json ← or_throw (env.marshal_files output_files) bad_json
    doneat ← now env
    tx_exec env (
        update_batch_summary batch_id status (some doneat) (some output_files_json)
          (some (int32 (pos nsuccess))) (some (int32 (pos nfailed))) (some (int32 (pos naborted))))

  -- The init block that `MarkDone` is given: made by the initializer where there is none.
  unfoldable pub init_block_for : String → M (Unit {0})
  init_block_for app w =
      if any_if (str_eq app) w.blocks
      then (ok tt, w)
      else if env.has_initializer app
      then if env.init_ok w.calls
        then (ok tt, record w { blocks = app ∷ w.blocks; calls = w.calls + 1 })
        else (err init_failed, record w { calls = w.calls + 1 })
      else (err no_initializer, w)

  -- A processor's `MarkDone`: an error that it returns is logged, a panic unwinds.
  unfoldable pub mark_done : BatchDetails → M (Unit {0})
  mark_done details w = (
    if env.mark_done_panics w.calls then err panicked else ok tt,
    record w { marked = details ∷ w.marked; calls = w.calls + 1 },
  )

  unfoldable pub call_mark_done : Batch → BatchDetails → M (Unit {0})
  call_mark_done batch details =
      if env.has_batch_processor (str_append batch.app batch.op)
      then mark_done details
      else if env.has_slow_query_processor (str_append batch.app batch.op)
      then mark_done details
      else pure tt

  -- What follows the update of the record: the cache and the callback.
  unfoldable pub announce : ℕ → Batch → StatusEnum → Files → ℕ → ℕ → ℕ → M (Unit {0})
  announce batch_id batch status files nsuccess nfailed naborted = do
    log_error (update_status_in_redis env batch_id status (100 * env.cache_dur_sec))
    log_error (
        update_batch_summary_in_redis env batch_id status files (pos nsuccess) (pos nfailed)
          (pos naborted) (100 * env.cache_dur_sec))
    context ← or_throw (new_json_str env.is_json batch.context) bad_json
    check_output_files env batch.outputfiles
    init_block_for batch.app
    call_mark_done batch (record {
      id = env.uuid_string batch_id;
      app = batch.app;
      op = batch.op;
      context = context;
      status = status;
      output_files = files;
      nsuccess = pos nsuccess;
      nfailed = pos nfailed;
      naborted = pos naborted;
    })

  -- What follows the checks: no row of the batch is queued or in progress.
  unfoldable pub summarize_rows : ℕ → Batch → M (Unit {0})
  summarize_rows batch_id batch = do
    batch_rows ← tx_query env (get_batch_rows_by_batch_id_sorted batch_id)
    let (nsuccess, nfailed, naborted) = calculate_summary_counters batch_rows
    let status = determine_batch_status nsuccess nfailed naborted
    processed ← tx_query env (get_processed_batch_rows_by_batch_id_sorted batch_id)
    tmp_files ← create_temporary_files env processed []
    written ← append_blob_rows_to_files env processed tmp_files
    files ← move_files_to_object_store env written
    write_batch_summary batch_id status files nsuccess nfailed naborted
    announce batch_id batch status files nsuccess nfailed naborted

  unfoldable pub summarize_pending : ℕ → Batch → M (Unit {0})
  summarize_pending batch_id batch = do
    inprog_count ← tx_query env (count_batch_rows_in_prog batch_id)
    guard (not (ltb 0 inprog_count)) has_pending_rows
    summarize_rows batch_id batch

  unfoldable pub summarize_unfinished : ℕ → Batch → M (Unit {0})
  summarize_unfinished batch_id batch = do
    queued_count ← tx_query env (count_batch_rows_queued batch_id)
    if ltb 0 queued_count then pure tt else summarize_pending batch_id batch

  unfoldable pub summarize_batch : ℕ → M (Unit {0})
  summarize_batch batch_id = do
    locked ← try_advisory_lock_batch
    guard locked lock_not_acquired
    found ← tx_query env (get_batch_by_id batch_id)
    batch ← or_throw found no_rows
    elim batch.doneat [ some t ↦ pure tt | none ↦ summarize_unfinished batch_id batch ]
