-- ===== src/Jobs/Batch.antt =====
-- The calls that submit, extend, release and abort a batch (jobs/batch.go).
pub mod Abort
mod Append
pub mod Atomicity
pub mod Submit
mod WaitOff
pub mod Invariant
mod Tests
use alya.Prelude.{
  ℕ, ◌≡◌, refl, arith, ◌*◌, List, [], ◌∷◌, Option, some, none, String, Bool, true, false, not, map,
  if◌then◌else◌, length, count_if,
}
use alya.Prelude.Int.{ℤ, pos, int32, nonpositive}
use alya.Jobs.Status.{StatusEnum, queued, wait, aborted, success, failed, status_eq, is_final}
use alya.Jobs.Types.{JsonStr, BatchInput}
use alya.Jobs.Db.{Batch, BatchRow, Db}
use alya.Jobs.Queries.{
  insert_into_batches, bulk_insert_into_batch_rows, get_batch_by_id, insert_into_batch_rows,
  update_batch_status, get_batch_rows_by_batch_id, get_batch_rows_count, get_pending_batch_rows,
  update_batch_rows_status, update_batch_summary,
}
use alya.Jobs.Machine.{
  Env, M, ◌>>=◌, ◌>>◌, pure, or_throw, guard, with_rollback, log_error, nil_on_error, begin, commit,
  now, exec, query, tx_exec, tx_insert, tx_query, ok, no_rows, invalid_id, not_wait, invalid_line,
  no_pending_rows,
}
use alya.Jobs.Rows.{rowids, has_status}
use alya.Jobs.Cache.{update_status_in_redis}

-- The column's value, 0 where it is NULL.
abbrev pub int4 : Option ℤ → ℤ
int4 none = pos 0
int4 (some n) = n

abbrev pub is_nil {ℓ} : {A : Type ℓ} → List A → Bool
is_nil [] = true
is_nil (x ∷ xs) = false

pub is_nil-nil : {A : Type 0} (xs : List A) → is_nil xs ≡ true → xs ≡ []
is_nil-nil [] h = refl
is_nil-nil (x ∷ xs) h = absurd (ground arith)

-- The parallel arrays of `BulkInsertIntoBatchRowsParams`, entry by entry.
abbrev pub row_param : ℕ → BatchInput → ℤ × String × ℕ
row_param reqat i = (int32 i.line, i.input.value, reqat)

-- The update of `BatchAppend` and `WaitOff`: the columns that it does not name become NULL.
abbrev pub release : ℕ → Db → Db
release batch_uuid = update_batch_status batch_uuid queued none none none none none

module _ (env : Env) where
  abbrev new_uuid : M ℕ
  new_uuid w = (ok (env.fresh_uuid w.calls), w)

  unfoldable pub batch_submit : String → String → JsonStr → List BatchInput → Bool → M String
  batch_submit app op batchctx batch_input waitabit = with_rollback do
    batch_uuid ← new_uuid
    begin env
    reqat ← now env
    tx_insert env (
        insert_into_batches batch_uuid app (env.to_lower op) batchctx.value
          (if waitabit then wait else queued) reqat)
    row_reqat ← now env
    tx_exec env (bulk_insert_into_batch_rows batch_uuid (map (row_param row_reqat) batch_input))
    commit env
    pure (env.uuid_string batch_uuid)

  -- The loop of `BatchAppend`, which leaves at the first bad line or failed insert.
  pub append_rows : ℕ → List BatchInput → M (Unit {0})
  append_rows batch_uuid [] = pure tt
  append_rows batch_uuid (i ∷ rest) = do
    guard (not (nonpositive i.line)) invalid_line
    reqat ← now env
    tx_exec env (insert_into_batch_rows batch_uuid (int32 i.line) i.input.value reqat)
    append_rows batch_uuid rest

  abbrev release_unless : Bool → ℕ → M (Unit {0})
  release_unless waitabit batch_uuid =
      if waitabit then pure tt else tx_exec env (release batch_uuid)

  -- The transaction of `BatchAppend`.
  unfoldable pub append_in_tx : ℕ → List BatchInput → Bool → M (Unit {0})
  append_in_tx batch_uuid batchinput waitabit = with_rollback do
    begin env
    append_rows batch_uuid batchinput
    release_unless waitabit batch_uuid
    commit env

  unfoldable pub batch_append : String → List BatchInput → Bool → M ℕ
  batch_append batch_id batchinput waitabit = do
    batch_uuid ← or_throw (env.parse_uuid batch_id) invalid_id
    found ← query env (get_batch_by_id batch_uuid)
    batch ← or_throw found no_rows
    guard (status_eq batch.status wait) not_wait
    append_in_tx batch_uuid batchinput waitabit
    rows ← query env (get_batch_rows_by_batch_id batch_uuid)
    pure (length rows)

  -- The part of `WaitOff` that follows the test for `queued`.
  unfoldable pub release_waiting : String → ℕ → Batch → M (String × ℕ)
  release_waiting batch_id batch_uuid batch = do
    guard (status_eq batch.status wait) not_wait
    exec env (release batch_uuid)
    nrows ← query env (get_batch_rows_count batch_uuid)
    commit env
    pure (batch_id, nrows)

  -- The reads and the update go through the pool, not through the transaction.
  unfoldable pub wait_off : String → M (String × ℕ)
  wait_off batch_id = do
    batch_uuid ← or_throw (env.parse_uuid batch_id) invalid_id
    with_rollback do
      begin env
      found ← query env (get_batch_by_id batch_uuid)
      batch ← or_throw found no_rows
      if status_eq batch.status queued
          then (query env (get_batch_rows_count batch_uuid) >>= λ nrows. pure (batch_id, nrows))
          else release_waiting batch_id batch_uuid batch

  -- The part of `BatchAbort` that follows the check of the status.
  unfoldable pub abort_pending : ℕ → M (StatusEnum × ℤ × ℤ × ℤ)
  abort_pending batch_uuid = do
    pending_rows ← nil_on_error (tx_query env (get_pending_batch_rows batch_uuid))
    guard (not (is_nil pending_rows)) no_pending_rows
    tx_exec env (update_batch_rows_status aborted (rowids pending_rows))
    updated ← tx_query env (get_batch_rows_by_batch_id batch_uuid)
    doneat ← now env
    let success_count = count_if (has_status success) updated
    let failed_count = count_if (has_status failed) updated
    let aborted_count = count_if (has_status aborted) updated
    tx_exec env (
        update_batch_summary batch_uuid aborted (some doneat) none
          (some (int32 (pos success_count))) (some (int32 (pos failed_count)))
          (some (int32 (pos aborted_count))))
    commit env
    log_error (update_status_in_redis env batch_uuid aborted (100 * env.cache_dur_sec))
    pure (aborted, pos success_count, pos failed_count, pos aborted_count)

  unfoldable pub batch_abort : String → M (StatusEnum × ℤ × ℤ × ℤ)
  batch_abort batch_id = do
    batch_uuid ← or_throw (env.parse_uuid batch_id) invalid_id
    with_rollback do
      begin env
      found ← tx_query env (get_batch_by_id batch_uuid)
      batch ← or_throw found no_rows
      if is_final batch.status
          then pure (batch.status, int4 batch.nsuccess, int4 batch.nfailed, int4 batch.naborted)
          else abort_pending batch_uuid
