-- ===== src/Jobs/Batch/Abort.antt =====
-- What a successful `batch_abort` does to the tables.
use alya.Prelude.{
  ℕ, ◌+◌, List, [], ◌∷◌, false, some, none, String, ◌≡◌, refl, arith, count_if, select, update_if,
  All,
}
use alya.Prelude.Int.{ℤ, pos, int32}
use alya.Jobs.Status.{StatusEnum, aborted, success, failed, wait, status_eq, is_final}
use alya.Jobs.Db.{Batch, BatchRow, Db}
use alya.Jobs.Queries.{
  get_batch_by_id, get_pending_batch_rows, get_batch_rows_by_batch_id, update_batch_rows_status,
  update_batch_summary, is_pending_in, in_batch, has_id,
}
use alya.Jobs.Machine.{Env, World, ok, machine}
use alya.Jobs.Tables.{IsValid}
use alya.Jobs.Rows.{rowids, has_status, update_if-rowids}
use alya.Jobs.Batch.{batch_abort, abort_pending}

-- The tables with the batch's pending rows aborted.
abbrev aborted_rows : ℕ → Db → Db
aborted_rows i d = update_batch_rows_status aborted (rowids (get_pending_batch_rows i d)) d

-- How many rows of the batch have a status.
abbrev pub rows_with : StatusEnum → ℕ → Db → ℕ
rows_with s i d = count_if (has_status s) (get_batch_rows_by_batch_id i d)

abbrev abort_tables : ℕ → ℕ → Db → Db
abort_tables i t d =
    update_batch_summary i aborted (some t) none
      (some (int32 (pos (rows_with success i (aborted_rows i d)))))
      (some (int32 (pos (rows_with failed i (aborted_rows i d)))))
      (some (int32 (pos (rows_with aborted i (aborted_rows i d))))) (aborted_rows i d)

abbrev pub abort_counts : ℕ → Db → StatusEnum × ℤ × ℤ × ℤ
abort_counts i d =
    (aborted, pos (rows_with success i d), pos (rows_with failed i d), pos (rows_with aborted i d))

module _ (env : Env) where
  abort_pending_ok :
      (i : ℕ) (w : World) (r : StatusEnum × ℤ × ℤ × ℤ)
      → (abort_pending env i w).0 ≡ ok r
      → (r ≡ abort_counts i (aborted_rows i (w.pending w.db)))
        × ((abort_pending env i w).1.db
            ≡ abort_tables i (env.clock (w.calls + 1 + 1 + 1)) (w.pending w.db))
  unfolding abort_pending machine
  abort_pending_ok i w r h = (ground arith, ground arith)

  -- A successful call on a batch that is not final aborts its pending rows and writes the counters.
  batch_abort_ok :
      (batch_id : String) (i : ℕ) (b : Batch) (w : World) (r : StatusEnum × ℤ × ℤ × ℤ)
      → env.parse_uuid batch_id ≡ some i
      → get_batch_by_id i w.db ≡ some b
      → is_final b.status ≡ false
      → (batch_abort env batch_id w).0 ≡ ok r
      → (r ≡ abort_counts i (aborted_rows i w.db))
        × ((batch_abort env batch_id w).1.db
            ≡ abort_tables i (env.clock (w.calls + 1 + 1 + 1 + 1 + 1)) w.db)
  unfolding batch_abort machine
  batch_abort_ok batch_id i b w r hp hb hf h =
      let entry : World = record w {
        pending = λ d. d;
        open_txs = w.open_txs + 1;
        calls = w.calls + 1 + 1;
      } in
      (ground (arith, abort_pending_ok i entry r), ground (arith, abort_pending_ok i entry r))

  -- The rows of the batch that were queued or in progress are aborted, and no other row changes;
  -- the batch is marked aborted with the time and the counts of its rows, which the call returns.
  pub batch_abort_settles :
      (batch_id : String) (i : ℕ) (b : Batch) (w : World) (r : StatusEnum × ℤ × ℤ × ℤ)
      → IsValid w.db
      → env.parse_uuid batch_id ≡ some i
      → get_batch_by_id i w.db ≡ some b
      → is_final b.status ≡ false
      → (batch_abort env batch_id w).0 ≡ ok r
      → let d = (batch_abort env batch_id w).1.db in
        (d.batchrows
          ≡ update_if (is_pending_in i) (λ r. record r { status = aborted }) w.db.batchrows)
        × (d.batches
            ≡ update_if
                (has_id i)
                (λ b. record b {
                  status = aborted;
                  doneat = some (env.clock (w.calls + 5));
                  outputfiles = none;
                  nsuccess = some (int32 (r.1));
                  nfailed = some (int32 (r.2));
                  naborted = some (int32 (r.3));
                })
                w.db.batches)
        × (r ≡ abort_counts i d)
  batch_abort_settles batch_id i b w r v hp hb hf h =
      let run = batch_abort_ok batch_id i b w r hp hb hf h in
      let rows =
        update_if-rowids (is_pending_in i) (λ r. record r { status = aborted }) w.db.batchrows
          v.unique_rowids in
      (ground (arith, run, rows), ground (arith, run, rows), ground (arith, run, rows))

-- Of a batch whose rows are not held back, an abort leaves no row pending, and the three counts
-- add up to all its rows.
pub aborted_counts_total :
    (i : ℕ) (rs : List BatchRow)
    → All (λ r. status_eq r.status wait ≡ false) rs
    → let after = update_if (is_pending_in i) (λ r. record r { status = aborted }) rs in
      (count_if (is_pending_in i) after ≡ 0)
      × (count_if (has_status success) (select (in_batch i) after)
            + count_if (has_status failed) (select (in_batch i) after)
            + count_if (has_status aborted) (select (in_batch i) after)
          ≡ count_if (in_batch i) rs)
aborted_counts_total i [] h = (refl, omega arith)
aborted_counts_total i (r ∷ rs) h =
    let ih = aborted_counts_total i rs h.1 in (ground (arith, ih, h.0), ground (arith, ih, h.0))
