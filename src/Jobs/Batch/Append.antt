-- ===== src/Jobs/Batch/Append.antt =====
-- What a successful `batch_append` does to the tables.
use alya.Prelude.{
  ℕ, suc, ◌+◌, List, [], ◌∷◌, ◌++◌, Bool, false, some, String, ◌≡◌, refl, arith, if◌then◌else◌,
  length, All, Option-cases, inl, inr, ap, sym, ◌∙◌,
}
use mathlib.Core.List.{append_assoc, append-nil}
use alya.Prelude.Int.{int32, nonpositive}
use alya.Jobs.Status.{wait, queued}
use alya.Jobs.Types.{BatchInput}
use alya.Jobs.Db.{Batch, BatchRow, Db}
use alya.Jobs.Queries.{insert_into_batch_rows, new_row, get_batch_by_id, get_batch_rows_by_batch_id}
use alya.Jobs.Machine.{Env, World, ok, machine}
use alya.Jobs.Batch.{append_rows, append_in_tx, batch_append, release}

module _ (env : Env) where
  -- The rows that the loop writes, from the row number `n` on; `c` counts the calls made.
  unfoldable pub appended : ℕ → ℕ → ℕ → List BatchInput → List BatchRow
  appended c n i [] = []
  appended c n i (x ∷ xs) =
      new_row n i (int32 x.line) x.input.value (env.clock c) ∷ appended (c + 1) (n + 1) i xs

  -- The loop's effect on the tables.
  abbrev append_all : ℕ → ℕ → List BatchInput → Db → Db
  append_all c i [] d = d
  append_all c i (x ∷ xs) d =
      append_all (c + 1) i xs
        (insert_into_batch_rows i (int32 x.line) x.input.value (env.clock c) d)

  append_all_rows :
      (c i : ℕ) (xs : List BatchInput) (d : Db)
      → ((append_all c i xs d).batchrows ≡ d.batchrows ++ appended c d.next_rowid i xs)
        × ((append_all c i xs d).batches ≡ d.batches)
  unfolding appended
  append_all_rows c i [] d = (sym (append-nil d.batchrows), refl)
  append_all_rows c i (x ∷ xs) d =
      let next = insert_into_batch_rows i (int32 x.line) x.input.value (env.clock c) d in
      let rest = append_all_rows (c + 1) i xs next in
      (rest.0 ∙ append_assoc d.batchrows _ _, rest.1)

  appended_queued :
      (c n i : ℕ) (xs : List BatchInput)
      → All (λ r. (r.batch ≡ i) × (r.status ≡ queued)) (appended c n i xs)
  unfolding appended
  appended_queued c n i [] = tt
  appended_queued c n i (x ∷ xs) = ((refl, refl), appended_queued (c + 1) (n + 1) i xs)

  length-appended : (c n i : ℕ) (xs : List BatchInput) → length (appended c n i xs) ≡ length xs
  unfolding appended
  length-appended c n i [] = refl
  length-appended c n i (x ∷ xs) = ap suc (length-appended (c + 1) (n + 1) i xs)

  append_rows_ok :
      (i : ℕ) (xs : List BatchInput) (w : World) (d : Db)
      → (append_rows env i xs w).0 ≡ ok tt
      → ((append_rows env i xs w).1.pending d ≡ append_all w.calls i xs (w.pending d))
        × ((append_rows env i xs w).1.db ≡ w.db)
        × All (λ x. nonpositive x.line ≡ false) xs
  unfolding append_rows machine
  append_rows_ok i [] w d h = (refl, refl, tt)
  append_rows_ok i (x ∷ xs) w d h =
      let next : World = record w {
        pending = λ e.
            insert_into_batch_rows i (int32 x.line) x.input.value (env.clock w.calls) (w.pending e);
        calls = w.calls + 1;
      } in
      let run : (append_rows env i xs next).0 ≡ ok tt = ground arith in
      let rest = append_rows_ok i xs next d run in
      (ground (arith, rest.0), ground (arith, rest.1), (ground arith, rest.2))

  append_in_tx_ok :
      (i : ℕ) (xs : List BatchInput) (waitabit : Bool) (w : World)
      → (append_in_tx env i xs waitabit w).0 ≡ ok tt
      → let all = append_all (w.calls + 1) i xs w.db in
        ((append_in_tx env i xs waitabit w).1.db ≡ (if waitabit then all else release i all))
        × All (λ x. nonpositive x.line ≡ false) xs
  unfolding append_in_tx machine
  append_in_tx_ok i xs waitabit w h =
      let start : World = record w {
        pending = λ d. d;
        open_txs = w.open_txs + 1;
        calls = w.calls + 1;
      } in
      let run : (append_rows env i xs start).0 ≡ ok tt = ground arith in
      let rows = append_rows_ok i xs start w.db run in (ground (arith, rows.0, rows.1), rows.2)

  -- A successful append was made to a batch in `wait`, with positive line numbers only. It adds one
  -- queued row of that batch for each line of the input, in order, and returns the number of rows
  -- that the batch then has; it releases the batch to `queued` unless asked to wait, and changes
  -- nothing else.
  pub batch_append_ok :
      (batch_id : String) (xs : List BatchInput) (waitabit : Bool) (i : ℕ) (w : World) (n : ℕ)
      → env.parse_uuid batch_id ≡ some i
      → (batch_append env batch_id xs waitabit w).0 ≡ ok n
      → let d = (batch_append env batch_id xs waitabit w).1.db in
        let new = appended (w.calls + 2) w.db.next_rowid i xs in
        ((b : Batch) × (get_batch_by_id i w.db ≡ some b) × (b.status ≡ wait))
        × All (λ x. nonpositive x.line ≡ false) xs
        × (d.batchrows ≡ w.db.batchrows ++ new)
        × All (λ r. (r.batch ≡ i) × (r.status ≡ queued)) new
        × (length new ≡ length xs)
        × (d.batches ≡ (if waitabit then w.db.batches else (release i w.db).batches))
        × (n ≡ length (get_batch_rows_by_batch_id i d))
  unfolding batch_append machine
  batch_append_ok batch_id xs waitabit i w n hp h =
      let entry : World = record w { calls = w.calls + 1 } in
      let all = append_all_rows (w.calls + 2) i xs w.db in
      let run : (append_in_tx env i xs waitabit entry).0 ≡ ok tt = ground arith in
      let done = append_in_tx_ok i xs waitabit entry run in
      let waiting : (b : Batch) × (get_batch_by_id i w.db ≡ some b) × (b.status ≡ wait) =
        elim (Option-cases (get_batch_by_id i w.db)) [
          | inl e ↦ absurd (ground arith)
          | inr (b, e) ↦ (b, e, ground arith)
        ] in
      (
        waiting,
        done.1,
        ground (arith, done.0, all.0),
        appended_queued (w.calls + 2) w.db.next_rowid i xs,
        length-appended (w.calls + 2) w.db.next_rowid i xs,
        ground (arith, done.0, all.1),
        ground arith,
      )
