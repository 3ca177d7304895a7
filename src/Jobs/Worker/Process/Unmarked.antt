-- ===== src/Jobs/Worker/Process/Unmarked.antt =====
-- What a slow query that was processed leaves to its summary.
use alya.Prelude.{
  ℕ, ◌+◌, List, [], ◌∷◌, Option, some, String, true, ◌≡◌, refl, inl, inr, Option-cases, arith,
  find_if, update_if,
}
use alya.Jobs.Status.{StatusEnum}
use alya.Jobs.Types.{JobResult}
use alya.Jobs.Db.{Batch, Db}
use alya.Prelude.Int.{is_zero}
use alya.Jobs.Queries.{FetchBlockOfRowsRow, has_id, get_batch_by_id}
use alya.Jobs.Machine.{Env, World, M, Result, ◌>>=◌, pure, ok, err, machine}
use alya.Jobs.Summary.{summarize_batch}
use alya.Jobs.Summary.Skips.{Untouched, summarize_batch_skips}
use alya.Jobs.Worker.Process.{recover, update_slow_query_result, process_slow_query, process_row}

-- Where a function returns a value, the tables that it leaves satisfy `Q`.
record Ensures {ℓ} (Q : Db → Type 0) {A : Type ℓ} (m : M A) : Type ℓ where
  holds : (w : World) (a : A) → (m w).0 ≡ ok a → Q (m w).1.db

module _ {ℓ κ} (Q : Db → Type 0) {A : Type ℓ} {B : Type κ} where
  bind-Ensures :
      (f : A → M B) (r : Result A) (w : World) (b : B)
      → ((a : A) → Ensures Q (f a))
      → (elim r as (λ _. Result B × World) [ ok a ↦ f a w | err e ↦ (err e, w) ]).0 ≡ ok b
      → Q (elim r as (λ _. Result B × World) [ ok a ↦ f a w | err e ↦ (err e, w) ]).1.db
  bind-Ensures f (ok a) w b q h = (q a).holds w b h
  bind-Ensures f (err e) w b q h = absurd (ground arith)

  Ensures-bind : (m : M A) {f : A → M B} → ((a : A) → Ensures Q (f a)) → Ensures Q (m >>= f)
  unfolding machine
  Ensures-bind m {f} q = record { holds = λ w b h. bind-Ensures f (m w).0 (m w).1 b q h }

  pure-Ensures :
      (x : B) (r : Result A) (w : World) (b : B)
      → ((a : A) → r ≡ ok a → Q w.db)
      → (elim r as (λ _. Result B × World) [ ok a ↦ (ok x, w) | err e ↦ (err e, w) ]).0 ≡ ok b
      → Q (elim r as (λ _. Result B × World) [ ok a ↦ (ok x, w) | err e ↦ (err e, w) ]).1.db
  pure-Ensures x (ok a) w b q h = q a refl
  pure-Ensures x (err e) w b q h = absurd (ground arith)

  Ensures-pure : {m : M A} (x : B) → Ensures Q m → Ensures Q (m >>= λ _. pure x)
  unfolding machine
  Ensures-pure {m} x q = record { holds = λ w b h. pure-Ensures x (m w).0 (m w).1 b (q.holds w) h }

ok_unit : {r : Result (Unit {0})} (u : Unit {0}) → r ≡ ok u → r ≡ ok tt
ok_unit u h = h

done_after :
    (i t : ℕ) (files : Option String) (s : StatusEnum) (bs : List Batch) (b : Batch)
    → find_if (has_id i) (
        update_if
          (has_id i)
          (λ c. record c { outputfiles = files; status = s; doneat = some t })
          bs)
      ≡ some b
    → b.doneat ≡ some t
done_after i t files s [] b h = absurd (ground arith)
done_after i t files s (c ∷ bs) b h = ground (arith, done_after i t files s bs b)

module _ (env : Env) (row : FetchBlockOfRowsRow) where
  result_done :
      (r : JobResult) (w : World) (b : Batch)
      → (update_slow_query_result env row r w).0 ≡ ok tt
      → get_batch_by_id row.batch (update_slow_query_result env row r w).1.db ≡ some b
      → (t : ℕ) × (b.doneat ≡ some t)
  unfolding update_slow_query_result machine
  result_done (status, result, [], output_files) w b h k =
      let t = env.clock (w.calls + 1) in
      elim (Option-cases (env.marshal_files output_files)) [
        | inl e ↦ absurd (ground arith)
        | inr (f, e) ↦ (t, done_after row.batch t (some f) status w.db.batches b (ground arith))
      ]
  result_done (status, result, x ∷ xs, output_files) w b h k =
      let t = env.clock (w.calls + 1) in
      elim (Option-cases (env.marshal_files output_files)) [
        | inl e ↦ absurd (ground arith)
        | inr (f, e) ↦ (t, done_after row.batch t (some f) status w.db.batches b (ground arith))
      ]

  abbrev IsDone : Db → Type 0
  IsDone d = (b : Batch) → get_batch_by_id row.batch d ≡ some b → (t : ℕ) × (b.doneat ≡ some t)

  result-Ensures : (r : JobResult) → Ensures IsDone (update_slow_query_result env row r)
  result-Ensures r = record { holds = λ w u h b k. result_done r w b (ok_unit u h) k }

  slow_query-Ensures : Ensures IsDone (process_slow_query env row)
  unfolding process_slow_query
  slow_query-Ensures = Ensures-bind IsDone _ λ _. Ensures-bind IsDone _ λ _.
      Ensures-bind IsDone _ λ context.
        Ensures-bind IsDone _
          λ input. Ensures-bind IsDone _ λ done. Ensures-pure IsDone _ (result-Ensures done)

  -- Once a slow query has been processed with success, a summary of its batch does nothing: its
  -- record has a time of completion already, so no counters are written, and the processor's
  -- `MarkDone` is not called.
  pub slow_query_never_marked :
      (s : StatusEnum) (w : World) (b : Batch)
      → is_zero row.line ≡ true
      → (process_row env row w).0 ≡ ok s
      → let w' : World = record (process_row env row w).1 { pending = λ d. d } in
        get_batch_by_id row.batch w'.db ≡ some b → Untouched w' (summarize_batch env row.batch w').1
  unfolding process_row recover
  slow_query_never_marked s w b z h k =
      let w' : World = record (process_row env row w).1 { pending = λ d. d } in
      let run : (process_slow_query env row w).0 ≡ ok s = ground arith in
      let found : get_batch_by_id row.batch (process_slow_query env row w).1.db ≡ some b =
        ground arith in
      summarize_batch_skips env row.batch b w' k (inl (slow_query-Ensures.holds w s run b found))
