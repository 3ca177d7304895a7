-- ===== src/Jobs/Batch/Submit.antt =====
-- What a successful `batch_submit` does to the tables.
use alya.Prelude.{
  ℕ, suc, ◌+◌, List, [], ◌∷◌, ◌++◌, Bool, false, none, String, ◌≡◌, refl, arith, if◌then◌else◌, map,
  length, any_if, All, length-map, Bool-cases, inl, inr, ap, ◌∙◌,
}
use alya.Prelude.Int.{ℤ}
use alya.Jobs.Status.{wait, queued}
use alya.Jobs.Types.{JsonStr, BatchInput}
use alya.Jobs.Db.{Batch}
use alya.Jobs.Queries.{has_id, numbered_rows, bulk_insert_into_batch_rows}
use alya.Jobs.Machine.{Env, World, ok, machine}
use alya.Jobs.Batch.{batch_submit, row_param}

-- The record that a submission writes.
abbrev pub submitted : ℕ → String → String → String → Bool → ℕ → Batch
submitted id app op context waitabit reqat = record {
  id = id;
  app = app;
  op = op;
  context = context;
  status = if waitabit then wait else queued;
  reqat = reqat;
  doneat = none;
  outputfiles = none;
  nsuccess = none;
  nfailed = none;
  naborted = none;
}

-- Each new row is a queued row of the batch.
numbered_queued :
    (n batch : ℕ) (xs : List (ℤ × String × ℕ))
    → All (λ r. (r.batch ≡ batch) × (r.status ≡ queued)) (numbered_rows n batch xs)
unfolding numbered_rows
numbered_queued n batch [] = tt
numbered_queued n batch ((line, input, reqat) ∷ xs) =
    ((refl, refl), numbered_queued (n + 1) batch xs)

length-numbered_rows :
    (n batch : ℕ) (xs : List (ℤ × String × ℕ)) → length (numbered_rows n batch xs) ≡ length xs
unfolding numbered_rows
length-numbered_rows n batch [] = refl
length-numbered_rows n batch ((line, input, reqat) ∷ xs) =
    ap suc (length-numbered_rows (n + 1) batch xs)

module _ (env : Env) where
  -- A successful submission returns the text of the new UUID, adds one record for the batch, held
  -- back only if asked, and one queued row for each line of the input, in order; what was there
  -- stays as it was.
  pub batch_submit_ok :
      (app op : String) (ctx : JsonStr) (input : List BatchInput) (waitabit : Bool) (w : World)
      (s : String)
      → (batch_submit env app op ctx input waitabit w).0 ≡ ok s
      → let d = (batch_submit env app op ctx input waitabit w).1.db in
        let id = env.fresh_uuid w.calls in
        let rows =
          numbered_rows w.db.next_rowid id (map (row_param (env.clock (w.calls + 2))) input) in
        (s ≡ env.uuid_string id)
        × (any_if (has_id id) w.db.batches ≡ false)
        × (d.batches
            ≡ w.db.batches
              ++ submitted id app (env.to_lower op) ctx.value waitabit (env.clock (w.calls + 1))
                ∷ [])
        × (d.batchrows ≡ w.db.batchrows ++ rows)
        × All (λ r. (r.batch ≡ id) × (r.status ≡ queued)) rows
        × (length rows ≡ length input)
  unfolding batch_submit machine bulk_insert_into_batch_rows
  batch_submit_ok app op ctx input waitabit w s h =
      let id = env.fresh_uuid w.calls in
      let params = map (row_param (env.clock (w.calls + 2))) input in
      elim (Bool-cases (any_if (has_id id) w.db.batches)) [
        | inl e ↦ absurd (ground arith)
        | inr e ↦ (
          ground arith,
          e,
          ground arith,
          ground arith,
          numbered_queued w.db.next_rowid id params,
          length-numbered_rows w.db.next_rowid id params ∙ length-map _ input,
        )
      ]
