-- ===== src/Jobs/Worker/Process/Results.antt =====
-- What the processing of a row does to the tables.
use alya.Prelude.{
  ℕ, List, [], ◌∷◌, some, none, String, Bool, not, ◌==◌, ◌≡◌, ◌≢◌, refl, sym, ◌∙◌, arith, select,
  update_if,
}
use mathlib.Core.Path.{subst}
use alya.Jobs.Types.{JobResult, Outcome, ErrorMessage, Files}
use alya.Jobs.Db.{Batch, BatchRow, Db}
use alya.Jobs.Queries.{FetchBlockOfRowsRow, has_id}
use alya.Jobs.Machine.{
  Env, World, M, Result, ok, err, panicked, Holds, Preserves, Preserves-bind, pure-Preserves,
  or_throw-Preserves, if-Preserves, preserves_rules,
}
use alya.Jobs.Summary.{init_block_for}
use alya.Jobs.Worker.Process.{
  recover, recovered, messages_json, blob_rows_json, update_batch_job_result,
  update_slow_query_result, run_processor, process_slow_query, process_batch_job, process_row,
}

-- Every row but the one of this number, and every batch but its batch, is as it was.
abbrev pub OthersKept : FetchBlockOfRowsRow → Db → Db → Type 0
OthersKept row d0 d =
    (select (λ r. not (r.rowid == row.rowid)) d.batchrows
      ≡ select (λ r. not (r.rowid == row.rowid)) d0.batchrows)
    × (select (λ b. not (b.id == row.batch)) d.batches
        ≡ select (λ b. not (b.id == row.batch)) d0.batches)

select-update_if :
    {A : Type 0} (p : A → Bool) (f : A → A) (xs : List A)
    → ((x : A) → p (f x) ≡ p x)
    → select (λ x. not (p x)) (update_if p f xs) ≡ select (λ x. not (p x)) xs
select-update_if p f [] k = refl
select-update_if p f (x ∷ xs) k = ground (arith, select-update_if p f xs k, k x)

recover-result :
    {A : Type 0} {P : Db → Type 0} (r : Result A) (w : World)
    → Holds P w
    → Holds P
        (elim r as (λ _. Result A × World) [ ok a ↦ (ok a, w) | err e ↦ (err (recovered e), w) ]).1
recover-result (ok a) w h = h
recover-result (err e) w h = h

pub recover-Preserves :
    {A : Type 0} {P : Db → Type 0} {m : M A} → Preserves P m → Preserves P (recover m)
unfolding recover
recover-Preserves {P} {m} p = record {
  after = λ w h. recover-result {P = P} (m w).0 (m w).1 (p.after w h);
}

init_block_for-db :
    (env : Env) (app : String) (w : World)
    → ((init_block_for env app w).1.db ≡ w.db) × ((init_block_for env app w).1.pending ≡ w.pending)
unfolding init_block_for
init_block_for-db env app w = (ground arith, ground arith)

module _ {P : Db → Type 0} (env : Env) where
  pub init_block_for-Preserves : (app : String) → Preserves P (init_block_for env app)
  init_block_for-Preserves app = record {
    after = λ w h. record {
      committed = subst P (sym (init_block_for-db env app w).0) h.committed;
      uncommitted =
          λ d k. subst (λ f. P (f d)) (sym (init_block_for-db env app w).1) (h.uncommitted d k);
    };
  }

  pub run_processor-Preserves : (o : ℕ → Outcome) → Preserves P (run_processor env o)
  unfolding run_processor
  run_processor-Preserves o = record {
    after = λ w h. record { committed = h.committed; uncommitted = h.uncommitted };
  }

  pub messages_json-Preserves : (l : List ErrorMessage) → Preserves P (messages_json env l)
  messages_json-Preserves [] = pure-Preserves none
  messages_json-Preserves (x ∷ xs) =
      Preserves-bind (or_throw-Preserves _ _) λ j. pure-Preserves (some j)

  pub blob_rows_json-Preserves : (l : Files) → Preserves P (blob_rows_json env l)
  blob_rows_json-Preserves [] = pure-Preserves none
  blob_rows_json-Preserves (x ∷ xs) =
      Preserves-bind (or_throw-Preserves _ _) λ j. pure-Preserves (some j)

module _ (env : Env) (row : FetchBlockOfRowsRow) (d0 : Db) where
  write_row :
      (f : BatchRow → BatchRow) (d : Db)
      → ((r : BatchRow) → (f r).rowid ≡ r.rowid)
      → OthersKept row d0 d
      → OthersKept row d0
          (record d { batchrows = update_if (λ r. r.rowid == row.rowid) f d.batchrows })
  write_row f d k h = (
    select-update_if (λ r. r.rowid == row.rowid) f d.batchrows (λ r. ground (arith, k r)) ∙ h.0,
    h.1,
  )

  write_batch :
      (f : Batch → Batch) (d : Db)
      → ((b : Batch) → (f b).id ≡ b.id)
      → OthersKept row d0 d
      → OthersKept row d0 (record d { batches = update_if (has_id row.batch) f d.batches })
  write_batch f d k h =
      (h.0, select-update_if (has_id row.batch) f d.batches (λ b. ground (arith, k b)) ∙ h.1)

  update_batch_job_result-Preserves :
      (result : JobResult) → Preserves (OthersKept row d0) (update_batch_job_result env row result)
  unfolding update_batch_job_result
  update_batch_job_result-Preserves (status, result, messages, blob_rows) =
      search (preserves_rules, messages_json-Preserves, blob_rows_json-Preserves, write_row, env)
        depth 40

  update_slow_query_result-Preserves :
      (result : JobResult) → Preserves (OthersKept row d0) (update_slow_query_result env row result)
  unfolding update_slow_query_result
  update_slow_query_result-Preserves (status, result, messages, output_files) =
      search (preserves_rules, messages_json-Preserves, write_row, write_batch, env) depth 40

  process_batch_job-Preserves : Preserves (OthersKept row d0) (process_batch_job env row)
  unfolding process_batch_job
  process_batch_job-Preserves =
      search
        (
          preserves_rules, init_block_for-Preserves, run_processor-Preserves,
          update_batch_job_result-Preserves,
        )
        depth 40

  process_slow_query-Preserves : Preserves (OthersKept row d0) (process_slow_query env row)
  unfolding process_slow_query
  process_slow_query-Preserves =
      search
        (
          preserves_rules, init_block_for-Preserves, run_processor-Preserves,
          update_slow_query_result-Preserves,
        )
        depth 40

  -- However the processing of a row ends, every other row and every other batch is as it was.
  pub process_row-Preserves : Preserves (OthersKept row d0) (process_row env row)
  unfolding process_row
  process_row-Preserves =
      recover-Preserves (if-Preserves _ process_slow_query-Preserves process_batch_job-Preserves)

recover_ne :
    {A : Type 0} (r : Result A) (w : World)
    → (elim r as (λ _. Result A × World) [ ok a ↦ (ok a, w) | err e ↦ (err (recovered e), w) ]).0
      ≢ err panicked
recover_ne (ok a) w h = absurd (ground arith)
recover_ne (err e) w h = absurd (ground arith)

-- A panic of a processor does not leave the processing of its row: it is an error like another.
pub process_row_recovers :
    (env : Env) (row : FetchBlockOfRowsRow) (w : World) → (process_row env row w).0 ≢ err panicked
unfolding process_row recover
process_row_recovers env row w h = recover_ne _ _ h
