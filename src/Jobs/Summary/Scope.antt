-- ===== src/Jobs/Summary/Scope.antt =====
-- A summary (jobs/batchsummary.go) and the caller's transaction, under which it writes.
use alya.Prelude.{ℕ, some, none}
use alya.Jobs.Types.{Files}
use alya.Jobs.Db.{Db, Batch}
use alya.Jobs.Status.{StatusEnum}
use alya.Jobs.Tables.Closed.{Closed}
use alya.Jobs.Machine.{
  Env, Stays, Stays-bind, Stays-of_Inert, stays_rules, pure-Stays, or_throw-Stays, guard-Stays,
  tx_query-Stays, Preserves, Preserves-bind, Preserves-of_Inert, preserves_rules, pure-Preserves,
  or_throw-Preserves, guard-Preserves, tx_query-Preserves, pure,
}
use alya.Jobs.Summary.{
  write_batch_summary, summarize_rows, summarize_pending, summarize_unfinished, summarize_batch,
}
use alya.Jobs.Summary.Still.{
  create_temporary_files-Inert, append_blob_rows_to_files-Inert, move_files_to_object_store-Inert,
  try_advisory_lock_batch-Inert, announce-Inert,
}

module _ (env : Env) where
  write_batch_summary-Stays :
      (i : ℕ) (s : StatusEnum) (fs : Files) (a b c : ℕ)
      → Stays (write_batch_summary env i s fs a b c)
  unfolding write_batch_summary
  write_batch_summary-Stays i s fs a b c = search (stays_rules, env) depth 40

  summarize_rows-Stays : (i : ℕ) (batch : Batch) → Stays (summarize_rows env i batch)
  unfolding summarize_rows
  summarize_rows-Stays i batch =
      search
        (
          stays_rules, Stays-of_Inert, create_temporary_files-Inert,
          append_blob_rows_to_files-Inert, move_files_to_object_store-Inert,
          write_batch_summary-Stays, announce-Inert,
        )
        depth 40

  summarize_unfinished-Stays : (i : ℕ) (batch : Batch) → Stays (summarize_unfinished env i batch)
  unfolding summarize_unfinished summarize_pending
  summarize_unfinished-Stays i batch = search (stays_rules, summarize_rows-Stays) depth 40

  -- A summary neither commits nor rolls back: the tables and the number of open transactions are
  -- the same after it, whatever fails in it.
  pub summarize_batch-Stays : (batch_id : ℕ) → Stays (summarize_batch env batch_id)
  unfolding summarize_batch
  summarize_batch-Stays i = Stays-bind (Stays-of_Inert (try_advisory_lock_batch-Inert env)) λ _.
      Stays-bind (guard-Stays _ _) λ _. Stays-bind (tx_query-Stays env _) λ _.
        Stays-bind (or_throw-Stays _ _) λ batch.
          elim batch.doneat
            as (λ o.
              Stays (elim o [ some t ↦ pure tt | none ↦ summarize_unfinished env i batch ])) [
                | none ↦ summarize_unfinished-Stays i batch
                | some t ↦ pure-Stays tt
              ]

-- What the statements keep, a summary keeps.
module _ {P : Db → Type 0} (k : Closed P) (env : Env) where
  write_batch_summary-Preserves :
      (i : ℕ) (s : StatusEnum) (fs : Files) (a b c : ℕ)
      → Preserves P (write_batch_summary env i s fs a b c)
  unfolding write_batch_summary
  write_batch_summary-Preserves i s fs a b c =
      search (preserves_rules, k.growing.update_batches-keeps, env) depth 40

  summarize_rows-Preserves : (i : ℕ) (batch : Batch) → Preserves P (summarize_rows env i batch)
  unfolding summarize_rows
  summarize_rows-Preserves i batch =
      search
        (
          preserves_rules, Preserves-of_Inert, create_temporary_files-Inert,
          append_blob_rows_to_files-Inert, move_files_to_object_store-Inert,
          write_batch_summary-Preserves, announce-Inert,
        )
        depth 40

  summarize_unfinished-Preserves :
      (i : ℕ) (batch : Batch) → Preserves P (summarize_unfinished env i batch)
  unfolding summarize_unfinished summarize_pending
  summarize_unfinished-Preserves i batch =
      search (preserves_rules, summarize_rows-Preserves) depth 40

  pub summarize_batch-Preserves : (batch_id : ℕ) → Preserves P (summarize_batch env batch_id)
  unfolding summarize_batch
  summarize_batch-Preserves i =
      Preserves-bind (Preserves-of_Inert (try_advisory_lock_batch-Inert env)) λ _.
        Preserves-bind (guard-Preserves _ _) λ _. Preserves-bind (tx_query-Preserves env _) λ _.
          Preserves-bind (or_throw-Preserves _ _) λ batch.
            elim batch.doneat
              as (λ o.
                Preserves P
                  (elim o [ some t ↦ pure tt | none ↦ summarize_unfinished env i batch ])) [
                    | none ↦ summarize_unfinished-Preserves i batch
                    | some t ↦ pure-Preserves tt
                  ]
