-- ===== src/Jobs/Summary/Still.antt =====
-- The parts of a summary (jobs/batchsummary.go) that leave the tables and the transaction alone: the
-- output files, the cache and the callback.
use alya.Prelude.{ℕ, List, [], ◌∷◌, Option, some, none, String, arith, refl}
use alya.Jobs.Types.{Files, Blob, BatchDetails}
use alya.Jobs.Db.{Batch, BatchRow}
use alya.Jobs.Status.{StatusEnum}
use alya.Jobs.Machine.{
  Env, Inert, Inert-bind, inert_rules, pure-Inert, call-Inert, or_throw-Inert, if-Inert,
}
use alya.Jobs.Summary.{
  create_files, create_for_row, create_temporary_files, append_files, append_for_row,
  append_blob_rows_to_files, move_to_object_store, move_files_to_object_store, check_output_files,
  try_advisory_lock_batch, init_block_for, mark_done, call_mark_done, announce,
}

module _ (env : Env) where
  pub create_files-Inert : (l : List (String × Blob)) (tmp : Files) → Inert (create_files env l tmp)
  unfolding create_files
  create_files-Inert [] tmp = pure-Inert tmp
  create_files-Inert ((name, content) ∷ rest) tmp =
      Inert-bind (if-Inert _ (call-Inert env _) (pure-Inert tt)) λ _. create_files-Inert rest _

  pub create_for_row-Inert : (o : Option String) (tmp : Files) → Inert (create_for_row env o tmp)
  unfolding create_for_row
  create_for_row-Inert none tmp = pure-Inert tmp
  create_for_row-Inert (some s) tmp =
      Inert-bind (or_throw-Inert _ _) λ blobs. create_files-Inert blobs tmp

  pub create_temporary_files-Inert :
      (rs : List BatchRow) (tmp : Files) → Inert (create_temporary_files env rs tmp)
  unfolding create_temporary_files
  create_temporary_files-Inert [] tmp = pure-Inert tmp
  create_temporary_files-Inert (r ∷ rs) tmp =
      Inert-bind (create_for_row-Inert _ tmp) λ tmp'. create_temporary_files-Inert rs tmp'

  pub append_files-Inert :
      (l : List (String × String)) (tmp : Files) → Inert (append_files env l tmp)
  unfolding append_files
  append_files-Inert [] tmp = pure-Inert tmp
  append_files-Inert ((name, content) ∷ rest) tmp =
      Inert-bind (if-Inert _ (Inert-bind (call-Inert env _) λ _. call-Inert env _) (pure-Inert tt))
        λ _. append_files-Inert rest _

  pub append_for_row-Inert : (o : Option String) (tmp : Files) → Inert (append_for_row env o tmp)
  unfolding append_for_row
  append_for_row-Inert none tmp = pure-Inert tmp
  append_for_row-Inert (some s) tmp =
      Inert-bind (or_throw-Inert _ _)
        λ blobs. Inert-bind (or_throw-Inert _ _) λ strings. append_files-Inert strings tmp

  pub append_blob_rows_to_files-Inert :
      (rs : List BatchRow) (tmp : Files) → Inert (append_blob_rows_to_files env rs tmp)
  unfolding append_blob_rows_to_files
  append_blob_rows_to_files-Inert [] tmp = pure-Inert tmp
  append_blob_rows_to_files-Inert (r ∷ rs) tmp =
      Inert-bind (append_for_row-Inert _ tmp) λ tmp'. append_blob_rows_to_files-Inert rs tmp'

  pub move_to_object_store-Inert : (content : String) → Inert (move_to_object_store env content)
  unfolding move_to_object_store
  move_to_object_store-Inert content = Inert-bind (call-Inert env _) λ _.
      Inert-bind (call-Inert env _)
        λ _. Inert-bind (call-Inert env _) λ _. record { same = λ w. (refl, refl, refl) }

  pub move_files_to_object_store-Inert : (fs : Files) → Inert (move_files_to_object_store env fs)
  unfolding move_files_to_object_store
  move_files_to_object_store-Inert [] = pure-Inert []
  move_files_to_object_store-Inert ((name, content) ∷ rest) =
      Inert-bind (move_to_object_store-Inert content)
        λ _. Inert-bind (move_files_to_object_store-Inert rest) λ _. pure-Inert _

  pub check_output_files-Inert : (o : Option String) → Inert (check_output_files env o)
  unfolding check_output_files
  check_output_files-Inert none = pure-Inert tt
  check_output_files-Inert (some s) = Inert-bind (or_throw-Inert _ _) λ _. pure-Inert tt

  pub try_advisory_lock_batch-Inert : Inert (try_advisory_lock_batch env)
  unfolding try_advisory_lock_batch
  try_advisory_lock_batch-Inert =
      Inert-bind (call-Inert env _) λ _. record { same = λ w. (refl, refl, refl) }

  pub init_block_for-Inert : (app : String) → Inert (init_block_for env app)
  unfolding init_block_for
  init_block_for-Inert app = record { same = λ w. ground arith }

  pub mark_done-Inert : (details : BatchDetails) → Inert (mark_done env details)
  unfolding mark_done
  mark_done-Inert details = record { same = λ w. (refl, refl, refl) }

  pub call_mark_done-Inert :
      (batch : Batch) (details : BatchDetails) → Inert (call_mark_done env batch details)
  unfolding call_mark_done
  call_mark_done-Inert batch details = search (inert_rules, mark_done-Inert) depth 40

  pub announce-Inert :
      (i : ℕ) (batch : Batch) (s : StatusEnum) (fs : Files) (a b c : ℕ)
      → Inert (announce env i batch s fs a b c)
  unfolding announce
  announce-Inert i batch s fs a b c =
      search (inert_rules, check_output_files-Inert, init_block_for-Inert, call_mark_done-Inert)
        depth 40
