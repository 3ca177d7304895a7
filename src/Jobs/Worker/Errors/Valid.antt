-- ===== src/Jobs/Worker/Errors/Valid.antt =====
-- What the statements keep, the processing of a block keeps.
use alya.Prelude.{List, [], ◌∷◌, Option, some, none, String}
use alya.Jobs.Types.{JobResult}
use alya.Jobs.Queries.{FetchBlockOfRowsRow}
use alya.Jobs.Tables.Closed.{Closed}
use alya.Jobs.Db.{Db}
use alya.Jobs.Machine.{
  Env, World, M, Result, Error, ok, err, Holds, Preserves, Preserves-bind, pure-Preserves,
  log_error-Preserves, if-Preserves, call-Preserves, preserves_rules,
}
use alya.Jobs.Machine.{srem}
use alya.Jobs.Recovery.{untrack_row_processing}
use alya.Jobs.Worker.Process.{
  process_row, process_slow_query, process_batch_job, update_batch_job_result,
  update_slow_query_result,
}
use alya.Jobs.Worker.Process.Results.{
  init_block_for-Preserves, run_processor-Preserves, messages_json-Preserves,
  blob_rows_json-Preserves, recover-Preserves,
}
use alya.Jobs.Worker.Errors.{
  Scope, app_op, app_only, row_only, scope_of, handle_configuration_error, handle_row_error,
  handle_in_scope, handle_processing_error, outcome_of, after_row, process_rows, mark_scope,
  update_row_status_to_failed, mark_all_rows_with_same_app_op_as_failed,
  mark_all_rows_with_same_app_as_failed, update_batch_status_to_failed,
}

outcome-result :
    {A : Type 0} {P : Db → Type 0} (r : Result A) (w : World)
    → Holds P w
    → Holds P
        (elim r as (λ _. Result (Option Error) × World) [
          | ok a ↦ (ok none, w)
          | err x ↦ (ok (some x), w)
        ]).1
outcome-result (ok a) w h = h
outcome-result (err x) w h = h

outcome_of-Preserves :
    {A : Type 0} {P : Db → Type 0} {m : M A} → Preserves P m → Preserves P (outcome_of m)
unfolding outcome_of
outcome_of-Preserves {P} {m} p = record {
  after = λ w h. outcome-result {P = P} (m w).0 (m w).1 (p.after w h);
}

module _ {P : Db → Type 0} (c : Closed P) (env : Env) (row : FetchBlockOfRowsRow) where
  batch_job_result-Preserves :
      (result : JobResult) → Preserves P (update_batch_job_result env row result)
  unfolding update_batch_job_result
  batch_job_result-Preserves (status, result, messages, blob_rows) =
      search
        (
          preserves_rules, c.update_batchrows-keeps, messages_json-Preserves,
          blob_rows_json-Preserves, env,
        )
        depth 40

  slow_query_result-Preserves :
      (result : JobResult) → Preserves P (update_slow_query_result env row result)
  unfolding update_slow_query_result
  slow_query_result-Preserves (status, result, messages, output_files) =
      search
        (
          preserves_rules, c.growing.update_batches-keeps, c.update_batchrows-keeps,
          messages_json-Preserves, env,
        )
        depth 40

  row-Preserves : Preserves P (process_row env row)
  unfolding process_row process_slow_query process_batch_job
  row-Preserves =
      search
        (
          preserves_rules, recover-Preserves, init_block_for-Preserves, run_processor-Preserves,
          batch_job_result-Preserves, slow_query_result-Preserves,
        )
        depth 40

  untrack-Preserves : (id : String) → Preserves P (untrack_row_processing env id row.rowid)
  unfolding untrack_row_processing srem
  untrack-Preserves id =
      Preserves-bind (call-Preserves env _) λ _. record {
        after = λ w h. record { committed = h.committed; uncommitted = h.uncommitted };
      }

module _ {P : Db → Type 0} (c : Closed P) (env : Env) (error_text : Error → String) where
  mark_scope-Preserves :
      (s : Scope) (row : FetchBlockOfRowsRow) (e : Error)
      → Preserves P (mark_scope env error_text s row e)
  unfolding mark_all_rows_with_same_app_op_as_failed mark_all_rows_with_same_app_as_failed
  mark_scope-Preserves app_op row e =
      search (preserves_rules, c.update_batchrows-keeps, env) depth 40
  mark_scope-Preserves app_only row e =
      search (preserves_rules, c.update_batchrows-keeps, env) depth 40
  mark_scope-Preserves row_only row e = pure-Preserves tt

  configuration_error-Preserves :
      (row : FetchBlockOfRowsRow) (e : Error)
      → Preserves P (handle_configuration_error env error_text row e)
  unfolding handle_configuration_error update_row_status_to_failed update_batch_status_to_failed
  configuration_error-Preserves row e =
      search
        (
          preserves_rules, c.growing.update_batches-keeps, c.update_batchrows-keeps,
          mark_scope-Preserves, env,
        )
        depth 40

  row_error-Preserves :
      (row : FetchBlockOfRowsRow) (e : Error) → Preserves P (handle_row_error env error_text row e)
  unfolding handle_row_error update_row_status_to_failed
  row_error-Preserves row e =
      search (preserves_rules, c.growing.update_batches-keeps, c.update_batchrows-keeps, env) depth
        40

  in_scope-Preserves :
      (s : Scope) (row : FetchBlockOfRowsRow) (e : Error) (l : List String)
      → Preserves P (handle_in_scope env error_text s row e l)
  in_scope-Preserves row_only row e l =
      Preserves-bind (row_error-Preserves row e) λ _. pure-Preserves l
  in_scope-Preserves app_op row e l =
      if-Preserves _ (pure-Preserves l)
        (Preserves-bind (configuration_error-Preserves row e) λ _. pure-Preserves _)
  in_scope-Preserves app_only row e l =
      if-Preserves _ (pure-Preserves l)
        (Preserves-bind (configuration_error-Preserves row e) λ _. pure-Preserves _)

  after_row-Preserves :
      (row : FetchBlockOfRowsRow) (l : List String) (o : Option Error)
      → Preserves P (after_row env error_text row l o)
  unfolding handle_processing_error
  after_row-Preserves row l none = pure-Preserves l
  after_row-Preserves row l (some e) = in_scope-Preserves (scope_of e) row e l

  pub process_rows-Preserves :
      (id : String) (rows : List FetchBlockOfRowsRow) (l : List String)
      → Preserves P (process_rows env error_text id rows l)
  unfolding process_rows
  process_rows-Preserves id [] l = pure-Preserves tt
  process_rows-Preserves id (row ∷ rows) l =
      Preserves-bind (outcome_of-Preserves (row-Preserves c env row)) λ failure.
        Preserves-bind (log_error-Preserves (untrack-Preserves c env row id)) λ _.
          Preserves-bind (after_row-Preserves row l failure) λ l'. process_rows-Preserves id rows l'
