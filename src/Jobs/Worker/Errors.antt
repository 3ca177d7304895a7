-- ===== src/Jobs/Worker/Errors.antt =====
-- What the worker does with the error of a row (`handleProcessingError` of jobs/jobmanager.go), and
-- the loop over a claimed block. `error_text` is the text of an error.
pub mod Block
pub mod Valid
mod Tests
use alya.Prelude.{
  ℕ, List, [], ◌∷◌, Option, some, none, String, Bool, true, false, ◌&&◌, ◌==◌, str_eq, str_append,
  any_if, if◌then◌else◌,
}
use alya.Prelude.Int.{is_zero}
use alya.Jobs.Status.{StatusEnum, failed}
use alya.Jobs.Types.{ErrorMessage}
use alya.Jobs.Queries.{
  FetchBlockOfRowsRow, update_batch_rows_batch_job, update_batch_rows_by_batch_app,
  update_batch_rows_by_batch_app_op, update_batch_status, update_batch_result,
}
use alya.Jobs.Machine.{
  Env, World, M, Error, Result, ◌>>=◌, ◌>>◌, pure, or_throw, log_error, exec, now, ok, err,
  bad_json, processor_not_found, invalid_processor_type, no_initializer, init_failed,
}
use alya.Jobs.Cache.{update_status_in_redis}
use alya.Jobs.Recovery.{untrack_row_processing}
use alya.Jobs.Worker.Process.{process_row}

-- How far an error reaches. The branch of the code for an unknown configuration error is not
-- there: none of the errors that a row can raise takes it.
pub data Scope : Type 0 where
  app_op app_only row_only : Scope

abbrev pub scope_of : Error → Scope
scope_of processor_not_found = app_op
scope_of invalid_processor_type = app_op
scope_of no_initializer = app_only
scope_of init_failed = app_only
scope_of _ = row_only

-- The message numbers of jobs/error_constants.go.
abbrev pub msg_id_of : Error → ℕ
msg_id_of processor_not_found = 2
msg_id_of invalid_processor_type = 3
msg_id_of no_initializer = 4
msg_id_of init_failed = 5
msg_id_of _ = 10

abbrev pub err_code_of : Scope → String
err_code_of row_only = "processing_error"
err_code_of _ = "configerror"

-- The result of a call as a value.
unfoldable pub outcome_of {ℓ} : {A : Type ℓ} → M A → M (Option Error)
outcome_of m w = let (r, w') = m w in elim r [ ok a ↦ (ok none, w') | err e ↦ (ok (some e), w') ]

module _ (env : Env) (error_text : Error → String) where
  abbrev pub error_key : Scope → FetchBlockOfRowsRow → String
  error_key app_op row =
      str_append (env.uuid_string row.batch)
        (str_append "|" (str_append row.app (str_append "|" row.op)))
  error_key _ row = str_append (env.uuid_string row.batch) (str_append "|" row.app)

  -- The messages that a failed row is given.
  abbrev error_messages : Error → M String
  error_messages e =
      or_throw
        (env.marshal_messages (
          record {
            msg_id = msg_id_of e;
            err_code = err_code_of (scope_of e);
            field = "";
            vals = error_text e ∷ [];
          }
          ∷ []))
        bad_json

  unfoldable pub update_row_status_to_failed : ℕ → Error → M (Unit {0})
  update_row_status_to_failed rowid e = do
    messages_text ← error_messages e
    doneat ← now env
    exec env (
        update_batch_rows_batch_job rowid failed (some doneat) (some "{}") none (some messages_text)
          none)

  unfoldable pub mark_all_rows_with_same_app_op_as_failed :
      ℕ → String → String → Error → M (Unit {0})
  mark_all_rows_with_same_app_op_as_failed batch_id app op e = do
    messages_text ← error_messages e
    doneat ← now env
    exec env (
        update_batch_rows_by_batch_app_op failed (some doneat) (some messages_text) batch_id app op)

  unfoldable pub mark_all_rows_with_same_app_as_failed : ℕ → String → Error → M (Unit {0})
  mark_all_rows_with_same_app_as_failed batch_id app e = do
    messages_text ← error_messages e
    doneat ← now env
    exec env (update_batch_rows_by_batch_app failed (some doneat) (some messages_text) batch_id app)

  unfoldable pub update_batch_status_to_failed : ℕ → M (Unit {0})
  update_batch_status_to_failed batch_id = do
    doneat ← now env
    exec env (update_batch_status batch_id failed (some doneat) none none none none)
    log_error (update_status_in_redis env batch_id failed env.cache_dur_sec)

  -- What a configuration error does to the rows that share its cause.
  abbrev mark_scope : Scope → FetchBlockOfRowsRow → Error → M (Unit {0})
  mark_scope app_op row e = mark_all_rows_with_same_app_op_as_failed row.batch row.app row.op e
  mark_scope app_only row e = mark_all_rows_with_same_app_as_failed row.batch row.app e
  mark_scope row_only row e = pure tt

  unfoldable pub handle_configuration_error : FetchBlockOfRowsRow → Error → M (Unit {0})
  handle_configuration_error row e = do
    log_error (mark_scope (scope_of e) row e)
    log_error (update_row_status_to_failed row.rowid e)
    log_error (update_batch_status_to_failed row.batch)

  -- A slow query is a batch of one row, whose batch fails with it.
  unfoldable pub handle_row_error : FetchBlockOfRowsRow → Error → M (Unit {0})
  handle_row_error row e = do
    log_error (update_row_status_to_failed row.rowid e)
    doneat ← now env
    if is_zero row.line
        then log_error (exec env (update_batch_result none failed (some doneat) row.batch))
        else pure tt

  -- The keys of the configuration errors already handled go in and out.
  abbrev handle_in_scope : Scope → FetchBlockOfRowsRow → Error → List String → M (List String)
  handle_in_scope row_only row e processed = handle_row_error row e >> pure processed
  handle_in_scope scope row e processed =
      if any_if (str_eq (error_key scope row)) processed
      then pure processed
      else (handle_configuration_error row e >> pure (error_key scope row ∷ processed))

  unfoldable pub handle_processing_error :
      Error → FetchBlockOfRowsRow → List String → M (List String)
  handle_processing_error e row processed = handle_in_scope (scope_of e) row e processed

  abbrev after_row : FetchBlockOfRowsRow → List String → Option Error → M (List String)
  after_row row processed none = pure processed
  after_row row processed (some e) = handle_processing_error e row processed

  -- The loop over the rows of a block, for the worker `instance_id`.
  unfoldable pub process_rows : String → List FetchBlockOfRowsRow → List String → M (Unit {0})
  process_rows instance_id [] processed = pure tt
  process_rows instance_id (row ∷ rows) processed = do
    failure ← outcome_of (process_row env row)
    log_error (untrack_row_processing env instance_id row.rowid)
    processed' ← after_row row processed failure
    process_rows instance_id rows processed'
