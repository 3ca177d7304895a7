-- ===== src/Jobs/Worker/Process.antt =====
-- The processing of one claimed row (`processRow` of jobs/jobmanager.go) and the update with its
-- result. The processors are the environment's; the column `doneby` is always written as NULL.
pub mod Results
mod Unmarked
mod Steps
pub mod Settles
mod Tests
use alya.Prelude.{
  ℕ, ◌+◌, List, [], ◌∷◌, Option, some, none, String, Bool, str_append, if◌then◌else◌,
}
use alya.Prelude.Int.{ℤ, is_zero}
use alya.Jobs.Status.{StatusEnum}
use alya.Jobs.Types.{
  JsonStr, ErrorMessage, Files, JobResult, Outcome, panics, fails, returns, new_json_str,
}
use alya.Jobs.Queries.{
  FetchBlockOfRowsRow, update_batch_rows_batch_job, update_batch_rows_slow_query,
  update_batch_result,
}
use alya.Jobs.Machine.{
  Env, World, M, Error, Result, ◌>>=◌, ◌>>◌, pure, throw, or_throw, guard, exec, now, ok, err,
  bad_json, panicked, processing, processor_not_found,
}
use alya.Jobs.Summary.{init_block_for}

-- A panic is turned into an error of the row.
abbrev pub recovered : Error → Error
recovered panicked = processing
recovered e = e

unfoldable pub recover {ℓ} : {A : Type ℓ} → M A → M A
recover m w = let (r, w') = m w in elim r [ ok a ↦ (ok a, w') | err e ↦ (err (recovered e), w') ]

module _ (env : Env) where
  -- `getOrCreateInitBlock`; the look-up under each of its two locks is one look-up here.
  abbrev get_or_create_init_block : String → M (Unit {0})
  get_or_create_init_block app = init_block_for env app

  -- An empty list is written as NULL.
  abbrev messages_json : List ErrorMessage → M (Option String)
  messages_json [] = pure none
  messages_json (x ∷ xs) = do
    json ← or_throw (env.marshal_messages (x ∷ xs)) bad_json
    pure (some json)

  abbrev blob_rows_json : Files → M (Option String)
  blob_rows_json [] = pure none
  blob_rows_json (x ∷ xs) = do
    json ← or_throw (env.marshal_files (x ∷ xs)) bad_json
    pure (some json)

  unfoldable pub update_batch_job_result : FetchBlockOfRowsRow → JobResult → M (Unit {0})
  update_batch_job_result row (status, result, messages, blob_rows) = do
    messages_text ← messages_json messages
    blob_rows_text ← blob_rows_json blob_rows
    doneat ← now env
    exec env (
        update_batch_rows_batch_job row.rowid status (some doneat) (some result.value)
          blob_rows_text messages_text none)

  -- The row is updated first, and the batch after it, each at once.
  unfoldable pub update_slow_query_result : FetchBlockOfRowsRow → JobResult → M (Unit {0})
  update_slow_query_result row (status, result, messages, output_files) = do
    messages_text ← messages_json messages
    row_doneat ← now env
    exec env (
        update_batch_rows_slow_query row.rowid status (some row_doneat) (some result.value)
          messages_text none)
    output_files_text ← or_throw (env.marshal_files output_files) bad_json
    doneat ← now env
    exec env (update_batch_result (some output_files_text) status (some doneat) row.batch)

  -- A run of a processor counts as one call.
  unfoldable pub run_processor : (ℕ → Outcome) → M JobResult
  run_processor outcome w = (
    elim (outcome w.calls) [
      | panics ↦ err panicked
      | fails ↦ err processing
      | returns result ↦ ok result
    ],
    record w { calls = w.calls + 1 },
  )

  abbrev processor_key : FetchBlockOfRowsRow → String
  processor_key row = str_append row.app row.op

  abbrev json_or_fail : String → M JsonStr
  json_or_fail s = or_throw (new_json_str env.is_json s) processing

  unfoldable pub process_slow_query : FetchBlockOfRowsRow → M StatusEnum
  process_slow_query row = do
    guard (env.has_slow_query_processor (processor_key row)) processor_not_found
    get_or_create_init_block row.app
    context ← json_or_fail row.context
    input ← json_or_fail row.input
    done ← run_processor (env.do_slow_query (processor_key row) context input)
    update_slow_query_result row done
    pure (done.0)

  abbrev batch_outcome : Option JobResult → Outcome
  batch_outcome none = panics
  batch_outcome (some r) = returns r

  -- The values of a batch job are written whether it returns an error or not.
  unfoldable pub process_batch_job : FetchBlockOfRowsRow → M StatusEnum
  process_batch_job row = do
    guard (env.has_batch_processor (processor_key row)) processor_not_found
    get_or_create_init_block row.app
    context ← json_or_fail row.context
    input ← json_or_fail row.input
    done ←
        run_processor
          (λ n. batch_outcome (env.do_batch_job (processor_key row) context row.line input n))
    update_batch_job_result row done
    pure (done.0)

  unfoldable pub process_row : FetchBlockOfRowsRow → M StatusEnum
  process_row row =
      recover do if is_zero row.line then process_slow_query row else process_batch_job row
