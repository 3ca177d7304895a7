-- ===== src/Jobs/BatchDone.antt =====
-- The call that asks for the results of a batch (`BatchDone` of jobs/batch.go).
mod Rows
pub mod Still
mod Replies
mod Cached
mod Tests
use alya.Prelude.{ℕ, List, [], ◌∷◌, Option, some, none, String, Bool, if◌then◌else◌}
use alya.Prelude.Int.{ℤ, pos}
use alya.Jobs.Status.{StatusEnum, BatchStatus, map_status_enum, is_final}
use alya.Jobs.Types.{JsonStr, Files, new_json_str}
use alya.Jobs.Db.{Batch, BatchRow}
use alya.Jobs.Queries.{get_batch_by_id, fetch_batch_rows_for_batch_done}
use alya.Jobs.Machine.{
  Env, M, ◌>>=◌, ◌>>◌, pure, or_throw, log_error, query, redis_get, status_key, no_rows, bad_json,
  panicked,
}
use alya.Jobs.Cache.{status_string, scan_status, expiry_sec, update_status_in_redis, get_if_there}
use alya.Jobs.Batch.{int4}

-- `BatchOutput_t`
pub record BatchOutput : Type 0 where
  pub line : ℤ
  pub status : BatchStatus
  pub res : JsonStr
  pub messages : JsonStr

-- The text of the status, the rows' outputs, the output files and the three counts.
abbrev pub DoneReply : Type 0
DoneReply = String × List BatchOutput × Files × ℤ × ℤ × ℤ

-- A column that is NULL is read as an empty text.
abbrev pub bytes : Option String → String
bytes none = ""
bytes (some s) = s

module _ (env : Env) where
  abbrev pub json_of : Option String → M JsonStr
  json_of column = or_throw (new_json_str env.is_json (bytes column)) bad_json

  unfoldable pub convert_rows : List BatchRow → M (List BatchOutput)
  convert_rows [] = pure []
  convert_rows (row ∷ rows) = do
    res ← json_of row.res
    messages ← json_of row.messages
    rest ← convert_rows rows
    pure (
        record {
          line = row.line;
          status = map_status_enum row.status;
          res = res;
          messages = messages;
        }
        ∷ rest)

  -- `json.Unmarshal`, whose error is not looked at.
  abbrev pub files_of : Option String → Files
  files_of column = elim (env.unmarshal_files (bytes column)) [ none ↦ [] | some fs ↦ fs ]

  -- The rows and the columns of a batch whose status is final.
  unfoldable pub final_reply : ℕ → Batch → String → M DoneReply
  final_reply batch_id batch status = do
    rows ← query env (fetch_batch_rows_for_batch_done batch_id)
    outputs ← convert_rows rows
    pure (
      status,
      outputs,
      files_of batch.outputfiles,
      int4 batch.nsuccess,
      int4 batch.nfailed,
      int4 batch.naborted,
    )

  -- The batch is of the table, and the status of Redis or of the table. A text that is no status is
  -- returned as it is.
  abbrev pub reply_for : ℕ → Batch → String → Option StatusEnum → M DoneReply
  reply_for batch_id batch status none = pure (status, [], [], pos 0, pos 0, pos 0)
  reply_for batch_id batch status (some s) =
      if is_final s
      then final_reply batch_id batch status
      else pure (status, [], [], pos 0, pos 0, pos 0)

  -- `uuid.MustParse` panics on a text that is no UUID.
  abbrev pub must_parse : String → M ℕ
  must_parse batch_id = or_throw (env.parse_uuid batch_id) panicked

  abbrev pub fetch_batch : String → M (ℕ × Batch)
  fetch_batch batch_id = do
    id ← must_parse batch_id
    found ← query env (get_batch_by_id id)
    batch ← or_throw found no_rows
    pure (id, batch)

  unfoldable pub done_from_db : String → M DoneReply
  done_from_db batch_id = do
    (id, batch) ← fetch_batch batch_id
    log_error
        (update_status_in_redis env id batch.status (expiry_sec env.cache_dur_sec batch.status))
    reply_for id batch (status_string batch.status) (scan_status (status_string batch.status))

  unfoldable pub done_from_cache : String → String → M DoneReply
  done_from_cache batch_id status_val = do
    (id, batch) ← fetch_batch batch_id
    reply_for id batch status_val (scan_status status_val)

  unfoldable pub batch_done : String → M DoneReply
  batch_done batch_id = do
    status_val ← get_if_there (redis_get env (status_key batch_id))
    elim status_val [ some s ↦ done_from_cache batch_id s | none ↦ done_from_db batch_id ]
