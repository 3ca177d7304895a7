-- ===== src/Jobs/SlowQueryDone.antt =====
-- The call that asks for the result of a slow query (jobs/slowquery.go), with the three keys that it
-- keeps in Redis (jobs/batchsummary.go).
mod Replies
pub mod Still
mod Tests
use alya.Prelude.{
  ℕ, ◌*◌, List, [], ◌∷◌, Option, some, none, String, Bool, true, false, ◌&&◌, not, str_eq,
  if◌then◌else◌,
}
use alya.Jobs.Status.{
  StatusEnum, success, failed, BatchStatus, try_later, batch_success, batch_failed, batch_aborted,
  get_batch_status,
}
use alya.Jobs.Types.{JsonStr, Files, new_json_str}
use alya.Jobs.Queries.{get_batch_status_and_output_files}
use alya.Jobs.Machine.{
  Env, World, M, Error, Result, Redis, Key, key_eq, ◌>>=◌, ◌>>◌, pure, or_throw, log_error, call,
  query, redis_get, ok, err, status_key, result_key, output_files_key, redis_nil, redis_error,
  no_rows, invalid_id, bad_json,
}
use alya.Jobs.Cache.{status_string, scan_status, get_if_there}

-- The status, the result and the output files; a nil map is `none`. The messages are always nil.
abbrev pub QueryReply : Type 0
QueryReply = BatchStatus × JsonStr × Option Files

-- `JSONstr{}`
abbrev pub zero_json_str : JsonStr
zero_json_str = record { value = ""; valid = false }

-- What `StatusEnum.Scan` is given: it reads texts and bytes, but no `StatusEnum`.
pub data ScanSource : Type 0 where
  from_text : String → ScanSource
  from_status : Option StatusEnum → ScanSource

-- The status after a scan into an empty one, whose error is not looked at; `none` is a text that is
-- no status, also the empty one.
abbrev pub scan : ScanSource → Option StatusEnum
scan (from_text s) = scan_status s
scan (from_status s) = none

abbrev pub told : Option StatusEnum → BatchStatus
told none = try_later
told (some s) = get_batch_status s

-- The expiry that goes with what the caller is told.
abbrev pub reply_expiry : ℕ → BatchStatus → ℕ
reply_expiry dur batch_success = 100 * dur
reply_expiry dur batch_failed = 100 * dur
reply_expiry dur batch_aborted = 100 * dur
reply_expiry dur _ = dur

-- `string(status)`, where `none` is the empty one.
abbrev pub status_text : Option StatusEnum → String
status_text none = ""
status_text (some s) = status_string s

-- The result is told only of a query that succeeded or failed.
abbrev pub result_of : Option StatusEnum → JsonStr → JsonStr
result_of (some success) r = r
result_of (some failed) r = r
result_of _ r = zero_json_str

abbrev pub put_all : List (Key × String) → ℕ → Redis → Redis
put_all [] ttl r = r
put_all ((k, v) ∷ rest) ttl r =
    put_all rest ttl
      (record { get = λ j. if key_eq j k then some (v, ttl) else r.get j; members = r.members })

module _ (env : Env) where
  -- MULTI and EXEC: one call that sets all the keys.
  unfoldable pub pipeline : List (Key × String) → ℕ → M (Unit {0})
  pipeline kvs ttl =
      call env redis_error >> λ w. (ok tt, record w { redis = put_all kvs ttl w.redis })

  -- The JSON of a map of files; of a nil map it is `null`.
  abbrev pub marshal_output_files : Option Files → Option String
  marshal_output_files none = some "null"
  marshal_output_files (some files) = env.marshal_files files

  abbrev pub unmarshal_output_files : String → M (Option Files)
  unmarshal_output_files s =
      if str_eq s "null"
      then pure none
      else do files ← or_throw (env.unmarshal_files s) bad_json; pure (some files)

  unfoldable pub update_status_and_output_files_data_in_redis :
      ℕ → Option StatusEnum → Option Files → String → ℕ → M (Unit {0})
  update_status_and_output_files_data_in_redis batch_id status output_files result expiry_sec = do
    output_files_json ← or_throw (marshal_output_files output_files) bad_json
    pipeline
        ((status_key (env.uuid_string batch_id), status_text status)
          ∷ (result_key (env.uuid_string batch_id), result)
          ∷ (output_files_key (env.uuid_string batch_id), output_files_json)
          ∷ [])
        expiry_sec

  -- A result that is not read into `JSONstr` is an empty, invalid one.
  abbrev pub read_result : String → JsonStr
  read_result s = if env.fits_struct s then record { value = s; valid = true } else zero_json_str

  -- Of a query that has no result or no output files yet, nothing is reported.
  abbrev pub details_of :
      StatusEnum × Option String × Option String → M (Option StatusEnum × JsonStr × Option Files)
  details_of (status, some files, some res) =
      if str_eq res ""
      then pure (none, zero_json_str, none)
      else if str_eq files ""
      then pure (none, zero_json_str, none)
      else do
        output_files ← unmarshal_output_files files
        pure (some status, read_result res, output_files)
  details_of _ = pure (none, zero_json_str, none)

  unfoldable pub get_batch_details : ℕ → M (Option StatusEnum × JsonStr × Option Files)
  get_batch_details req_id_uuid = do
    found ← query env (get_batch_status_and_output_files req_id_uuid)
    batch_data ← or_throw found no_rows
    details_of batch_data

  -- The reply where Redis has no status.
  unfoldable pub query_done_from_db : ℕ → M QueryReply
  query_done_from_db req_id_uuid = do
    (batch_status, result_data, output_files) ← get_batch_details req_id_uuid
    let status = told (scan (from_status batch_status))
    log_error (
        update_status_and_output_files_data_in_redis req_id_uuid batch_status output_files
          result_data.value (reply_expiry env.cache_dur_sec status))
    pure (status, result_of batch_status result_data, output_files)

  -- The reply where it has one.
  unfoldable pub query_done_from_cache : String → String → M QueryReply
  query_done_from_cache req_id status_val = do
    result_val ← redis_get env (result_key req_id)
    output_files_val ← redis_get env (output_files_key req_id)
    result ← or_throw (new_json_str env.is_json result_val) bad_json
    output_files ← unmarshal_output_files output_files_val
    pure (told (scan (from_text status_val)), result, output_files)

  unfoldable pub slow_query_done : String → M QueryReply
  slow_query_done req_id = do
    req_id_uuid ← or_throw (env.parse_uuid req_id) invalid_id
    status_val ← get_if_there (redis_get env (status_key req_id))
    elim status_val [
      | some s ↦ query_done_from_cache req_id s
      | none ↦ query_done_from_db req_id_uuid
    ]
