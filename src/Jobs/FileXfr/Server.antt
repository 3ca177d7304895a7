-- ===== src/Jobs/FileXfr/Server.antt =====
-- jobs/filexfr/filexfr.go.
pub mod Submitted
pub mod Refused
use alya.Prelude.{
  ℕ, ◌+◌, List, [], ◌∷◌, Option, none, some, String, Bool, true, false, not, ◌||◌, str_eq, ltb,
  ◌==◌, if◌then◌else◌,
}
use alya.Prelude.Result.{Result, ok, err}
use alya.Jobs.Types.{JsonStr}
use alya.Jobs.Batch.{batch_submit}
use alya.Jobs.FileXfr.Defs.{
  XfrEnv, Site, Object, BatchFile, FileChk, FileVerdict, FileXfrConfig, FileXfrServer, T, ◌>>=◌,
  ◌>>◌, pure, throw, or_throw, in_service, store_get, store_put, store_delete, insert_batch_file,
  now, no_file_chk, file_chk_failed, file_chk_registered, invalid_batch_id, TransferError,
}

unfoldable pub find_chk : String → List (String × FileChk) → Option FileChk
find_chk key [] = none
find_chk key ((k, f) ∷ rest) = if str_eq k key then some f else find_chk key rest

unfoldable pub new_file_xfr_server : FileXfrConfig → FileXfrServer
new_file_xfr_server config = record {
  file_chk_map = [];
  config = record {
    max_object_id_length =
        if config.max_object_id_length == 0 then 500 else config.max_object_id_length;
    incoming_bucket =
        if str_eq config.incoming_bucket "" then "incoming" else config.incoming_bucket;
    failed_bucket = if str_eq config.failed_bucket "" then "failed" else config.failed_bucket;
  };
}

unfoldable pub register_file_chk :
    String → FileChk → FileXfrServer → Result TransferError FileXfrServer
register_file_chk file_type chk fxs = elim (find_chk file_type fxs.file_chk_map) [
  | some f ↦ err file_chk_registered
  | none ↦ ok (record fxs { file_chk_map = (file_type, chk) ∷ fxs.file_chk_map })
]

module _ (env : XfrEnv) where
  unfoldable pub detect_content_type : String → String → String
  detect_content_type contents filename =
      let detected_type = env.detect_mime contents in
      let ext = env.lower_ext filename in
      if str_eq detected_type "application/octet-stream" || str_eq detected_type "text/plain"
      then (if str_eq ext ".csv"
          then "text/csv"
          else if str_eq ext ".tsv"
          then "text/tab-separated-values"
          else if str_eq ext ".json"
          then "application/json"
          else if str_eq ext ".xml"
          then "application/xml"
          else if str_eq ext ".yaml" || str_eq ext ".yml"
          then "application/x-yaml"
          else detected_type)
      else detected_type

  -- The checksum is that of the object id.
  unfoldable pub record_batch_file : String → ℕ → String → Bool → T (Unit {0})
  record_batch_file object_id size batch_id status = do
    batch_uuid ← or_throw (env.jobs.parse_uuid batch_id) invalid_batch_id
    received_at ← now env
    insert_batch_file env (record {
      object_id = object_id;
      size = size;
      checksum = env.md5_hex object_id;
      received_at = received_at;
      status = status;
      batch_id = batch_uuid;
    })

module _ (env : XfrEnv) (fxs : FileXfrServer) where
  open fxs.config use {incoming_bucket, failed_bucket, max_object_id_length}

  abbrev pub get_object_contents : String → T String
  get_object_contents object_id =
      store_get env incoming_bucket object_id >>= λ (o : Object). pure o.contents

  unfoldable pub move_object_to_failed_bucket : String → T (Unit {0})
  move_object_to_failed_bucket object_id = do
    o ← store_get env incoming_bucket object_id
    store_put env failed_bucket object_id
        (record { contents = o.contents; content_type = "application/octet-stream" })
    store_delete env incoming_bucket object_id

  unfoldable pub generate_object_id : String → String
  generate_object_id filename =
      let sanitized = env.sanitize_filename filename in
      if ltb max_object_id_length (env.byte_length sanitized)
      then env.first_bytes max_object_id_length sanitized
      else sanitized

  unfoldable pub store_file_contents : String → String → T String
  store_file_contents contents filename = do
    store_put env incoming_bucket (generate_object_id filename)
        (record { contents = contents; content_type = detect_content_type env contents filename })
    pure (generate_object_id filename)

  -- A file that is refused: its object, if it has one, is moved first.
  unfoldable pub refuse : Option String → T String
  refuse none = throw file_chk_failed
  refuse (some object_id) = do move_object_to_failed_bucket object_id; throw file_chk_failed

  abbrev pub object_id_of : Option String → String → String → T String
  object_id_of none contents filename = store_file_contents contents filename
  object_id_of (some object_id) contents filename = pure object_id

  -- A file that is good.
  unfoldable pub submit_file : Option String → String → String → FileVerdict → T String
  submit_file object contents filename v = do
    batch_id ← in_service (batch_submit env.jobs v.app v.op v.batchctx v.batch_input false)
    object_id ← object_id_of object contents filename
    record_batch_file env object_id (env.byte_length contents) batch_id true
    pure batch_id

  -- The part after the contents are there.
  unfoldable pub process_contents : Option String → String → String → String → JsonStr → T String
  process_contents object contents filename filetype batchctx = do
    chk ← or_throw (find_chk filetype fxs.file_chk_map) no_file_chk
    let v = chk contents filename batchctx
    if v.is_good then submit_file object contents filename v else refuse object

  unfoldable pub bulkfilein_process : String → String → String → JsonStr → Bool → T String
  bulkfilein_process file filename filetype batchctx is_object_id =
      if is_object_id
      then (do
        contents ← get_object_contents file
        process_contents (some file) contents filename filetype batchctx)
      else process_contents none file filename filetype batchctx
