-- ===== src/Jobs/FileXfr/Infiled.antt =====
-- jobs/filexfr/infiled.go. The daemon's endless loop is any number of its first rounds.
pub mod Again
pub mod Kept
pub mod Polls
pub mod Rounds
pub mod Twice
use alya.Prelude.{
  ℕ, zero, suc, ◌+◌, ◌*◌, ◌-◌, List, [], ◌∷◌, ◌++◌, Option, none, some, String, Bool, true, false,
  not, map, leb, if◌then◌else◌,
}
use alya.Prelude.Result.{Result, ok, err}
use alya.Jobs.Types.{JsonStr, new_json_str}
use alya.Jobs.FileXfr.Defs.{
  XfrEnv, Site, Object, FileXfrServer, T, ◌>>=◌, ◌>>◌, pure, throw, or_throw, log_error, store_put,
  open_file, remove_file, now, call, glob_error, file_error, TransferError,
}
use alya.Jobs.FileXfr.Server.{bulkfilein_process, move_object_to_failed_bucket}

pub record FileTypeMapping : Type 0 where
  pub path : String
  pub file_type : String

pub record InfiledConfig : Type 0 where
  pub watch_dirs : List String
  pub file_type_map : List FileTypeMapping
  pub file_age_secs : ℕ

module _ (env : XfrEnv) (fxs : FileXfrServer) (config : InfiledConfig) where
  -- Times are nanoseconds.
  unfoldable pub is_file_old_enough : String → T Bool
  is_file_old_enough file_path s = (
    ok (elim (env.mod_time s.calls file_path) [
      | none ↦ false
      | some t ↦ leb (config.file_age_secs * 1000000000 + t) (env.clock s.calls)
    ]),
    s,
  )

  unfoldable pub store_file_in_incoming_bucket : String → T String
  store_file_in_incoming_bucket file_path = do
    contents ← open_file env file_path
    store_put env fxs.config.incoming_bucket (env.base_name file_path)
        (record { contents = contents; content_type = "application/octet-stream" })
    pure (env.base_name file_path)

  -- `NewJSONstr("{}")`, of which the error is dropped.
  abbrev pub empty_context : JsonStr
  empty_context = elim (new_json_str env.jobs.is_json "{}") [
    | none ↦ record { value = ""; valid = false }
    | some j ↦ j
  ]

  -- What follows the processing: a file that fails has its object moved, one that succeeds is removed.
  abbrev pub after_processing : String → String → Result TransferError String → T (Unit {0})
  after_processing file_path object_id (err e) =
      log_error (move_object_to_failed_bucket env fxs object_id) >> throw e
  after_processing file_path object_id (ok batch_id) = log_error (remove_file env file_path)

  unfoldable pub process_stored : String → String → String → T (Unit {0})
  process_stored file_path file_type object_id s =
      let (r, s') =
        bulkfilein_process env fxs object_id (env.base_name file_path) file_type empty_context true
          s in
      after_processing file_path object_id r s'

  -- A file that is old enough.
  unfoldable pub process_old : String → String → T (Unit {0})
  process_old file_path file_type = do
    object_id ← store_file_in_incoming_bucket file_path
    process_stored file_path file_type object_id

  unfoldable pub process_file : String → String → T (Unit {0})
  process_file file_path file_type = do
    old ← is_file_old_enough file_path
    if old then process_old file_path file_type else pure tt

  -- An error of a file is logged, and the next one is processed.
  unfoldable pub process_files : String → List String → T (Unit {0})
  process_files file_type [] = pure tt
  process_files file_type (file ∷ rest) = do
    log_error (process_file file file_type)
    process_files file_type rest

  abbrev pub glob_in : String → String → T (List String)
  glob_in pattern dir s = elim (env.glob s.calls dir pattern) [
    | none ↦ (err glob_error, s)
    | some matches ↦ (ok (map (λ (match : String). env.join_path dir match) matches), s)
  ]

  unfoldable pub find_in : String → List String → T (List String)
  find_in pattern [] = pure []
  find_in pattern (dir ∷ rest) = do
    found ← glob_in pattern dir
    more ← find_in pattern rest
    pure (found ++ more)

  unfoldable pub find_files : String → T (List String)
  find_files pattern = find_in (env.trim_separator pattern) config.watch_dirs

  unfoldable pub process_single_mapping : FileTypeMapping → T (Unit {0})
  process_single_mapping mapping = do
    files ← find_files mapping.path
    process_files mapping.file_type files

  unfoldable pub process_mappings : List FileTypeMapping → T (Unit {0})
  process_mappings [] = pure tt
  process_mappings (mapping ∷ rest) = do
    log_error (process_single_mapping mapping)
    process_mappings rest

  abbrev pub process_all_mappings : T (Unit {0})
  process_all_mappings = process_mappings config.file_type_map

  -- The first rounds of `Run`.
  unfoldable pub run_rounds : ℕ → T (Unit {0})
  run_rounds zero = pure tt
  run_rounds (suc n) = do log_error process_all_mappings; run_rounds n
