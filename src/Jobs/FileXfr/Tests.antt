-- ===== src/Jobs/FileXfr/Tests.antt =====
-- A daemon that watches one directory, with a check that finds the text "good" good.
use alya.Prelude.{
  ℕ, [], ◌∷◌, Option, none, some, String, Bool, false, str_eq, ◌==◌, ◌||◌, ◌≡◌, refl, if◌then◌else◌,
}
use alya.Prelude.Int.{pos}
use alya.Jobs.Machine
use alya.Jobs.Machine.{machine}
use alya.Jobs.Types.{new_json_str}
use alya.Jobs.Batch.{batch_submit}
use alya.Jobs.Queries.{bulk_insert_into_batch_rows, numbered_rows}
use alya.Jobs.Fixture.{an_env, a_world, no_tables, a_context}
use alya.Jobs.FileXfr.Defs.{XfrEnv, Site, FileChk, FileXfrServer, transfer}
use alya.Jobs.FileXfr.Server.{
  new_file_xfr_server, find_chk, detect_content_type, bulkfilein_process, process_contents,
  submit_file, record_batch_file, move_object_to_failed_bucket,
}
use alya.Jobs.FileXfr.Infiled.{
  FileTypeMapping, InfiledConfig, empty_context, process_file, process_old, process_stored,
  is_file_old_enough, store_file_in_incoming_bucket, process_files, find_in, find_files,
  process_single_mapping, process_mappings, run_rounds,
}
use alya.Jobs.FileXfr.Infiled.Kept.{Safe, process_file-Safe}
use alya.Jobs.FileXfr.Infiled.Again.{submission, run_rounds_unrecorded}

abbrev a_chk : FileChk
a_chk contents filename ctx = record {
  is_good = str_eq contents "good";
  batchctx = ctx;
  batch_input = record { line = pos 1; input = a_context } ∷ [];
  app = "crm";
  op = "LOAD";
}

abbrev a_server : FileXfrServer
a_server = record {
  file_chk_map = ("txn", a_chk) ∷ [];
  config = record {
    max_object_id_length = 500;
    incoming_bucket = "incoming";
    failed_bucket = "failed";
  };
}

-- `fails` says which calls of the store, the file system and the file table fail.
abbrev an_xfr_env : (ℕ → Bool) → XfrEnv
an_xfr_env fails = record {
  jobs = an_env;
  fails = fails;
  clock = λ n. 9000000000;
  byte_length = λ t. 4;
  first_bytes = λ n t. t;
  sanitize_filename = λ t. t;
  detect_mime = λ t. "text/plain";
  lower_ext = λ t. ".csv";
  md5_hex = λ t. t;
  base_name = λ p. if str_eq p "/in/a.csv" then "a.csv" else p;
  join_path = λ d f. f;
  trim_separator = λ t. t;
  glob = λ n d p. some ("/in/a.csv" ∷ []);
  mod_time = λ n p. some 0;
}

abbrev up : XfrEnv
up = an_xfr_env λ n. false

-- The record of the file is the fourth call.
abbrev table_down : XfrEnv
table_down = an_xfr_env λ n. n == 3

abbrev a_mapping : FileTypeMapping
a_mapping = record { path = "*.csv"; file_type = "txn" }

abbrev a_config : InfiledConfig
a_config = record { watch_dirs = "/in" ∷ []; file_type_map = a_mapping ∷ []; file_age_secs = 5 }

abbrev a_site : String → Site
a_site contents = record {
  world = a_world no_tables;
  objects = λ b k.
      if str_eq b "incoming"
      then (if str_eq k "old.csv"
          then some (record { contents = "good"; content_type = "" })
          else none)
      else none;
  batch_files = [];
  files = λ p. if str_eq p "/in/a.csv" then some contents else none;
  calls = 0;
}

defaults :
    (new_file_xfr_server
      (record { max_object_id_length = 0; incoming_bucket = ""; failed_bucket = "bad" })).config
    ≡ record { max_object_id_length = 500; incoming_bucket = "incoming"; failed_bucket = "bad" }
unfolding new_file_xfr_server
defaults = refl

by_extension : detect_content_type up "x" "x.csv" ≡ "text/csv"
unfolding detect_content_type
by_extension = refl

process_file-Safe_example :
    Safe up a_server a_config "/in/a.csv" "txn" "good"
      (a_site "good")
      (process_file up a_server a_config "/in/a.csv" "txn" (a_site "good"))
process_file-Safe_example =
    process_file-Safe up a_server a_config "/in/a.csv" "txn" "good" (a_site "good") refl

abbrev FindsBad : Option FileChk → Type 0
FindsBad none = Unit {0}
FindsBad (some chk) = (chk "bad" "a.csv" (empty_context up a_server a_config)).is_good ≡ false

-- The record of the file is the fourth call of each round; the rounds' batches are `b7` and `b8`.
abbrev both_down : XfrEnv
both_down = record (an_xfr_env λ n. n == 3 || n == 10) {
  jobs = record an_env {
    fresh_uuid = λ n. if n == 0 then 7 else 8;
    uuid_string = λ n. if n == 7 then "b7" else "b8";
    parse_uuid = λ t. if str_eq t "b7" then some 7 else if str_eq t "b8" then some 8 else none;
  };
}

abbrev first_batch : Machine.World
first_batch =
    (submission both_down a_server "/in" "/in/a.csv" a_mapping 5 a_chk "good" (a_world no_tables)).1

run_rounds_unrecorded_example :
    let t = (run_rounds both_down a_server a_config 2 (a_site "good")).1 in
    (t.files "/in/a.csv" ≡ some "good")
    × (t.world
        ≡ (submission both_down a_server "/in" "/in/a.csv" a_mapping 5 a_chk "good" first_batch).1)
    × ((id : String) × ((submission both_down a_server "/in" "/in/a.csv" a_mapping 5 a_chk "good"
            first_batch).0
          ≡ Machine.Result.ok id))
unfolding find_chk batch_submit machine bulk_insert_into_batch_rows numbered_rows new_json_str
    process_file process_old process_stored is_file_old_enough store_file_in_incoming_bucket
    process_files find_in find_files process_single_mapping process_mappings run_rounds
    bulkfilein_process process_contents submit_file record_batch_file move_object_to_failed_bucket
    transfer
run_rounds_unrecorded_example =
    run_rounds_unrecorded both_down a_server "/in" "/in/a.csv" a_mapping 5 "good" (a_site "good")
      a_chk refl (λ n. refl) refl refl
      (record {
        batch_id = "b7";
        uuid = 7;
        modified = 0;
        time = refl;
        old = refl;
        submitted = refl;
        parsed = refl;
        opened = refl;
        stored = refl;
        read = refl;
        not_inserted = refl;
      })
      (record {
        batch_id = "b8";
        uuid = 8;
        modified = 0;
        time = refl;
        old = refl;
        submitted = refl;
        parsed = refl;
        opened = refl;
        stored = refl;
        read = refl;
        not_inserted = refl;
      })
