-- ===== src/Jobs/FileXfr/Infiled/Again.antt =====
-- A file of which two rounds of the daemon submit a batch each.
use alya.Prelude.{
  ℕ, ◌+◌, ◌*◌, List, [], ◌∷◌, Option, none, some, String, true, false, ◌≡◌, sym, ap, ◌∙◌, map, ◌++◌,
  leb,
}
use mathlib.Core.Path.{subst}
use alya.Prelude.Result.{Result, ok, err}
use alya.Jobs.Machine
use alya.Jobs.Batch.{batch_submit}
use alya.Jobs.FileXfr.Defs.{
  XfrEnv, Site, FileChk, FileXfrServer, T, ◌>>=◌, pure, transfer, TransferError, glob_error,
}
use alya.Jobs.FileXfr.Server.{find_chk}
use alya.Jobs.FileXfr.Infiled.Twice.{process_file_unrecorded}
use alya.Jobs.FileXfr.Infiled.{
  FileTypeMapping, InfiledConfig, empty_context, process_file, process_files, find_in, find_files,
  process_single_mapping, process_mappings, process_all_mappings, run_rounds,
}

-- A daemon that watches one directory for one pattern, which one file matches.
module _ (env : XfrEnv) (fxs : FileXfrServer) (dir match : String) (mapping : FileTypeMapping)
    (age : ℕ) where
  abbrev pub one_watch : InfiledConfig
  one_watch = record { watch_dirs = dir ∷ []; file_type_map = mapping ∷ []; file_age_secs = age }

  abbrev pub watched : String
  watched = env.join_path dir match

  abbrev pub FindsOne : Type 0
  FindsOne = (n : ℕ) → env.glob n dir (env.trim_separator mapping.path) ≡ some (match ∷ [])

  abbrev processed : Site → Site
  processed s = (process_file env fxs one_watch watched mapping.file_type s).1

  -- The batch that is submitted of the contents.
  abbrev pub submission : FileChk → String → Machine.World → Machine.Result String × Machine.World
  submission chk contents =
      let v = chk contents (env.base_name watched) (empty_context env fxs one_watch) in
      batch_submit env.jobs v.app v.op v.batchctx v.batch_input false

  -- The file is old enough, its object is stored and read and its batch submitted, and then the
  -- insertion of the file's record fails.
  pub record IsUnrecorded (chk : FileChk) (contents : String) (s : Site) : Type 0 where
    pub batch_id : String
    pub uuid : ℕ
    pub modified : ℕ
    pub time : env.mod_time s.calls watched ≡ some modified
    pub old : leb (age * 1000000000 + modified) (env.clock s.calls) ≡ true
    pub submitted : (submission chk contents s.world).0 ≡ Machine.Result.ok batch_id
    pub parsed : env.jobs.parse_uuid batch_id ≡ some uuid
    pub opened : env.fails s.calls ≡ false
    pub stored : env.fails (s.calls + 1) ≡ false
    pub read : env.fails (s.calls + 1 + 1) ≡ false
    pub not_inserted : env.fails (s.calls + 1 + 1 + 1) ≡ true

  found_one :
      FindsOne → (s : Site) → find_files env fxs one_watch mapping.path s ≡ (ok (watched ∷ []), s)
  unfolding find_files find_in transfer
  found_one one s = ap listed (one s.calls)
    where
      found_in : Option (List String) → T (List String)
      found_in o t = elim o [
        | none ↦ (err glob_error, t)
        | some matches ↦ (ok (map (λ (m : String). env.join_path dir m) matches), t)
      ]

      listed : Option (List String) → Result TransferError (List String) × Site
      listed o = (found_in o >>= λ found. pure [] >>= λ more. pure (found ++ more)) s

  round : FindsOne → (s : Site) → (process_all_mappings env fxs one_watch s).1 ≡ processed s
  unfolding process_mappings process_single_mapping process_files transfer
  round one s =
      ap
        (λ (found : Result TransferError (List String) × Site).
          (elim found.0 as (λ x. Result TransferError (Unit {0}) × Site) [
            | ok a ↦ process_files env fxs one_watch mapping.file_type a found.1
            | err e ↦ (err e, found.1)
          ]).1)
        (found_one one s)

  two_rounds :
      FindsOne → (s : Site) → (run_rounds env fxs one_watch 2 s).1 ≡ processed (processed s)
  unfolding run_rounds transfer
  two_rounds one s = round one _ ∙ ap processed (round one s)

  unrecorded :
      (contents : String) (s : Site) (chk : FileChk)
      → s.files watched ≡ some contents
      → find_chk mapping.file_type fxs.file_chk_map ≡ some chk
      → (chk contents (env.base_name watched) (empty_context env fxs one_watch)).is_good ≡ true
      → IsUnrecorded chk contents s
      → ((processed s).files watched ≡ some contents)
        × ((processed s).world ≡ (submission chk contents s.world).1)
  unrecorded contents s chk there known good u =
      let (e, kept, world) =
        process_file_unrecorded env fxs one_watch watched mapping.file_type contents u.batch_id
          u.uuid u.modified s chk there u.time u.old known good u.submitted u.parsed u.opened
          u.stored u.read u.not_inserted in
      (kept, world)

  -- A daemon watches one directory for one pattern, which at any time one file matches, and the
  -- file's check finds it good. After two rounds in which the file is old enough, its batch is
  -- submitted and then the record of the file cannot be written, the service's world is the one in
  -- which a second batch of the same contents has been submitted after the first, and the file is
  -- where it was.
  pub run_rounds_unrecorded :
      (contents : String) (s : Site) (chk : FileChk)
      → s.files watched ≡ some contents
      → FindsOne
      → find_chk mapping.file_type fxs.file_chk_map ≡ some chk
      → (chk contents (env.base_name watched) (empty_context env fxs one_watch)).is_good ≡ true
      → IsUnrecorded chk contents s
      → IsUnrecorded chk contents (run_rounds env fxs one_watch 1 s).1
      → let first = submission chk contents s.world in
        let t = (run_rounds env fxs one_watch 2 s).1 in
        (t.files watched ≡ some contents)
        × (t.world ≡ (submission chk contents first.1).1)
        × ((id : String) × ((submission chk contents first.1).0 ≡ Machine.Result.ok id))
  unfolding run_rounds transfer
  run_rounds_unrecorded contents s chk there one known good u1 u2 =
      let (here1, world1) = unrecorded contents s chk there known good u1 in
      let u = subst (IsUnrecorded chk contents) (round one s) u2 in
      let (here2, world2) = unrecorded contents (processed s) chk here1 known good u in
      let here = λ (v : Site). v.files watched ≡ some contents in
      (
        subst here (sym (two_rounds one s)) here2,
        ap (λ (v : Site). v.world) (two_rounds one s)
            ∙ world2
            ∙ ap (λ (w : Machine.World). (submission chk contents w).1) world1,
        (
          u.batch_id,
          subst
              (λ (w : Machine.World). (submission chk contents w).0 ≡ Machine.Result.ok u.batch_id)
              world1 u.submitted,
        ),
      )
