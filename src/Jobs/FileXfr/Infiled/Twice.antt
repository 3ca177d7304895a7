-- ===== src/Jobs/FileXfr/Infiled/Twice.antt =====
-- A batch that is submitted of a file which then stays.
use alya.Prelude.{
  ℕ, ◌+◌, ◌*◌, Option, some, String, true, false, ◌≡◌, refl, sym, ap, ◌∙◌, arith, str_eq_refl, leb,
}
use mathlib.Core.Path.{subst}
use alya.Prelude.Result.{Result, ok, err}
use alya.Jobs.Machine
use alya.Jobs.Types.{JsonStr}
use alya.Jobs.Batch.{batch_submit}
use alya.Jobs.FileXfr.Defs.{
  XfrEnv, Site, Object, FileChk, FileXfrServer, put_object, transfer, TransferError, insert_error,
}
use alya.Jobs.FileXfr.Server.{find_chk, bulkfilein_process}
use alya.Jobs.FileXfr.Server.Refused.{move_object_same, bulkfilein_process_unrecorded}
use alya.Jobs.FileXfr.Frame.{move_object-KeepsFiles, bulkfilein_process-KeepsFiles}
use alya.Jobs.FileXfr.Infiled.{
  InfiledConfig, is_file_old_enough, store_file_in_incoming_bucket, empty_context, after_processing,
  process_stored, process_old, process_file,
}

module _ (env : XfrEnv) (fxs : FileXfrServer) (config : InfiledConfig)
    (path file_type : String) where
  abbrev name : String
  name = env.base_name path

  abbrev ctx : JsonStr
  ctx = empty_context env fxs config

  abbrev stored_object : String → Object
  stored_object contents = record { contents = contents; content_type = "application/octet-stream" }

  -- The site when the file is in the incoming bucket.
  abbrev stored_site : String → Site → Site
  stored_site contents s = record s {
    objects = put_object fxs.config.incoming_bucket name (stored_object contents) s.objects;
    calls = s.calls + 1 + 1;
  }

  store_file_up :
      (contents : String) (s : Site)
      → s.files path ≡ some contents
      → env.fails s.calls ≡ false
      → env.fails (s.calls + 1) ≡ false
      → store_file_in_incoming_bucket env fxs config path s ≡ (ok name, stored_site contents s)
  unfolding store_file_in_incoming_bucket transfer
  store_file_up contents s here f0 f1 = ground arith

  after_insert_error :
      (u s : Site) (w : Machine.World)
      → u.files ≡ s.files
      → u.world ≡ w
      → let (r, t) = after_processing env fxs config path name (err insert_error) u in
        (r ≡ err insert_error) × (t.files path ≡ s.files path) × (t.world ≡ w)
  unfolding transfer
  after_insert_error u s w kept is = (
    refl,
    ap (λ (g : String → Option String). g path)
        ((move_object-KeepsFiles env fxs name).same u ∙ kept),
    (move_object_same env fxs name u).0 ∙ is,
  )

  process_stored_unrecorded :
      (contents batch_id : String) (uuid : ℕ) (s : Site) (chk : FileChk)
      → s.objects fxs.config.incoming_bucket name ≡ some (stored_object contents)
      → find_chk file_type fxs.file_chk_map ≡ some chk
      → let v = chk contents name ctx in
        let submit = batch_submit env.jobs v.app v.op v.batchctx v.batch_input false s.world in
        v.is_good ≡ true
        → submit.0 ≡ Machine.Result.ok batch_id
        → env.jobs.parse_uuid batch_id ≡ some uuid
        → env.fails s.calls ≡ false
        → env.fails (s.calls + 1) ≡ true
        → let (r, t) = process_stored env fxs config path file_type name s in
          (r ≡ err insert_error) × (t.files path ≡ s.files path) × (t.world ≡ submit.1)
  unfolding process_stored
  process_stored_unrecorded contents batch_id uuid s chk there known good h p f g =
      let (e, w) =
        bulkfilein_process_unrecorded env fxs name name file_type batch_id ctx uuid s
          (stored_object contents) chk there known good h p f g in
      let kept = (bulkfilein_process-KeepsFiles env fxs name name file_type ctx true).same s in
      let v = chk contents name ctx in
      let submit = batch_submit env.jobs v.app v.op v.batchctx v.batch_input false s.world in
      subst
        (λ (r : Result TransferError String).
          let (r', t) =
            after_processing env fxs config path name r
              (bulkfilein_process env fxs name name file_type ctx true s).1 in
          (r' ≡ err insert_error) × (t.files path ≡ s.files path) × (t.world ≡ submit.1))
        (sym e)
        (after_insert_error (bulkfilein_process env fxs name name file_type ctx true s).1 s submit.1
          kept w)

  stored_there :
      (contents : String) (s : Site)
      → (stored_site contents s).objects fxs.config.incoming_bucket name
        ≡ some (stored_object contents)
  stored_there contents s = ground (arith, str_eq_refl fxs.config.incoming_bucket, str_eq_refl name)

  process_file_stored :
      (contents : String) (t : ℕ) (s : Site)
      → s.files path ≡ some contents
      → env.mod_time s.calls path ≡ some t
      → leb (config.file_age_secs * 1000000000 + t) (env.clock s.calls) ≡ true
      → env.fails s.calls ≡ false
      → env.fails (s.calls + 1) ≡ false
      → process_file env fxs config path file_type s
        ≡ process_stored env fxs config path file_type name (stored_site contents s)
  unfolding process_file process_old is_file_old_enough transfer
  process_file_stored contents t s here time old f0 f1 =
      let stored = store_file_up contents s here f0 f1 in ground arith

  -- A watched file that is old enough and that its type's check finds good, of which the batch is
  -- submitted and then the record of the file cannot be written: the processing fails, but the batch
  -- stays submitted and the file where it was.
  pub process_file_unrecorded :
      (contents batch_id : String) (uuid t : ℕ) (s : Site) (chk : FileChk)
      → s.files path ≡ some contents
      → env.mod_time s.calls path ≡ some t
      → leb (config.file_age_secs * 1000000000 + t) (env.clock s.calls) ≡ true
      → find_chk file_type fxs.file_chk_map ≡ some chk
      → let v = chk contents name ctx in
        let submit = batch_submit env.jobs v.app v.op v.batchctx v.batch_input false s.world in
        v.is_good ≡ true
        → submit.0 ≡ Machine.Result.ok batch_id
        → env.jobs.parse_uuid batch_id ≡ some uuid
        → env.fails s.calls ≡ false
        → env.fails (s.calls + 1) ≡ false
        → env.fails (s.calls + 1 + 1) ≡ false
        → env.fails (s.calls + 1 + 1 + 1) ≡ true
        → let (r, t) = process_file env fxs config path file_type s in
          (r ≡ err insert_error) × (t.files path ≡ some contents) × (t.world ≡ submit.1)
  process_file_unrecorded contents batch_id uuid t s chk here time old known good h p f0 f1 f2 f3 =
      let (e, kept, world) =
        process_stored_unrecorded contents batch_id uuid (stored_site contents s) chk
          (stored_there contents s) known good h p f2 f3 in
      let v = chk contents name ctx in
      let submit = batch_submit env.jobs v.app v.op v.batchctx v.batch_input false s.world in
      subst
        (λ (run : Result TransferError (Unit {0}) × Site).
          (run.0 ≡ err insert_error)
          × (run.1.files path ≡ some contents)
          × (run.1.world ≡ submit.1))
        (sym (process_file_stored contents t s here time old f0 f1)) (e, kept ∙ here, world)
