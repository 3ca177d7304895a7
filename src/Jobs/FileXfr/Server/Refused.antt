-- ===== src/Jobs/FileXfr/Server/Refused.antt =====
-- What processing does to the service where no batch comes of it, and where one is left behind.
use alya.Prelude.{ℕ, ◌+◌, some, String, true, false, ◌≡◌, arith, Option-cases, inl, inr}
use alya.Prelude.Result.{err}
use alya.Jobs.Machine
use alya.Jobs.Types.{JsonStr}
use alya.Jobs.Batch.{batch_submit}
use alya.Jobs.FileXfr.Defs.{
  XfrEnv, Site, Object, FileChk, FileVerdict, FileXfrServer, transfer, insert_error,
}
use alya.Jobs.FileXfr.Server.{
  find_chk, record_batch_file, move_object_to_failed_bucket, refuse, submit_file, process_contents,
  bulkfilein_process,
}

module _ (env : XfrEnv) (fxs : FileXfrServer) where
  abbrev SameService : Site → Site → Type 0
  SameService s t = (t.world ≡ s.world) × (t.batch_files ≡ s.batch_files)

  pub move_object_same :
      (id : String) (s : Site) → SameService s (move_object_to_failed_bucket env fxs id s).1
  unfolding move_object_to_failed_bucket transfer
  move_object_same id s = ground arith

  refuse_same : (id : String) (s : Site) → SameService s (refuse env fxs (some id) s).1
  unfolding refuse transfer
  refuse_same id s = ground (arith, move_object_same id s)

  -- No check that is registered for the type finds the contents good.
  abbrev pub IsRefused : String → String → String → JsonStr → Type 0
  IsRefused contents filename filetype ctx =
      (chk : FileChk)
      → find_chk filetype fxs.file_chk_map ≡ some chk
      → (chk contents filename ctx).is_good ≡ false

  process_contents_refused :
      (id contents filename filetype : String) (ctx : JsonStr) (s : Site)
      → IsRefused contents filename filetype ctx
      → SameService s (process_contents env fxs (some id) contents filename filetype ctx s).1
  unfolding process_contents transfer
  process_contents_refused id contents filename filetype ctx s bad =
      elim (Option-cases (find_chk filetype fxs.file_chk_map)) [
        | inl unknown ↦ ground arith
        | inr (chk, known) ↦
            let verdict = bad chk known in let left = refuse_same id s in ground arith
      ]

  pub bulkfilein_process_refused :
      (id filename filetype : String) (ctx : JsonStr) (s : Site) (o : Object)
      → s.objects fxs.config.incoming_bucket id ≡ some o
      → IsRefused o.contents filename filetype ctx
      → SameService s (bulkfilein_process env fxs id filename filetype ctx true s).1
  unfolding bulkfilein_process transfer
  bulkfilein_process_refused id filename filetype ctx s o there bad =
      let rest =
        process_contents_refused id o.contents filename filetype ctx
          (record s { calls = s.calls + 1 }) bad in
      ground arith

  submit_file_unrecorded :
      (id contents filename batch_id : String) (v : FileVerdict) (uuid : ℕ) (s : Site)
      → (batch_submit env.jobs v.app v.op v.batchctx v.batch_input false s.world).0
        ≡ Machine.Result.ok batch_id
      → env.jobs.parse_uuid batch_id ≡ some uuid
      → env.fails s.calls ≡ true
      → let (r, t) = submit_file env fxs (some id) contents filename v s in
        (r ≡ err insert_error)
        × (t.world ≡ (batch_submit env.jobs v.app v.op v.batchctx v.batch_input false s.world).1)
  unfolding submit_file record_batch_file transfer
  submit_file_unrecorded id contents filename batch_id v uuid s h p f = ground arith

  -- The record of the file cannot be written: the batch is submitted all the same.
  pub bulkfilein_process_unrecorded :
      (id filename filetype batch_id : String) (ctx : JsonStr) (uuid : ℕ) (s : Site) (o : Object)
      (chk : FileChk)
      → s.objects fxs.config.incoming_bucket id ≡ some o
      → find_chk filetype fxs.file_chk_map ≡ some chk
      → let v = chk o.contents filename ctx in
        let submit = batch_submit env.jobs v.app v.op v.batchctx v.batch_input false s.world in
        v.is_good ≡ true
        → submit.0 ≡ Machine.Result.ok batch_id
        → env.jobs.parse_uuid batch_id ≡ some uuid
        → env.fails s.calls ≡ false
        → env.fails (s.calls + 1) ≡ true
        → let (r, t) = bulkfilein_process env fxs id filename filetype ctx true s in
          (r ≡ err insert_error) × (t.world ≡ submit.1)
  unfolding bulkfilein_process process_contents transfer
  bulkfilein_process_unrecorded id filename filetype batch_id ctx uuid s o chk there known good h p
        f g =
      let rest =
        submit_file_unrecorded id o.contents filename batch_id (chk o.contents filename ctx) uuid
          (record s { calls = s.calls + 1 }) h p g in
      ground arith
