-- ===== src/Jobs/FileXfr/Server/Submitted.antt =====
-- What is so when a file has been processed with success.
use alya.Prelude.{
  ◌+◌, ◌∷◌, some, String, true, false, ◌≡◌, refl, sym, arith, Option-cases, Bool-cases, inl, inr,
}
use mathlib.Core.Path.{subst}
use alya.Prelude.Result.{Result, ok}
use alya.Jobs.Machine
use alya.Jobs.Types.{JsonStr}
use alya.Jobs.Batch.{batch_submit}
use alya.Jobs.FileXfr.Defs.{
  XfrEnv, Site, Object, BatchFile, FileChk, FileVerdict, FileXfrServer, transfer, TransferError,
}
use alya.Jobs.FileXfr.Server.{
  find_chk, record_batch_file, refuse, submit_file, process_contents, bulkfilein_process,
}

module _ (env : XfrEnv) (fxs : FileXfrServer) where
  -- An object that is processed with success.
  pub record IsSubmitted (object_id filename filetype : String) (batchctx : JsonStr) (s t : Site)
      (batch_id : String) : Type 0 where
    pub o : Object
    pub chk : FileChk
    pub there : s.objects fxs.config.incoming_bucket object_id ≡ some o
    pub known : find_chk filetype fxs.file_chk_map ≡ some chk
    pub good : (chk o.contents filename batchctx).is_good ≡ true
    pub submitted :
        let v = chk o.contents filename batchctx in
        let run = batch_submit env.jobs v.app v.op v.batchctx v.batch_input false s.world in
        (run.0 ≡ Machine.Result.ok batch_id) × (t.world ≡ run.1)
    pub row : BatchFile
    pub recorded : t.batch_files ≡ row ∷ s.batch_files
    pub of_object : row.object_id ≡ object_id
    pub of_size : row.size ≡ env.byte_length o.contents
    pub of_batch : env.jobs.parse_uuid batch_id ≡ some row.batch_id
    pub objects : t.objects ≡ s.objects
    pub files : t.files ≡ s.files

  submit_file_ok :
      (object_id contents filename : String) (v : FileVerdict) (s : Site) {batch_id : String}
      → (submit_file env fxs (some object_id) contents filename v s).0 ≡ ok batch_id
      → let t = (submit_file env fxs (some object_id) contents filename v s).1 in
        let run = batch_submit env.jobs v.app v.op v.batchctx v.batch_input false s.world in
        (run.0 ≡ Machine.Result.ok batch_id)
        × (t.world ≡ run.1)
        × ((row : BatchFile) × (t.batch_files ≡ row ∷ s.batch_files)
            × (row.object_id ≡ object_id)
            × (row.size ≡ env.byte_length contents)
            × (env.jobs.parse_uuid batch_id ≡ some row.batch_id))
        × (t.objects ≡ s.objects)
        × (t.files ≡ s.files)
  unfolding submit_file record_batch_file transfer
  submit_file_ok object_id contents filename v s {batch_id} h =
      elim (Option-cases (env.jobs.parse_uuid batch_id)) [
        | inl bad ↦ absurd (ground arith)
        | inr (uuid, parsed) ↦ (
          ground arith,
          ground arith,
          (
            record {
              object_id = object_id;
              size = env.byte_length contents;
              checksum = env.md5_hex object_id;
              received_at = env.clock s.calls;
              status = true;
              batch_id = uuid;
            },
            ground arith,
            refl,
            refl,
            parsed,
          ),
          ground arith,
          ground arith,
        )
      ]

  submit_file-IsSubmitted :
      (object_id filename filetype : String) (batchctx : JsonStr) (s : Site) (batch_id : String)
      (o : Object) (chk : FileChk)
      → s.objects fxs.config.incoming_bucket object_id ≡ some o
      → find_chk filetype fxs.file_chk_map ≡ some chk
      → (chk o.contents filename batchctx).is_good ≡ true
      → let run =
          submit_file env fxs
            (some object_id)
            o.contents
            filename
            (chk o.contents filename batchctx)
            (record s { calls = s.calls + 1 }) in
        run.0 ≡ ok batch_id → IsSubmitted object_id filename filetype batchctx s run.1 batch_id
  submit_file-IsSubmitted object_id filename filetype batchctx s batch_id o chk there known good h =
      let (submitted, world, (row, recorded, r1, r2, r3), objects, files) =
        submit_file_ok object_id o.contents filename (chk o.contents filename batchctx)
          (record s { calls = s.calls + 1 }) h in
      record {
        o = o;
        chk = chk;
        there = there;
        known = known;
        good = good;
        submitted = (submitted, world);
        row = row;
        recorded = recorded;
        of_object = r1;
        of_size = r2;
        of_batch = r3;
        objects = objects;
        files = files;
      }

  refuse_fails :
      (object_id : String) (s : Site) (x : String)
      → (refuse env fxs (some object_id) s).0 ≡ ok x
      → ⊥
  unfolding refuse transfer
  refuse_fails object_id s x h = ground arith

  -- A file in the store that is processed with success: it is in the incoming bucket, a check is
  -- registered for its type and finds it good, and the batch that is submitted is the one that the
  -- check made of it; one batch file is recorded, of this object, its size and this batch; and
  -- neither the object store nor the watched files are changed.
  pub bulkfilein_process-IsSubmitted :
      (object_id filename filetype : String) (batchctx : JsonStr) (s : Site) (batch_id : String)
      → (bulkfilein_process env fxs object_id filename filetype batchctx true s).0 ≡ ok batch_id
      → IsSubmitted object_id filename filetype batchctx s
          (bulkfilein_process env fxs object_id filename filetype batchctx true s).1
          batch_id
  unfolding bulkfilein_process process_contents transfer
  bulkfilein_process-IsSubmitted object_id filename filetype batchctx s batch_id h =
      elim (Bool-cases (env.fails s.calls)) [
        | inl down ↦ absurd (ground arith)
        | inr up ↦ elim (Option-cases (s.objects fxs.config.incoming_bucket object_id)) [
          | inl missing ↦ absurd (ground arith)
          | inr (o, there) ↦ elim (Option-cases (find_chk filetype fxs.file_chk_map)) [
            | inl unknown ↦ absurd (ground arith)
            | inr (chk, known) ↦ elim (Bool-cases (chk o.contents filename batchctx).is_good) [
              | inr bad ↦
                  let ran : (refuse env fxs (some object_id) (record s { calls = s.calls + 1 })).0
                      ≡ ok batch_id =
                    ground arith in
                  absurd (refuse_fails object_id _ batch_id ran)
              | inl good ↦
                  let s' : Site = record s { calls = s.calls + 1 } in
                  let same : bulkfilein_process env fxs object_id filename filetype batchctx true s
                      ≡ submit_file env fxs (some object_id) o.contents filename
                          (chk o.contents filename batchctx) s' =
                    ground arith in
                  subst
                    (λ (r : Result TransferError String × Site).
                      IsSubmitted object_id filename filetype batchctx s r.1 batch_id)
                    (sym same)
                    (submit_file-IsSubmitted object_id filename filetype batchctx s batch_id o chk
                      there known good (ground arith))
            ]
          ]
        ]
      ]
