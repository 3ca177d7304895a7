-- ===== src/Jobs/FileXfr/Frame.antt =====
-- What the functions of the file transfer leave alone.
use alya.Prelude.{
  ℕ, Option, none, some, String, Bool, true, false, ◌≡◌, refl, ◌∙◌, arith, if◌then◌else◌,
}
use alya.Prelude.Result.{Result, ok, err}
use alya.Jobs.Machine.{M}
use alya.Jobs.Types.{JsonStr}
use alya.Jobs.FileXfr.Defs.{
  XfrEnv, Site, Object, BatchFile, FileVerdict, FileXfrServer, T, ◌>>=◌, pure, throw, or_throw,
  log_error, in_service, store_get, store_put, store_delete, insert_batch_file, now, transfer,
  TransferError, file_chk_failed,
}
use alya.Jobs.FileXfr.Server.{
  record_batch_file, move_object_to_failed_bucket, refuse, object_id_of, store_file_contents,
  submit_file, process_contents, bulkfilein_process,
}

-- The watched files are as they were.
pub record KeepsFiles {A : Type 0} (m : T A) : Type 0 where
  pub same : (s : Site) → (m s).1.files ≡ s.files

module _ {A B : Type 0} where
  bind-files :
      (f : A → T B) (r : Result TransferError A) (s t : Site)
      → t.files ≡ s.files
      → ((a : A) → KeepsFiles (f a))
      → (elim r as (λ x. Result TransferError B × Site) [
        | ok a ↦ f a t
        | err e ↦ (err e, t)
      ]).1.files
        ≡ s.files
  bind-files f (ok a) s t h hf = (hf a).same t ∙ h
  bind-files f (err e) s t h hf = h

  bind-KeepsFiles :
      {m : T A} {f : A → T B} → KeepsFiles m → ((a : A) → KeepsFiles (f a)) → KeepsFiles (m >>= f)
  unfolding transfer
  bind-KeepsFiles {m} {f} hm hf = record {
    same = λ s. bind-files f (m s).0 s (m s).1 (hm.same s) hf;
  }

pure-KeepsFiles : {A : Type 0} (a : A) → KeepsFiles (pure a)
unfolding pure
pure-KeepsFiles a = record { same = λ s. refl }

throw-KeepsFiles : {A : Type 0} (e : TransferError) → KeepsFiles (throw {A = A} e)
unfolding throw
throw-KeepsFiles e = record { same = λ s. refl }

or_throw-KeepsFiles : {A : Type 0} (o : Option A) (e : TransferError) → KeepsFiles (or_throw o e)
or_throw-KeepsFiles none e = throw-KeepsFiles e
or_throw-KeepsFiles (some a) e = pure-KeepsFiles a

log_error-KeepsFiles : {A : Type 0} (m : T A) → KeepsFiles m → KeepsFiles (log_error m)
unfolding log_error
log_error-KeepsFiles m h = record { same = h.same }

in_service-KeepsFiles : {A : Type 0} (m : M A) → KeepsFiles (in_service m)
unfolding in_service
in_service-KeepsFiles m = record { same = λ s. refl }

module _ (env : XfrEnv) where
  store_get-KeepsFiles : (bucket id : String) → KeepsFiles (store_get env bucket id)
  unfolding transfer
  store_get-KeepsFiles bucket id = record { same = λ s. ground arith }

  store_put-KeepsFiles : (bucket id : String) (o : Object) → KeepsFiles (store_put env bucket id o)
  unfolding transfer
  store_put-KeepsFiles bucket id o = record { same = λ s. ground arith }

  store_delete-KeepsFiles : (bucket id : String) → KeepsFiles (store_delete env bucket id)
  unfolding transfer
  store_delete-KeepsFiles bucket id = record { same = λ s. ground arith }

  insert_batch_file-KeepsFiles : (row : BatchFile) → KeepsFiles (insert_batch_file env row)
  unfolding transfer
  insert_batch_file-KeepsFiles row = record { same = λ s. ground arith }

  now-KeepsFiles : KeepsFiles (now env)
  unfolding now
  now-KeepsFiles = record { same = λ s. refl }

ruleset files_kept = (
  bind-KeepsFiles, pure-KeepsFiles, throw-KeepsFiles, or_throw-KeepsFiles, log_error-KeepsFiles,
  in_service-KeepsFiles, store_get-KeepsFiles, store_put-KeepsFiles, store_delete-KeepsFiles,
  insert_batch_file-KeepsFiles, now-KeepsFiles,
)

module _ (env : XfrEnv) (fxs : FileXfrServer) where
  pub move_object-KeepsFiles : (id : String) → KeepsFiles (move_object_to_failed_bucket env fxs id)
  unfolding move_object_to_failed_bucket
  move_object-KeepsFiles id = search (files_kept, env) depth 40

  record_batch_file-KeepsFiles :
      (id : String) (size : ℕ) (batch_id : String) (status : Bool)
      → KeepsFiles (record_batch_file env id size batch_id status)
  unfolding record_batch_file
  record_batch_file-KeepsFiles id size batch_id status = search (files_kept, env) depth 40

  refuse-KeepsFiles : (object : Option String) → KeepsFiles (refuse env fxs object)
  unfolding refuse
  refuse-KeepsFiles none = throw-KeepsFiles file_chk_failed
  refuse-KeepsFiles (some id) = search (files_kept, move_object-KeepsFiles) depth 40

  object_id_of-KeepsFiles :
      (object : Option String) (contents filename : String)
      → KeepsFiles (object_id_of env fxs object contents filename)
  unfolding store_file_contents
  object_id_of-KeepsFiles none contents filename = search (files_kept, env) depth 40
  object_id_of-KeepsFiles (some id) contents filename = pure-KeepsFiles id

  submit_file-KeepsFiles :
      (object : Option String) (contents filename : String) (v : FileVerdict)
      → KeepsFiles (submit_file env fxs object contents filename v)
  unfolding submit_file
  submit_file-KeepsFiles object contents filename v =
      search (files_kept, object_id_of-KeepsFiles, record_batch_file-KeepsFiles) depth 40

  process_contents-KeepsFiles :
      (object : Option String) (contents filename filetype : String) (ctx : JsonStr)
      → KeepsFiles (process_contents env fxs object contents filename filetype ctx)
  unfolding process_contents
  process_contents-KeepsFiles object contents filename filetype ctx =
      bind-KeepsFiles (or_throw-KeepsFiles _ _)
        λ chk. go (chk contents filename ctx) (chk contents filename ctx).is_good
    where
      go :
          (v : FileVerdict) (b : Bool)
          → KeepsFiles
              (if b then submit_file env fxs object contents filename v else refuse env fxs object)
      go v true = submit_file-KeepsFiles object contents filename v
      go v false = refuse-KeepsFiles object

  -- Processing a file changes no watched file, whatever fails.
  pub bulkfilein_process-KeepsFiles :
      (file filename filetype : String) (ctx : JsonStr) (is_object_id : Bool)
      → KeepsFiles (bulkfilein_process env fxs file filename filetype ctx is_object_id)
  unfolding bulkfilein_process
  bulkfilein_process-KeepsFiles file filename filetype ctx true =
      search (files_kept, process_contents-KeepsFiles, env) depth 40
  bulkfilein_process-KeepsFiles file filename filetype ctx false =
      process_contents-KeepsFiles none file filename filetype ctx
