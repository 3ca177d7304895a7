-- ===== src/Jobs/FileXfr/Infiled/Kept.antt =====
-- No watched file is lost by being processed.
use alya.Prelude.{
  Option, none, some, String, Bool, true, false, ◌≡◌, ◌⊎◌, inl, inr, refl, sym, ap, ◌∙◌, arith,
  str_eq_refl, if◌then◌else◌, leb, ◌+◌, ◌*◌,
}
use mathlib.Core.Path.{subst}
use alya.Prelude.Result.{Result, ok, err}
use alya.Jobs.FileXfr.Defs.{XfrEnv, Site, Object, FileXfrServer, pure, transfer, TransferError}
use alya.Jobs.FileXfr.Server.{bulkfilein_process}
use alya.Jobs.FileXfr.Server.Submitted.{IsSubmitted, bulkfilein_process-IsSubmitted}
use alya.Jobs.FileXfr.Frame.{move_object-KeepsFiles, bulkfilein_process-KeepsFiles}
use alya.Jobs.FileXfr.Infiled.{
  InfiledConfig, is_file_old_enough, store_file_in_incoming_bucket, empty_context, after_processing,
  process_stored, process_old, process_file,
}

module _ (env : XfrEnv) (fxs : FileXfrServer) (config : InfiledConfig)
    (path file_type : String) where
  -- A file that is gone: its contents are in the incoming bucket, and a batch was submitted for them
  -- and recorded; `u` is the site before the processing.
  pub record IsTaken (contents : String) (s : Site) (r : Result TransferError (Unit {0})) (t : Site)
      : Type 0 where
    pub done : r ≡ ok tt
    pub gone : t.files path ≡ none
    pub o : Object
    pub stored : t.objects fxs.config.incoming_bucket (env.base_name path) ≡ some o
    pub same : o.contents ≡ contents
    pub u : Site
    pub before_world : u.world ≡ s.world
    pub before_rows : u.batch_files ≡ s.batch_files
    pub after : Site
    pub batch_id : String
    pub submitted :
        IsSubmitted env fxs
          (env.base_name path)
          (env.base_name path)
          file_type
          (empty_context env fxs config)
          u
          after
          batch_id
    pub read : submitted.o.contents ≡ contents
    pub world : t.world ≡ after.world
    pub batch_files : t.batch_files ≡ after.batch_files

  abbrev pub Safe : String → Site → Result TransferError (Unit {0}) × Site → Type 0
  Safe contents s (r, t) = (t.files path ≡ some contents) ⊎ IsTaken contents s r t

  pub store_file_lem :
      (s : Site) (contents : String)
      → s.files path ≡ some contents
      → let (r, t) = store_file_in_incoming_bucket env fxs config path s in
        (t.files ≡ s.files)
        × (t.world ≡ s.world)
        × (t.batch_files ≡ s.batch_files)
        × ((id : String)
            → r ≡ ok id
            → (id ≡ env.base_name path)
              × (t.objects fxs.config.incoming_bucket (env.base_name path)
                  ≡ some
                      (record { contents = contents; content_type = "application/octet-stream" })))
  unfolding store_file_in_incoming_bucket transfer
  store_file_lem s contents here = (
    ground arith,
    ground arith,
    ground arith,
    λ id e.
        ground (arith, str_eq_refl fxs.config.incoming_bucket, str_eq_refl (env.base_name path)),
  )

  after_failure :
      (id : String) (e : TransferError) (t : Site)
      → (after_processing env fxs config path id (err e) t).1.files ≡ t.files
  unfolding transfer
  after_failure id e t = (move_object-KeepsFiles env fxs id).same t

  after_success :
      (id batch_id : String) (t : Site)
      → let (r, t') = after_processing env fxs config path id (ok batch_id) t in
        (t'.objects ≡ t.objects)
        × (t'.world ≡ t.world)
        × (t'.batch_files ≡ t.batch_files)
        × ((t'.files ≡ t.files) ⊎ ((r ≡ ok tt) × (t'.files path ≡ none)))
  unfolding transfer
  after_success id batch_id t = ground (arith, str_eq_refl path)

  process_stored-Safe :
      (contents : String) (start s : Site) (o : Object)
      → s.world ≡ start.world
      → s.batch_files ≡ start.batch_files
      → s.files path ≡ some contents
      → s.objects fxs.config.incoming_bucket (env.base_name path) ≡ some o
      → o.contents ≡ contents
      → Safe contents start (process_stored env fxs config path file_type (env.base_name path) s)
  unfolding process_stored
  process_stored-Safe contents start s o w0 b0 here there same = go (run s).0 refl
    where
      run : Site → Result TransferError String × Site
      run =
          bulkfilein_process env fxs (env.base_name path) (env.base_name path) file_type
            (empty_context env fxs config) true

      kept : (run s).1.files ≡ s.files
      kept =
          (bulkfilein_process-KeepsFiles env fxs (env.base_name path) (env.base_name path) file_type
              (empty_context env fxs config) true).same
            s

      same_object :
          {a b : Object}
          → s.objects fxs.config.incoming_bucket (env.base_name path) ≡ some a
          → s.objects fxs.config.incoming_bucket (env.base_name path) ≡ some b
          → a ≡ b
      same_object p q = cc

      go :
          (r : Result TransferError String)
          → (run s).0 ≡ r
          → Safe contents start
              (after_processing env fxs config path (env.base_name path) r (run s).1)
      go (err e) done = inl (
          ap (λ (f : String → Option String). f path)
            (after_failure (env.base_name path) e (run s).1 ∙ kept)
          ∙ here)
      go (ok batch_id) done =
          let v =
            bulkfilein_process-IsSubmitted env fxs (env.base_name path) (env.base_name path)
              file_type (empty_context env fxs config) s batch_id done in
          let (objects, world, rows, files) =
            after_success (env.base_name path) batch_id (run s).1 in
          elim files [
            | inl f ↦ inl (ap (λ (f : String → Option String). f path) (f ∙ kept) ∙ here)
            | inr (fine, gone) ↦ inr (record {
              done = fine;
              gone = gone;
              o = o;
              stored =
                  ap
                    (λ (os : String → String → Option Object).
                      os fxs.config.incoming_bucket (env.base_name path))
                    (objects ∙ v.objects)
                  ∙ there;
              same = same;
              u = s;
              before_world = w0;
              before_rows = b0;
              after = (run s).1;
              batch_id = batch_id;
              submitted = v;
              read = ap (λ (x : Object). x.contents) (same_object v.there there) ∙ same;
              world = world;
              batch_files = rows;
            })
          ]

  process_old-Safe :
      (contents : String) (s : Site)
      → s.files path ≡ some contents
      → Safe contents s (process_old env fxs config path file_type s)
  unfolding process_old transfer
  process_old-Safe contents s here = go (store s).0 refl
    where
      store : Site → Result TransferError String × Site
      store = store_file_in_incoming_bucket env fxs config path

      go :
          (r : Result TransferError String)
          → (store s).0 ≡ r
          → Safe contents s (elim r as (λ x. Result TransferError (Unit {0}) × Site) [
            | ok id ↦ process_stored env fxs config path file_type id (store s).1
            | err e ↦ (err e, (store s).1)
          ])
      go (err e) done =
          inl
            (ap (λ (f : String → Option String). f path) (store_file_lem s contents here).0 ∙ here)
      go (ok id) done =
          let (files, world, rows, put) = store_file_lem s contents here in
          let (is, there) = put id done in
          subst
            (λ (i : String).
              Safe contents s (process_stored env fxs config path file_type i (store s).1))
            (sym is)
            (process_stored-Safe contents s (store s).1
              (record { contents = contents; content_type = "application/octet-stream" }) world rows
              (ap (λ (f : String → Option String). f path) files ∙ here) there refl)

  -- Whatever fails while a watched file is processed: either the file is where it was, with its
  -- contents, or it has been removed and the processing has succeeded; then its contents are in the
  -- incoming bucket under its base name, and the batch that its type's check made of them has been
  -- submitted and recorded with the object, and nothing else in the service's world or in the batch
  -- files has changed.
  pub process_file-Safe :
      (contents : String) (s : Site)
      → s.files path ≡ some contents
      → Safe contents s (process_file env fxs config path file_type s)
  unfolding process_file is_file_old_enough transfer
  process_file-Safe contents s here = go old
    where
      old : Bool
      old = elim (env.mod_time s.calls path) [
        | none ↦ false
        | some t ↦ leb (config.file_age_secs * 1000000000 + t) (env.clock s.calls)
      ]

      go :
          (b : Bool)
          → Safe contents s ((if b then process_old env fxs config path file_type else pure tt) s)
      go true = process_old-Safe contents s here
      go false = inl here
