-- ===== src/Jobs/FileXfr/Infiled/Polls.antt =====
-- What the processing of a file that its type refuses changes.
use alya.Prelude.{
  ◌+◌, ◌*◌, Option, none, some, String, Bool, true, false, ◌≡◌, refl, sym, ap, ◌∙◌, if◌then◌else◌,
  leb,
}
use mathlib.Core.Path.{subst}
use alya.Prelude.Result.{Result, ok, err}
use alya.Jobs.Types.{JsonStr}
use alya.Jobs.FileXfr.Defs.{XfrEnv, Site, Object, FileXfrServer, pure, transfer, TransferError}
use alya.Jobs.FileXfr.Server.{bulkfilein_process}
use alya.Jobs.FileXfr.Server.Submitted.{bulkfilein_process-IsSubmitted}
use alya.Jobs.FileXfr.Server.Refused.{IsRefused, move_object_same, bulkfilein_process_refused}
use alya.Jobs.FileXfr.Frame.{move_object-KeepsFiles, bulkfilein_process-KeepsFiles}
use alya.Jobs.FileXfr.Infiled.Kept.{store_file_lem}
use alya.Jobs.FileXfr.Infiled.{
  InfiledConfig, is_file_old_enough, store_file_in_incoming_bucket, empty_context, after_processing,
  process_stored, process_old, process_file,
}

module _ (env : XfrEnv) (fxs : FileXfrServer) (config : InfiledConfig)
    (path file_type : String) where
  abbrev base : String
  base = env.base_name path

  abbrev context : JsonStr
  context = empty_context env fxs config

  -- The file is where it was and the service has not changed.
  abbrev pub Untouched : Site → Site → Type 0
  Untouched s t =
      (t.files path ≡ s.files path) × (t.world ≡ s.world) × (t.batch_files ≡ s.batch_files)

  pub after_error :
      (e : TransferError) (s t : Site)
      → t.files ≡ s.files
      → t.world ≡ s.world
      → t.batch_files ≡ s.batch_files
      → Untouched s (after_processing env fxs config path base (err e) t).1
  unfolding transfer
  after_error e s t f w b =
      let moved = move_object_same env fxs base t in
      let files = (move_object-KeepsFiles env fxs base).same t in
      (ap (λ (g : String → Option String). g path) (files ∙ f), moved.0 ∙ w, moved.1 ∙ b)

  bulk_refused :
      (s : Site) (o : Object)
      → s.objects fxs.config.incoming_bucket base ≡ some o
      → IsRefused env fxs o.contents base file_type context
      → (batch_id : String)
      → (bulkfilein_process env fxs base base file_type context true s).0 ≡ ok batch_id
      → ⊥
  bulk_refused s o there bad batch_id done =
      let v = bulkfilein_process-IsSubmitted env fxs base base file_type context s batch_id done in
      let same : v.o ≡ o = same_object v.there there in
      let no = subst (λ (x : Object). (v.chk x.contents base context).is_good ≡ true) same v.good in
      absurd (contradiction (v.chk o.contents base context).is_good no (bad v.chk v.known))
    where
      same_object :
          {a b : Object}
          → s.objects fxs.config.incoming_bucket base ≡ some a
          → s.objects fxs.config.incoming_bucket base ≡ some b
          → a ≡ b
      same_object p q = cc

      contradiction : (b : Bool) → b ≡ true → b ≡ false → ⊥
      contradiction b p q = cc

  process_stored_refused :
      (s : Site) (o : Object)
      → s.objects fxs.config.incoming_bucket base ≡ some o
      → IsRefused env fxs o.contents base file_type context
      → Untouched s (process_stored env fxs config path file_type base s).1
  unfolding process_stored
  process_stored_refused s o there bad = go (run s).0 refl
    where
      run : Site → Result TransferError String × Site
      run = bulkfilein_process env fxs base base file_type context true

      go :
          (r : Result TransferError String)
          → (run s).0 ≡ r
          → Untouched s (after_processing env fxs config path base r (run s).1).1
      go (ok batch_id) done = absurd (bulk_refused s o there bad batch_id done)
      go (err e) done =
          let (w, b) =
            bulkfilein_process_refused env fxs base base file_type context s o there bad in
          let f = (bulkfilein_process-KeepsFiles env fxs base base file_type context true).same s in
          after_error e s (run s).1 f w b

  abbrev stored_object : String → Object
  stored_object contents = record { contents = contents; content_type = "application/octet-stream" }

  process_old_refused :
      (contents : String) (s : Site)
      → s.files path ≡ some contents
      → IsRefused env fxs contents base file_type context
      → Untouched s (process_old env fxs config path file_type s).1
  unfolding process_old transfer
  process_old_refused contents s here bad = go (store s).0 refl
    where
      store : Site → Result TransferError String × Site
      store = store_file_in_incoming_bucket env fxs config path

      go :
          (r : Result TransferError String)
          → (store s).0 ≡ r
          → Untouched s
              (elim r as (λ x. Result TransferError (Unit {0}) × Site) [
                | ok id ↦ process_stored env fxs config path file_type id (store s).1
                | err e ↦ (err e, (store s).1)
              ]).1
      go (err e) done =
          let (files, world, rows, put) =
            store_file_lem env fxs config path file_type s contents here in
          (ap (λ (g : String → Option String). g path) files, world, rows)
      go (ok id) done =
          let (files, world, rows, put) =
            store_file_lem env fxs config path file_type s contents here in
          let (is, there) = put id done in
          let (f, w, b) = process_stored_refused (store s).1 (stored_object contents) there bad in
          subst
            (λ (i : String).
              Untouched s (process_stored env fxs config path file_type i (store s).1).1)
            (sym is) (f ∙ ap (λ (g : String → Option String). g path) files, w ∙ world, b ∙ rows)

  pub process_file_refused :
      (contents : String) (s : Site)
      → s.files path ≡ some contents
      → IsRefused env fxs contents base file_type context
      → Untouched s (process_file env fxs config path file_type s).1
  unfolding process_file is_file_old_enough transfer
  process_file_refused contents s here bad = go old
    where
      old : Bool
      old = elim (env.mod_time s.calls path) [
        | none ↦ false
        | some t ↦ leb (config.file_age_secs * 1000000000 + t) (env.clock s.calls)
      ]

      go :
          (b : Bool)
          → Untouched s ((if b then process_old env fxs config path file_type else pure tt) s).1
      go true = process_old_refused contents s here bad
      go false = (refl, refl, refl)
