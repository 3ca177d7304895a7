-- ===== src/Jobs/Worker/Process/Settles.antt =====
-- The processing of a row of a batch job, in every case.
use alya.Prelude.{ℕ, List, [], ◌∷◌, Option, some, none, String, true, ◌≡◌}
use alya.Jobs.Status.{StatusEnum}
use alya.Jobs.Types.{JsonStr, JobResult, new_json_str}
use alya.Jobs.Db.{Db}
use alya.Jobs.Queries.{FetchBlockOfRowsRow, update_batch_rows_batch_job}
use alya.Jobs.Machine.{Env}
use alya.Jobs.Worker.Process.{processor_key}

module _ (env : Env) (d : Db) where
  -- The text of a list: NULL for the empty one.
  abbrev pub IsText : {A : Type 0} → (List A → Option String) → List A → Option String → Type 0
  IsText marshal [] text = text ≡ none
  IsText marshal (x ∷ xs) text = marshal (x ∷ xs) ≡ text × ((json : String) × (text ≡ some json))

  -- The row of this number has what the processor returned, the time, and no `doneby`.
  abbrev pub Written : ℕ → JobResult → Db → Type 0
  Written rowid (status, result, messages, blob_rows) d' =
      (t : ℕ) × (messages_text : Option String) × (blob_rows_text : Option String) × IsText
        env.marshal_messages messages messages_text
      × IsText env.marshal_files blob_rows blob_rows_text
      × (d'
          ≡ update_batch_rows_batch_job rowid status (some t) (some result.value) blob_rows_text
              messages_text none d)

  -- What a success tells: the app and op have a processor, the row's context and input are JSON,
  -- the processor ran on them and on the line, once, and the row has what it returned.
  abbrev pub Ran : FetchBlockOfRowsRow → StatusEnum → Db → Type 0
  Ran row status d' =
      (env.has_batch_processor (processor_key env row) ≡ true)
      × (context : JsonStr) × (input : JsonStr) × (n : ℕ) × (r : JobResult) × (new_json_str
            env.is_json row.context
          ≡ some context)
      × (new_json_str env.is_json row.input ≡ some input)
      × (env.do_batch_job (processor_key env row) context row.line input n ≡ some r)
      × (status ≡ r.0)
      × Written row.rowid r d'
