-- ===== src/Jobs/Summary/OutputFiles.antt =====
-- The output files of a batch: the text that its rows leave in `blobrows`, gathered by logical file
-- (jobs/batchsummary.go). The temporary files are a list of names and contents; the pairs of one
-- row's JSON object come in the order in which Go's map yields them.
use alya.Prelude.{
  List, [], ◌∷◌, ◌++◌, Option, some, none, String, Bool, false, not, ◌&&◌, if◌then◌else◌, any_if,
  str_eq, str_append,
}
use alya.Jobs.Types.{Files, Blob, text, null, other}
use alya.Jobs.Db.{BatchRow}
use alya.Jobs.Machine.{Env, M, ◌>>=◌, ◌>>◌, pure, or_throw, call, ok, bad_json, io_error}

-- `content != ""` on a decoded JSON value.
abbrev pub is_blank : Blob → Bool
is_blank (text s) = str_eq s ""
is_blank null = false
is_blank other = false

abbrev pub has_file : String → Files → Bool
has_file name = any_if (λ f. str_eq f.0 name)

-- The bytes of `blobrows`: NULL and the empty text are both of length 0.
abbrev pub blob_json : BatchRow → Option String
blob_json r = elim r.blobrows [ none ↦ none | some s ↦ if str_eq s "" then none else some s ]

-- Two writes to the file of that name.
abbrev pub write_line : String → String → Files → Files
write_line name content [] = []
write_line name content ((n, c) ∷ fs) =
    if str_eq n name
    then (n, str_append c (str_append content "\n")) ∷ fs
    else (n, c) ∷ write_line name content fs

module _ (env : Env) where
  -- The inner loop of `createTemporaryFiles`.
  unfoldable pub create_files : List (String × Blob) → Files → M Files
  create_files [] tmp = pure tmp
  create_files ((name, content) ∷ rest) tmp = do
    let fresh = not (is_blank content) && not (has_file name tmp)
    (if fresh then call env io_error else pure tt)
    create_files rest (if fresh then tmp ++ (name, "") ∷ [] else tmp)

  unfoldable pub create_for_row : Option String → Files → M Files
  create_for_row none tmp = pure tmp
  create_for_row (some s) tmp = do
    blobs ← or_throw (env.unmarshal_blobs s) bad_json
    create_files blobs tmp

  unfoldable pub create_temporary_files : List BatchRow → Files → M Files
  create_temporary_files [] tmp = pure tmp
  create_temporary_files (r ∷ rs) tmp = do
    tmp' ← create_for_row (blob_json r) tmp
    create_temporary_files rs tmp'

  -- Decoding into a map of strings: `null` leaves an empty text, any other value is an error.
  abbrev pub as_strings : List (String × Blob) → Option (List (String × String))
  as_strings [] = some []
  as_strings ((name, text s) ∷ rest) = elim (as_strings rest) [
    | none ↦ none
    | some l ↦ some ((name, s) ∷ l)
  ]
  as_strings ((name, null) ∷ rest) = elim (as_strings rest) [
    | none ↦ none
    | some l ↦ some ((name, "") ∷ l)
  ]
  as_strings ((name, other) ∷ rest) = none

  -- The inner loop of `appendBlobRowsToFiles`.
  unfoldable pub append_files : List (String × String) → Files → M Files
  append_files [] tmp = pure tmp
  append_files ((name, content) ∷ rest) tmp = do
    let line = env.trim_space content
    let writes = not (str_eq line "") && has_file name tmp
    (if writes then (call env io_error >> call env io_error) else pure tt)
    append_files rest (if writes then write_line name line tmp else tmp)

  unfoldable pub append_for_row : Option String → Files → M Files
  append_for_row none tmp = pure tmp
  append_for_row (some s) tmp = do
    blobs ← or_throw (env.unmarshal_blobs s) bad_json
    strings ← or_throw (as_strings blobs) bad_json
    append_files strings tmp

  unfoldable pub append_blob_rows_to_files : List BatchRow → Files → M Files
  append_blob_rows_to_files [] tmp = pure tmp
  append_blob_rows_to_files (r ∷ rs) tmp = do
    tmp' ← append_for_row (blob_json r) tmp
    append_blob_rows_to_files rs tmp'

  -- Opening the file, reading its size, and the upload.
  unfoldable pub move_to_object_store : String → M String
  move_to_object_store content = do
    call env io_error
    call env io_error
    call env io_error
    λ w.
        let name = env.object_name w.calls in
        (ok name, record w { objects = w.objects ++ (name, content) ∷ [] })

  unfoldable pub move_files_to_object_store : Files → M Files
  move_files_to_object_store [] = pure []
  move_files_to_object_store ((name, content) ∷ rest) = do
    object_id ← move_to_object_store content
    moved ← move_files_to_object_store rest
    pure ((name, object_id) ∷ moved)

  -- `json.Unmarshal` of the record's own output files, whose result is not used.
  unfoldable pub check_output_files : Option String → M (Unit {0})
  check_output_files none = pure tt
  check_output_files (some s) = do files ← or_throw (env.unmarshal_files s) bad_json; pure tt
