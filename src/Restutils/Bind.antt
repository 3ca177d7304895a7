-- ===== src/Restutils/Bind.antt =====
-- BindBody (restutils/bind.go). The JSON decoder is a parameter: it reads one value of a type V from
-- a body and what is left of it; so are the media type parser and the texts of `%d`, `%q` and Trim.
mod Answers
mod Tests
use alya.Prelude.{
  ℕ, List, [], ◌∷◌, Option, none, some, String, Bool, true, false, not, str_eq, str_append,
  starts_with, slice, len, if◌then◌else◌,
}
use alya.Prelude.Int.{ℤ}
use alya.Prelude.Result.{Result, ok, err, ◌>>=◌, ◌>>◌, guard}
use alya.Restutils.Types.{
  BindError, BindErrorKind, empty_body, invalid_content_type, malformed_json, unknown_field,
  invalid_value,
}

-- The errors of the decoder.
pub data DecodeError : Type 0 where
  syntax_error : (offset : ℤ) → DecodeError
  type_error : (field struct_name : String) → DecodeError
  end_of_file : DecodeError
  message : (text : String) → DecodeError

pub record Texts : Type 0 where
  pub decimal : ℤ → String
  pub quoted : String → String
  pub trim_quotes : String → String
  pub parse_media_type : String → Option String

pub record Request (B : Type 0) : Type 0 where
  pub body : Option B
  pub content_type : String

abbrev pub a_bind_error : BindErrorKind → String → String → BindError
a_bind_error kind field detail = record { kind = kind; field = field; detail = detail }

module _ (texts : Texts) where
  open texts use {decimal, quoted, trim_quotes, parse_media_type}

  unfoldable pub is_json : String → Bool
  is_json content_type =
      if str_eq content_type "" then false else elim (parse_media_type content_type) [
        | none ↦ false
        | some media_type ↦ str_eq media_type "application/json"
      ]

  unfoldable pub require_json_content_type : String → Result BindError (Unit {0})
  require_json_content_type content_type =
      guard (is_json content_type)
        (a_bind_error invalid_content_type "" "Content-Type must be application/json")

  abbrev pub wrong_type : String → BindError
  wrong_type field = a_bind_error invalid_value field (
      if str_eq field ""
      then "request body contains a value with the wrong type"
      else str_append "request body contains a value with the wrong type for field " (quoted field))

  unfoldable pub classify_decode_error : DecodeError → BindError
  classify_decode_error (syntax_error offset) =
      a_bind_error malformed_json ""
        (str_append "request body contains malformed JSON at position " (decimal offset))
  classify_decode_error (type_error field struct_name) =
      wrong_type (if str_eq field "" then struct_name else field)
  classify_decode_error end_of_file = a_bind_error empty_body "" "request body is empty"
  classify_decode_error (message text) =
      if starts_with text "json: unknown field "
      then (let field = trim_quotes (slice text (len "json: unknown field ") (len text)) in
          a_bind_error unknown_field field
            (str_append "request body contains unknown field " (quoted field)))
      else a_bind_error malformed_json "" "request body contains malformed JSON"

  module _ {B V : Type 0} (decode : B → Result DecodeError (V × B))
      (decode_any : B → Result DecodeError B) where
    abbrev pub required_body : Option B → Result BindError B
    required_body none = err (a_bind_error empty_body "" "request body is empty")
    required_body (some b) = ok b

    abbrev pub decoded : B → Result BindError (V × B)
    decoded b = elim (decode b) [ ok r ↦ ok r | err e ↦ err (classify_decode_error e) ]

    -- The second value must be missing.
    abbrev pub at_end : B → Bool
    at_end b = elim (decode_any b) [
      | ok rest ↦ false
      | err e ↦ elim e [ end_of_file ↦ true | _ ↦ false ]
    ]

    unfoldable pub bind_body : Request B → Result BindError V
    bind_body request = do
      body ← required_body request.body
      require_json_content_type request.content_type
      value ← decoded body
      guard (at_end value.1)
          (a_bind_error malformed_json "" "request body must contain a single JSON object")
      ok value.0
