-- ===== src/Restutils/Types.antt =====
-- The types of restutils/types.go. A problem's `Meta`, which no function sets, is left out.
use alya.Prelude.{ℕ, List, Option, none, some, String, str_eq, if◌then◌else◌}
use alya.Prelude.Int.{ℤ}
use alya.Wscutils.Messages.{ErrorMessage, build_error_message}

pub record FieldError : Type 0 where
  pub error_message : ErrorMessage
  pub message : String
  pub params : List (String × String)

pub record Problem : Type 0 where
  pub type_uri : String
  pub title : String
  pub status : ℕ
  pub detail : String
  pub instance_path : String
  pub trace_id : String
  pub errors : List FieldError

pub data BindErrorKind : Type 0 where
  empty_body : BindErrorKind
  invalid_content_type : BindErrorKind
  malformed_json : BindErrorKind
  unknown_field : BindErrorKind
  invalid_value : BindErrorKind

pub record BindError : Type 0 where
  pub kind : BindErrorKind
  pub field : String
  pub detail : String

abbrev pub kind_text : BindErrorKind → String
kind_text empty_body = "empty_body"
kind_text invalid_content_type = "invalid_content_type"
kind_text malformed_json = "malformed_json"
kind_text unknown_field = "unknown_field"
kind_text invalid_value = "invalid_value"

-- `Error` of a *BindError, which may be nil.
abbrev pub bind_error_text : Option BindError → String
bind_error_text none = ""
bind_error_text (some e) = if str_eq e.detail "" then kind_text e.kind else e.detail

abbrev pub new_field_error :
    ℤ → String → String → List (String × String) → String → List String → FieldError
new_field_error msg_id err_code field params message vals = record {
  error_message = build_error_message msg_id err_code field vals;
  message = message;
  params = params;
}
