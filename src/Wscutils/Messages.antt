-- ===== src/Wscutils/Messages.antt =====
-- The messages and responses of wscutils/wscutils.go, and the two validators that make messages
-- (WscValidate, and Validator of wscutils/validator_v2.go). What go-playground/validator says of a
-- value is a parameter.
mod Tests
use alya.Prelude.{ℕ, List, [], ◌∷◌, Option, none, some, String, map, str_eq, if◌then◌else◌}
use alya.Prelude.Int.{ℤ}

pub record ErrorMessage : Type 0 where
  pub msg_id : ℤ
  pub err_code : String
  pub field : String
  pub vals : List String

abbrev pub build_error_message : ℤ → String → String → List String → ErrorMessage
build_error_message msg_id err_code field_name vals = record {
  msg_id = msg_id;
  err_code = err_code;
  field = field_name;
  vals = vals;
}

pub record Response (D : Type 0) : Type 0 where
  pub status : String
  pub content : Option D
  pub messages : List ErrorMessage

abbrev pub new_response : {D : Type 0} → String → Option D → List ErrorMessage → Response D
new_response status content messages = record {
  status = status;
  content = content;
  messages = messages;
}

abbrev pub new_error_response : {D : Type 0} → ℤ → String → Response D
new_error_response msg_id err_code =
    new_response "error" none (build_error_message msg_id err_code "" [] ∷ [])

abbrev pub new_success_response : {D : Type 0} → D → Response D
new_success_response content = new_response "success" (some content) []

-- The kinds of reflect that the messages tell apart.
pub data Kind : Type 0 where
  string_kind : Kind
  array_kind : Kind
  slice_kind : Kind
  map_kind : Kind
  other_kind : Kind

-- A field error of go-playground/validator, and what it says of a value: that it is valid, the field
-- errors, or that it is not to be validated.
pub record ValidationError : Type 0 where
  pub tag : String
  pub namespace : String
  pub field : String
  pub param : String
  pub kind : Kind
  pub text : String

pub data Verdict : Type 0 where
  valid : Verdict
  failed : (errors : List ValidationError) → Verdict
  not_validated : (text : String) → Verdict

abbrev pub find_text {ℓ} : {A : Type ℓ} → String → List (String × A) → Option A
find_text key [] = none
find_text key ((k, v) ∷ rest) = if str_eq k key then some v else find_text key rest

abbrev pub found_or {ℓ} : {A : Type ℓ} → A → Option A → A
found_or d none = d
found_or d (some a) = a

-- The package's variables for WscValidate.
pub record Settings : Type 0 where
  pub tag_to_msg_id : List (String × ℤ)
  pub tag_to_err_code : List (String × String)
  pub default_msg_id : ℤ
  pub default_err_code : String

abbrev pub wsc_message : Settings → (ValidationError → List String) → ValidationError → ErrorMessage
wsc_message s get_vals e =
    build_error_message (found_or s.default_msg_id (find_text e.tag s.tag_to_msg_id))
      (found_or s.default_err_code (find_text e.tag s.tag_to_err_code)) e.field (get_vals e)

unfoldable pub wsc_validate :
    Settings → (ValidationError → List String) → Verdict → List ErrorMessage
wsc_validate s get_vals valid = []
wsc_validate s get_vals (failed errors) = map (wsc_message s get_vals) errors
wsc_validate s get_vals (not_validated text) = []

pub record ValidationRule : Type 0 where
  pub msg_id : ℤ
  pub err_code : String
  pub get_vals : Option (ValidationError → List String)

pub record Validator : Type 0 where
  pub rules : List (String × ValidationRule)
  pub default_rule : ValidationRule

abbrev pub vals_of : Option (ValidationError → List String) → ValidationError → List String
vals_of none e = []
vals_of (some f) e = f e

abbrev pub rule_message : Validator → ValidationError → ErrorMessage
rule_message v e =
    let rule = found_or v.default_rule (find_text e.tag v.rules) in
    build_error_message rule.msg_id rule.err_code e.field (vals_of rule.get_vals e)

unfoldable pub validate : Validator → Verdict → List ErrorMessage
validate v valid = []
validate v (failed errors) = map (rule_message v) errors
validate v (not_validated text) =
    build_error_message v.default_rule.msg_id v.default_rule.err_code "" [] ∷ []
