-- ===== src/Restutils/Rules.antt =====
-- The validator of restutils/validate.go: the rules by which a field error of go-playground/validator
-- becomes a REST field error. A map is a list of its entries; a nil map of values is an empty one.
mod Precedence
mod Complete
mod Tests
use alya.Prelude.{
  ℕ, ◌+◌, List, [], ◌∷◌, Option, none, some, String, Bool, true, false, str_eq, str_append, map,
  slice, len, if◌then◌else◌,
}
use alya.Prelude.Int.{ℤ, pos, is_zero}
use alya.Wscutils.Messages.{
  ValidationError, Kind, string_kind, array_kind, slice_kind, map_kind, other_kind, Verdict, valid,
  failed, not_validated, find_text,
}
use alya.Restutils.Types.{FieldError, new_field_error}
use package.text.Mathlib.Text.{find?}

pub record ValidationRule : Type 0 where
  pub msg_id : ℤ
  pub err_code : String
  pub get_vals : Option (ValidationError → List String)
  pub get_message : Option (ValidationError → String)
  pub get_params : Option (ValidationError → List (String × String))

abbrev pub TagRules : Type 0
TagRules = List (String × ValidationRule)

pub record ValidatorConfig : Type 0 where
  pub tag_rules : TagRules
  pub field_rules : List (String × TagRules)
  pub default_rule : Option ValidationRule

abbrev pub fallback_validation_rule : ValidationRule
fallback_validation_rule = record {
  msg_id = pos 104;
  err_code = "invalid";
  get_vals = none;
  get_message = some (λ e. e.text);
  get_params = none;
}

-- A rule with a fixed message, and one that tells the tag's parameter.
abbrev fixed : ℕ → String → String → ValidationRule
fixed id code text = record {
  msg_id = pos id;
  err_code = code;
  get_vals = none;
  get_message = some (λ e. text);
  get_params = none;
}

abbrev telling : ℕ → String → String → (ValidationError → String) → ValidationRule
telling id code name text = record {
  msg_id = pos id;
  err_code = code;
  get_vals = some (λ e. e.param ∷ []);
  get_message = some text;
  get_params = some (λ e. (name, e.param) ∷ []);
}

abbrev pub is_length_rule : Kind → Bool
is_length_rule string_kind = true
is_length_rule array_kind = true
is_length_rule slice_kind = true
is_length_rule map_kind = true
is_length_rule other_kind = false

abbrev bound_text : String → ValidationError → String
bound_text words e = str_append words e.param

abbrev length_text : String → ValidationError → String
length_text words e =
    if is_length_rule e.kind
    then str_append (bound_text words e) " characters"
    else bound_text words e

unfoldable pub default_tag_rules : TagRules
default_tag_rules =
    ("required", fixed 45 "missing" "is required")
    ∷ ("email", fixed 101 "datafmt" "must be a valid email address")
    ∷ ("uuid", fixed 101 "datafmt" "has an invalid format")
    ∷ ("e164", fixed 101 "datafmt" "has an invalid format")
    ∷ ("alphanum", fixed 101 "datafmt" "has an invalid format")
    ∷ ("oneof", telling 104 "invalid" "allowed" (λ e. "has an invalid value"))
    ∷ ("min", telling 102 "toosmall" "min" (length_text "must be at least "))
    ∷ ("max", telling 103 "toobig" "max" (length_text "must be at most "))
    ∷ ("gte", telling 102 "toosmall" "min" (bound_text "must be at least "))
    ∷ ("lte", telling 103 "toobig" "max" (bound_text "must be at most "))
    ∷ []

abbrev pub or_else {ℓ} : {A : Type ℓ} → Option A → Option A → Option A
or_else none d = d
or_else (some a) d = some a

unfoldable pub merge_validation_rule : ValidationRule → ValidationRule → ValidationRule
merge_validation_rule base override = record {
  msg_id = if is_zero override.msg_id then base.msg_id else override.msg_id;
  err_code = if str_eq override.err_code "" then base.err_code else override.err_code;
  get_vals = or_else override.get_vals base.get_vals;
  get_message = or_else override.get_message base.get_message;
  get_params = or_else override.get_params base.get_params;
}

unfoldable pub field_rule_for : List (String × TagRules) → String → String → Option ValidationRule
field_rule_for rules field tag = elim (find_text field rules) [
  | none ↦ none
  | some tag_map ↦ find_text tag tag_map
]

-- A rule that is there overrides; the flag tells that one was.
abbrev pub override_by : Option ValidationRule → ValidationRule × Bool → ValidationRule × Bool
override_by none r = r
override_by (some rule) (base, matched) = (merge_validation_rule base rule, true)

abbrev pub default_unless : Bool → Option ValidationRule → ValidationRule → ValidationRule
default_unless true d rule = rule
default_unless false none rule = rule
default_unless false (some d) rule = merge_validation_rule rule d

-- The namespace without its first part: what stands after the first dot, if there is one.
unfoldable pub namespace_without_root : String → String
namespace_without_root namespace = elim (find? namespace ".") [
  | none ↦ namespace
  | some i ↦ slice namespace (i + 1) (len namespace)
]

abbrev pub field_of : ValidationError → String
field_of e =
    let field = namespace_without_root e.namespace in if str_eq field "" then e.field else field

abbrev pub apply_or : {A : Type 0} → A → Option (ValidationError → A) → ValidationError → A
apply_or d none e = d
apply_or d (some f) e = f e

module _ (v : ValidatorConfig) where
  unfoldable pub resolve_rule : String → String → ValidationRule
  resolve_rule field tag =
      let (rule, matched) = override_by (field_rule_for v.field_rules field tag) (
        override_by (find_text tag v.tag_rules)
          (override_by (find_text tag default_tag_rules) (fallback_validation_rule, false))) in
      default_unless matched v.default_rule rule

  unfoldable pub to_field_error : ValidationError → FieldError
  to_field_error e =
      let rule = resolve_rule (field_of e) e.tag in
      new_field_error rule.msg_id rule.err_code (field_of e) (apply_or [] rule.get_params e)
        (apply_or "" rule.get_message e) (apply_or [] rule.get_vals e)

  unfoldable pub validate : Verdict → List FieldError
  validate valid = []
  validate (failed errors) = map to_field_error errors
  validate (not_validated text) = new_field_error (pos 104) "invalid" "" [] text [] ∷ []

-- NewValidator.
abbrev pub no_config : ValidatorConfig
no_config = record { tag_rules = []; field_rules = []; default_rule = none }
