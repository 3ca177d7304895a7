-- ===== src/Restutils/Rules/Precedence.antt =====
-- Which rule gives each part of a field error.
use alya.Prelude.{
  List, [], ◌∷◌, ◌++◌, Option, none, some, String, false, str_eq, ◌≡◌, refl, arith, if◌then◌else◌,
}
use alya.Prelude.Int.{ℤ, pos, is_zero}
use alya.Wscutils.Messages.{ValidationError, find_text}
use alya.Restutils.Rules.{
  ValidationRule, ValidatorConfig, fallback_validation_rule, default_tag_rules, or_else,
  merge_validation_rule, field_rule_for, override_by, default_unless, resolve_rule,
}

abbrev present {ℓ} : {A : Type ℓ} → Option A → List A
present none = []
present (some a) = a ∷ []

abbrev or_present {ℓ} : {A : Type ℓ} → List A → Option A → List A
or_present [] d = present d
or_present (a ∷ as') d = a ∷ as'

-- The rules in their order of precedence, the fallback last.
abbrev ranked :
    Option ValidationRule
    → Option ValidationRule
    → Option ValidationRule
    → Option ValidationRule
    → List ValidationRule
ranked own service built_in d =
    or_present (present own ++ (present service ++ present built_in)) d
    ++ fallback_validation_rule ∷ []

abbrev pub candidates : ValidatorConfig → String → String → List ValidationRule
candidates v field tag =
    ranked (field_rule_for v.field_rules field tag) (find_text tag v.tag_rules)
      (find_text tag default_tag_rules) v.default_rule

-- The first of the rules that gives a part.
abbrev pub first_msg_id : List ValidationRule → ℤ
first_msg_id [] = pos 0
first_msg_id (r ∷ rs) = if is_zero r.msg_id then first_msg_id rs else r.msg_id

abbrev pub first_err_code : List ValidationRule → String
first_err_code [] = ""
first_err_code (r ∷ rs) = if str_eq r.err_code "" then first_err_code rs else r.err_code

abbrev pub first_of :
    {A : Type 0}
    → (ValidationRule → Option (ValidationError → A))
    → List ValidationRule
    → Option (ValidationError → A)
first_of part [] = none
first_of part (r ∷ rs) = or_else (part r) (first_of part rs)

-- Each part of the rule is that of the first candidate that gives it.
pub record IsRanked (rule : ValidationRule) (rules : List ValidationRule) : Type 0 where
  pub msg_id : rule.msg_id ≡ first_msg_id rules
  pub err_code : rule.err_code ≡ first_err_code rules
  pub get_vals : rule.get_vals ≡ first_of (λ r. r.get_vals) rules
  pub get_message : rule.get_message ≡ first_of (λ r. r.get_message) rules
  pub get_params : rule.get_params ≡ first_of (λ r. r.get_params) rules

abbrev resolved :
    Option ValidationRule
    → Option ValidationRule
    → Option ValidationRule
    → Option ValidationRule
    → ValidationRule
resolved own service built_in d =
    let (rule, matched) =
      override_by own
        (override_by service (override_by built_in (fallback_validation_rule, false))) in
    default_unless matched d rule

merge-IsRanked :
    (base r : ValidationRule) (rules : List ValidationRule)
    → IsRanked base rules
    → IsRanked (merge_validation_rule base r) (r ∷ rules)
unfolding merge_validation_rule
merge-IsRanked base r rules v = record {
  msg_id = ground (arith, v.msg_id);
  err_code = ground (arith, v.err_code);
  get_vals = ground (arith, v.get_vals);
  get_message = ground (arith, v.get_message);
  get_params = ground (arith, v.get_params);
}

fallback-IsRanked : IsRanked fallback_validation_rule (fallback_validation_rule ∷ [])
fallback-IsRanked = record {
  msg_id = refl;
  err_code = refl;
  get_vals = refl;
  get_message = refl;
  get_params = refl;
}

resolved-IsRanked :
    (own service built_in d : Option ValidationRule)
    → IsRanked (resolved own service built_in d) (ranked own service built_in d)
resolved-IsRanked none none none none = fallback-IsRanked
resolved-IsRanked none none none (some d) = merge-IsRanked _ d _ fallback-IsRanked
resolved-IsRanked none none (some b) d = merge-IsRanked _ b _ fallback-IsRanked
resolved-IsRanked none (some s) none d = merge-IsRanked _ s _ fallback-IsRanked
resolved-IsRanked none (some s) (some b) d =
    merge-IsRanked _ s _ (merge-IsRanked _ b _ fallback-IsRanked)
resolved-IsRanked (some f) none none d = merge-IsRanked _ f _ fallback-IsRanked
resolved-IsRanked (some f) none (some b) d =
    merge-IsRanked _ f _ (merge-IsRanked _ b _ fallback-IsRanked)
resolved-IsRanked (some f) (some s) none d =
    merge-IsRanked _ f _ (merge-IsRanked _ s _ fallback-IsRanked)
resolved-IsRanked (some f) (some s) (some b) d =
    merge-IsRanked _ f _ (merge-IsRanked _ s _ (merge-IsRanked _ b _ fallback-IsRanked))

-- The message id, the code, the values, the message and the parameters of a field error each come
-- from the first that gives it of: the field's rule for the tag, the service's rule for the tag, the
-- built-in rule of the tag; the default rule stands in only if none of these is there; and last the
-- fallback. A message id 0, an empty code and an absent function are not given.
pub resolve_rule-IsRanked :
    (v : ValidatorConfig) (field tag : String)
    → IsRanked (resolve_rule v field tag) (candidates v field tag)
unfolding resolve_rule
resolve_rule-IsRanked v field tag =
    resolved-IsRanked (field_rule_for v.field_rules field tag) (find_text tag v.tag_rules)
      (find_text tag default_tag_rules) v.default_rule
