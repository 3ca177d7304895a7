-- ===== src/Restutils/Rules/Complete.antt =====
-- Every field error that is reported has an id, a code and its field.
use alya.Prelude.{
  List, [], ◌∷◌, Option, none, some, String, Bool, true, false, str_eq, str_eq_iff, ◌≡◌, ◌≢◌, refl,
  arith, map,
}
use mathlib.Core.Path.{subst}
use alya.Prelude.Int.{is_zero}
use alya.Wscutils.Messages.{ValidationError, failed, find_text}
use alya.Restutils.Types.{FieldError, Problem}
use alya.Restutils.Problem.{validation_problem, write_problem}
use alya.Restutils.Rules.{
  ValidationRule, ValidatorConfig, fallback_validation_rule, default_tag_rules,
  merge_validation_rule, field_rule_for, override_by, default_unless, resolve_rule, field_of,
  to_field_error, validate,
}

pub record IsComplete (rule : ValidationRule) : Type 0 where
  pub id : is_zero rule.msg_id ≡ false
  pub code : str_eq rule.err_code "" ≡ false

merge-IsComplete :
    (base r : ValidationRule) → IsComplete base → IsComplete (merge_validation_rule base r)
unfolding merge_validation_rule
merge-IsComplete base r v = ground arith

fallback-IsComplete : IsComplete fallback_validation_rule
fallback-IsComplete = record { id = refl; code = refl }

override-IsComplete :
    (o : Option ValidationRule) (rule : ValidationRule) (matched : Bool)
    → IsComplete rule
    → IsComplete (override_by o (rule, matched)).0
override-IsComplete none rule matched v = v
override-IsComplete (some r) rule matched v = merge-IsComplete rule r v

default-IsComplete :
    (matched : Bool) (d : Option ValidationRule) (rule : ValidationRule)
    → IsComplete rule
    → IsComplete (default_unless matched d rule)
default-IsComplete true d rule v = v
default-IsComplete false none rule v = v
default-IsComplete false (some r) rule v = merge-IsComplete rule r v

module _ (v : ValidatorConfig) where
  resolve_rule-IsComplete : (field tag : String) → IsComplete (resolve_rule v field tag)
  unfolding resolve_rule
  resolve_rule-IsComplete field tag =
      let built_in =
        override_by (find_text tag default_tag_rules) (fallback_validation_rule, false) in
      let service = override_by (find_text tag v.tag_rules) built_in in
      let own = override_by (field_rule_for v.field_rules field tag) service in
      default-IsComplete own.1 v.default_rule own.0 (
        override-IsComplete _ service.0 service.1 (
          override-IsComplete _ built_in.0 built_in.1
            (override-IsComplete (find_text tag default_tag_rules) _ false fallback-IsComplete)))

  -- A field error for each error, in order.
  abbrev pub Reports : List ValidationError → List FieldError → Type 0
  Reports [] [] = Unit {0}
  Reports (e ∷ es) (f ∷ fs) =
      (f.error_message.field ≡ field_of e)
      × (is_zero f.error_message.msg_id ≡ false)
      × (f.error_message.err_code ≢ "")
      × Reports es fs
  Reports es fs = ⊥

  map-Reports : (es : List ValidationError) → Reports es (map (to_field_error v) es)
  unfolding to_field_error
  map-Reports [] = tt
  map-Reports (e ∷ es) =
      let rule : IsComplete (resolve_rule v (field_of e) e.tag) =
        resolve_rule-IsComplete (field_of e) e.tag in
      (
        refl,
        rule.id,
        λ is. ground (arith, rule.code, str_eq_iff (resolve_rule v (field_of e) e.tag).err_code ""),
        map-Reports es,
      )

  -- The errors of a value that is not valid, as they are written to the client: the status is 422;
  -- the body lists one field error for each error of the validator, in order, with its field, an id
  -- that is not 0 and a code that is not empty, whatever the rules of the service are.
  pub validate-Reports :
      (es : List ValidationError) (path trace : Option String)
      → let w = write_problem path trace (validation_problem (validate v (failed es))) in
        (w.status ≡ 422)
        × ((p : Problem) → w.body ≡ some p → (p.status ≡ 422) × Reports es p.errors)
  unfolding validate validation_problem write_problem
  validate-Reports es path trace = (
    refl,
    λ p q.
        let listed : map (to_field_error v) es ≡ p.errors = ground arith in
        (ground arith, subst (Reports es) listed (map-Reports es)),
  )
