-- ===== src/Restutils/Rules/Tests.antt =====
-- Field errors of a validator with rules of its own.
use alya.Prelude.{[], ◌∷◌, none, ◌≡◌, refl, map}
use alya.Prelude.Int.{pos}
use alya.Wscutils.Messages.{ValidationError, string_kind, failed}
use alya.Restutils.Types.{FieldError, new_field_error}
use alya.Restutils.Rules.{
  ValidatorConfig, default_tag_rules, merge_validation_rule, field_rule_for, resolve_rule,
  namespace_without_root, to_field_error, validate, no_config,
}
use alya.Restutils.Rules.Precedence.{IsRanked, candidates, resolve_rule-IsRanked}

abbrev too_long : ValidationError
too_long = record {
  tag = "max";
  namespace = "CreateUserRequest.username";
  field = "username";
  param = "30";
  kind = string_kind;
  text = "";
}

abbrev a_config : ValidatorConfig
a_config = record {
  tag_rules = [];
  field_rules =
      (
        "username",
        (
          "max",
          record {
            msg_id = pos 7;
            err_code = "";
            get_vals = none;
            get_message = none;
            get_params = none;
          },
        )
            ∷ [],
      )
      ∷ [];
  default_rule = none;
}

nested_name :
    (namespace_without_root "A.b.c" ≡ "b.c")
    × (namespace_without_root "A" ≡ "A")
    × (namespace_without_root "" ≡ "")
unfolding namespace_without_root
nested_name = (refl, refl, refl)

-- The README's example.
built_in :
    validate no_config (failed (too_long ∷ []))
    ≡ new_field_error
        (pos 103)
        "toobig"
        "username"
        (("max", "30") ∷ [])
        "must be at most 30 characters"
        ("30" ∷ [])
      ∷ []
unfolding validate to_field_error namespace_without_root resolve_rule default_tag_rules
    merge_validation_rule field_rule_for
built_in = refl

own_id :
    map (λ (f : FieldError). f.error_message.msg_id) (validate a_config (failed (too_long ∷ [])))
    ≡ pos 7 ∷ []
unfolding validate to_field_error namespace_without_root resolve_rule default_tag_rules
    merge_validation_rule field_rule_for
own_id = refl

resolve_rule-IsRanked_example :
    IsRanked (resolve_rule a_config "username" "max") (candidates a_config "username" "max")
resolve_rule-IsRanked_example = resolve_rule-IsRanked a_config "username" "max"
