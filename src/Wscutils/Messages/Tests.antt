-- ===== src/Wscutils/Messages/Tests.antt =====
-- Messages of the two validators.
use alya.Prelude.{[], ◌∷◌, none, ◌≡◌, refl}
use alya.Prelude.Int.{pos}
use alya.Wscutils.Messages.{
  Settings, Validator, not_validated, build_error_message, wsc_validate, validate,
}

abbrev some_settings : Settings
some_settings = record {
  tag_to_msg_id = ("required", pos 45) ∷ [];
  tag_to_err_code = ("required", "missing") ∷ [];
  default_msg_id = pos 1;
  default_err_code = "invalid";
}

abbrev a_validator : Validator
a_validator = record {
  rules = [];
  default_rule = record { msg_id = pos 1; err_code = "invalid"; get_vals = none };
}

-- A value that cannot be validated passes the one and not the other.
not_validated_value :
    (wsc_validate some_settings (λ e. []) (not_validated "nil") ≡ [])
    × (validate a_validator (not_validated "nil")
        ≡ build_error_message (pos 1) "invalid" "" [] ∷ [])
unfolding wsc_validate validate
not_validated_value = (refl, refl)
