-- ===== src/Wscutils/Optional/Tests.antt =====
-- Fields that are Booleans.
use alya.Prelude.{Option, some, none, String, Bool, true, false, ◌≡◌, refl, str_eq, if◌then◌else◌}
use mathlib.Core.Path.{subst}
use mathlib.Core.Option.{some-injective}
use alya.Wscutils.Optional.{
  Optional, get, new_optional, new_optional_null, unmarshal_json, marshal_json,
}
use alya.Wscutils.Optional.RoundTrip.{unmarshal_json-marshal_json}

abbrev bool_text : Bool → Option String
bool_text true = some "true"
bool_text false = some "false"

abbrev read_bool : String → Option Bool
read_bool s = if str_eq s "true" then some true else if str_eq s "false" then some false else none

bool_json :
    (v : Bool) (s : String)
    → bool_text v ≡ some s
    → (read_bool s ≡ some v) × (str_eq s "null" ≡ false)
bool_json true s h =
    subst (λ t. (read_bool t ≡ some true) × (str_eq t "null" ≡ false)) (some-injective "true" s h)
      (refl, refl)
bool_json false s h =
    subst (λ t. (read_bool t ≡ some false) × (str_eq t "null" ≡ false)) (some-injective "false" s h)
      (refl, refl)

unmarshal_json-marshal_json_example :
    (q : Optional Bool) × (unmarshal_json read_bool (new_optional_null false) "true" ≡ some q)
    × (get false q ≡ get false (new_optional true))
    × (q.present ≡ true)
    × (q.null ≡ false)
unfolding marshal_json
unmarshal_json-marshal_json_example =
    unmarshal_json-marshal_json false bool_text read_bool (new_optional true)
      (new_optional_null false) "true" bool_json refl refl
