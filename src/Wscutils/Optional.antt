-- ===== src/Wscutils/Optional.antt =====
-- A JSON field that may be absent or null (`Optional` of wscutils/wscutils.go).
mod RoundTrip
mod Tests
use alya.Prelude.{Option, some, none, String, Bool, true, false, ◌&&◌, not, str_eq, if◌then◌else◌}

pub record Optional (T : Type 0) : Type 0 where
  pub value : T
  pub present : Bool
  pub null : Bool

-- `zero_value` is the zero value of the type; `marshal` and `unmarshal` are the JSON functions on it,
-- with `none` for an error.
module _ {T : Type 0} (zero_value : T) where
  abbrev pub get : Optional T → T × Bool
  get o = if o.present && not o.null then (o.value, true) else (zero_value, false)

  abbrev pub new_optional_null : Optional T
  new_optional_null = record { value = zero_value; present = true; null = true }

  abbrev pub new_optional_absent : Optional T
  new_optional_absent = record { value = zero_value; present = false; null = false }

-- `IsZero`, for fields that are left out where they are absent.
abbrev pub is_zero : {T : Type 0} → Optional T → Bool
is_zero o = not o.present

abbrev pub new_optional : {T : Type 0} → T → Optional T
new_optional v = record { value = v; present = true; null = false }

-- On an error the field is left as it was.
unfoldable pub unmarshal_json :
    {T : Type 0} → (String → Option T) → Optional T → String → Option (Optional T)
unmarshal_json unmarshal o text =
    if str_eq text "null"
    then some (record o { present = true; null = true })
    else elim (unmarshal text) [ none ↦ none | some v ↦ some (new_optional v) ]

unfoldable pub marshal_json : {T : Type 0} → (T → Option String) → Optional T → Option String
marshal_json marshal o = if o.present && o.null then some "null" else marshal o.value
