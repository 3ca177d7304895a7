-- ===== src/Wscutils/Optional/RoundTrip.antt =====
-- What is written of a field is read back.
use alya.Prelude.{
  Option, some, String, Bool, true, false, ◌≡◌, refl, arith, str_eq, Bool-cases, inl, inr, ◌&&◌,
  if◌then◌else◌,
}
use mathlib.Core.Path.{subst}
use mathlib.Core.Option.{some-injective}
use alya.Wscutils.Optional.{Optional, get, new_optional, unmarshal_json, marshal_json}

both : (a b : Bool) → a ≡ true → b ≡ true → (a && b) ≡ true
both a b h k = ground arith

-- A field that is present, with a value or null, is read back from what is written of it, whatever
-- the field held before: present, null where it was, and with the same value to get. The JSON of a
-- value reads back as the value and is not null.
pub unmarshal_json-marshal_json :
    {T : Type 0} (zero_value : T) (marshal : T → Option String) (unmarshal : String → Option T)
    (o before : Optional T) (text : String)
    → ((v : T) (s : String)
        → marshal v ≡ some s
        → (unmarshal s ≡ some v) × (str_eq s "null" ≡ false))
    → o.present ≡ true
    → marshal_json marshal o ≡ some text
    → (q : Optional T) × (unmarshal_json unmarshal before text ≡ some q)
      × (get zero_value q ≡ get zero_value o)
      × (q.present ≡ true)
      × (q.null ≡ o.null)
unfolding unmarshal_json marshal_json
unmarshal_json-marshal_json zero_value marshal unmarshal o before text json p h =
    elim (Bool-cases o.null) [
      | inl e ↦
          let same : "null" ≡ text = some-injective "null" text (
            subst (λ b. (if b then some "null" else marshal o.value) ≡ some text)
              (both o.present o.null p e) h) in
          let null_text = subst (λ s. str_eq s "null" ≡ true) same refl in
          (
            record before { present = true; null = true },
            ground arith,
            ground arith,
            refl,
            ground arith,
          )
      | inr e ↦
          let written : marshal o.value ≡ some text = ground arith in
          let (read, not_null) = json o.value text written in
          (new_optional o.value, ground arith, ground arith, refl, ground arith)
    ]
