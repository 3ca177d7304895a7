-- ===== src/Jobs/Registry.antt =====
-- The maps from `app + op` to the processors of batches (jobs/batch.go) and of slow queries
-- (jobs/slowquery.go), and from an app to its initializer (jobs/jobmanager.go). A map is an
-- association list.
mod Lookup
mod Tests
use alya.Prelude.{
  List, [], ◌∷◌, Option, some, none, String, Bool, true, false, str_eq, str_append, if◌then◌else◌,
}
use alya.Jobs.Machine.{Result, ok, err, already_registered, initializer_already_registered}

abbrev pub Registry {ℓ} : Type ℓ → Type ℓ
Registry P = List (String × P)

module _ {ℓ} {P : Type ℓ} where
  -- The value of a map at a key.
  abbrev pub processor_at : String → Registry P → Option P
  processor_at key [] = none
  processor_at key ((k, p) ∷ rest) = if str_eq k key then some p else processor_at key rest

  abbrev pub is_registered : String → Registry P → Bool
  is_registered key reg = elim (processor_at key reg) [ none ↦ false | some _ ↦ true ]

  unfoldable pub register_processor_slow_query :
      String → String → P → Registry P → Result (Registry P)
  register_processor_slow_query app op p funcs =
      let key = str_append app op in
      if is_registered key funcs then err already_registered else ok ((key, p) ∷ funcs)

  unfoldable pub register_processor_batch :
      (String → String) → String → String → P → Registry P → Result (Registry P)
  register_processor_batch to_lower app op p funcs =
      let key = str_append app (to_lower op) in
      if is_registered key funcs then err already_registered else ok ((key, p) ∷ funcs)

  unfoldable pub register_initializer : String → P → Registry P → Result (Registry P)
  register_initializer app initializer initfuncs =
      if is_registered app initfuncs
      then err initializer_already_registered
      else ok ((app, initializer) ∷ initfuncs)
