-- ===== src/Jobs/Registry/Lookup.antt =====
-- What a registration does to later look-ups.
use alya.Prelude.{String, ◌≡◌, arith, some, false, str_eq, str_eq_refl, str_append}
use alya.Jobs.Machine.{ok, err, already_registered}
use alya.Jobs.Registry.{Registry, processor_at, register_processor_batch}

module _ {ℓ} {P : Type ℓ} (to_lower : String → String) where
  -- A successful registration is found under the app and the lower-case op, leaves every other key
  -- as it was, and makes a further registration whose op differs in case only fail.
  pub register_processor_batch_ok :
      (app op op' : String) (p p' : P) (funcs funcs' : Registry P)
      → register_processor_batch to_lower app op p funcs ≡ ok funcs'
      → to_lower op' ≡ to_lower op
      → (processor_at (str_append app (to_lower op)) funcs' ≡ some p)
        × ((key : String)
            → str_eq (str_append app (to_lower op)) key ≡ false
            → processor_at key funcs' ≡ processor_at key funcs)
        × (register_processor_batch to_lower app op' p' funcs' ≡ err already_registered)
  unfolding register_processor_batch
  register_processor_batch_ok app op op' p p' funcs funcs' h k =
      let same = str_eq_refl (str_append app (to_lower op)) in
      (ground arith, λ key e. ground arith, ground arith)
