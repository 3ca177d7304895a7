-- ===== src/DiGen/Names/Tests.antt =====
-- The names of two inputs of one type name, numbered by strokes.
use alya.Prelude.{
  ℕ, zero, suc, List, [], ◌∷◌, ◌++◌, some, String, ◌≡◌, ap, sym, refl, ◌∙◌, arith, map, str_append,
}
use text.Mathlib.TextPositions.{len-append}
use Prim.Native.String.{len}
use alya.DiGen.Model.{named, TypeRef, ProviderNode}
use alya.DiGen.Names.{build_input_var_names, build_provider_var_names}
use alya.DiGen.Names.Fresh.{NoClash, build_var_names-NoClash}

abbrev strokes : ℕ → String
strokes zero = ""
strokes (suc n) = str_append "1" (strokes n)

len-strokes : (n : ℕ) → len (strokes n) ≡ n
len-strokes zero = refl
len-strokes (suc n) =
    let two = len-append "1" (strokes n) in let rest = len-strokes n in omega arith

abbrev numbered : String → ℕ → String
numbered s n = str_append s (strokes n)

numbered_injective : (s : String) (i j : ℕ) → numbered s i ≡ numbered s j → i ≡ j
numbered_injective s i j h =
    let same = sym (len-append s (strokes i)) ∙ ap len h ∙ len-append s (strokes j) in
    let a = len-strokes i in let b = len-strokes j in omega arith

abbrev a_type : String → TypeRef
a_type key = record {
  type_key = key;
  type_value = named "Config";
  expr_string = key;
  custom_name = "";
}

abbrev two_types : List TypeRef
two_types = a_type "a.Config" ∷ a_type "b.Config" ∷ []

build_var_names-NoClash_example :
    (ins : List (String × String)) × (used : List String) × (outs : List (String × String))
    × (used' : List String) × (build_input_var_names numbered (λ s. "config") two_types ("cfg" ∷ [])
        ≡ some (ins, used))
    × (build_provider_var_names numbered (λ s. "config") [] ("cfg" ∷ []) ins ≡ some (outs, used'))
    × (map (λ (x : String × String). x.0) ins ≡ map (λ (t : TypeRef). t.type_key) two_types)
    × (map (λ (x : String × String). x.0) outs
        ≡ map (λ (n : ProviderNode). n.ref.result.type_key) [])
    × NoClash ins ("cfg" ∷ [])
    × NoClash outs (map (λ (x : String × String). x.1) ins ++ "cfg" ∷ [])
build_var_names-NoClash_example =
    build_var_names-NoClash numbered numbered_injective (λ s. "config") two_types [] ("cfg" ∷ [])
