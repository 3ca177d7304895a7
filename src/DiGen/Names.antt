-- ===== src/DiGen/Names.antt =====
-- The local names of the generated code (cmd/alya-di/emit.go). A set of names is a list.
mod Fresh
pub mod Letters
mod Tests
use alya.Prelude.{
  ℕ, zero, suc, ◌+◌, List, [], ◌∷◌, ◌++◌, Option, some, none, String, Bool, length, map, str_eq,
  str_append, if◌then◌else◌,
}
use alya.DiGen.Model.{GoType, TypeRef, ProviderNode}
use alya.DiGen.Resolve.{has, base_type_name}

-- A chain of errors ends the assignment.
abbrev and_then {ℓ κ} : {A : Type ℓ} {B : Type κ} → Option A → (A → Option B) → Option B
and_then none f = none
and_then (some a) f = f a

abbrev pub or_value : String → String
or_value base = if str_eq base "" then "value" else base

-- `numbered` is `fmt.Sprintf("%s%d", …)`.
module _ (numbered : String → ℕ → String) where
  -- The loop that counts up from `i`, on fuel.
  unfoldable pub first_free : ℕ → ℕ → String → List String → Option String
  first_free zero i candidate used = none
  first_free (suc n) i candidate used =
      let rest = first_free n (i + 1) candidate used in
      if has (numbered candidate i) used then rest else some (numbered candidate i)

  -- The fuel is one more than the names in use.
  unfoldable pub unique_local_name : String → List String → Option String
  unique_local_name base used =
      if has (or_value base) used
      then (if has (str_append (or_value base) "Value") used
          then first_free (suc (length used)) 2 (str_append (or_value base) "Value") used
          else some (str_append (or_value base) "Value"))
      else some (or_value base)

  -- One name for each key, and the names in use after them.
  unfoldable pub assign_names :
      List (String × String) → List String → Option (List (String × String) × List String)
  assign_names [] used = some ([], used)
  assign_names ((key, base) ∷ rest) used = and_then (unique_local_name base used) λ name.
      and_then (assign_names rest (name ∷ used)) λ (names, used'). some ((key, name) ∷ names, used')

-- `lower_camel` is `lowerCamel`, which goes by the letters of a name.
module _ (numbered : String → ℕ → String) (lower_camel : String → String) where
  abbrev pub make_variable_name : GoType → String
  make_variable_name t = or_value (lower_camel (base_type_name t))

  -- The cases of the switch that return the name itself are the last one.
  abbrev pub make_param_name : GoType → String
  make_param_name t =
      let name = lower_camel (base_type_name t) in
      if str_eq name "config"
      then "cfg"
      else if str_eq name "appConfig"
      then "cfg"
      else if str_eq name "service"
      then "svc"
      else if str_eq name "repository"
      then "repo"
      else or_value name

  abbrev pub build_input_var_names :
      List TypeRef → List String → Option (List (String × String) × List String)
  build_input_var_names inputs reserved =
      assign_names numbered
        (map (λ (t : TypeRef). (t.type_key, make_param_name t.type_value)) inputs) reserved

  abbrev pub build_provider_var_names :
      List ProviderNode
      → List String
      → List (String × String)
      → Option (List (String × String) × List String)
  build_provider_var_names nodes reserved inputs =
      assign_names numbered
        (map
          (λ (n : ProviderNode).
            (n.ref.result.type_key, make_variable_name n.ref.result.type_value))
          nodes)
        (map (λ (x : String × String). x.1) inputs ++ reserved)
