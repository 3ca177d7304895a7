-- ===== src/DiGen/Resolve/Defs.antt =====
-- The functions of cmd/alya-di/resolve.go. A map is an association list or a list of keys.
use alya.Prelude.{
  ℕ, zero, suc, ◌+◌, List, [], ◌∷◌, ◌++◌, Option, some, none, String, Bool, true, false, not, ltb,
  select, find_if, any_if, count_if, length, str_eq, str_append, if◌then◌else◌,
}
use alya.DiGen.Model.{
  GoType, named, pointer, unnamed, TypeRef, ProviderRef, InvokeRef, BindingRef, GraphModel,
  DependencyRef, ProviderNode, ResolvedInvoke, ResolvedOutput, ResolvedGraph,
}

pub data ResolveError : Type 0 where
  ambiguous_provider duplicate_input duplicate_binding : ResolveError
  not_found dependency_cycle no_provider : TypeRef → ResolveError

-- The recursion takes fuel.
pub data Res {ℓ} (A : Type ℓ) : Type ℓ where
  ok : A → Res A
  err : ResolveError → Res A
  out_of_fuel : Res A

infixl 5 ◌>>=◌
abbrev pub ◌>>=◌ {ℓ κ} : {A : Type ℓ} {B : Type κ} → Res A → (A → Res B) → Res B
ok a >>= f = f a
err e >>= f = err e
out_of_fuel >>= f = out_of_fuel

abbrev pub has : String → List String → Bool
has k = any_if (λ j. str_eq j k)

abbrev pub input_for : String → List TypeRef → Option TypeRef
input_for k = find_if (λ t. str_eq t.type_key k)

abbrev pub binding_for : String → List BindingRef → Option BindingRef
binding_for k = find_if (λ b. str_eq b.interface_type.type_key k)

abbrev pub provider_for : String → List ProviderRef → Option ProviderRef
provider_for k = find_if (λ p. str_eq p.result.type_key k)

-- `visiting` holds the keys of the types whose resolution is under way, and `resolved` those that
-- have a node in `provider_order`.
pub record ResolverState : Type 0 where
  pub visiting : List String
  pub resolved : List String
  pub provider_order : List ProviderNode

-- `resolveDependency`, given the resolution of a provider.
unfoldable pub resolve_dependency :
    GraphModel
    → (TypeRef → ResolverState → Res ResolverState)
    → TypeRef
    → ResolverState
    → Res (TypeRef × ResolverState)
resolve_dependency g resolve requested s = elim (input_for requested.type_key g.inputs) [
  | some input ↦ ok (input, s)
  | none ↦ elim (binding_for requested.type_key g.bindings) [
    | some b ↦ do s' ← resolve b.concrete_type s; ok (b.concrete_type, s')
    | none ↦ elim (provider_for requested.type_key g.providers) [
      | some p ↦ do s' ← resolve requested s; ok (requested, s')
      | none ↦ err (not_found requested)
    ]
  ]
]

-- The loop over the parameters of a provider or an invoke.
unfoldable pub resolve_params :
    GraphModel
    → (TypeRef → ResolverState → Res ResolverState)
    → List TypeRef
    → ResolverState
    → Res (List DependencyRef × ResolverState)
resolve_params g resolve [] s = ok ([], s)
resolve_params g resolve (t ∷ ts) s = do
  (source, s1) ← resolve_dependency g resolve t s
  (rest, s2) ← resolve_params g resolve ts s1
  ok (record { requested = t; source = source } ∷ rest, s2)

-- `delete(r.visiting, key)`, and the new node.
abbrev pub add_node : String → ProviderRef → List DependencyRef → ResolverState → ResolverState
add_node k p deps s = record {
  visiting = select (λ j. not (str_eq j k)) s.visiting;
  resolved = s.resolved ++ k ∷ [];
  provider_order = s.provider_order ++ record { ref = p; dependencies = deps } ∷ [];
}

abbrev pub enter : String → ResolverState → ResolverState
enter k s = record s { visiting = k ∷ s.visiting }

-- The node of a type that is neither resolved nor under way.
unfoldable pub build_node :
    GraphModel
    → (TypeRef → ResolverState → Res ResolverState)
    → TypeRef
    → ProviderRef
    → ResolverState
    → Res ResolverState
build_node g resolve target p s = do
  (deps, s') ← resolve_params g resolve p.params (enter target.type_key s)
  ok (add_node target.type_key p deps s')

unfoldable pub resolve_provider : GraphModel → ℕ → TypeRef → ResolverState → Res ResolverState
resolve_provider g zero target s = out_of_fuel
resolve_provider g (suc n) target s =
    let k = target.type_key in
    let resolve : TypeRef → ResolverState → Res ResolverState = resolve_provider g n in
    if has k s.resolved
    then ok s
    else if has k s.visiting
    then err (dependency_cycle target)
    else elim (provider_for k g.providers) [
      | none ↦ err (no_provider target)
      | some p ↦ build_node g resolve target p s
    ]

-- `baseTypeName` of cmd/alya-di/emit.go.
abbrev pub base_type_name : GoType → String
base_type_name (named s) = s
base_type_name (pointer t) = base_type_name t
base_type_name unnamed = ""

abbrev pub base_field_name : GoType → String
base_field_name t = let name = base_type_name t in if str_eq name "" then "Value" else name

-- The counters of `fieldNames` and of `baseFieldNameCounts`.
abbrev pub count_of : String → List (String × ℕ) → ℕ
count_of k [] = 0
count_of k ((j, n) ∷ m) = if str_eq j k then n else count_of k m

-- The fuel: one more than the providers.
abbrev pub enough : GraphModel → ℕ
enough g = suc (length g.providers)

abbrev pub initial : ResolverState
initial = record { visiting = []; resolved = []; provider_order = [] }

-- The three checks for keys that are declared twice.
abbrev pub any_twice {ℓ} : {A : Type ℓ} → (A → String) → List A → Bool
any_twice key [] = false
any_twice key (x ∷ xs) = if any_if (λ y. str_eq (key y) (key x)) xs then true else any_twice key xs

-- `qualifier` is `outputFieldQualifier`, and `decimal` writes a number.
module _ (g : GraphModel) (qualifier : String → String) (decimal : ℕ → String) where
  abbrev pub base_count : String → ℕ
  base_count name = count_if (λ o. str_eq (base_field_name o.type_value) name) g.outputs

  -- The name of an output's field, and the counters after it.
  unfoldable pub make_field_name : TypeRef → List (String × ℕ) → String × List (String × ℕ)
  make_field_name output field_names =
      let base = base_field_name output.type_value in
      let q = qualifier output.expr_string in
      let name =
        if ltb 1 (base_count base)
        then (if str_eq q "" then base else str_append q base)
        else base in
      let count = count_of name field_names in
      if str_eq output.custom_name ""
      then (
        (if ltb 0 count then str_append name (decimal (count + 1)) else name),
        (name, count + 1) ∷ field_names,
      )
      else (output.custom_name, field_names)

  unfoldable pub resolve_outputs :
      List TypeRef → List (String × ℕ) → ResolverState → Res (List ResolvedOutput × ResolverState)
  resolve_outputs [] names s = ok ([], s)
  resolve_outputs (o ∷ os) names s = do
    (source, s1) ← resolve_dependency g (resolve_provider g (enough g)) o s
    let (field_name, names') = make_field_name o names
    (rest, s2) ← resolve_outputs os names' s1
    ok (record { field_name = field_name; requested = o; source = source } ∷ rest, s2)

  unfoldable pub resolve_invokes :
      List InvokeRef → ResolverState → Res (List ResolvedInvoke × ResolverState)
  resolve_invokes [] s = ok ([], s)
  resolve_invokes (i ∷ is) s = do
    (deps, s1) ← resolve_params g (resolve_provider g (enough g)) i.params s
    (rest, s2) ← resolve_invokes is s1
    ok (record { ref = i; dependencies = deps } ∷ rest, s2)

  -- What follows the checks.
  unfoldable pub resolve_body : Res ResolvedGraph
  resolve_body = do
    (outputs, s1) ← resolve_outputs g.outputs [] initial
    (invokes, s2) ← resolve_invokes g.invokes s1
    ok (record { provider_order = s2.provider_order; invokes = invokes; outputs = outputs })

  unfoldable pub resolve_graph : Res ResolvedGraph
  resolve_graph =
      if any_twice (λ (p : ProviderRef). p.result.type_key) g.providers
      then err ambiguous_provider
      else if any_twice (λ (t : TypeRef). t.type_key) g.inputs
      then err duplicate_input
      else if any_twice (λ (b : BindingRef). b.interface_type.type_key) g.bindings
      then err duplicate_binding
      else resolve_body
