-- ===== src/DiGen/Resolve/Cycles.antt =====
-- The errors of the resolution.
use mathlib.Core.Path.{subst}
use alya.Prelude.{
  ℕ, zero, suc, List, [], ◌∷◌, some, none, String, true, ◌≡◌, ◌⊎◌, inl, inr, refl, sym, ◌∙◌, arith,
  str_eq, str_eq_iff, Bool-cases, Option-cases, In, here, there,
}
use alya.DiGen.Model.{TypeRef, ProviderRef, InvokeRef, BindingRef, GraphModel}
use alya.DiGen.Resolve.Defs.{
  Res, ok, err, out_of_fuel, dependency_cycle, ◌>>=◌, has, input_for, binding_for, provider_for,
  ResolverState, resolve_dependency, resolve_params, enter, build_node, resolve_provider, enough,
  initial, resolve_outputs, resolve_invokes, resolve_body, resolve_graph, make_field_name,
}
use alya.DiGen.Resolve.Order.{Good, dependency_ok, params_ok, provider-Resolves}
use alya.DiGen.Resolve.Plan.{outputs_ok}
use alya.DiGen.Resolve.Ends.{start}

module _ (g : GraphModel) where
  -- The type that a provider must build where `t` is asked for, as a key.
  abbrev BuiltFor : TypeRef → String → Type 0
  BuiltFor t k =
      (input_for t.type_key g.inputs ≡ none)
      × (((b : BindingRef) × (binding_for t.type_key g.bindings ≡ some b)
            × (b.concrete_type.type_key ≡ k))
          ⊎ ((binding_for t.type_key g.bindings ≡ none) × (t.type_key ≡ k)))

  -- The provider of `j` has a parameter for which `k` is built.
  abbrev Needs : String → String → Type 0
  Needs j k =
      (p : ProviderRef) × (provider_for j g.providers ≡ some p)
      × (t : TypeRef) × In t p.params
      × BuiltFor t k

  -- One need after another, one at least.
  pub data NeedsChain : String → String → Type 0 where
    one : {j k : String} → Needs j k → NeedsChain j k
    more : {i j k : String} → NeedsChain i j → Needs j k → NeedsChain i k

  -- Each type under way is needed by the one below it on the stack.
  abbrev IsStack : List String → Type 0
  IsStack [] = Unit {0}
  IsStack (k ∷ []) = Unit {0}
  IsStack (k ∷ j ∷ v) = Needs j k × IsStack (j ∷ v)

  -- From any type on the stack a chain leads to the next type that the top needs.
  stack_chain :
      (i j k : String) (v : List String)
      → IsStack (j ∷ v)
      → Needs j k
      → has i (j ∷ v) ≡ true
      → NeedsChain i k
  stack_chain i j k [] st nd h = one (subst (λ x. Needs x k) ((str_eq_iff j i).0 (ground arith)) nd)
  stack_chain i j k (l ∷ w) st nd h = elim (Bool-cases (str_eq j i)) [
    | inl e ↦ one (subst (λ x. Needs x k) ((str_eq_iff j i).0 e) nd)
    | inr e ↦ more (stack_chain i l j w st.1 st.0 (ground arith)) nd
  ]

  -- The top of the stack, if there is one, needs the key.
  abbrev OnTop : List String → String → Type 0
  OnTop [] k = Unit {0}
  OnTop (j ∷ v) k = Needs j k

  closes : (k : String) (v : List String) → IsStack v → OnTop v k → has k v ≡ true → NeedsChain k k
  closes k [] st top h = absurd (ground arith)
  closes k (j ∷ v) st top h = stack_chain k j k v st top h

  IsStack-enter : (k : String) (v : List String) → IsStack v → OnTop v k → IsStack (k ∷ v)
  IsStack-enter k [] st top = tt
  IsStack-enter k (j ∷ v) st top = (top, st)

  -- A cycle that is reported of a type is a chain of needs from that type to itself.
  abbrev Reports : {A : Type 0} → Res A → Type 0
  Reports r = (x : TypeRef) → r ≡ err (dependency_cycle x) → NeedsChain x.type_key x.type_key

  bind-Reports :
      {A : Type 0} {B : Type 0} (m : Res A) (f : A → Res B)
      → Reports m
      → ((a : A) → m ≡ ok a → Reports (f a))
      → Reports (m >>= f)
  bind-Reports (ok a) f k l x h = l a refl x h
  bind-Reports (err e) f k l x h = k x (ground arith)
  bind-Reports out_of_fuel f k l x h = cc

  abbrev Sound : ℕ → Type 0
  Sound n =
      (t : TypeRef) (s : ResolverState)
      → Good g s
      → IsStack s.visiting
      → OnTop s.visiting t.type_key
      → Reports (resolve_provider g n t s)

  module _ (n : ℕ) (H : Sound n) where
    dependency-Reports :
        (t : TypeRef) (s : ResolverState)
        → Good g s
        → IsStack s.visiting
        → ((k : String) → BuiltFor t k → OnTop s.visiting k)
        → Reports (resolve_dependency g (resolve_provider g n) t s)
    unfolding resolve_dependency
    dependency-Reports t s good st top x h = elim (Option-cases (input_for t.type_key g.inputs)) [
      | inr (i, e) ↦ absurd (ground arith)
      | inl e ↦ elim (Option-cases (binding_for t.type_key g.bindings)) [
        | inr (b, eb) ↦
            H b.concrete_type s good st (top b.concrete_type.type_key (e, inl (b, eb, refl))) x
              (ground arith)
        | inl eb ↦ H t s good st (top t.type_key (e, inr (eb, refl))) x (ground arith)
      ]
    ]

    params-Reports :
        (ts : List TypeRef) (s : ResolverState)
        → Good g s
        → IsStack s.visiting
        → ((t : TypeRef) → In t ts → (k : String) → BuiltFor t k → OnTop s.visiting k)
        → Reports (resolve_params g (resolve_provider g n) ts s)
    unfolding resolve_params
    params-Reports [] s good st top = λ x h. cc
    params-Reports (t ∷ ts) s good st top =
        bind-Reports _ _ (dependency-Reports t s good st (top t here)) λ (src, s1) first.
          let (good1, ext, _) =
            dependency_ok g (resolve_provider g n) (provider-Resolves g n) t src s s1 first good in
          bind-Reports _ _
            (params-Reports ts s1 good1 (subst IsStack (sym ext.visiting) st)
              (λ t' m k b. subst (λ v. OnTop v k) (sym ext.visiting) (top t' (there m) k b)))
            λ (rest, s2) others x h. cc

  node-Reports :
      (n : ℕ)
      → Sound n
      → (t : TypeRef) (s : ResolverState) (p : ProviderRef)
      → provider_for t.type_key g.providers ≡ some p
      → Good g s
      → IsStack (t.type_key ∷ s.visiting)
      → Reports (build_node g (resolve_provider g n) t p s)
  unfolding build_node
  node-Reports n H t s p e good st =
      bind-Reports _ _
        (params-Reports n H p.params (enter t.type_key s)
          (record { order = good.order; same = good.same }) st (λ t' m k b. (p, e, t', m, b)))
        λ (deps, s1) run x h. cc

  provider-Sound : (n : ℕ) → Sound n
  unfolding resolve_provider
  provider-Sound zero t s good st top x h = cc
  provider-Sound (suc n) t s good st top x h = elim (Bool-cases (has t.type_key s.visiting)) [
    | inl busy ↦
        let same : t ≡ x = ground arith in
        subst (λ y. NeedsChain y.type_key y.type_key) same
          (closes t.type_key s.visiting st top busy)
    | inr free ↦ elim (Option-cases (provider_for t.type_key g.providers)) [
      | inl e ↦ absurd (ground arith)
      | inr (p, e) ↦
          node-Reports n (provider-Sound n) t s p e good
            (IsStack-enter t.type_key s.visiting st top) x (ground arith)
    ]
  ]

module _ (g : GraphModel) (qualifier : String → String) (decimal : ℕ → String) where
  outputs_report :
      (os : List TypeRef) (names : List (String × ℕ)) (s : ResolverState)
      → Good g s
      → s.visiting ≡ []
      → Reports g (resolve_outputs g qualifier decimal os names s)
  unfolding resolve_outputs
  outputs_report [] names s good e = λ x h. cc
  outputs_report (o ∷ os) names s good e =
      bind-Reports g _ _
        (dependency-Reports g (enough g) (provider-Sound g (enough g)) o s good
          (subst (IsStack g) (sym e) tt) (λ k b. subst (λ v. OnTop g v k) (sym e) tt))
        λ (src, s1) first.
          let (good1, ext, _) =
            dependency_ok g (resolve_provider g (enough g)) (provider-Resolves g (enough g)) o src s
              s1 first good in
          bind-Reports g _ _
            (outputs_report os (make_field_name g qualifier decimal o names).1 s1 good1
              (ext.visiting ∙ e))
            λ (rest, s2) others x h. cc

  invokes_report :
      (is : List InvokeRef) (s : ResolverState)
      → Good g s
      → s.visiting ≡ []
      → Reports g (resolve_invokes g qualifier decimal is s)
  unfolding resolve_invokes
  invokes_report [] s good e = λ x h. cc
  invokes_report (i ∷ is) s good e =
      bind-Reports g _ _
        (params-Reports g (enough g) (provider-Sound g (enough g)) i.params s good
          (subst (IsStack g) (sym e) tt) (λ t m k b. subst (λ v. OnTop g v k) (sym e) tt))
        λ (deps, s1) first.
          let (good1, ext, _, _) =
            params_ok g (resolve_provider g (enough g)) (provider-Resolves g (enough g)) i.params
              deps s s1 first good in
          bind-Reports g _ _ (invokes_report is s1 good1 (ext.visiting ∙ e))
            λ (rest, s2) others x h. cc

  body-Reports : Reports g (resolve_body g qualifier decimal)
  unfolding resolve_body
  body-Reports =
      bind-Reports g _ _ (outputs_report g.outputs [] initial (start g) refl) λ (os, s1) first.
        let (good1, ext, _, _) =
          outputs_ok g qualifier decimal g.outputs [] os initial s1 first (start g) in
        bind-Reports g _ _ (invokes_report g.invokes s1 good1 ext.visiting)
          λ (is, s2) second x h. cc

  -- A cycle is reported only where there is one: from the type that the error names, a chain of
  -- parameters of declared providers leads back to it.
  pub resolve_graph_cycle :
      (t : TypeRef)
      → resolve_graph g qualifier decimal ≡ err (dependency_cycle t)
      → NeedsChain g t.type_key t.type_key
  unfolding resolve_graph
  resolve_graph_cycle t h = body-Reports t (ground arith)
