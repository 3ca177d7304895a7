-- ===== src/DiGen/Resolve/Ends.antt =====
-- The recursion of the resolution ends.
use mathlib.Core.Path.{subst}
use alya.Prelude.{
  ℕ, zero, suc, ◌<◌, ◌≤◌, List, [], ◌∷◌, some, String, false, not, ◌≡◌, ◌≢◌, inl, inr, refl, sym,
  ap, arith, length, count_if, str_eq_iff, Bool-cases, Option-cases,
}
use alya.DiGen.Model.{TypeRef, ProviderRef, InvokeRef, GraphModel}
use alya.DiGen.Resolve.Defs.{
  Res, ok, err, out_of_fuel, ◌>>=◌, has, input_for, binding_for, provider_for, ResolverState,
  resolve_dependency, resolve_params, enter, build_node, resolve_provider, enough, initial,
  resolve_outputs, resolve_invokes, resolve_body, resolve_graph, make_field_name,
}
use alya.DiGen.Resolve.Order.{Good, empty, dependency_ok, params_ok, provider-Resolves}
use alya.DiGen.Resolve.Plan.{outputs_ok}

-- The providers whose resolution is not under way.
abbrev idle : List String → List ProviderRef → ℕ
idle visiting = count_if (λ p. not (has p.result.type_key visiting))

idle-le-length : (v : List String) (ps : List ProviderRef) → idle v ps ≤ length ps
idle-le-length v [] = omega arith
idle-le-length v (p ∷ ps) = ground (arith, idle-le-length v ps)

idle-enter_le : (k : String) (v : List String) (ps : List ProviderRef) → idle (k ∷ v) ps ≤ idle v ps
idle-enter_le k v [] = omega arith
idle-enter_le k v (p ∷ ps) = ground (arith, idle-enter_le k v ps)

idle-enter :
    (k : String) (v : List String) (ps : List ProviderRef) (p : ProviderRef)
    → provider_for k ps ≡ some p
    → has k v ≡ false
    → idle (k ∷ v) ps < idle v ps
idle-enter k v [] p h e = cc
idle-enter k v (q ∷ ps) p h e = ground (
  arith,
  idle-enter_le k v ps,
  idle-enter k v ps p,
  str_eq_iff q.result.type_key k,
  str_eq_iff k q.result.type_key,
  ap (λ i. has i v),
)

bind_ends {ℓ κ} :
    {A : Type ℓ} {B : Type κ} (m : Res A) (f : A → Res B)
    → m ≢ out_of_fuel
    → ((a : A) → m ≡ ok a → f a ≢ out_of_fuel)
    → (m >>= f) ≢ out_of_fuel
bind_ends (ok a) f k l h = l a refl h
bind_ends (err e) f k l h = cc
bind_ends out_of_fuel f k l h = k refl

module _ (g : GraphModel) where
  -- With more fuel than idle providers, a resolution does not run out.
  abbrev Ends : ℕ → Type 0
  Ends n =
      (t : TypeRef) (s : ResolverState)
      → Good g s
      → idle s.visiting g.providers < n
      → resolve_provider g n t s ≢ out_of_fuel

  module _ (n : ℕ) (H : Ends n) where
    dependency_ends :
        (t : TypeRef) (s : ResolverState)
        → Good g s
        → idle s.visiting g.providers < n
        → resolve_dependency g (resolve_provider g n) t s ≢ out_of_fuel
    unfolding resolve_dependency
    dependency_ends t s good lt h = elim (Option-cases (input_for t.type_key g.inputs)) [
      | inr (i, e) ↦ ground arith
      | inl e ↦ elim (Option-cases (binding_for t.type_key g.bindings)) [
        | inr (b, eb) ↦ ground (arith, H b.concrete_type s good lt)
        | inl eb ↦ ground (arith, H t s good lt)
      ]
    ]

    params_ends :
        (ts : List TypeRef) (s : ResolverState)
        → Good g s
        → idle s.visiting g.providers < n
        → resolve_params g (resolve_provider g n) ts s ≢ out_of_fuel
    unfolding resolve_params
    params_ends [] s good lt = λ h. cc
    params_ends (t ∷ ts) s good lt = bind_ends _ _ (dependency_ends t s good lt) λ (src, s1) first.
        let (good1, ext, _) =
          dependency_ok g (resolve_provider g n) (provider-Resolves g n) t src s s1 first good in
        bind_ends _ _
          (params_ends ts s1 good1 (subst (λ v. idle v g.providers < n) (sym ext.visiting) lt))
          λ (rest, s2) others h. cc

  provider-Ends : (n : ℕ) → Ends n
  unfolding resolve_provider build_node
  provider-Ends zero t s good lt h = absurd (omega arith)
  provider-Ends (suc n) t s good lt h = elim (Bool-cases (has t.type_key s.visiting)) [
    | inl busy ↦ ground arith
    | inr free ↦ elim (Option-cases (provider_for t.type_key g.providers)) [
      | inl e ↦ ground arith
      | inr (p, e) ↦
          let less = idle-enter t.type_key s.visiting g.providers p e free in
          let good0 : Good g (enter t.type_key s) = record {
            order = good.order;
            same = good.same;
          } in
          ground (
            arith,
            params_ends n (provider-Ends n) p.params (enter t.type_key s) good0 (omega arith),
          )
    ]
  ]

  pub start : Good g initial
  start = record { order = empty; same = refl }

module _ (g : GraphModel) (qualifier : String → String) (decimal : ℕ → String) where
  outputs_end :
      (os : List TypeRef) (names : List (String × ℕ)) (s : ResolverState)
      → Good g s
      → idle s.visiting g.providers < enough g
      → resolve_outputs g qualifier decimal os names s ≢ out_of_fuel
  unfolding resolve_outputs
  outputs_end [] names s good lt = λ h. cc
  outputs_end (o ∷ os) names s good lt =
      bind_ends _ _ (dependency_ends g (enough g) (provider-Ends g (enough g)) o s good lt)
        λ (src, s1) first.
          let (good1, ext, _) =
            dependency_ok g (resolve_provider g (enough g)) (provider-Resolves g (enough g)) o src s
              s1 first good in
          bind_ends _ _
            (outputs_end os (make_field_name g qualifier decimal o names).1 s1 good1
              (subst (λ v. idle v g.providers < enough g) (sym ext.visiting) lt))
            λ (rest, s2) others h. cc

  invokes_end :
      (is : List InvokeRef) (s : ResolverState)
      → Good g s
      → idle s.visiting g.providers < enough g
      → resolve_invokes g qualifier decimal is s ≢ out_of_fuel
  unfolding resolve_invokes
  invokes_end [] s good lt = λ h. cc
  invokes_end (i ∷ is) s good lt =
      bind_ends _ _ (params_ends g (enough g) (provider-Ends g (enough g)) i.params s good lt)
        λ (deps, s1) first.
          let (good1, ext, _, _) =
            params_ok g (resolve_provider g (enough g)) (provider-Resolves g (enough g)) i.params
              deps s s1 first good in
          bind_ends _ _
            (invokes_end is s1 good1
              (subst (λ v. idle v g.providers < enough g) (sym ext.visiting) lt))
            λ (rest, s2) others h. cc

  body_ends : resolve_body g qualifier decimal ≢ out_of_fuel
  unfolding resolve_body
  body_ends =
      let few = idle-le-length [] g.providers in
      bind_ends _ _ (outputs_end g.outputs [] initial (start g) (omega arith)) λ (os, s1) first.
        let (good1, ext, _, _) =
          outputs_ok g qualifier decimal g.outputs [] os initial s1 first (start g) in
        bind_ends _ _
          (invokes_end g.invokes s1 good1
            (subst (λ v. idle v g.providers < enough g) (sym ext.visiting) (omega arith)))
          λ (is, s2) second h. cc

  -- The resolution of any graph, with whatever cycles, ends: a stack of more resolutions than
  -- there are providers does not come up.
  pub resolve_graph_ends : resolve_graph g qualifier decimal ≢ out_of_fuel
  unfolding resolve_graph
  resolve_graph_ends h = body_ends (ground arith)
