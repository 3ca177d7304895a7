-- ===== src/DiGen/Resolve/Order.antt =====
-- The order of the providers.
use mathlib.Core.Path.{subst}
use alya.Prelude.{
  ℕ, zero, suc, List, [], ◌∷◌, ◌++◌, map, some, String, true, false, not, ◌≡◌, ◌⊎◌, inl, inr, refl,
  sym, ap, ◌∙◌, arith, select, All, str_eq, str_eq_iff, str_eq_refl, Bool-cases, Option-cases,
  if◌then◌else◌,
}
use alya.DiGen.Model.{TypeRef, ProviderRef, BindingRef, GraphModel, DependencyRef, ProviderNode}
use alya.DiGen.Resolve.Defs.{
  Res, ok, err, out_of_fuel, ◌>>=◌, has, input_for, binding_for, provider_for, ResolverState,
  resolve_dependency, resolve_params, add_node, enter, build_node, resolve_provider,
}

-- A chain that succeeds has succeeded at each step.
pub bind_inv {ℓ κ} :
    {A : Type ℓ} {B : Type κ} (m : Res A) (f : A → Res B) {b : B}
    → (m >>= f) ≡ ok b
    → (a : A) × (m ≡ ok a) × (f a ≡ ok b)
bind_inv (ok a) f h = (a, refl, h)
bind_inv (err e) f h = cc
bind_inv out_of_fuel f h = cc

abbrev pub key_of : ProviderNode → String
key_of n = n.ref.result.type_key

abbrev pub keys : List ProviderNode → List String
keys = map key_of

module _ (g : GraphModel) where
  -- The source is the input of the requested type; or else the concrete type that the requested
  -- interface is bound to; or else the requested type itself. The last two are built already.
  abbrev pub Supplied : List String → DependencyRef → Type 0
  Supplied built d =
      (input_for d.requested.type_key g.inputs ≡ some d.source)
      ⊎ (((b : BindingRef) × (binding_for d.requested.type_key g.bindings ≡ some b)
            × (d.source ≡ b.concrete_type)
            × (has d.source.type_key built ≡ true))
          ⊎ ((d.source ≡ d.requested) × (has d.source.type_key built ≡ true)))

  -- Each provider is built once, is the one declared for its type, and is given a supplied value
  -- for each of its parameters.
  pub data IsBuildOrder : List ProviderNode → Type 0 where
    empty : IsBuildOrder []
    next :
        {ns ms : List ProviderNode} (n : ProviderNode)
        → IsBuildOrder ns
        → provider_for (key_of n) g.providers ≡ some n.ref
        → map (λ (d : DependencyRef). d.requested) n.dependencies ≡ n.ref.params
        → All (Supplied (keys ns)) n.dependencies
        → has (key_of n) (keys ns) ≡ false
        → ms ≡ ns ++ n ∷ []
        → IsBuildOrder ms

  pub record Good (s : ResolverState) : Type 0 where
    pub order : IsBuildOrder s.provider_order
    pub same : s.resolved ≡ keys s.provider_order

  -- What a resolution leaves of the state that it starts from.
  pub record Extends (s s' : ResolverState) : Type 0 where
    pub visiting : s'.visiting ≡ s.visiting
    pub grows : (k : String) → has k s.resolved ≡ true → has k s'.resolved ≡ true
    pub open_stays :
        (k : String)
        → has k s.visiting ≡ true
        → has k s.resolved ≡ false
        → has k s'.resolved ≡ false

  pub Extends-refl : (s : ResolverState) → Extends s s
  Extends-refl s = record { visiting = refl; grows = λ k h. h; open_stays = λ k v h. h }

  pub Extends-trans : {r s t : ResolverState} → Extends r s → Extends s t → Extends r t
  Extends-trans {r} {s} {t} a b = record {
    visiting = b.visiting ∙ a.visiting;
    grows = λ k h. b.grows k (a.grows k h);
    open_stays = λ k v h.
        b.open_stays k (subst (λ l. has k l ≡ true) (sym a.visiting) v) (a.open_stays k v h);
  }

  -- What is promised of the resolution of a provider.
  abbrev Resolves : (TypeRef → ResolverState → Res ResolverState) → Type 0
  Resolves resolve =
      (t : TypeRef) (s s' : ResolverState)
      → resolve t s ≡ ok s'
      → Good s
      → Good s' × Extends s s' × (has t.type_key s'.resolved ≡ true)

  pub Supplied-mono :
      {s s' : ResolverState} (d : DependencyRef)
      → Extends s s'
      → Supplied s.resolved d
      → Supplied s'.resolved d
  Supplied-mono d e (inl i) = inl i
  Supplied-mono d e (inr (inl (b, f, q, h))) = inr (inl (b, f, q, e.grows _ h))
  Supplied-mono d e (inr (inr (q, h))) = inr (inr (q, e.grows _ h))

  module _ (resolve : TypeRef → ResolverState → Res ResolverState) (H : Resolves resolve) where
    pub dependency_ok :
        (t src : TypeRef) (s s' : ResolverState)
        → resolve_dependency g resolve t s ≡ ok (src, s')
        → Good s
        → Good s' × Extends s s' × Supplied s'.resolved (record { requested = t; source = src })
    unfolding resolve_dependency
    dependency_ok t src s s' h good = elim (Option-cases (input_for t.type_key g.inputs)) [
      | inr (input, e) ↦
          let found : input ≡ src = ground arith in
          let left : s ≡ s' = ground arith in
          (subst Good left good, subst (Extends s) left (Extends-refl s), inl (e ∙ ap some found))
      | inl e ↦ elim (Option-cases (binding_for t.type_key g.bindings)) [
        | inr (b, eb) ↦
            let run : resolve b.concrete_type s ≡ ok s' = ground arith in
            let found : src ≡ b.concrete_type = ground arith in
            let (good', ext, built) = H b.concrete_type s s' run good in
            (good', ext, inr (inl (b, eb, found, cc)))
        | inl eb ↦
            let run : resolve t s ≡ ok s' = ground arith in
            let found : src ≡ t = ground arith in
            let (good', ext, built) = H t s s' run good in (good', ext, inr (inr (found, cc)))
      ]
    ]

    pub params_ok :
        (ts : List TypeRef) (deps : List DependencyRef) (s s' : ResolverState)
        → resolve_params g resolve ts s ≡ ok (deps, s')
        → Good s
        → Good s'
          × Extends s s'
          × All (Supplied s'.resolved) deps
          × (map (λ (d : DependencyRef). d.requested) deps ≡ ts)
    unfolding resolve_params
    params_ok [] deps s s' h good =
        let none_left : deps ≡ [] = ground arith in
        let left : s ≡ s' = ground arith in
        (
          subst Good left good,
          subst (Extends s) left (Extends-refl s),
          subst (All (Supplied s'.resolved)) (sym none_left) tt,
          ap (map (λ (d : DependencyRef). d.requested)) none_left,
        )
    params_ok (t ∷ ts) deps s s' h good =
        let ((source, s1), first, h1) = bind_inv (resolve_dependency g resolve t s) _ h in
        let ((rest, s2), others, h2) = bind_inv (resolve_params g resolve ts s1) _ h1 in
        let d : DependencyRef = record { requested = t; source = source } in
        let whole : deps ≡ d ∷ rest = ground arith in
        let left : s2 ≡ s' = ground arith in
        let (good1, ext1, supplied) = dependency_ok t source s s1 first good in
        let (good2, ext2, all, names) = params_ok ts rest s1 s2 others good1 in
        (
          subst Good left good2,
          subst (Extends s) left (Extends-trans ext1 ext2),
          subst (λ r. All (Supplied r.resolved) deps) left
              (subst (All (Supplied s2.resolved)) (sym whole) (Supplied-mono d ext2 supplied, all)),
          ap (map (λ (d : DependencyRef). d.requested)) whole ∙ ap (λ l. t ∷ l) names,
        )

  provider_key :
      (k : String) (ps : List ProviderRef) (p : ProviderRef)
      → provider_for k ps ≡ some p
      → p.result.type_key ≡ k
  provider_key k [] p h = cc
  provider_key k (q ∷ ps) p h = ground (arith, provider_key k ps p, str_eq_iff q.result.type_key k)

  has-append :
      (k j : String) (l : List String)
      → has k (l ++ j ∷ []) ≡ (if has k l then true else str_eq j k)
  has-append k j [] = ground arith
  has-append k j (i ∷ l) = ground (arith, has-append k j l)

  select-absent :
      (k : String) (l : List String) → has k l ≡ false → select (λ j. not (str_eq j k)) l ≡ l
  select-absent k [] h = refl
  select-absent k (j ∷ l) h = ground (arith, select-absent k l)

  keys-append :
      (ns : List ProviderNode) (n : ProviderNode) → keys (ns ++ n ∷ []) ≡ keys ns ++ key_of n ∷ []
  keys-append [] n = refl
  keys-append (m ∷ ns) n = ap (λ l. key_of m ∷ l) (keys-append ns n)

  -- A provider that is not built and not under way is built after what it needs.
  module _ (n : ℕ) (H : Resolves (resolve_provider g n)) (t : TypeRef) (s : ResolverState) where
    provider_ok :
        (p : ProviderRef) (deps : List DependencyRef) (s1 : ResolverState)
        → has t.type_key s.resolved ≡ false
        → has t.type_key s.visiting ≡ false
        → provider_for t.type_key g.providers ≡ some p
        → resolve_params g (resolve_provider g n) p.params (enter t.type_key s) ≡ ok (deps, s1)
        → Good s
        → Good (add_node t.type_key p deps s1)
          × Extends s (add_node t.type_key p deps s1)
          × (has t.type_key (add_node t.type_key p deps s1).resolved ≡ true)
    provider_ok p deps s1 fresh idle found run good =
        let k = t.type_key in
        let ke = provider_key k g.providers p found in
        let good0 : Good (enter k s) = record { order = good.order; same = good.same } in
        let (good1, ext, all, names) =
          params_ok (resolve_provider g n) H p.params deps (enter k s) s1 run good0 in
        let self = str_eq_refl k in
        let still : has k s1.resolved ≡ false = ext.open_stays k (ground (arith, self)) fresh in
        let nd : ProviderNode = record { ref = p; dependencies = deps } in
        let absent = select-absent k s.visiting idle in
        (
          record {
            order =
                next nd good1.order
                  (subst (λ j. provider_for j g.providers ≡ some p) (sym ke) found) names
                  (subst (λ l. All (Supplied l) deps) good1.same all)
                  (subst (λ l. has (key_of nd) l ≡ false) good1.same
                    (subst (λ j. has j s1.resolved ≡ false) (sym ke) still))
                  refl;
            same = cc (keys-append s1.provider_order nd, good1.same, ke);
          },
          record {
            visiting =
                ap (select (λ j. not (str_eq j k))) ext.visiting ∙ ground (arith, self, absent);
            grows = λ j h. ground (arith, has-append j k s1.resolved, ext.grows j h);
            open_stays = λ j v h. stays j v h (ext.open_stays j);
          },
          ground (arith, has-append k k s1.resolved, self),
        )
      where
        stays :
            (j : String)
            → has j s.visiting ≡ true
            → has j s.resolved ≡ false
            → (has j (t.type_key ∷ s.visiting) ≡ true
                → has j s.resolved ≡ false
                → has j s1.resolved ≡ false)
            → has j (s1.resolved ++ t.type_key ∷ []) ≡ false
        stays j v h k = ground (
          arith,
          has-append j t.type_key s1.resolved,
          str_eq_iff t.type_key j,
          ap (λ i. has i s.visiting),
        )

  node_ok :
      (n : ℕ)
      → Resolves (resolve_provider g n)
      → (t : TypeRef) (s s' : ResolverState) (p : ProviderRef) → has t.type_key s.resolved ≡ false
      → has t.type_key s.visiting ≡ false
      → provider_for t.type_key g.providers ≡ some p
      → build_node g (resolve_provider g n) t p s ≡ ok s'
      → Good s
      → Good s' × Extends s s' × (has t.type_key s'.resolved ≡ true)
  unfolding build_node
  node_ok n H t s s' p fresh idle found h good =
      let ((deps, s1), run, e) =
        bind_inv (resolve_params g (resolve_provider g n) p.params (enter t.type_key s)) _ h in
      let left : add_node t.type_key p deps s1 ≡ s' = ground arith in
      let (good', ext, built) = provider_ok n H t s p deps s1 fresh idle found run good in
      (
        subst Good left good',
        subst (Extends s) left ext,
        subst (λ r. has t.type_key r.resolved ≡ true) left built,
      )

  -- By induction on the fuel, every resolution of a provider does so.
  pub provider-Resolves : (n : ℕ) → Resolves (resolve_provider g n)
  unfolding resolve_provider
  provider-Resolves zero t s s' h good = cc
  provider-Resolves (suc n) t s s' h good = elim (Bool-cases (has t.type_key s.resolved)) [
    | inl old ↦
        let left : s ≡ s' = ground arith in
        (subst Good left good, subst (Extends s) left (Extends-refl s), ground arith)
    | inr fresh ↦ elim (Bool-cases (has t.type_key s.visiting)) [
      | inl busy ↦ absurd (ground arith)
      | inr idle ↦ elim (Option-cases (provider_for t.type_key g.providers)) [
        | inl none_found ↦ absurd (ground arith)
        | inr (p, found) ↦
            node_ok n (provider-Resolves n) t s s' p fresh idle found (ground arith) good
      ]
    ]
  ]
