-- ===== src/DiGen/Resolve/Plan.antt =====
-- The plan that a resolution returns.
use mathlib.Core.Path.{subst}
use alya.Prelude.{ℕ, List, [], ◌∷◌, map, String, ◌≡◌, sym, ap, ◌∙◌, arith, All}
use alya.DiGen.Model.{
  TypeRef, GraphModel, DependencyRef, ResolvedInvoke, ResolvedOutput, ResolvedGraph,
}
use alya.DiGen.Resolve.Defs.{
  ok, ResolverState, resolve_dependency, resolve_provider, enough, make_field_name, resolve_outputs,
}
use alya.DiGen.Resolve.Order.{
  bind_inv, keys, Supplied, IsBuildOrder, Good, Extends, Extends-refl, Extends-trans, Supplied-mono,
  dependency_ok, provider-Resolves,
}

abbrev pub output_dependency : ResolvedOutput → DependencyRef
output_dependency o = record { requested = o.requested; source = o.source }

module _ (g : GraphModel) (qualifier : String → String) (decimal : ℕ → String) where
  abbrev pub AllSupplied : List String → List ResolvedInvoke → Type 0
  AllSupplied built is = All (λ i. All (Supplied g built) i.dependencies) is

  pub outputs_ok :
      (os : List TypeRef) (names : List (String × ℕ)) (rs : List ResolvedOutput)
      (s s' : ResolverState)
      → resolve_outputs g qualifier decimal os names s ≡ ok (rs, s')
      → Good g s
      → Good g s'
        × Extends g s s'
        × All (λ o. Supplied g s'.resolved (output_dependency o)) rs
        × (map (λ (o : ResolvedOutput). o.requested) rs ≡ os)
  unfolding resolve_outputs
  outputs_ok [] names rs s s' h good =
      let none_left : rs ≡ [] = ground arith in
      let left : s ≡ s' = ground arith in
      (
        subst (Good g) left good,
        subst (Extends g s) left (Extends-refl g s),
        subst (All (λ o. Supplied g s'.resolved (output_dependency o))) (sym none_left) tt,
        ap (map (λ (o : ResolvedOutput). o.requested)) none_left,
      )
  outputs_ok (o ∷ os) names rs s s' h good =
      let ((source, s1), first, h1) =
        bind_inv (resolve_dependency g (resolve_provider g (enough g)) o s) _ h in
      let (name, names') = make_field_name g qualifier decimal o names in
      let ((rest, s2), others, h2) =
        bind_inv (resolve_outputs g qualifier decimal os names' s1) _ h1 in
      let r : ResolvedOutput = record { field_name = name; requested = o; source = source } in
      let whole : rs ≡ r ∷ rest = ground arith in
      let left : s2 ≡ s' = ground arith in
      let (good1, ext1, supplied) =
        dependency_ok g (resolve_provider g (enough g)) (provider-Resolves g (enough g)) o source s
          s1 first good in
      let (good2, ext2, all, asked) = outputs_ok os names' rest s1 s2 others good1 in
      (
        subst (Good g) left good2,
        subst (Extends g s) left (Extends-trans g ext1 ext2),
        subst (λ x. All (λ o. Supplied g x.resolved (output_dependency o)) rs) left
            (subst (All (λ o. Supplied g s2.resolved (output_dependency o))) (sym whole)
              (Supplied-mono g (output_dependency r) ext2 supplied, all)),
        ap (map (λ (o : ResolvedOutput). o.requested)) whole ∙ ap (λ l. o ∷ l) asked,
      )

  abbrev pub Runs : ResolvedGraph → Type 0
  Runs r =
      IsBuildOrder g r.provider_order
      × All (λ o. Supplied g (keys r.provider_order) (output_dependency o)) r.outputs
      × (map (λ (o : ResolvedOutput). o.requested) r.outputs ≡ g.outputs)
      × AllSupplied (keys r.provider_order) r.invokes
      × (map (λ (i : ResolvedInvoke). i.ref) r.invokes ≡ g.invokes)
