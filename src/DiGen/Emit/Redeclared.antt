-- ===== src/DiGen/Emit/Redeclared.antt =====
-- The short variable declarations of the generated Build.
use mathlib.Core.Path.{subst}
use alya.Prelude.{
  ℕ, List, [], ◌∷◌, Option, none, some, String, true, false, ◌≡◌, refl, sym, inl, inr, arith,
  any_if, Bool-cases, Option-cases, In, here, there, ◌||◌, In-append_right, In-append_left,
  any_if-In,
}
use alya.DiGen.Model.{GraphModel, ProviderNode, ResolvedInvoke, ResolvedGraph}
use alya.DiGen.Names.{build_input_var_names, build_provider_var_names}
use alya.DiGen.Names.Letters.{lower_camel}
use alya.DiGen.Emit.Defs.{
  Step, define, return_on_error, push_cleanup, BuildFile, bind_some, render_all, concat,
  provider_step_codes, invoke_step_codes, emit_app_type, emit_params, emit_build_file,
  make_reserved_names, reference_name, make_cleanup_name, dependency_args,
}
use alya.DiGen.Emit.Compiles.{build_compiles, DeclaresErr, compiles-twice}

In-concat :
    {A : Type 0} {x : A} (xs : List A) (yss : List (List A))
    → In x xs
    → In xs yss
    → In x (concat yss)
unfolding concat
In-concat xs [] m k = elim k [ ]
In-concat xs (_ ∷ yss) m here = In-append_left xs (concat yss) m
In-concat xs (ys ∷ yss) m (there k) = In-append_right ys (concat yss) (In-concat xs yss m k)

bind_some-eq-some :
    {A B : Type 0} (first : Option A) (next : A → Option B) {b : B}
    → bind_some first next ≡ some b
    → (a : A) × (first ≡ some a) × (next a ≡ some b)
bind_some-eq-some none next h = cc
bind_some-eq-some (some a) next h = (a, refl, h)

-- Each element of a list is rendered to one of the results.
In-render_all :
    {A B : Type 0} {x : A} (f : A → Option B) (xs : List A) (ys : List B)
    → render_all f xs ≡ some ys
    → In x xs
    → (y : B) × (f x ≡ some y) × In y ys
unfolding render_all
In-render_all f [] ys h m = elim m [ ]
In-render_all f (x ∷ xs) ys h here =
    let (y, e, h₁) = bind_some-eq-some (f x) _ h in
    let (rest, e', h₂) = bind_some-eq-some (render_all f xs) _ h₁ in
    let same : y ∷ rest ≡ ys = ground arith in (y, e, subst (In y) same here)
In-render_all f (x ∷ xs) ys h (there m) =
    let (y, e, h₁) = bind_some-eq-some (f x) _ h in
    let (rest, e', h₂) = bind_some-eq-some (render_all f xs) _ h₁ in
    let same : y ∷ rest ≡ ys = ground arith in
    let (z, ez, k) = In-render_all f xs rest e' m in (z, ez, subst (In z) same (there k))

module _ (render : String → Option String) (inputs providers : List (String × String)) where
  -- A provider that may fail is called by a statement that declares `err`.
  provider_step_codes-DeclaresErr :
      (node : ProviderNode) (steps : List Step)
      → (node.ref.has_error || node.ref.has_cleanup) ≡ true
      → provider_step_codes render inputs providers node ≡ some steps
      → (s : Step) × In s steps × DeclaresErr s
  unfolding provider_step_codes DeclaresErr
  provider_step_codes-DeclaresErr node steps fails h =
      let name = reference_name node.ref.result [] providers in
      let cleanup = make_cleanup_name node.ref.result.type_value name in
      let args = dependency_args inputs providers node.dependencies in
      elim (Option-cases (render node.ref.expr_string)) [
        | inl e ↦ absurd (ground arith)
        | inr (called, e) ↦ elim (Bool-cases node.ref.has_cleanup) [
          | inl c ↦
              let s : Step = define (name ∷ cleanup ∷ "err" ∷ []) called args in
              let same : s ∷ return_on_error ∷ push_cleanup cleanup ∷ [] ≡ steps = ground arith in
              (s, subst (In s) same here, ground arith)
          | inr c ↦
              let s : Step = define (name ∷ "err" ∷ []) called args in
              let same : s ∷ return_on_error ∷ [] ≡ steps = ground arith in
              (s, subst (In s) same here, ground arith)
        ]
      ]

  invoke_step_codes-err :
      (invoke : ResolvedInvoke) (steps : List Step)
      → invoke.ref.returns_err ≡ true
      → invoke_step_codes render inputs providers invoke ≡ some steps
      → (called : String) × (args : List String) × In (define ("err" ∷ []) called args) steps
  unfolding invoke_step_codes
  invoke_step_codes-err invoke steps fails h =
      let args = dependency_args inputs providers invoke.dependencies in
      elim (Option-cases (render invoke.ref.expr_string)) [
        | inl e ↦ absurd (ground arith)
        | inr (called, e) ↦
            let s : Step = define ("err" ∷ []) called args in
            let same : s ∷ return_on_error ∷ [] ≡ steps = ground arith in
            (called, args, subst (In s) same here)
      ]

module _ (render : String → Option String) (numbered : String → ℕ → String)
    (to_lower : String → String) where
  -- The steps of a file that is emitted are those of the plan's providers and invokes.
  emitted_steps :
      (package_name : String) (model : GraphModel) (plan : ResolvedGraph)
      (imports : List (String × String)) (file : BuildFile)
      → emit_build_file render numbered to_lower package_name model plan imports ≡ some file
      → (inputs : List (String × String)) × (providers : List (String × String)) × (ps : List
          (List Step))
        × (is : List (List Step)) × (render_all
              (provider_step_codes render inputs providers)
              plan.provider_order
            ≡ some ps)
        × (render_all (invoke_step_codes render inputs providers) plan.invokes ≡ some is)
        × (file.provider_steps ≡ concat ps)
        × (file.invoke_steps ≡ concat is)
  unfolding emit_build_file
  emitted_steps package_name model plan imports file h =
      let reserved = make_reserved_names imports in
      let (fields, e₁, h₁) =
        bind_some-eq-some (emit_app_type render numbered to_lower plan.outputs) _ h in
      let ((inputs, used), e₂, h₂) =
        bind_some-eq-some
          (build_input_var_names numbered (lower_camel to_lower) model.inputs reserved) _ h₁ in
      let ((providers, used'), e₃, h₃) =
        bind_some-eq-some
          (build_provider_var_names numbered (lower_camel to_lower) plan.provider_order reserved
            inputs)
          _ h₂ in
      let (params, e₄, h₄) =
        bind_some-eq-some (emit_params render numbered to_lower inputs model.inputs) _ h₃ in
      let (ps, e₅, h₅) =
        bind_some-eq-some
          (render_all (provider_step_codes render inputs providers) plan.provider_order) _ h₄ in
      let (is, e₆, h₆) =
        bind_some-eq-some (render_all (invoke_step_codes render inputs providers) plan.invokes) _
          h₅ in
      (inputs, providers, ps, is, e₅, e₆, ground arith, ground arith)

  -- Where a provider of the plan returns an error, and an invoke does, the code that is emitted is
  -- not accepted by a Go compiler: both are called by `:=` in the one block of Build, and the
  -- invoke's declares `err` alone, which the provider's has declared.
  pub emit_build_file-refused :
      (package_name : String) (model : GraphModel) (plan : ResolvedGraph)
      (imports : List (String × String)) (file : BuildFile)
      → emit_build_file render numbered to_lower package_name model plan imports ≡ some file
      → any_if (λ (n : ProviderNode). n.ref.has_error || n.ref.has_cleanup) plan.provider_order
        ≡ true
      → any_if (λ (i : ResolvedInvoke). i.ref.returns_err) plan.invokes ≡ true
      → build_compiles file ≡ false
  emit_build_file-refused package_name model plan imports file h failing_provider failing_invoke =
      let (inputs, providers, ps, is, e, e', same, same') =
        emitted_steps package_name model plan imports file h in
      let (node, m, fails) = any_if-In _ plan.provider_order failing_provider in
      let (invoke, m', fails') = any_if-In _ plan.invokes failing_invoke in
      let (steps, made, k) = In-render_all _ plan.provider_order ps e m in
      let (steps', made', k') = In-render_all _ plan.invokes is e' m' in
      let (s, s_in, declares) =
        provider_step_codes-DeclaresErr render inputs providers node steps fails made in
      let (called, args, again) =
        invoke_step_codes-err render inputs providers invoke steps' fails' made' in
      compiles-twice _ file.provider_steps s file.invoke_steps called args
        (subst (In s) (sym same) (In-concat steps ps s_in k)) declares
        (subst (In (define ("err" ∷ []) called args)) (sym same') (In-concat steps' is again k'))
