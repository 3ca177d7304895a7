-- ===== src/DiGen/Emit/Defs.antt =====
-- The App type and the Build function that cmd/alya-di/emit.go writes, as data. The text of an
-- expression's code, from go/parser and jennifer, is the parameter `render`.
use alya.Prelude.{
  ℕ, List, [], ◌∷◌, ◌++◌, map, Option, none, some, String, find_if, str_append, str_eq,
  if◌then◌else◌,
}
use alya.DiGen.Model.{
  GoType, TypeRef, GraphModel, DependencyRef, ProviderNode, ResolvedInvoke, ResolvedOutput,
  ResolvedGraph,
}
use alya.DiGen.Resolve.{base_type_name}
use alya.DiGen.Names.{build_input_var_names, build_provider_var_names}
use alya.DiGen.Names.Letters.{lower_camel, upper_first}

-- A statement of Build: `names := call(args)`, the return on `err != nil` with the cleanups run,
-- the push of a cleanup that is not nil, and a call alone.
pub data Step : Type 0 where
  define : (names : List String) (called : String) (args : List String) → Step
  return_on_error : Step
  push_cleanup : (cleanup : String) → Step
  run : (called : String) (args : List String) → Step

pub record BuildFile : Type 0 where
  pub package_name : String
  pub imports : List (String × String)
  pub app_fields : List (String × String)
  pub params : List (String × String)
  pub provider_steps : List Step
  pub invoke_steps : List Step
  pub assigned : List (String × String)

abbrev pub make_reserved_names : List (String × String) → List String
make_reserved_names imports =
    "app" ∷ "cleanups" ∷ "err" ∷ "runCleanups" ∷ map (λ (i : String × String). i.0) imports

abbrev pub name_for : String → List (String × String) → Option (String × String)
name_for key names = find_if (λ (x : String × String). str_eq x.0 key) names

-- A name that is in neither map is empty.
abbrev pub reference_name : TypeRef → List (String × String) → List (String × String) → String
reference_name source inputs providers = elim (name_for source.type_key inputs) [
  | some (key, name) ↦ name
  | none ↦ elim (name_for source.type_key providers) [ some (key, name) ↦ name | none ↦ "" ]
]

-- `dependencyArgs` and `argCodes`: the names are joined and split again.
abbrev pub dependency_args :
    List (String × String) → List (String × String) → List DependencyRef → List String
dependency_args inputs providers =
    map (λ (d : DependencyRef). reference_name d.source inputs providers)

abbrev pub make_cleanup_name : GoType → String → String
make_cleanup_name t var_name =
    let base = base_type_name t in
    str_append "cleanup" (if str_eq base "" then upper_first var_name else base)

abbrev pub bind_some : {A B : Type 0} → Option A → (A → Option B) → Option B
bind_some none next = none
bind_some (some a) next = next a

-- A loop over steps or fields, up to the first error.
unfoldable pub render_all : {A B : Type 0} → (A → Option B) → List A → Option (List B)
render_all f [] = some []
render_all f (x ∷ xs) = bind_some (f x) λ y. bind_some (render_all f xs) λ ys. some (y ∷ ys)

unfoldable pub concat : {A : Type 0} → List (List A) → List A
concat [] = []
concat (xs ∷ rest) = xs ++ concat rest

module _ (render : String → Option String) (inputs providers : List (String × String)) where
  unfoldable pub provider_step_codes : ProviderNode → Option (List Step)
  provider_step_codes node =
      let result = node.ref.result in
      let name = reference_name result [] providers in
      let cleanup = make_cleanup_name result.type_value name in
      let args = dependency_args inputs providers node.dependencies in
      bind_some (render node.ref.expr_string) λ called. some (
        if node.ref.has_cleanup
        then define (name ∷ cleanup ∷ "err" ∷ []) called args
          ∷ return_on_error
          ∷ push_cleanup cleanup
          ∷ []
        else if node.ref.has_error
        then define (name ∷ "err" ∷ []) called args ∷ return_on_error ∷ []
        else define (name ∷ []) called args ∷ [])

  unfoldable pub invoke_step_codes : ResolvedInvoke → Option (List Step)
  invoke_step_codes invoke =
      let args = dependency_args inputs providers invoke.dependencies in
      bind_some (render invoke.ref.expr_string) λ called. some (
        if invoke.ref.returns_err
        then define ("err" ∷ []) called args ∷ return_on_error ∷ []
        else run called args ∷ [])

-- `numbered` is `fmt.Sprintf("%s%d", …)` and `to_lower` is `strings.ToLower` of one character.
module _ (render : String → Option String) (numbered : String → ℕ → String)
    (to_lower : String → String) where
  unfoldable pub emit_app_type : List ResolvedOutput → Option (List (String × String))
  emit_app_type = render_all (λ (o : ResolvedOutput).
      bind_some (render o.requested.expr_string) λ code. some (o.field_name, code))

  unfoldable pub emit_params :
      List (String × String) → List TypeRef → Option (List (String × String))
  emit_params inputs = render_all (λ (t : TypeRef).
      bind_some (render t.expr_string) λ code. some (reference_name t inputs [], code))

  -- `none` is an error, or, of the names, that the fuel for a free number is used up.
  unfoldable pub emit_build_file :
      String → GraphModel → ResolvedGraph → List (String × String) → Option BuildFile
  emit_build_file package_name model plan imports =
      let reserved = make_reserved_names imports in
      bind_some (emit_app_type plan.outputs) λ app_fields.
        bind_some (build_input_var_names numbered (lower_camel to_lower) model.inputs reserved)
          λ (inputs, used).
            bind_some
              (build_provider_var_names numbered (lower_camel to_lower) plan.provider_order reserved
                inputs)
              λ (providers, used'). bind_some (emit_params inputs model.inputs) λ params.
                bind_some
                  (render_all (provider_step_codes render inputs providers) plan.provider_order)
                  λ provider_steps.
                    bind_some (render_all (invoke_step_codes render inputs providers) plan.invokes)
                      λ invoke_steps. some (record {
                        package_name = package_name;
                        imports = imports;
                        app_fields = app_fields;
                        params = params;
                        provider_steps = concat provider_steps;
                        invoke_steps = concat invoke_steps;
                        assigned =
                            map
                              (λ (o : ResolvedOutput).
                                (o.field_name, reference_name o.source inputs providers))
                              plan.outputs;
                      })
