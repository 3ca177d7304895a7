-- ===== src/DiGen/Load/Refines.antt =====
-- The reading of a declaration against its meaning.
use mathlib.Core.Path.{subst}
use alya.Prelude.{
  Option, ℕ, zero, suc, List, [], ◌∷◌, ◌++◌, some, String, false, ◌≡◌, ◌≢◌, sym, ap, ◌∙◌, inl, inr,
  arith, str_eq, str_eq_iff, Bool-cases, Option-cases, if◌then◌else◌,
}
use alya.Prelude.Result.{Result, ok, >>=-eq-ok}
use alya.DiGen.Resolve.{has}
use alya.DiGen.Load.Syntax.{Expr, Exprs, ident, elements, Info}
use alya.DiGen.Load.Packages.{Context, var_expr}
use alya.DiGen.Load.Merge.{
  LoadedGraph, Stop, lift, lift-eq-ok, add_declarations, option_of, options_of, module_of,
  include_modules, merge_options, merge_graph_expr,
}
use alya.DiGen.Load.Ends.{module_of_ok}
use alya.DiGen.Load.Expansion.{
  Expands, expands, ExpandsOptions, no_option, declares, includes, ExpandsModules, no_module,
  one_module, declare_all, declare_all-cons, declare_all-append,
}

str_eq-differs : (s t : String) → str_eq s t ≡ false → s ≢ t
str_eq-differs s t e q = let same = (str_eq_iff s t).1 q in cc

module _ (ctx : Context) {T : Type 0} (info : Info T) where
  -- A model that is read has the declarations of the expansion.
  abbrev pub ReadsTo : (List Expr → Type 0) → LoadedGraph → LoadedGraph → Type 0
  ReadsTo Expansion model model' =
      (ds : List Expr) × Expansion ds × (declare_all ctx info ds model ≡ ok model')

  -- The parts of an expansion put together.
  module _ {model model₁ model₂ : LoadedGraph} where
    then_module :
        (ms : List Expr) (name : String) (p : Option String) (e : Expr)
        → var_expr name ctx.var_exprs ≡ some e
        → ReadsTo (Expands ctx info e) model model₁
        → ReadsTo (ExpandsModules ctx info ms) model₁ model₂
        → ReadsTo (ExpandsModules ctx info (ident name p ∷ ms)) model model₂
    then_module ms name p e found (es, inner, first) (ds, others, second) = (
      es ++ ds,
      one_module name p e found inner others,
      declare_all-append ctx info es ds model model₁ model₂ first second,
    )

    then_include :
        (o : Expr) (os targs : List Expr) (args : Exprs)
        → option_of ctx info o ≡ ok ("Include", targs, args)
        → ReadsTo (ExpandsModules ctx info (elements args)) model model₁
        → ReadsTo (ExpandsOptions ctx info os) model₁ model₂
        → ReadsTo (ExpandsOptions ctx info (o ∷ os)) model model₂
    then_include o os targs args read (es, inner, first) (ds, others, second) = (
      es ++ ds,
      includes targs args read inner others,
      declare_all-append ctx info es ds model model₁ model₂ first second,
    )

    then_declares :
        (o : Expr) (os : List Expr) (name : String) (targs : List Expr) (args : Exprs)
        → option_of ctx info o ≡ ok (name, targs, args)
        → name ≢ "Include"
        → add_declarations ctx info name targs args model ≡ ok model₁
        → ReadsTo (ExpandsOptions ctx info os) model₁ model₂
        → ReadsTo (ExpandsOptions ctx info (o ∷ os)) model model₂
    then_declares o os name targs args read other added (ds, others, second) = (
      o ∷ ds,
      declares name targs args read other others,
      declare_all-cons ctx info o ds name targs args model model₁ model₂ read added second,
    )

  -- A reading of modules that is sound.
  abbrev pub IsSound : (Expr → List String → LoadedGraph → Result Stop LoadedGraph) → Type 0
  IsSound merge =
      (e : Expr) (seen : List String) (model model' : LoadedGraph)
      → merge e seen model ≡ ok model'
      → ReadsTo (Expands ctx info e) model model'

  -- A name of a module stands in an identifier.
  pub module_of_ident :
      (seen : List String) (m : Expr) (name : String) (e : Expr)
      → module_of ctx info seen m ≡ ok (name, e)
      → (p : Option String) × (m ≡ ident name p)
  unfolding module_of
  module_of_ident seen (ident n p) name e h = elim (Bool-cases (has n seen)) [
    | inl busy ↦ absurd (ground arith)
    | inr free ↦ elim (Option-cases (var_expr n ctx.var_exprs)) [
      | inl none_there ↦ absurd (ground arith)
      | inr (e', found) ↦ let same : n ≡ name = ground arith in (p, ap (λ k. ident k p) same)
    ]
  ]
  module_of_ident seen _ name e h = absurd (ground arith)

  module _ (merge : Expr → List String → LoadedGraph → Result Stop LoadedGraph)
      (sound : IsSound merge) where
    modules_sound :
        (seen : List String) (ms : List Expr) (model model' : LoadedGraph)
        → include_modules ctx info merge seen ms model ≡ ok model'
        → ReadsTo (ExpandsModules ctx info ms) model model'
    unfolding include_modules
    modules_sound seen [] model model' h = ([], no_module, ground arith)
    modules_sound seen (m ∷ ms) model model' h =
        let ((name, e), entered, h₁) = >>=-eq-ok (module_of ctx info seen m) _ h in
        let (model₁, read, h₂) = >>=-eq-ok (merge e (name ∷ seen) model) _ h₁ in
        let (p, same) = module_of_ident seen m name e entered in
        let there = (module_of_ok ctx info seen m name e entered).1 in
        let whole =
          then_module ms name p e there (sound e (name ∷ seen) model model₁ read)
            (modules_sound seen ms model₁ model' h₂) in
        subst (λ x. ReadsTo (ExpandsModules ctx info (x ∷ ms)) model model') (sym same) whole

    option_sound :
        (seen : List String) (o : Expr) (os : List Expr) (name : String) (targs : List Expr)
        (args : Exprs) (model model₁ model₂ : LoadedGraph)
        → option_of ctx info o ≡ ok (name, targs, args)
        → (if str_eq name "Include"
            then include_modules ctx info merge seen (elements args) model
            else lift (add_declarations ctx info name targs args model))
          ≡ ok model₁
        → ReadsTo (ExpandsOptions ctx info os) model₁ model₂
        → ReadsTo (ExpandsOptions ctx info (o ∷ os)) model model₂
    option_sound seen o os name targs args model model₁ model₂ read run rest =
        elim (Bool-cases (str_eq name "Include")) [
          | inl e ↦
              let is_include = (str_eq_iff name "Include").0 e in
              then_include o os targs args (read ∙ ap (λ k. ok (k, targs, args)) is_include)
                (modules_sound seen (elements args) model model₁ (ground arith)) rest
          | inr e ↦
              then_declares o os name targs args read (str_eq-differs name "Include" e)
                (lift-eq-ok (add_declarations ctx info name targs args model) (ground arith)) rest
        ]

    options_sound :
        (seen : List String) (os : List Expr) (model model' : LoadedGraph)
        → merge_options ctx info merge seen os model ≡ ok model'
        → ReadsTo (ExpandsOptions ctx info os) model model'
    unfolding merge_options
    options_sound seen [] model model' h = ([], no_option, ground arith)
    options_sound seen (o ∷ os) model model' h =
        let ((name, targs, args), read, h₁) = >>=-eq-ok (lift (option_of ctx info o)) _ h in
        let (model₁, run, h₂) = >>=-eq-ok _ (merge_options ctx info merge seen os) h₁ in
        option_sound seen o os name targs args model model₁ model'
          (lift-eq-ok (option_of ctx info o) read) run (options_sound seen os model₁ model' h₂)

  pub merge_graph_expr-IsSound : (n : ℕ) → IsSound (merge_graph_expr ctx info n)
  unfolding merge_graph_expr
  merge_graph_expr-IsSound zero e seen model model' h = cc
  merge_graph_expr-IsSound (suc n) e seen model model' h =
      let (os, read, h₁) = >>=-eq-ok (lift (options_of ctx info e)) _ h in
      let (ds, inner, run) =
        options_sound (merge_graph_expr ctx info n) (merge_graph_expr-IsSound n) seen os model
          model' h₁ in
      (ds, expands (lift-eq-ok (options_of ctx info e) read) inner, run)
