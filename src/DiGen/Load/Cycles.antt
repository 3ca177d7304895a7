-- ===== src/DiGen/Load/Cycles.antt =====
-- The error for a cycle of modules.
use alya.Prelude.{
  Option, ℕ, zero, suc, List, [], ◌∷◌, some, String, true, ◌≡◌, refl, ap, ◌∙◌, inl, inr, arith,
  str_eq, str_eq_iff, if◌then◌else◌, length, All, All-map, Bool-cases, Option-cases, In, here,
  there,
}
use mathlib.Core.Path.{subst}
use alya.Prelude.Result.{Result, err, ok, ◌>>=◌}
use alya.DiGen.Resolve.{has}
use alya.DiGen.Load.Syntax.{Expr, Exprs, ident, elements, Info}
use alya.DiGen.Load.Packages.{LoadError, Context, var_expr}
use alya.DiGen.Load.Merge.{
  LoadedGraph, Stop, failed, out_of_fuel, include_cycle, lift, lift-eq-ok, add_declarations,
  option_of, options_of, module_of, include_modules, merge_options, merge_graph_expr, empty_model,
  parse_graph,
}
use alya.DiGen.Load.Ends.{module_of_ok, parse_graph-Ends}
use alya.DiGen.Load.Refines.{module_of_ident}
use alya.DiGen.Load.Expansion.{Includes, by_option, Reaches, at_once, Reaches-on}

module _ (ctx : Context) {T : Type 0} (info : Info T) where
  -- A module that reaches itself.
  abbrev pub IncludesItself : String → Type 0
  IncludesItself x = (e : Expr) × (var_expr x ctx.var_exprs ≡ some e) × Reaches ctx info e x

  -- What is included at `e` is reached from each module under way.
  abbrev UnderWay : List String → Expr → Type 0
  UnderWay seen e =
      All
        (λ k.
          (eₖ : Expr) × (var_expr k ctx.var_exprs ≡ some eₖ)
          × ((y : String) → Includes ctx info e y → Reaches ctx info eₖ y))
        seen

  UnderWay-enter :
      (seen : List String) (e e' : Expr) (name : String)
      → Includes ctx info e name
      → var_expr name ctx.var_exprs ≡ some e'
      → UnderWay seen e
      → UnderWay (name ∷ seen) e'
  UnderWay-enter seen e e' name i found under = (
    (e', found, λ y next. at_once next),
    All-map (λ k (eₖ, at, reach). (eₖ, at, λ y next. Reaches-on ctx info (reach name i) found next))
        seen under,
  )

  closes :
      (seen : List String) (e : Expr) (x : String)
      → UnderWay seen e
      → Includes ctx info e x
      → has x seen ≡ true
      → IncludesItself x
  closes [] e x under i h = cc
  closes (k ∷ seen) e x under i h = elim (Bool-cases (str_eq k x)) [
    | inl same ↦
        let (eₖ, at, reach) = under.0 in
        let named : k ≡ x = (str_eq_iff k x).0 same in
        (eₖ, subst (λ y. var_expr y ctx.var_exprs ≡ some eₖ) named at, reach x i)
    | inr other ↦ closes seen e x under.1 i (ground arith)
  ]

  abbrev Truthful : {A : Type 0} → Result Stop A → Type 0
  Truthful r = (x : String) → r ≡ err (include_cycle x) → IncludesItself x

  bind-Truthful :
      {A B : Type 0} (m : Result Stop A) (next : A → Result Stop B)
      → Truthful m
      → ((a : A) → m ≡ ok a → Truthful (next a))
      → Truthful (m >>= next)
  bind-Truthful (err e) next first rest x h = first x (ground arith)
  bind-Truthful (ok a) next first rest x h = rest a refl x h

  lift-Truthful : {A : Type 0} (r : Result LoadError A) → Truthful (lift r)
  lift-Truthful (err e) x h = cc
  lift-Truthful (ok a) x h = cc

  abbrev Sound : (Expr → List String → LoadedGraph → Result Stop LoadedGraph) → Type 0
  Sound merge =
      (e : Expr) (seen : List String) (model : LoadedGraph)
      → UnderWay seen e
      → Truthful (merge e seen model)

  module_of-Truthful :
      (seen : List String) (e : Expr) (m : Expr)
      → UnderWay seen e
      → ((name : String) (p : Option String) → m ≡ ident name p → Includes ctx info e name)
      → Truthful (module_of ctx info seen m)
  unfolding module_of
  module_of-Truthful seen e (ident name p) under i x h = elim (Bool-cases (has name seen)) [
    | inl busy ↦
        let same : name ≡ x = ground arith in
        subst IncludesItself same (closes seen e name under (i name p refl) busy)
    | inr free ↦ elim (Option-cases (var_expr name ctx.var_exprs)) [
      | inl none_there ↦ absurd (ground arith)
      | inr (e', found) ↦ absurd (ground arith)
    ]
  ]
  module_of-Truthful seen e _ under i x h = absurd (ground arith)

  module _ (merge : Expr → List String → LoadedGraph → Result Stop LoadedGraph)
      (sound : Sound merge) where
    modules-Truthful :
        (seen : List String) (e : Expr) (ms : List Expr) (model : LoadedGraph)
        → UnderWay seen e
        → ((name : String) (p : Option String) → In (ident name p) ms → Includes ctx info e name)
        → Truthful (include_modules ctx info merge seen ms model)
    unfolding include_modules
    modules-Truthful seen e [] model under i = λ x h. cc
    modules-Truthful seen e (m ∷ ms) model under i =
        bind-Truthful _ _
          (module_of-Truthful seen e m under
            (λ name p same. i name p (subst (λ o. In o (m ∷ ms)) same here)))
          λ (name, e') entered.
            let (p, same) = module_of_ident ctx info seen m name e' entered in
            let found = (module_of_ok ctx info seen m name e' entered).1 in
            let into = i name p (subst (λ o. In o (m ∷ ms)) same here) in
            bind-Truthful _ _
              (sound e' (name ∷ seen) model (UnderWay-enter seen e e' name into found under))
              λ model' done.
                modules-Truthful seen e ms model' under (λ name' p' m'. i name' p' (there m'))

    option-Truthful :
        (seen : List String) (e : Expr) (name : String) (targs : List Expr) (args : Exprs)
        (model : LoadedGraph)
        → UnderWay seen e
        → (str_eq name "Include" ≡ true
            → (n : String) (p : Option String) → In (ident n p) (elements args)
            → Includes ctx info e n)
        → Truthful (
            if str_eq name "Include"
            then include_modules ctx info merge seen (elements args) model
            else lift (add_declarations ctx info name targs args model))
    option-Truthful seen e name targs args model under i x h =
        elim (Bool-cases (str_eq name "Include")) [
          | inl yes_it_is ↦
              modules-Truthful seen e (elements args) model under (i yes_it_is) x (ground arith)
          | inr other ↦
              lift-Truthful (add_declarations ctx info name targs args model) x (ground arith)
        ]

    options-Truthful :
        (seen : List String) (e : Expr) (all : List Expr) (os : List Expr) (model : LoadedGraph)
        → UnderWay seen e
        → options_of ctx info e ≡ ok all
        → ((o : Expr) → In o os → In o all)
        → Truthful (merge_options ctx info merge seen os model)
    unfolding merge_options
    options-Truthful seen e all [] model under read part = λ x h. cc
    options-Truthful seen e all (o ∷ os) model under read part =
        bind-Truthful _ _ (lift-Truthful (option_of ctx info o)) λ (name, targs, args) found.
          let option = lift-eq-ok (option_of ctx info o) found in
          bind-Truthful _ _
            (option-Truthful seen e name targs args model under λ include n p m.
              by_option all o targs args p read (part o here)
                (option ∙ ap (λ k. ok (k, targs, args)) ((str_eq_iff name "Include").0 include)) m)
            λ model' done.
              options-Truthful seen e all os model' under read (λ o' m. part o' (there m))

  merge_graph_expr-Sound : (n : ℕ) → Sound (merge_graph_expr ctx info n)
  unfolding merge_graph_expr
  merge_graph_expr-Sound zero e seen model under = λ x h. cc
  merge_graph_expr-Sound (suc n) e seen model under =
      bind-Truthful _ _ (lift-Truthful (options_of ctx info e)) λ os read.
        options-Truthful (merge_graph_expr ctx info n) (merge_graph_expr-Sound n) seen e os os model
          under (lift-eq-ok (options_of ctx info e) read) (λ o m. m)

  -- The module that the error for a cycle names is included by itself, at once or through others.
  parse_graph_cycle :
      (name x : String) → parse_graph ctx info name ≡ err (include_cycle x) → IncludesItself x
  unfolding parse_graph
  parse_graph_cycle name x h = elim (Option-cases (var_expr name ctx.var_exprs)) [
    | inl none_there ↦ absurd (ground arith)
    | inr (e, found) ↦
        merge_graph_expr-Sound (suc (length ctx.var_exprs)) e [] (empty_model ctx info) tt x
          (ground arith)
  ]

  -- What the ways in which a reading stops tell. The fuel is never used up.
  abbrev pub IsExplained : Result Stop LoadedGraph → Type 0
  IsExplained (ok model) = Unit {0}
  IsExplained (err (failed e)) = Unit {0}
  IsExplained (err (include_cycle x)) = IncludesItself x
  IsExplained (err out_of_fuel) = ⊥

  -- The reading of a graph ends, whatever the variables of the package are and however the modules
  -- include one another: more includes than there are variables are never nested. And if it ends
  -- with a cycle, there is one: the module that the error names is included by itself, at once or
  -- through other modules.
  pub parse_graph-IsExplained : (name : String) → IsExplained (parse_graph ctx info name)
  parse_graph-IsExplained name = explained (parse_graph ctx info name) refl
    where
      explained : (r : Result Stop LoadedGraph) → parse_graph ctx info name ≡ r → IsExplained r
      explained (ok model) h = tt
      explained (err (failed e)) h = tt
      explained (err (include_cycle x)) h = parse_graph_cycle name x h
      explained (err out_of_fuel) h = parse_graph-Ends ctx info name h
