-- ===== src/DiGen/Load/Complete.antt =====
-- What a declaration means is what is read of it.
use alya.Prelude.{
  Option, ℕ, zero, suc, ◌≤◌, ◌<◌, List, [], ◌∷◌, some, String, false, ◌≡◌, ◌≢◌, ◌↔◌, refl, sym, inl,
  inr, arith, str_eq, str_eq_iff, length, Bool-cases, Option-cases, In, here, there,
}
use mathlib.Core.Path.{subst}
use alya.Prelude.Result.{Result, ok}
use alya.DiGen.Resolve.{has}
use alya.DiGen.Load.Syntax.{Expr, Exprs, ident, elements, Info}
use alya.DiGen.Load.Packages.{Context, var_expr}
use alya.DiGen.Load.Merge.{
  LoadedGraph, Stop, add_declarations, option_of, options_of, module_of, include_modules,
  merge_options, merge_graph_expr, empty_model, parse_graph,
}
use alya.DiGen.Load.Ends.{unseen, unseen-enter_lt, unseen_le}
use alya.DiGen.Load.Expansion.{
  Expands, expands, ExpandsOptions, no_option, declares, includes, ExpandsModules, no_module,
  one_module, declare_all, declare_all-uncons, declare_all-split, by_option, Reaches, at_once,
  through,
}
use alya.DiGen.Load.Refines.{ReadsTo, merge_graph_expr-IsSound}
use alya.DiGen.Load.Acyclic.{Expands-Grounded, not-Reaches-itself}

module _ (ctx : Context) {T : Type 0} (info : Info T) where
  -- The modules that are named are not under way, nor are those that they reach.
  abbrev ClearModules : List String → List Expr → Type 0
  ClearModules seen ms =
      (name : String) (p : Option String) (e : Expr)
      → In (ident name p) ms
      → var_expr name ctx.var_exprs ≡ some e
      → (has name seen ≡ false) × ((x : String) → Reaches ctx info e x → has x seen ≡ false)

  abbrev ClearOptions : List String → List Expr → Type 0
  ClearOptions seen os =
      (o : Expr) (targs : List Expr) (args : Exprs)
      → In o os
      → option_of ctx info o ≡ ok ("Include", targs, args)
      → ClearModules seen (elements args)

  abbrev Clear : List String → Expr → Type 0
  Clear seen e = (x : String) → Reaches ctx info e x → has x seen ≡ false

  Clear-options :
      (seen : List String) (e : Expr) (os : List Expr)
      → options_of ctx info e ≡ ok os
      → Clear seen e
      → ClearOptions seen os
  Clear-options seen e os read clear o targs args m option name p e' m' found =
      let i = by_option os o targs args p read m option m' in
      (clear name (at_once i), λ x r. clear x (through name e' i found r))

  Clear-enter :
      (seen : List String) (e : Expr) (ds : List Expr) (name : String)
      → Expands ctx info e ds
      → var_expr name ctx.var_exprs ≡ some e
      → Clear seen e
      → Clear (name ∷ seen) e
  Clear-enter seen e ds name d found clear x r = elim (Bool-cases (str_eq name x)) [
    | inl same ↦
        let itself = subst (Reaches ctx info e) (sym ((str_eq_iff name x).0 same)) r in
        absurd (not-Reaches-itself ctx info (Expands-Grounded ctx info d) name found itself)
    | inr other ↦ let free = clear x r in ground arith
  ]

  module_of_clear :
      (seen : List String) (name : String) (p : Option String) (e : Expr)
      → has name seen ≡ false
      → var_expr name ctx.var_exprs ≡ some e
      → module_of ctx info seen (ident name p) ≡ ok (name, e)
  unfolding module_of
  module_of_clear seen name p e free found = ground arith

  merge_declared :
      (merge : Expr → List String → LoadedGraph → Result Stop LoadedGraph) (seen : List String)
      (o : Expr) (os : List Expr) (name : String) (targs : List Expr) (args : Exprs)
      (model model₁ model' : LoadedGraph)
      → option_of ctx info o ≡ ok (name, targs, args)
      → name ≢ "Include"
      → add_declarations ctx info name targs args model ≡ ok model₁
      → merge_options ctx info merge seen os model₁ ≡ ok model'
      → merge_options ctx info merge seen (o ∷ os) model ≡ ok model'
  unfolding merge_options
  merge_declared merge seen o os name targs args model model₁ model' read other added others =
      elim (Bool-cases (str_eq name "Include")) [
        | inl e ↦ absurd (other ((str_eq_iff name "Include").0 e))
        | inr e ↦ rw (read, e, added) others
      ]

  mutual
    unfolding merge_graph_expr merge_options include_modules

    expr_complete :
        {e : Expr} {ds : List Expr} (d : Expands ctx info e ds) (n : ℕ) (seen : List String)
        (model model' : LoadedGraph)
        → unseen ctx.var_exprs seen < n
        → Clear seen e
        → declare_all ctx info ds model ≡ ok model'
        → merge_graph_expr ctx info n e seen model ≡ ok model'
    expr_complete d zero seen model model' lt clear run = absurd (omega arith)
    expr_complete (expands {e} {os} {ds} read inner) (suc n) seen model model' lt clear run =
        let rest =
          options_complete inner n seen model model' (omega arith)
            (Clear-options seen e os read clear) run in
        rw read rest

    options_complete :
        {os ds : List Expr} (d : ExpandsOptions ctx info os ds) (n : ℕ) (seen : List String)
        (model model' : LoadedGraph)
        → unseen ctx.var_exprs seen ≤ n
        → ClearOptions seen os
        → declare_all ctx info ds model ≡ ok model'
        → merge_options ctx info (merge_graph_expr ctx info n) seen os model ≡ ok model'
    options_complete no_option n seen model model' le clear run = ground arith
    options_complete (declares {o} {os} {ds} name targs args read other rest) n seen model model' le
          clear run =
        let (model₁, added, second) =
          declare_all-uncons ctx info o ds name targs args model model' read run in
        let others =
          options_complete rest n seen model₁ model' le
            (λ o' targs' args' m. clear o' targs' args' (there m)) second in
        merge_declared (merge_graph_expr ctx info n) seen o os name targs args model model₁ model'
          read other added others
    options_complete (includes {o} {os} {es} {ds} targs args read inner rest) n seen model model' le
          clear run =
        let (model₁, first, second) = declare_all-split ctx info es ds model model' run in
        let this =
          modules_complete inner n seen model model₁ le (clear o targs args here read) first in
        let others =
          options_complete rest n seen model₁ model' le
            (λ o' targs' args' m. clear o' targs' args' (there m)) second in
        rw (read, this) others

    modules_complete :
        {ms ds : List Expr} (d : ExpandsModules ctx info ms ds) (n : ℕ) (seen : List String)
        (model model' : LoadedGraph)
        → unseen ctx.var_exprs seen ≤ n
        → ClearModules seen ms
        → declare_all ctx info ds model ≡ ok model'
        → include_modules ctx info (merge_graph_expr ctx info n) seen ms model ≡ ok model'
    modules_complete no_module n seen model model' le clear run = ground arith
    modules_complete (one_module {ms} {es} {ds} name p e found inner rest) n seen model model' le
          clear run =
        let (model₁, first, second) = declare_all-split ctx info es ds model model' run in
        let (free, apart) = clear name p e here found in
        let fewer = unseen-enter_lt ctx.var_exprs name e seen found free in
        let this =
          expr_complete inner n (name ∷ seen) model model₁ (omega arith)
            (Clear-enter seen e es name inner found apart) first in
        let others =
          modules_complete rest n seen model₁ model' le (λ x q e' m. clear x q e' (there m))
            second in
        rw (module_of_clear seen name p e free found, this) others

  read_of :
      (name : String) (model : LoadedGraph)
      → parse_graph ctx info name ≡ ok model
      → (e : Expr) × (var_expr name ctx.var_exprs ≡ some e)
        × ReadsTo ctx info (Expands ctx info e) (empty_model ctx info) model
  unfolding parse_graph
  read_of name model h = elim (Option-cases (var_expr name ctx.var_exprs)) [
    | inl none_there ↦ absurd (ground arith)
    | inr (e, found) ↦ (
      e,
      found,
      merge_graph_expr-IsSound ctx info (suc (length ctx.var_exprs)) e [] (empty_model ctx info)
          model (ground arith),
    )
  ]

  read_by :
      (name : String) (model : LoadedGraph) (e : Expr)
      → var_expr name ctx.var_exprs ≡ some e
      → ReadsTo ctx info (Expands ctx info e) (empty_model ctx info) model
      → parse_graph ctx info name ≡ ok model
  unfolding parse_graph
  read_by name model e found (ds, d, run) =
      let few = unseen_le ctx.var_exprs [] in
      let whole =
        expr_complete d (suc (length ctx.var_exprs)) [] (empty_model ctx info) model (omega arith)
          (λ x r. refl) run in
      ground arith

  -- A graph is read exactly when it has an expansion, whose declarations in a row succeed, and is
  -- the model that they give: an Include stands for the options of its modules, at its place, as
  -- often as it is written.
  pub parse_graph_iff :
      (name : String) (model : LoadedGraph)
      → (parse_graph ctx info name ≡ ok model) ↔ (
          (e : Expr) × (var_expr name ctx.var_exprs ≡ some e)
          × ReadsTo ctx info (Expands ctx info e) (empty_model ctx info) model)
  parse_graph_iff name model =
      (read_of name model, λ (e, found, reads). read_by name model e found reads)
