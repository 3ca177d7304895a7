-- ===== src/DiGen/Load/Ends.antt =====
-- The reading of a declaration ends: each module that is entered was not under way before.
use alya.Prelude.{
  ℕ, zero, suc, ◌≤◌, ◌<◌, List, [], ◌∷◌, some, String, false, not, ◌≡◌, ◌≢◌, refl, inl, inr, arith,
  str_eq, str_eq_iff, count_if, length, Bool-cases, Option-cases, if◌then◌else◌,
}
use alya.Prelude.Result.{Result, err, ok, ◌>>=◌}
use alya.DiGen.Resolve.{has}
use alya.DiGen.Load.Syntax.{Expr, Exprs, ident, elements, Info}
use alya.DiGen.Load.Packages.{LoadError, Context, var_expr}
use alya.DiGen.Load.Merge.{
  LoadedGraph, Stop, out_of_fuel, lift, add_declarations, option_of, options_of, module_of,
  include_modules, merge_options, merge_graph_expr, empty_model, parse_graph,
}

-- How many variables of the package are not under way.
pub unseen : List (String × Expr) → List String → ℕ
unseen vs seen = count_if (λ (v : String × Expr). not (has v.0 seen)) vs

unseen-enter_le :
    (vs : List (String × Expr)) (name : String) (seen : List String)
    → unseen vs (name ∷ seen) ≤ unseen vs seen
unfolding unseen
unseen-enter_le [] name seen = omega arith
unseen-enter_le (v ∷ vs) name seen = ground (arith, unseen-enter_le vs name seen)

pub unseen-enter_lt :
    (vs : List (String × Expr)) (name : String) (e : Expr) (seen : List String)
    → var_expr name vs ≡ some e
    → has name seen ≡ false
    → unseen vs (name ∷ seen) < unseen vs seen
unfolding unseen
unseen-enter_lt [] name e seen h free = cc
unseen-enter_lt (v ∷ vs) name e seen h free = elim (Bool-cases (str_eq v.0 name)) [
  | inl same ↦
      let same_name : v.0 ≡ name = (str_eq_iff v.0 name).0 same in
      let le = unseen-enter_le vs name seen in ground arith
  | inr differs ↦ let lt = unseen-enter_lt vs name e seen (ground arith) free in ground arith
]

pub unseen_le : (vs : List (String × Expr)) (seen : List String) → unseen vs seen ≤ length vs
unfolding unseen
unseen_le [] seen = omega arith
unseen_le (v ∷ vs) seen = ground (arith, unseen_le vs seen)

abbrev Ends : {A : Type 0} → Result Stop A → Type 0
Ends r = r ≢ err out_of_fuel

lift-Ends : {A : Type 0} (r : Result LoadError A) → Ends (lift r)
lift-Ends (err e) h = cc
lift-Ends (ok a) h = cc

bind-Ends :
    {A B : Type 0} (m : Result Stop A) (next : A → Result Stop B)
    → Ends m
    → ((a : A) → m ≡ ok a → Ends (next a))
    → Ends (m >>= next)
bind-Ends (err e) next ends rest h = ends (ground arith)
bind-Ends (ok a) next ends rest h = rest a refl h

module _ (ctx : Context) {T : Type 0} (info : Info T) where
  -- A module that is entered is a variable of the package that was not under way.
  pub module_of_ok :
      (seen : List String) (m : Expr) (name : String) (e : Expr)
      → module_of ctx info seen m ≡ ok (name, e)
      → (has name seen ≡ false) × (var_expr name ctx.var_exprs ≡ some e)
  unfolding module_of
  module_of_ok seen (ident n p) name e h = elim (Bool-cases (has n seen)) [
    | inl busy ↦ absurd (ground arith)
    | inr free ↦ elim (Option-cases (var_expr n ctx.var_exprs)) [
      | inl none_there ↦ absurd (ground arith)
      | inr (e', there) ↦ ground arith
    ]
  ]
  module_of_ok seen _ name e h = absurd (ground arith)

  module_of-Ends : (seen : List String) (m : Expr) → Ends (module_of ctx info seen m)
  unfolding module_of
  module_of-Ends seen (ident n p) h = elim (Bool-cases (has n seen)) [
    | inl busy ↦ absurd (ground arith)
    | inr free ↦ elim (Option-cases (var_expr n ctx.var_exprs)) [
      | inl none_there ↦ absurd (ground arith)
      | inr (e', there) ↦ absurd (ground arith)
    ]
  ]
  module_of-Ends seen _ h = absurd (ground arith)

  -- A reading of modules that ends wherever fewer than n variables are not under way.
  abbrev EndsBelow : ℕ → (Expr → List String → LoadedGraph → Result Stop LoadedGraph) → Type 0
  EndsBelow n merge =
      (e : Expr) (seen : List String) (model : LoadedGraph)
      → unseen ctx.var_exprs seen < n
      → Ends (merge e seen model)

  include_modules-Ends :
      (n : ℕ) (merge : Expr → List String → LoadedGraph → Result Stop LoadedGraph)
      → EndsBelow n merge
      → (seen : List String) (ms : List Expr) (model : LoadedGraph) → unseen ctx.var_exprs seen ≤ n
      → Ends (include_modules ctx info merge seen ms model)
  unfolding include_modules
  include_modules-Ends n merge below seen [] model le = λ h. cc
  include_modules-Ends n merge below seen (m ∷ ms) model le =
      bind-Ends _ _ (module_of-Ends seen m) λ (name, e) entered.
        let (free, there) = module_of_ok seen m name e entered in
        let fewer = unseen-enter_lt ctx.var_exprs name e seen there free in
        bind-Ends _ _ (below e (name ∷ seen) model (omega arith))
          λ model' read. include_modules-Ends n merge below seen ms model' le

  merge_options-Ends :
      (n : ℕ) (merge : Expr → List String → LoadedGraph → Result Stop LoadedGraph)
      → EndsBelow n merge
      → (seen : List String) (os : List Expr) (model : LoadedGraph) → unseen ctx.var_exprs seen ≤ n
      → Ends (merge_options ctx info merge seen os model)
  unfolding merge_options
  merge_options-Ends n merge below seen [] model le = λ h. cc
  merge_options-Ends n merge below seen (o ∷ os) model le =
      bind-Ends _ _ (lift-Ends (option_of ctx info o)) λ (name, targs, args) read.
        bind-Ends _ _ (one_option name targs args)
          λ model' done. merge_options-Ends n merge below seen os model' le
    where
      one_option :
          (name : String) (targs : List Expr) (args : Exprs)
          → Ends (
              if str_eq name "Include"
              then include_modules ctx info merge seen (elements args) model
              else lift (add_declarations ctx info name targs args model))
      one_option name targs args = elim (Bool-cases (str_eq name "Include")) [
        | inl e ↦ rw e (include_modules-Ends n merge below seen (elements args) model le)
        | inr e ↦ rw e (lift-Ends (add_declarations ctx info name targs args model))
      ]

  merge_graph_expr-Ends : (n : ℕ) → EndsBelow n (merge_graph_expr ctx info n)
  unfolding merge_graph_expr
  merge_graph_expr-Ends zero e seen model lt = absurd (omega arith)
  merge_graph_expr-Ends (suc n) e seen model lt =
      bind-Ends _ _ (lift-Ends (options_of ctx info e)) λ os read.
        merge_options-Ends n (merge_graph_expr ctx info n) (merge_graph_expr-Ends n) seen os model
          (omega arith)

  -- More includes than there are variables are never nested.
  pub parse_graph-Ends : (name : String) → parse_graph ctx info name ≢ err out_of_fuel
  unfolding parse_graph
  parse_graph-Ends name h = elim (Option-cases (var_expr name ctx.var_exprs)) [
    | inl e ↦ absurd (ground arith)
    | inr (e, there) ↦
        let few = unseen_le ctx.var_exprs [] in
        merge_graph_expr-Ends (suc (length ctx.var_exprs)) e [] (empty_model ctx info) (omega arith)
          (ground arith)
  ]
