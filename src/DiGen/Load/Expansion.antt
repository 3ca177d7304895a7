-- ===== src/DiGen/Load/Expansion.antt =====
-- What the declaration of a graph means, with no fuel and no list of modules under way: the options
-- that are left when each Include is replaced by the options of its modules.
use alya.Prelude.{Option, List, [], ◌∷◌, ◌++◌, some, String, ◌≡◌, ◌≢◌, refl, arith, In}
use alya.Prelude.Result.{Result, ok, ◌>>=◌, >>=-eq-ok}
use alya.DiGen.Load.Syntax.{Expr, Exprs, ident, elements, Info}
use alya.DiGen.Load.Packages.{LoadError, Context, var_expr}
use alya.DiGen.Load.Merge.{LoadedGraph, add_declarations, option_of, options_of}

module _ (ctx : Context) {T : Type 0} (info : Info T) where
  mutual
    pub data Expands : Expr → List Expr → Type 0 where
      expands :
          {e : Expr} {os ds : List Expr}
          → options_of ctx info e ≡ ok os
          → ExpandsOptions os ds
          → Expands e ds

    pub data ExpandsOptions : List Expr → List Expr → Type 0 where
      no_option : ExpandsOptions [] []
      declares :
          {o : Expr} {os ds : List Expr} (name : String) (targs : List Expr) (args : Exprs)
          → option_of ctx info o ≡ ok (name, targs, args)
          → name ≢ "Include"
          → ExpandsOptions os ds
          → ExpandsOptions (o ∷ os) (o ∷ ds)
      includes :
          {o : Expr} {os es ds : List Expr} (targs : List Expr) (args : Exprs)
          → option_of ctx info o ≡ ok ("Include", targs, args)
          → ExpandsModules (elements args) es
          → ExpandsOptions os ds
          → ExpandsOptions (o ∷ os) (es ++ ds)

    pub data ExpandsModules : List Expr → List Expr → Type 0 where
      no_module : ExpandsModules [] []
      one_module :
          {ms es ds : List Expr} (name : String) (p : Option String) (e : Expr)
          → var_expr name ctx.var_exprs ≡ some e
          → Expands e es
          → ExpandsModules ms ds
          → ExpandsModules (ident name p ∷ ms) (es ++ ds)

  -- The declarations of options in a row.
  abbrev pub declare_all : List Expr → LoadedGraph → Result LoadError LoadedGraph
  declare_all [] model = ok model
  declare_all (o ∷ os) model = do
    (name, targs, args) ← option_of ctx info o
    model' ← add_declarations ctx info name targs args model
    declare_all os model'

  pub declare_all-cons :
      (o : Expr) (os : List Expr) (name : String) (targs : List Expr) (args : Exprs)
      (model model₁ model₂ : LoadedGraph)
      → option_of ctx info o ≡ ok (name, targs, args)
      → add_declarations ctx info name targs args model ≡ ok model₁
      → declare_all os model₁ ≡ ok model₂
      → declare_all (o ∷ os) model ≡ ok model₂
  declare_all-cons o os name targs args model model₁ model₂ read added rest = rw (read, added) rest

  pub declare_all-uncons :
      (o : Expr) (os : List Expr) (name : String) (targs : List Expr) (args : Exprs)
      (model model₂ : LoadedGraph)
      → option_of ctx info o ≡ ok (name, targs, args)
      → declare_all (o ∷ os) model ≡ ok model₂
      → (model₁ : LoadedGraph) × (add_declarations ctx info name targs args model ≡ ok model₁)
        × (declare_all os model₁ ≡ ok model₂)
  declare_all-uncons o os name targs args model model₂ read run =
      >>=-eq-ok (add_declarations ctx info name targs args model) (declare_all os) (ground arith)

  pub declare_all-append :
      (xs ys : List Expr) (model model₁ model₂ : LoadedGraph)
      → declare_all xs model ≡ ok model₁
      → declare_all ys model₁ ≡ ok model₂
      → declare_all (xs ++ ys) model ≡ ok model₂
  declare_all-append [] ys model model₁ model₂ first second = ground arith
  declare_all-append (x ∷ xs) ys model model₁ model₂ first second =
      let ((name, targs, args), read, rest) = >>=-eq-ok (option_of ctx info x) _ first in
      let (model', added, rest') =
        >>=-eq-ok (add_declarations ctx info name targs args model) _ rest in
      let both = declare_all-append xs ys model' model₁ model₂ rest' second in
      declare_all-cons x (xs ++ ys) name targs args model model' model₂ read added both

  -- And back.
  pub declare_all-split :
      (xs ys : List Expr) (model model₂ : LoadedGraph)
      → declare_all (xs ++ ys) model ≡ ok model₂
      → (model₁ : LoadedGraph) × (declare_all xs model ≡ ok model₁)
        × (declare_all ys model₁ ≡ ok model₂)
  declare_all-split [] ys model model₂ both = (model, refl, both)
  declare_all-split (x ∷ xs) ys model model₂ both =
      let ((name, targs, args), read, rest) = >>=-eq-ok (option_of ctx info x) _ both in
      let (model', added, rest') =
        >>=-eq-ok (add_declarations ctx info name targs args model) _ rest in
      let (model₁, first, second) = declare_all-split xs ys model' model₂ rest' in
      (model₁, declare_all-cons x xs name targs args model model' model₁ read added first, second)

  -- The declaration's options include a module of that name.
  pub data Includes (e : Expr) (name : String) : Type 0 where
    by_option :
        (os : List Expr) (o : Expr) (targs : List Expr) (args : Exprs) (p : Option String)
        → options_of ctx info e ≡ ok os
        → In o os
        → option_of ctx info o ≡ ok ("Include", targs, args)
        → In (ident name p) (elements args)
        → Includes e name

  -- The module is included, or is included by one that is, and so on.
  pub data Reaches : Expr → String → Type 0 where
    at_once : {e : Expr} {x : String} → Includes e x → Reaches e x
    through :
        {e : Expr} {x : String} (y : String) (e' : Expr)
        → Includes e y
        → var_expr y ctx.var_exprs ≡ some e'
        → Reaches e' x
        → Reaches e x

  pub Reaches-on :
      {e e' : Expr} {x y : String}
      → Reaches e x
      → var_expr x ctx.var_exprs ≡ some e'
      → Includes e' y
      → Reaches e y
  Reaches-on (at_once {x} i) v next = through x _ i v (at_once next)
  Reaches-on (through z e₁ i w r) v next = through z e₁ i w (Reaches-on r v next)
