-- ===== src/DiGen/Load/Acyclic.antt =====
-- A declaration that has an expansion does not include itself.
use mathlib.Core.Path.{subst}
use alya.Prelude.{Option, List, some, String, ◌≡◌, arith, In, here, there}
use alya.Prelude.Result.{ok}
use alya.DiGen.Load.Syntax.{Expr, Exprs, ident, elements, Info}
use alya.DiGen.Load.Packages.{Context, var_expr}
use alya.DiGen.Load.Merge.{option_of, options_of}
use alya.DiGen.Load.Expansion.{
  Expands, expands, ExpandsOptions, no_option, declares, includes, ExpandsModules, no_module,
  one_module, Includes, by_option, Reaches, at_once, through, Reaches-on,
}

module _ (ctx : Context) {T : Type 0} (info : Info T) where
  -- Every chain of includes ends.
  pub data Grounded : Expr → Type 0 where
    grounded :
        {e : Expr}
        → ((name : String) (e' : Expr)
            → Includes ctx info e name
            → var_expr name ctx.var_exprs ≡ some e'
            → Grounded e')
        → Grounded e

  -- The modules that are named among the arguments of an option, and among options.
  abbrev GroundedModules : List Expr → Type 0
  GroundedModules ms =
      (name : String) (p : Option String) (e' : Expr)
      → In (ident name p) ms
      → var_expr name ctx.var_exprs ≡ some e'
      → Grounded e'

  abbrev GroundedOptions : List Expr → Type 0
  GroundedOptions os =
      (o : Expr) (targs : List Expr) (args : Exprs)
      → In o os
      → option_of ctx info o ≡ ok ("Include", targs, args)
      → GroundedModules (elements args)

  at_option :
      {e : Expr} (os : List Expr)
      → GroundedOptions os
      → options_of ctx info e ≡ ok os
      → (name : String) (e' : Expr) → Includes ctx info e name
      → var_expr name ctx.var_exprs ≡ some e'
      → Grounded e'
  at_option os below read name e' (by_option os' o targs args p read' there_o option there_m)
        found =
      let same : os' ≡ os = ground arith in
      below o targs args (subst (In o) same there_o) option name p e' there_m found

  mutual
    pub Expands-Grounded : {e : Expr} {ds : List Expr} → Expands ctx info e ds → Grounded e
    Expands-Grounded (expands {e} {os} {ds} read inner) =
        let below = Options-Grounded inner in
        grounded λ name e' i found. at_option os below read name e' i found

    Options-Grounded : {os ds : List Expr} → ExpandsOptions ctx info os ds → GroundedOptions os
    Options-Grounded no_option o targs args m option = elim m [ ]
    Options-Grounded (declares name targs' args' read other rest) o targs args here option =
        absurd (other (ground arith))
    Options-Grounded (declares name targs' args' read other rest) o targs args (there m) option =
        Options-Grounded rest o targs args m option
    Options-Grounded (includes targs' args' read inner rest) o targs args here option =
        let same : args' ≡ args = ground arith in
        subst (λ a. GroundedModules (elements a)) same (Modules-Grounded inner)
    Options-Grounded (includes targs' args' read inner rest) o targs args (there m) option =
        Options-Grounded rest o targs args m option

    Modules-Grounded : {ms ds : List Expr} → ExpandsModules ctx info ms ds → GroundedModules ms
    Modules-Grounded no_module name' p' e' m found' = elim m [ ]
    Modules-Grounded (one_module name p e found inner rest) name' p' e' here found' =
        let same : e ≡ e' = ground arith in subst Grounded same (Expands-Grounded inner)
    Modules-Grounded (one_module name p e found inner rest) name' p' e' (there m) found' =
        Modules-Grounded rest name' p' e' m found'

  pub not-Reaches-itself :
      {e : Expr}
      → Grounded e
      → (x : String) → var_expr x ctx.var_exprs ≡ some e
      → Reaches ctx info e x
      → ⊥
  not-Reaches-itself (grounded g) x v (at_once i) = not-Reaches-itself (g x _ i v) x v (at_once i)
  not-Reaches-itself (grounded g) x v (through y e' i w r) =
      not-Reaches-itself (g y e' i w) y w (Reaches-on ctx info r v i)
