-- ===== src/DiGen/Load/Merge.antt =====
-- The declaration of a graph with the modules that it includes (mergeGraphExpr, parseGraph,
-- addImportsFromNode and collectImports of cmd/alya-di/load.go).
use text.Mathlib.Text.{is_lt}
use Prim.Native.String.{compare}
use alya.Prelude.{
  ℕ, zero, suc, List, [], ◌∷◌, ◌++◌, none, some, String, str_eq, length, ◌≡◌, arith, if◌then◌else◌,
}
use alya.Prelude.Result.{Result, err, ok, ◌>>=◌}
use alya.DiGen.Model.{GraphModel}
use alya.DiGen.Resolve.{has}
use alya.DiGen.Load.Syntax.{
  Expr, Exprs, ident, selector, index, index_list, paren, star, call, string_lit, other, end, also,
  elements, called_di_function, di_import_path, Info,
}
use alya.DiGen.Load.Packages.{
  LoadError, not_found, not_included, not_a_call, not_a_declaration, option_not_a_call,
  unsupported_option, include_not_a_module, Context, set_import, var_expr,
}
use alya.DiGen.Load.Parse.{parse_all, parse_type_token, parse_provider, parse_invoke, parse_binding}

-- `graphModel`: the declarations, and the imports by alias.
pub record LoadedGraph : Type 0 where
  pub graph : GraphModel
  pub imports : List (String × String)
  pub package_name : String

-- A reading stops at a cycle of modules, at another error, or when the model's fuel is used up.
pub data Stop : Type 0 where
  failed : (e : LoadError) → Stop
  include_cycle : (name : String) → Stop
  out_of_fuel : Stop

abbrev pub lift : {A : Type 0} → Result LoadError A → Result Stop A
lift (err e) = err (failed e)
lift (ok a) = ok a

pub lift-eq-ok : {A : Type 0} (r : Result LoadError A) {a : A} → lift r ≡ ok a → r ≡ ok a
lift-eq-ok (err e) h = cc
lift-eq-ok (ok b) h = ground arith

-- The entries of collectImports, sorted by alias.
unfoldable pub insert_import : String × String → List (String × String) → List (String × String)
insert_import i [] = i ∷ []
insert_import i (j ∷ js) =
    let rest = insert_import i js in if is_lt (compare j.0 i.0) then j ∷ rest else i ∷ j ∷ js

unfoldable pub collect_imports : List (String × String) → List (String × String)
unfolding insert_import
collect_imports [] = []
collect_imports (i ∷ is) = insert_import i (collect_imports is)

module _ (ctx : Context) where
  abbrev pub imported : Expr → List (String × String) → List (String × String)
  imported (ident alias (some path)) m =
      if str_eq path ctx.path
      then m
      else if str_eq path di_import_path
      then m
      else set_import (alias, path) m
  imported _ m = m

  unfoldable mutual
    pub add_imports_from_node : Expr → List (String × String) → List (String × String)
    add_imports_from_node (ident name p) m = m
    add_imports_from_node (selector x sel) m = add_imports_from_node x (imported x m)
    add_imports_from_node (index x i) m = add_imports_from_node i (add_imports_from_node x m)
    add_imports_from_node (index_list x is) m = add_imports_of is (add_imports_from_node x m)
    add_imports_from_node (call fun args) m = add_imports_of args (add_imports_from_node fun m)
    add_imports_from_node (paren x) m = add_imports_from_node x m
    add_imports_from_node (star x) m = add_imports_from_node x m
    add_imports_from_node (string_lit raw) m = m
    add_imports_from_node (other text children) m = add_imports_of children m

    pub add_imports_of : Exprs → List (String × String) → List (String × String)
    add_imports_of end m = m
    add_imports_of (also e es) m = add_imports_of es (add_imports_from_node e m)

  module _ {T : Type 0} (info : Info T) where
    -- Every option but Include, by its name, its type arguments and its arguments.
    unfoldable pub add_declarations :
        String → List Expr → Exprs → LoadedGraph → Result LoadError LoadedGraph
    add_declarations name targs args model =
        let g = model.graph in
        let imports = add_imports_of args model.imports in
        if str_eq name "Inputs"
        then (do
          refs ← parse_all (parse_type_token info ctx) (elements args)
          ok (record model { graph = record g { inputs = g.inputs ++ refs }; imports = imports }))
        else if str_eq name "Outputs"
        then (do
          refs ← parse_all (parse_type_token info ctx) (elements args)
          ok (record model { graph = record g { outputs = g.outputs ++ refs }; imports = imports }))
        else if str_eq name "Provide"
        then (do
          ps ← parse_all (parse_provider info ctx) (elements args)
          ok (record model {
            graph = record g { providers = g.providers ++ ps };
            imports = imports;
          }))
        else if str_eq name "Invoke"
        then (do
          is ← parse_all (parse_invoke info ctx) (elements args)
          ok (record model { graph = record g { invokes = g.invokes ++ is }; imports = imports }))
        else if str_eq name "Bind"
        then (do
          b ← parse_binding info ctx targs
          ok (record model { graph = record g { bindings = g.bindings ++ b ∷ [] } }))
        else err unsupported_option

    -- The option that an argument is: its helper, type arguments and arguments.
    unfoldable pub option_of : Expr → Result LoadError (String × List Expr × Exprs)
    option_of (call fun args) = elim (called_di_function fun) [
      | none ↦ err unsupported_option
      | some (name, targs) ↦ ok (name, targs, args)
    ]
    option_of _ = err option_not_a_call

    -- The options of a declaration, which is a call of di.New or di.Module.
    unfoldable pub options_of : Expr → Result LoadError (List Expr)
    options_of (call fun args) = elim (called_di_function fun) [
      | none ↦ err not_a_declaration
      | some (name, targs) ↦
          if str_eq name "New"
          then ok (elements args)
          else if str_eq name "Module"
          then ok (elements args)
          else err not_a_declaration
    ]
    options_of _ = err not_a_call

    -- The module that an argument of Include names, which is none of those being included.
    unfoldable pub module_of : List String → Expr → Result Stop (String × Expr)
    module_of seen (ident name p) =
        if has name seen then err (include_cycle name) else elim (var_expr name ctx.var_exprs) [
          | none ↦ err (failed (not_included name))
          | some e ↦ ok (name, e)
        ]
    module_of seen _ = err (failed include_not_a_module)

    -- With the reading of a module as `merge`.
    unfoldable pub include_modules :
        (Expr → List String → LoadedGraph → Result Stop LoadedGraph)
        → List String
        → List Expr
        → LoadedGraph
        → Result Stop LoadedGraph
    include_modules merge seen [] model = ok model
    include_modules merge seen (m ∷ ms) model = do
      (name, e) ← module_of seen m
      model' ← merge e (name ∷ seen) model
      include_modules merge seen ms model'

    unfoldable pub merge_options :
        (Expr → List String → LoadedGraph → Result Stop LoadedGraph)
        → List String
        → List Expr
        → LoadedGraph
        → Result Stop LoadedGraph
    merge_options merge seen [] model = ok model
    merge_options merge seen (o ∷ os) model = do
      (name, targs, args) ← lift (option_of o)
      model' ←
          (if str_eq name "Include"
            then include_modules merge seen (elements args) model
            else lift (add_declarations name targs args model))
      merge_options merge seen os model'

    unfoldable pub merge_graph_expr : ℕ → Expr → List String → LoadedGraph → Result Stop LoadedGraph
    merge_graph_expr zero e seen model = err out_of_fuel
    merge_graph_expr (suc n) e seen model = do
      os ← lift (options_of e)
      merge_options (merge_graph_expr n) seen os model

    abbrev pub empty_model : LoadedGraph
    empty_model = record {
      graph = record { inputs = []; outputs = []; providers = []; invokes = []; bindings = [] };
      imports = [];
      package_name = ctx.name;
    }

    -- The fuel: one more than the package's variables.
    unfoldable pub parse_graph : String → Result Stop LoadedGraph
    parse_graph name = elim (var_expr name ctx.var_exprs) [
      | none ↦ err (failed (not_found name))
      | some e ↦ merge_graph_expr (suc (length ctx.var_exprs)) e [] empty_model
    ]
