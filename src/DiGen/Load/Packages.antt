-- ===== src/DiGen/Load/Packages.antt =====
-- The index of a package (loadPackageContext of cmd/alya-di/load.go). A map is an association list
-- in which the last entry set stands first.
use alya.Prelude.{List, [], ◌∷◌, Option, none, some, String, find_if, str_eq, not, select}
use alya.Prelude.Result.{Result, err, ok, ◌>>=◌}
use alya.DiGen.Load.Literal.{path_base, string_literal_value}
use alya.DiGen.Load.Syntax.{Expr, ValueSpec, Decl, vars, no_vars, Import, File, Package}

pub data LoadError : Type 0 where
  packages_not_loaded not_one_package bad_literal : LoadError
  not_found not_included : (name : String) → LoadError
  not_a_call not_a_declaration : LoadError
  option_not_a_call unsupported_option include_not_a_module : LoadError
  token_not_a_call bad_token bad_type_arguments bad_named bad_named_literal : LoadError
  not_a_function is_variadic bad_results : LoadError
  not_an_interface not_implemented : LoadError

pub record Context : Type 0 where
  pub name : String
  pub path : String
  pub var_exprs : List (String × Expr)
  pub import_names : List (String × String)

abbrev pub snd_of : {A : Type 0} → Option (String × A) → Option A
snd_of none = none
snd_of (some (k, a)) = some a

-- `ctx.varExprs[name]`.
abbrev pub var_expr : String → List (String × Expr) → Option Expr
var_expr name vs = snd_of (find_if (λ (v : String × Expr). str_eq v.0 name) vs)

-- A name takes the value at its place, or else the last one.
unfoldable pub add_names :
    List String → Expr → List Expr → List (String × Expr) → List (String × Expr)
add_names [] v vs m = m
add_names (n ∷ ns) v [] m = add_names ns v [] ((n, v) ∷ m)
add_names (n ∷ ns) v (w ∷ ws) m = add_names ns w ws ((n, v) ∷ m)

unfoldable pub add_specs : List ValueSpec → List (String × Expr) → List (String × Expr)
add_specs [] m = m
add_specs (s ∷ ss) m = add_specs ss (elim s.values [ [] ↦ m | v ∷ vs ↦ add_names s.names v vs m ])

unfoldable pub add_decls : List Decl → List (String × Expr) → List (String × Expr)
unfolding add_specs
add_decls [] m = m
add_decls (no_vars ∷ ds) m = add_decls ds m
add_decls (vars specs ∷ ds) m = add_decls ds (add_specs specs m)

-- An entry of a map of names to paths, which replaces the one of the same name.
abbrev pub set_import : String × String → List (String × String) → List (String × String)
set_import i m = i ∷ select (λ (j : String × String). not (str_eq j.0 i.0)) m

abbrev pub import_name : Option String → String → String
import_name none path = path_base path
import_name (some alias) path = alias

unfoldable pub add_import_names :
    List Import → List (String × String) → Result LoadError (List (String × String))
unfolding string_literal_value
add_import_names [] m = ok m
add_import_names (i ∷ is) m = elim (string_literal_value i.literal) [
  | none ↦ err bad_literal
  | some path ↦ add_import_names is (set_import (import_name i.alias path, path) m)
]

unfoldable pub add_files : List File → Context → Result LoadError Context
add_files [] ctx = ok ctx
add_files (f ∷ fs) ctx = do
  names ← add_import_names f.imports ctx.import_names
  add_files fs (record ctx { var_exprs = add_decls f.decls ctx.var_exprs; import_names = names })

-- From what packages.Load returns, `none` being an error.
unfoldable pub load_package_context : Option (List Package) → Result LoadError Context
load_package_context none = err packages_not_loaded
load_package_context (some (p ∷ [])) =
    add_files p.files (record { name = p.name; path = p.path; var_exprs = []; import_names = [] })
load_package_context (some _) = err not_one_package
