-- ===== src/DiGen/Load/Fixture.antt =====
-- A package that declares a graph with a module, and modules that include one another.
use alya.Prelude.{[], ◌∷◌, Option, none, some, String, false, str_eq, if◌then◌else◌}
use alya.DiGen.Model.{named}
use alya.DiGen.Load.Syntax.{
  Expr, Exprs, ident, selector, index, call, end, also, di_import_path, Signature, Info, vars,
  Package,
}
use alya.DiGen.Load.Packages.{Context}

abbrev pub name_of : Expr → String
name_of (ident name p) = name
name_of (selector x sel) = sel
name_of _ = "other"

-- The types are their names: `NewService` is a function of a Store to a Service and an error, and
-- `NewStore` one of a Config to a Store.
abbrev pub signature_of : String → Option (Signature String)
signature_of t =
    if str_eq t "NewService"
    then some
        (record { variadic = false; params = "Store" ∷ []; results = "Service" ∷ "error" ∷ [] })
    else if str_eq t "NewStore"
    then some (record { variadic = false; params = "Config" ∷ []; results = "Store" ∷ [] })
    else none

abbrev pub an_info : Info String
an_info = record {
  type_of = name_of;
  signature = signature_of;
  is_interface = λ t. false;
  assignable_to = λ c i. false;
  type_string = λ q t. t;
  shape = named;
  node_string = name_of;
  map_order = λ m. m;
}

abbrev pub di : String → Expr
di helper = selector (ident "di" (some di_import_path)) helper

abbrev pub one : Expr → Exprs
one e = also e end

abbrev pub type_token : String → Expr
type_token t = call (index (di "Type") (ident t none)) end

abbrev pub include_of : String → Expr
include_of name = call (di "Include") (one (ident name none))

-- The provider is taken from another package.
abbrev pub graph_decl : Expr
graph_decl = call (di "New") (
    also (include_of "Stores") (
      also (call (di "Outputs") (one (type_token "Service")))
        (one (call (di "Provide") (one (selector (ident "svc" (some "app/svc")) "NewService"))))))

abbrev pub stores_decl : Expr
stores_decl = call (di "Module") (
    also (call (di "Inputs") (one (type_token "Config")))
      (one (call (di "Provide") (one (ident "NewStore" none)))))

abbrev pub a_package : Package
a_package = record {
  name = "app";
  path = "app";
  files =
      record {
        decls =
            vars (
              record { names = "Graph" ∷ []; values = graph_decl ∷ [] }
              ∷ record { names = "Stores" ∷ []; values = stores_decl ∷ [] }
              ∷ [])
            ∷ [];
        imports =
            record { literal = "\"github.com/remiges-tech/alya/di\""; alias = none }
            ∷ record { literal = "\"app/svc\""; alias = none }
            ∷ [];
      }
      ∷ [];
}

abbrev pub a_context : Context
a_context = record {
  name = "app";
  path = "app";
  var_exprs = ("Stores", stores_decl) ∷ ("Graph", graph_decl) ∷ [];
  import_names = ("svc", "app/svc") ∷ ("di", "github.com/remiges-tech/alya/di") ∷ [];
}

-- A graph that includes the module A, which includes B, which includes A.
abbrev pub cyclic_context : Context
cyclic_context = record a_context {
  var_exprs =
      ("A", call (di "Module") (one (include_of "B")))
      ∷ ("B", call (di "Module") (one (include_of "A")))
      ∷ ("Graph", call (di "New") (one (include_of "A")))
      ∷ [];
}
