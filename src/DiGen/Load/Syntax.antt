-- ===== src/DiGen/Load/Syntax.antt =====
-- The syntax trees and the types that cmd/alya-di/load.go looks at (go/ast and go/types), as far
-- as it tells their cases apart, and the di helper that a call uses.
use alya.Prelude.{List, [], ◌∷◌, Option, none, some, String, Bool, str_eq, if◌then◌else◌}
use alya.DiGen.Model.{GoType}

-- An identifier stands with the import path of the package that it denotes, if it denotes one.
-- `other` is an expression or statement of another kind, as text, with its children.
mutual
  pub data Expr : Type 0 where
    ident : (name : String) (denotes : Option String) → Expr
    selector : (x : Expr) (sel : String) → Expr
    index : (x : Expr) (i : Expr) → Expr
    index_list : (x : Expr) (indices : Exprs) → Expr
    paren star : (x : Expr) → Expr
    call : (fun : Expr) (args : Exprs) → Expr
    string_lit : (raw : String) → Expr
    other : (text : String) (children : Exprs) → Expr

  pub data Exprs : Type 0 where
    end : Exprs
    also : (e : Expr) (es : Exprs) → Exprs

abbrev pub elements : Exprs → List Expr
elements end = []
elements (also e es) = e ∷ elements es

abbrev pub di_import_path : String
di_import_path = "github.com/remiges-tech/alya/di"

-- A function without the type arguments that it is applied to, and these.
abbrev pub type_arguments : Expr → Expr × List Expr
type_arguments (index x i) = (x, i ∷ [])
type_arguments (index_list x is) = (x, elements is)
type_arguments e = (e, [])

abbrev pub di_selector : Expr → Option String
di_selector (selector (ident name (some path)) sel) =
    if str_eq path di_import_path then some sel else none
di_selector _ = none

abbrev pub with_arguments : Option String → List Expr → Option (String × List Expr)
with_arguments none targs = none
with_arguments (some name) targs = some (name, targs)

-- The helper's name and its type arguments, from the function that is called.
unfoldable pub called_di_function : Expr → Option (String × List Expr)
called_di_function fun =
    let (base, targs) = type_arguments fun in with_arguments (di_selector base) targs

-- A package's path and its name.
pub record Pkg : Type 0 where
  pub path : String
  pub name : String

pub record Signature (T : Type 0) : Type 0 where
  pub variadic : Bool
  pub params : List T
  pub results : List T

-- What go/types, go/format and the order of a map's iteration say, on the types T: the type of an
-- expression, the signature under a type, whether an interface is under it, whether a type may be
-- assigned to the one under another, a type's text under the names given to packages, the cases
-- that `baseTypeName` reads, and a node's text.
pub record Info (T : Type 0) : Type 0 where
  pub type_of : Expr → T
  pub signature : T → Option (Signature T)
  pub is_interface : T → Bool
  pub assignable_to : T → T → Bool
  pub type_string : (Option Pkg → String) → T → String
  pub shape : T → GoType
  pub node_string : Expr → String
  pub map_order : List (String × String) → List (String × String)

-- A file's declarations: `var` with the names and values of each line, or another.
pub record ValueSpec : Type 0 where
  pub names : List String
  pub values : List Expr

pub data Decl : Type 0 where
  vars : (specs : List ValueSpec) → Decl
  no_vars : Decl

-- An import's literal, and its name if it has one.
pub record Import : Type 0 where
  pub literal : String
  pub alias : Option String

pub record File : Type 0 where
  pub decls : List Decl
  pub imports : List Import

pub record Package : Type 0 where
  pub name : String
  pub path : String
  pub files : List File
