-- ===== src/DiGen/Load/Parse.antt =====
-- The arguments of the options of a graph (parseTypeTokens, parseProviders, parseInvokes and
-- parseBinding of cmd/alya-di/load.go).
use alya.Prelude.{
  List, [], ◌∷◌, map, Option, none, some, String, Bool, true, false, find_if, str_eq, not,
  if◌then◌else◌,
}
use alya.Prelude.Result.{Result, err, ok, ◌>>=◌}
use alya.DiGen.Model.{TypeRef, ProviderRef, InvokeRef, BindingRef}
use alya.DiGen.Load.Literal.{string_literal_value}
use alya.DiGen.Load.Syntax.{
  Expr, call, string_lit, elements, called_di_function, Pkg, Signature, Info,
}
use alya.DiGen.Load.Packages.{
  LoadError, token_not_a_call, bad_token, bad_type_arguments, bad_named, bad_named_literal,
  not_a_function, is_variadic, bad_results, not_an_interface, not_implemented, Context,
}

abbrev pub path_qualifier : Option Pkg → String
path_qualifier none = ""
path_qualifier (some p) = p.path

abbrev pub is_nil : {A : Type 0} → List A → Bool
is_nil [] = true
is_nil (x ∷ xs) = false

module _ {T : Type 0} (info : Info T) where
  abbrev pub type_key : T → String
  type_key = info.type_string path_qualifier

  abbrev pub is_error_type : T → Bool
  is_error_type t = str_eq (type_key t) "error"

  abbrev pub is_cleanup_func : T → Bool
  is_cleanup_func t = elim (info.signature t) [
    | none ↦ false
    | some sig ↦
        if sig.variadic then false else if is_nil sig.params then is_nil sig.results else false
  ]

  -- The type of what is provided, whether an error and whether a cleanup come with it.
  unfoldable pub parse_provider_results : List T → Result LoadError (T × Bool × Bool)
  parse_provider_results (t ∷ []) = ok (t, false, false)
  parse_provider_results (t ∷ e ∷ []) =
      if is_error_type e then ok (t, true, false) else err bad_results
  parse_provider_results (t ∷ c ∷ e ∷ []) =
      if is_cleanup_func c
      then (if is_error_type e then ok (t, true, true) else err bad_results)
      else err bad_results
  parse_provider_results _ = err bad_results

  unfoldable pub parse_invoke_results : List T → Result LoadError Bool
  parse_invoke_results [] = ok false
  parse_invoke_results (e ∷ []) = if is_error_type e then ok true else err bad_results
  parse_invoke_results _ = err bad_results

  -- `TypeOf(arg).Underlying()` as a function that is not variadic.
  unfoldable pub function_of : Expr → Result LoadError (Signature T)
  function_of arg = elim (info.signature (info.type_of arg)) [
    | none ↦ err not_a_function
    | some sig ↦ if sig.variadic then err is_variadic else ok sig
  ]

  module _ (ctx : Context) where
    unfoldable pub source_qualifier : Option Pkg → String
    source_qualifier none = ""
    source_qualifier (some p) =
        if str_eq p.path ctx.path
        then ""
        else elim (find_if (λ (x : String × String). str_eq x.1 p.path)
            (info.map_order ctx.import_names)) [ some (name, path) ↦ name | none ↦ p.name ]

    abbrev pub make_type_ref_from_type : T → TypeRef
    make_type_ref_from_type t = record {
      type_key = type_key t;
      type_value = info.shape t;
      expr_string = info.type_string source_qualifier t;
      custom_name = "";
    }

    abbrev pub make_type_ref : Expr → TypeRef
    make_type_ref e = record {
      type_key = type_key (info.type_of e);
      type_value = info.shape (info.type_of e);
      expr_string = info.node_string e;
      custom_name = "";
    }

    -- The inner call of `di.Named`.
    unfoldable pub parse_named_type : Expr → Result LoadError TypeRef
    parse_named_type (call fun args) = elim (called_di_function fun) [
      | none ↦ err bad_named
      | some (name, targs) ↦
          if str_eq name "Type"
          then elim targs [ t ∷ [] ↦ ok (make_type_ref t) | _ ↦ err bad_type_arguments ]
          else err bad_named
    ]
    parse_named_type _ = err bad_named

    unfoldable pub parse_named : List Expr → Result LoadError TypeRef
    parse_named (string_lit raw ∷ inner ∷ []) = elim (string_literal_value raw) [
      | none ↦ err bad_named_literal
      | some custom ↦ do ref ← parse_named_type inner; ok (record ref { custom_name = custom })
    ]
    parse_named _ = err bad_named

    unfoldable pub parse_type_token : Expr → Result LoadError TypeRef
    parse_type_token (call fun args) = elim (called_di_function fun) [
      | none ↦ err bad_token
      | some (name, targs) ↦
          if str_eq name "Type"
          then elim targs [ t ∷ [] ↦ ok (make_type_ref t) | _ ↦ err bad_type_arguments ]
          else if str_eq name "Named"
          then parse_named (elements args)
          else err bad_token
    ]
    parse_type_token _ = err token_not_a_call

    unfoldable pub parse_provider : Expr → Result LoadError ProviderRef
    parse_provider arg = do
      sig ← function_of arg
      (result, has_error, has_cleanup) ← parse_provider_results sig.results
      ok (record {
        expr_string = info.node_string arg;
        params = map make_type_ref_from_type sig.params;
        result = make_type_ref_from_type result;
        has_error = has_error;
        has_cleanup = has_cleanup;
      })

    unfoldable pub parse_invoke : Expr → Result LoadError InvokeRef
    parse_invoke arg = do
      sig ← function_of arg
      returns_err ← parse_invoke_results sig.results
      ok (record {
        expr_string = info.node_string arg;
        params = map make_type_ref_from_type sig.params;
        returns_err = returns_err;
      })

    unfoldable pub parse_binding : List Expr → Result LoadError BindingRef
    parse_binding (i ∷ c ∷ []) =
        if not (info.is_interface (info.type_of i))
        then err not_an_interface
        else if info.assignable_to (info.type_of c) (info.type_of i)
        then ok (record { interface_type = make_type_ref i; concrete_type = make_type_ref c })
        else err not_implemented
    parse_binding _ = err bad_type_arguments

-- The loops of parseTypeTokens, parseProviders and parseInvokes: up to the first error.
unfoldable pub parse_all :
    {A : Type 0} → (Expr → Result LoadError A) → List Expr → Result LoadError (List A)
parse_all parse [] = ok []
parse_all parse (e ∷ es) = do a ← parse e; rest ← parse_all parse es; ok (a ∷ rest)
