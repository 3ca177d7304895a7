-- ===== src/DiGen/Load/Tests.antt =====
-- The package of the fixture read, and the errors of a cycle.
use alya.Prelude.{[], ◌∷◌, none, some, String, true, false, ◌≡◌, ◌↔◌, refl}
use alya.Prelude.Result.{err, ok}
use alya.DiGen.Model.{named, TypeRef, ProviderRef}
use alya.DiGen.Load.Literal.{
  path_base, string_literal_value, trim_left, trim_right, has_slash, after_slashes,
}
use alya.DiGen.Load.Syntax.{Expr, ident, called_di_function}
use alya.DiGen.Load.Packages.{
  var_expr, load_package_context, add_files, add_decls, add_specs, add_names, add_import_names,
}
use alya.DiGen.Load.Parse.{
  parse_all, parse_type_token, parse_provider, function_of, parse_provider_results,
  source_qualifier,
}
use alya.DiGen.Load.Merge.{
  LoadedGraph, include_cycle, add_declarations, option_of, options_of, module_of, include_modules,
  merge_options, merge_graph_expr, empty_model, parse_graph, add_imports_from_node,
}
use alya.DiGen.Load.Expansion.{Expands}
use alya.DiGen.Load.Refines.{ReadsTo}
use alya.DiGen.Load.Complete.{parse_graph_iff}
use alya.DiGen.Load.Cycles.{IsExplained, parse_graph-IsExplained}
use alya.DiGen.Load.Providers.{IsProvider, parse_provider_iff}
use alya.DiGen.Load.Fixture.{an_info, a_package, a_context, cyclic_context}

abbrev a_type : String → TypeRef
a_type k = record { type_key = k; type_value = named k; expr_string = k; custom_name = "" }

abbrev new_store : ProviderRef
new_store = record {
  expr_string = "NewStore";
  params = a_type "Config" ∷ [];
  result = a_type "Store";
  has_error = false;
  has_cleanup = false;
}

abbrev new_service : ProviderRef
new_service = record {
  expr_string = "NewService";
  params = a_type "Store" ∷ [];
  result = a_type "Service";
  has_error = true;
  has_cleanup = false;
}

abbrev a_model : LoadedGraph
a_model = record {
  graph = record {
    inputs = a_type "Config" ∷ [];
    outputs = a_type "Service" ∷ [];
    providers = new_store ∷ new_service ∷ [];
    invokes = [];
    bindings = [];
  };
  imports = ("svc", "app/svc") ∷ [];
  package_name = "app";
}

the_context : load_package_context (some (a_package ∷ [])) ≡ ok a_context
unfolding load_package_context add_files add_decls add_specs add_names add_import_names
    string_literal_value trim_left trim_right path_base has_slash after_slashes
the_context = refl

the_model : parse_graph a_context an_info "Graph" ≡ ok a_model
unfolding parse_graph merge_graph_expr merge_options include_modules module_of options_of option_of
    add_declarations parse_all parse_type_token parse_provider function_of parse_provider_results
    add_imports_from_node called_di_function source_qualifier
the_model = refl

-- A raw literal keeps its quotes.
raw_name : string_literal_value "`DB`" ≡ some "`DB`"
unfolding string_literal_value trim_left trim_right
raw_name = refl

parse_graph-IsExplained_example :
    IsExplained cyclic_context an_info (parse_graph cyclic_context an_info "Graph")
parse_graph-IsExplained_example = parse_graph-IsExplained cyclic_context an_info "Graph"

the_cycle : parse_graph cyclic_context an_info "Graph" ≡ err (include_cycle "A")
unfolding parse_graph merge_graph_expr merge_options include_modules module_of options_of option_of
    called_di_function
the_cycle = refl

parse_graph_iff_example : (parse_graph a_context an_info "Graph" ≡ ok a_model) ↔ (
    (e : Expr) × (var_expr "Graph" a_context.var_exprs ≡ some e)
    × ReadsTo a_context an_info
        (Expands a_context an_info e)
        (empty_model a_context an_info)
        a_model)
parse_graph_iff_example = parse_graph_iff a_context an_info "Graph" a_model

parse_provider_iff_example :
    (parse_provider an_info a_context (ident "NewStore" none) ≡ ok new_store)
    ↔ IsProvider an_info a_context (ident "NewStore" none) new_store
parse_provider_iff_example = parse_provider_iff an_info a_context (ident "NewStore" none) new_store
