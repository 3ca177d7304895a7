-- ===== src/DiGen/Gen/Tests.antt =====
-- A run of the generator on the package of DiGen.Load.Fixture.
use alya.Prelude.{none, List, [], ◌∷◌, some, String, true, false, ◌≡◌, refl}
use alya.Prelude.Result.{ok}
use alya.DiGen.Resolve.{
  resolve_graph, resolve_body, resolve_outputs, resolve_invokes, resolve_params, resolve_dependency,
  resolve_provider, build_node, make_field_name,
}
use alya.DiGen.Load.{
  load_package_context, add_files, add_decls, add_specs, add_names, add_import_names,
  string_literal_value, trim_left, trim_right, path_base, has_slash, after_slashes, parse_graph,
  merge_graph_expr, merge_options, include_modules, module_of, options_of, option_of,
  add_declarations, parse_all, parse_type_token, parse_provider, function_of,
  parse_provider_results, add_imports_from_node, called_di_function, source_qualifier,
  collect_imports, insert_import,
}
use alya.DiGen.Names.Letters.{
  output_field_qualifier, lower_camel, lower_capitals, upper_first, type_qualifier, exported_parts,
}
use alya.DiGen.Names.{assign_names, unique_local_name, first_free}
use alya.DiGen.Emit.{
  emit_build_file, emit_app_type, emit_params, render_all, concat, provider_step_codes,
  invoke_step_codes,
}
use alya.DiGen.Load.Fixture.{an_info, a_package}
use alya.DiGen.Gen.Defs.{Tools, generate, run_gen, main}

-- The files are a list of paths and contents; every file can be written.
abbrev tools : Tools String (List (String × String))
tools = record {
  info = an_info;
  parse_flags = λ args. some (record { graph_name = "Graph"; out_path = "di.go"; rest = [] });
  working_directory = some "/app";
  load_packages = λ dir pattern. some (a_package ∷ []);
  parse_expr = λ s. none;
  decimal = λ n. "2";
  to_lower = λ s. s;
  render = λ imports code. some code;
  render_file = λ file. some "package app";
  is_abs = λ p. false;
  join = λ dir p. "/app/di.go";
  write_file = λ path text files. (true, (path, text) ∷ files);
}

one_file : main tools ("gen" ∷ []) [] ≡ (ok tt, ("/app/di.go", "package app") ∷ [])
unfolding main run_gen generate load_package_context add_files add_decls add_specs add_names
    add_import_names string_literal_value trim_left trim_right path_base has_slash after_slashes
    parse_graph merge_graph_expr merge_options include_modules module_of options_of option_of
    add_declarations parse_all parse_type_token parse_provider function_of parse_provider_results
    add_imports_from_node called_di_function source_qualifier resolve_graph resolve_body
    resolve_outputs resolve_invokes resolve_params resolve_dependency resolve_provider build_node
    make_field_name collect_imports insert_import output_field_qualifier lower_camel lower_capitals
    upper_first type_qualifier exported_parts assign_names unique_local_name first_free
    emit_build_file emit_app_type emit_params render_all concat provider_step_codes
    invoke_step_codes
one_file = refl
