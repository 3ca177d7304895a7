-- ===== src/DiGen/Emit/Tests.antt =====
-- A service that may fail, and the registration of its routes, which may fail too.
use alya.Prelude.{ℕ, [], ◌∷◌, some, String, true, false, ◌≡◌, refl, str_append}
use alya.DiGen.Model.{named, TypeRef, GraphModel, ResolvedGraph}
use alya.DiGen.Names.{assign_names, unique_local_name, first_free}
use alya.DiGen.Names.Letters.{lower_camel, lower_capitals, upper_first}
use alya.DiGen.Emit.Defs.{
  define, return_on_error, BuildFile, emit_build_file, emit_app_type, emit_params, render_all,
  concat, provider_step_codes, invoke_step_codes,
}
use alya.DiGen.Emit.Compiles.{build_compiles}
use alya.DiGen.Emit.Redeclared.{emit_build_file-refused}

abbrev a_type : String → TypeRef
a_type k = record { type_key = k; type_value = named k; expr_string = k; custom_name = "" }

abbrev a_model : GraphModel
a_model = record {
  inputs = a_type "config" ∷ [];
  outputs = a_type "engine" ∷ [];
  providers = [];
  invokes = [];
  bindings = [];
}

abbrev a_plan : ResolvedGraph
a_plan = record {
  provider_order =
      record {
        ref = record {
          expr_string = "NewEngine";
          params = a_type "config" ∷ [];
          result = a_type "engine";
          has_error = true;
          has_cleanup = false;
        };
        dependencies = record { requested = a_type "config"; source = a_type "config" } ∷ [];
      }
      ∷ [];
  invokes =
      record {
        ref = record {
          expr_string = "RegisterRoutes";
          params = a_type "engine" ∷ [];
          returns_err = true;
        };
        dependencies = record { requested = a_type "engine"; source = a_type "engine" } ∷ [];
      }
      ∷ [];
  outputs =
      record { field_name = "Engine"; requested = a_type "engine"; source = a_type "engine" } ∷ [];
}

abbrev a_file : BuildFile
a_file = record {
  package_name = "app";
  imports = [];
  app_fields = ("Engine", "engine") ∷ [];
  params = ("cfg", "config") ∷ [];
  provider_steps = define ("engine" ∷ "err" ∷ []) "NewEngine" ("cfg" ∷ []) ∷ return_on_error ∷ [];
  invoke_steps = define ("err" ∷ []) "RegisterRoutes" ("engine" ∷ []) ∷ return_on_error ∷ [];
  assigned = ("Engine", "engine") ∷ [];
}

numbered : String → ℕ → String
numbered s n = str_append s "2"

emit_build_file-refused_example : build_compiles a_file ≡ false
unfolding emit_build_file emit_app_type emit_params render_all concat provider_step_codes
    invoke_step_codes assign_names unique_local_name first_free lower_camel lower_capitals
    upper_first
emit_build_file-refused_example =
    emit_build_file-refused (λ code. some code) numbered (λ s. s) "app" a_model a_plan [] a_file
      refl refl refl
