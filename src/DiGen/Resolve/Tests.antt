-- ===== src/DiGen/Resolve/Tests.antt =====
-- A graph with two providers, and one with a cycle.
use alya.Prelude.{ℕ, List, [], ◌∷◌, String, false, refl}
use alya.DiGen.Model.{named, TypeRef, ProviderRef, GraphModel, ResolvedGraph}
use alya.DiGen.Resolve.Defs.{
  resolve_graph, resolve_body, resolve_outputs, resolve_invokes, resolve_params, resolve_dependency,
  resolve_provider, build_node, make_field_name,
}
use alya.DiGen.Resolve.Cycles.{NeedsChain, resolve_graph_cycle}

abbrev a_type : String → TypeRef
a_type k = record { type_key = k; type_value = named k; expr_string = k; custom_name = "" }

abbrev a_provider : String → List TypeRef → ProviderRef
a_provider k ps = record {
  expr_string = k;
  params = ps;
  result = a_type k;
  has_error = false;
  has_cleanup = false;
}

-- A repository from the configuration, and a service from the repository.
abbrev a_graph : GraphModel
a_graph = record {
  inputs = a_type "Config" ∷ [];
  outputs = a_type "Service" ∷ [];
  providers =
      a_provider "Service" (a_type "Store" ∷ []) ∷ a_provider "Repo" (a_type "Config" ∷ []) ∷ [];
  invokes =
      record { expr_string = "start"; params = a_type "Service" ∷ []; returns_err = false } ∷ [];
  bindings = record { interface_type = a_type "Store"; concrete_type = a_type "Repo" } ∷ [];
}

abbrev no_qualifier : String → String
no_qualifier s = ""

abbrev one_digit : ℕ → String
one_digit n = "2"

abbrev a_plan : ResolvedGraph
a_plan = record {
  provider_order =
      record {
        ref = a_provider "Repo" (a_type "Config" ∷ []);
        dependencies = record { requested = a_type "Config"; source = a_type "Config" } ∷ [];
      }
      ∷ record {
        ref = a_provider "Service" (a_type "Store" ∷ []);
        dependencies = record { requested = a_type "Store"; source = a_type "Repo" } ∷ [];
      }
      ∷ [];
  invokes =
      record {
        ref = record { expr_string = "start"; params = a_type "Service" ∷ []; returns_err = false };
        dependencies = record { requested = a_type "Service"; source = a_type "Service" } ∷ [];
      }
      ∷ [];
  outputs =
      record { field_name = "Service"; requested = a_type "Service"; source = a_type "Service" }
      ∷ [];
}

abbrev cyclic_graph : GraphModel
cyclic_graph = record a_graph {
  providers =
      a_provider "Service" (a_type "Store" ∷ []) ∷ a_provider "Repo" (a_type "Service" ∷ []) ∷ [];
}

resolve_graph_cycle_example : NeedsChain cyclic_graph "Service" "Service"
unfolding resolve_graph resolve_body resolve_outputs resolve_invokes resolve_params
    resolve_dependency resolve_provider build_node make_field_name
resolve_graph_cycle_example =
    resolve_graph_cycle cyclic_graph no_qualifier one_digit (a_type "Service") refl
