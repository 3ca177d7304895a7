-- ===== src/DiGen/Model.antt =====
-- The parsed declaration of a graph and its resolution (cmd/alya-di/model.go).
use alya.Prelude.{List, String, Bool}

-- The cases of a Go type that `baseTypeName` tells apart.
pub data GoType : Type 0 where
  named : String → GoType
  pointer : GoType → GoType
  unnamed : GoType

pub record TypeRef : Type 0 where
  pub type_key : String
  pub type_value : GoType
  pub expr_string : String
  pub custom_name : String

pub record ProviderRef : Type 0 where
  pub expr_string : String
  pub params : List TypeRef
  pub result : TypeRef
  pub has_error : Bool
  pub has_cleanup : Bool

pub record InvokeRef : Type 0 where
  pub expr_string : String
  pub params : List TypeRef
  pub returns_err : Bool

pub record BindingRef : Type 0 where
  pub interface_type : TypeRef
  pub concrete_type : TypeRef

-- The package's name and the imports are not read by the resolution.
pub record GraphModel : Type 0 where
  pub inputs : List TypeRef
  pub outputs : List TypeRef
  pub providers : List ProviderRef
  pub invokes : List InvokeRef
  pub bindings : List BindingRef

pub record DependencyRef : Type 0 where
  pub requested : TypeRef
  pub source : TypeRef

-- The variables' names are given later, by the emission.
pub record ProviderNode : Type 0 where
  pub ref : ProviderRef
  pub dependencies : List DependencyRef

pub record ResolvedInvoke : Type 0 where
  pub ref : InvokeRef
  pub dependencies : List DependencyRef

pub record ResolvedOutput : Type 0 where
  pub field_name : String
  pub requested : TypeRef
  pub source : TypeRef

pub record ResolvedGraph : Type 0 where
  pub provider_order : List ProviderNode
  pub invokes : List ResolvedInvoke
  pub outputs : List ResolvedOutput
