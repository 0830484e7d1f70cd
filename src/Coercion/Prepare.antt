-- ===== src/Coercion/Prepare.antt =====
-- src/arg_coercion.rs: the arguments of an operation, from the schema that its protocol describes. The
-- adapter's description of the operation is an argument, `none` where it fails.
use uxc.Base.{
  String, Bool, true, false, Option, none, some, List, [], ◌∷◌, ◌++◌, if◌then◌else◌, is_empty,
  str_eq, unwrap_or, or_else,
}
use uxc.Base.Result.{ok, err, ◌>>=◌}
use uxc.Json.{Value, bool, string, array, object, Fields, end, field, from_list}
use uxc.Coercion.Values.{not_an_object, Parsers, R, get, as_str, as_items}
use uxc.Coercion.Fuel.{coerce_value}

pub data ProtocolType : Type 0 where
  open_api graphql mcp grpc json_rpc : ProtocolType

pub record Parameter : Type 0 where
  pub name : String
  pub param_type : String
  pub required : Bool

pub record OperationDetail (F : Type 0) : Type 0 where
  pub parameters : List Parameter
  pub input_schema : Option (Value F)

pub record NormalizedSchema (F : Type 0) : Type 0 where
  pub root : Value F
  pub strict_unknown_fields : Bool
  pub enforce_required_fields : Bool

module _ {F : Type 0} where
  -- `Map::insert`
  unfoldable pub insert_field : String → Value F → Fields F → Fields F
  insert_field key v end = field key v end
  insert_field key v (field k w fs) =
      if str_eq k key then field key v fs else field k w (insert_field key v fs)

  abbrev as_bool : Option (Value F) → Bool
  as_bool (some (bool b)) = b
  as_bool _ = false

  abbrev text_of : Option (Value F) → Option String
  text_of none = none
  text_of (some v) = as_str v

  abbrev get_in : String → Option (Value F) → Option (Value F)
  get_in key none = none
  get_in key (some v) = get key v

  unfoldable pub object_schema : Fields F → List (Value F) → Value F
  object_schema properties required = object (
      field "type" (string "object") (
        field "properties" (object properties) (field "required" (array (from_list required)) end)))

  abbrev pub lenient : Bool → Value F → NormalizedSchema F
  lenient enforce root = record {
    root = root;
    strict_unknown_fields = false;
    enforce_required_fields = enforce;
  }

  abbrev pub map_lenient : Bool → Option (Value F) → Option (NormalizedSchema F)
  map_lenient enforce none = none
  map_lenient enforce (some root) = some (lenient enforce root)

  -- The properties and the required names of the parameters that have a name.
  unfoldable pub jsonrpc_params :
      List (Value F) → Fields F → List (Value F) → Fields F × List (Value F)
  jsonrpc_params [] properties required = (properties, required)
  jsonrpc_params (param ∷ params) properties required = elim (text_of (get "name" param)) [
    | none ↦ jsonrpc_params params properties required
    | some name ↦
        jsonrpc_params params
          (insert_field name (unwrap_or (get "schema" param) (object end)) properties)
          (if as_bool (get "required" param) then required ++ string name ∷ [] else required)
  ]

  abbrev as_schema : Fields F × List (Value F) → NormalizedSchema F
  as_schema (properties, required) = lenient true (object_schema properties required)

  abbrev jsonrpc_schema_of : Option (List (Value F)) → Option (NormalizedSchema F)
  jsonrpc_schema_of none = none
  jsonrpc_schema_of (some params) = some (as_schema (jsonrpc_params params end []))

  unfoldable pub normalize_jsonrpc_schema : OperationDetail F → Option (NormalizedSchema F)
  normalize_jsonrpc_schema detail =
      jsonrpc_schema_of (as_items (get_in "params" detail.input_schema))

  unfoldable pub openapi_params :
      List Parameter → Fields F → List (Value F) → Fields F × List (Value F)
  openapi_params [] properties required = (properties, required)
  openapi_params (param ∷ params) properties required =
      openapi_params params
        (insert_field param.name (object (field "type" (string param.param_type) end)) properties)
        (if param.required then required ++ string param.name ∷ [] else required)

  -- The schema of a body, by its media type.
  unfoldable pub body_schema : Option (Value F) → Option (Value F)
  body_schema content = or_else (get_in "schema" (get_in "application/json" content)) (
      or_else (get_in "schema" (get_in "application/x-www-form-urlencoded" content))
        (get_in "schema" (get_in "multipart/form-data" content)))

  unfoldable pub normalize_openapi_schema : OperationDetail F → Option (NormalizedSchema F)
  normalize_openapi_schema detail =
      or_else (map_lenient true (body_schema (get_in "content" detail.input_schema))) (
        if is_empty detail.parameters
        then none
        else some (as_schema (openapi_params detail.parameters end [])))

  unfoldable pub normalize_operation_schema :
      ProtocolType → OperationDetail F → Option (NormalizedSchema F)
  normalize_operation_schema graphql detail = map_lenient false detail.input_schema
  normalize_operation_schema mcp detail = map_lenient true detail.input_schema
  normalize_operation_schema grpc detail = map_lenient true (get_in "schema" detail.input_schema)
  normalize_operation_schema json_rpc detail = normalize_jsonrpc_schema detail
  normalize_operation_schema open_api detail = normalize_openapi_schema detail

  abbrev no_fields : Fields F → Bool
  no_fields end = true
  no_fields (field k v fs) = false

module _ {F : Type 0} (parsers : Parsers F) where
  abbrev pub entries_of : Value F → R parsers (Fields F)
  entries_of (object fs) = ok fs
  entries_of _ = err not_an_object

  unfoldable pub coerce_execute_args : Fields F → NormalizedSchema F → R parsers (Fields F)
  coerce_execute_args raw_args schema = do
    value ←
        coerce_value parsers schema.strict_unknown_fields schema.enforce_required_fields
          (object raw_args) schema.root
    entries_of value

  unfoldable pub prepare_execute_args_from_detail :
      ProtocolType → OperationDetail F → Fields F → R parsers (Fields F)
  prepare_execute_args_from_detail protocol detail raw_args =
      if no_fields raw_args
      then ok raw_args
      else elim (normalize_operation_schema protocol detail) [
        | none ↦ ok raw_args
        | some schema ↦ coerce_execute_args raw_args schema
      ]

  unfoldable pub prepare_execute_args :
      ProtocolType → Option (OperationDetail F) → Fields F → R parsers (Fields F)
  prepare_execute_args protocol none raw_args = ok raw_args
  prepare_execute_args protocol (some detail) raw_args =
      prepare_execute_args_from_detail protocol detail raw_args
