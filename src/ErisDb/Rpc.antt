-- ===== src/ErisDb/Rpc.antt =====
-- rpc/jsonrpc.go: the requests and responses of JSON-RPC 2.0, and what a handler returns.
use eris_db.Base.{◌-◌, Bytes, str, Option, none, some, Error}
use eris_db.Base.Int.{ℤ, negsuc}

abbrev pub parse_error : ℤ
parse_error = negsuc (32700 - 1)

abbrev pub invalid_request : ℤ
invalid_request = negsuc (32600 - 1)

abbrev pub method_not_found : ℤ
method_not_found = negsuc (32601 - 1)

abbrev pub invalid_params : ℤ
invalid_params = negsuc (32602 - 1)

abbrev pub internal_error : ℤ
internal_error = negsuc (32603 - 1)

-- `params` are raw JSON.
pub record RpcRequest : Type 0 where
  pub json_rpc : Bytes
  pub method : Bytes
  pub params : Bytes
  pub id : Bytes

-- What an error response says: the message as the code writes it, before it becomes text.
pub data Message : Type 0 where
  failed_to_parse : Error → Message
  failed_to_parse_raw : Error → Bytes → Message
  wrong_version : Bytes → Message
  no_method : Bytes → Message
  of_handler internal : Error → Message
  not_marshalled : Error → Message

pub record RpcError : Type 0 where
  pub code : ℤ
  pub message : Message

-- `Result` is nil where `result` is none, and `Error` is nil where `error` is none.
pub record RpcResponse (A : Type 0) : Type 0 where
  pub result : Option A
  pub error : Option RpcError
  pub id : Bytes
  pub json_rpc : Bytes

unfoldable pub new_rpc_response : {A : Type 0} → Bytes → A → RpcResponse A
new_rpc_response id res = record { result = some res; error = none; id = id; json_rpc = str "2.0" }

unfoldable pub new_rpc_error_response : {A : Type 0} → Bytes → ℤ → Message → RpcResponse A
new_rpc_error_response id code message = record {
  result = none;
  error = some (record { code = code; message = message });
  id = id;
  json_rpc = str "2.0";
}

-- A handler's `(value, code, error)`: a value with the code 0, an error with its code, or a panic.
pub data Outcome (A : Type 0) : Type 0 where
  success : A → Outcome A
  failure : ℤ → Error → Outcome A
  crash : Outcome A
