-- ===== src/ErisDb/JsonService.antt =====
-- erisdb/json_service.go: a request body in, a response out. Go's JSON decoder and the codec's
-- encoder are not the program's own code; an encoder that fails has written nothing.
mod Examples
pub mod Writing
pub mod Replies
pub mod EventsOverRpc
use eris_db.Base.{
  ℕ, Bytes, bytes_eq, str, Bool, Option, none, some, List, [], ◌∷◌, ◌++◌, Result, ok, err, panic,
  Error, if◌then◌else◌,
}
use eris_db.Base.Int.{ℤ}
use eris_db.ErisDb.Rpc.{
  RpcRequest, RpcResponse, Message, new_rpc_response, new_rpc_error_response, Outcome, parse_error,
  invalid_request, method_not_found, invalid_params, internal_error,
}
use eris_db.ErisDb.Params.{NodeTypes, ParamCodec, EventIdParam, SubIdParam}
use eris_db.ErisDb.Methods.{Pipe, Reply, Handler, Io, finish, with_params}
use eris_db.ErisDb.Methods.Handlers.{get_methods}

pub record JsonCodec (T : NodeTypes) : Type 0 where
  pub decode_request : Bytes → Result RpcRequest
  pub decode_event_id : Bytes → Result EventIdParam
  pub decode_sub_id : Bytes → Result SubIdParam
  pub encode : RpcResponse (Reply T) → Result Bytes

-- The methods of `EventSubscriptions` that the services call.
pub record EventSubs (T : NodeTypes) (S : Type 0) : Type 0 where
  pub add : Bytes → Io S Bytes
  pub poll : Bytes → Io S (List T.EventData)
  pub remove : Bytes → Io S (Unit {0})

-- What the client gets: a response, with the status 200, or an error of the server, with 500.
pub data Written (T : NodeTypes) : Type 0 where
  replied : RpcResponse (Reply T) → Bytes → Written T
  server_error : Message → Written T

module _ {T : NodeTypes} {S : Type 0} where
  unfoldable pub find_handler : Bytes → List (Bytes × Handler T S) → Option (Handler T S)
  find_handler k [] = none
  find_handler k ((j, h) ∷ m) = if bytes_eq j k then some h else find_handler k m

module _ {T : NodeTypes} {S : Type 0} (json : JsonCodec T) (pipe : Pipe T S)
    (event_subs : EventSubs T S) where
  event_subscribe : Handler T S
  event_subscribe request =
      with_params (json.decode_event_id request.params)
        λ param s. finish Reply.event_sub (event_subs.add param.event_id s)

  event_unsubscribe : Handler T S
  event_unsubscribe request =
      with_params (json.decode_sub_id request.params)
        λ param s. finish Reply.event_unsub (pipe.unsubscribe param.sub_id s)

  event_poll : Handler T S
  event_poll request =
      with_params (json.decode_sub_id request.params)
        λ param s. finish Reply.poll_response (event_subs.poll param.sub_id s)

  -- The handlers of `NewErisDbJsonService`. The names of the events are not among the others.
  pub default_handlers : ParamCodec T → List (Bytes × Handler T S)
  default_handlers codec =
      (str "erisdb.eventSubscribe", event_subscribe)
      ∷ (str "erisdb.eventUnsubscribe", event_unsubscribe)
      ∷ (str "erisdb.eventPoll", event_poll)
      ∷ get_methods codec pipe

module _ {T : NodeTypes} (json : JsonCodec T) where
  unfoldable pub error_written : RpcResponse (Reply T) → Result Bytes → Result (Written T)
  error_written response (ok bts) = ok (Written.replied response bts)
  error_written response (err e) = ok (Written.server_error (Message.not_marshalled e))
  error_written response panic = panic

  unfoldable pub write_error : Message → Bytes → ℤ → Result (Written T)
  write_error msg id code =
      let response = new_rpc_error_response id code msg in
      error_written response (json.encode response)

  unfoldable pub response_written :
      Bytes → RpcResponse (Reply T) → Result Bytes → Result (Written T)
  response_written id response (ok bts) = ok (Written.replied response bts)
  response_written id response (err e) = write_error (Message.internal e) id internal_error
  response_written id response panic = panic

  unfoldable pub write_response : Bytes → Reply T → Result (Written T)
  write_response id result =
      let response = new_rpc_response id result in
      response_written id response (json.encode response)

module _ {T : NodeTypes} {S : Type 0} (json : JsonCodec T)
    (handlers : List (Bytes × Handler T S)) where
  unfoldable pub write_outcome : Bytes → Outcome (Reply T) × S → Result (Written T) × S
  write_outcome id (Outcome.success resp, s) = (write_response json id resp, s)
  write_outcome id (Outcome.failure code e, s) =
      (write_error json (Message.of_handler e) id code, s)
  write_outcome id (Outcome.crash, s) = (panic, s)

  unfoldable pub call_handler : RpcRequest → S → Option (Handler T S) → Result (Written T) × S
  call_handler req s none =
      (write_error json (Message.no_method req.method) req.id method_not_found, s)
  call_handler req s (some handler) = write_outcome req.id (handler req s)

  unfoldable pub process_request : S → Result RpcRequest → Result (Written T) × S
  process_request s (err e) = (write_error json (Message.failed_to_parse e) [] parse_error, s)
  process_request s panic = (panic, s)
  process_request s (ok req) =
      if bytes_eq req.json_rpc (str "2.0")
      then call_handler req s (find_handler req.method handlers)
      else (write_error json (Message.wrong_version req.json_rpc) req.id invalid_request, s)

  unfoldable pub process : Bytes → S → Result (Written T) × S
  process body s = process_request s (json.decode_request body)
