-- ===== src/ErisDb/WsService.antt =====
-- erisdb/wsService.go: requests over a websocket. A response is a message for the session; `S` is the
-- state behind the pipe. `Process` always passes its session on as the requester.
mod Examples
pub mod SameResponses
use eris_db.Base.{
  Bytes, bytes_eq, str, Bool, Option, none, some, List, [], ◌∷◌, Result, ok, err, panic, Error,
  and_then, if◌then◌else◌,
}
use eris_db.Base.Int.{ℤ}
use eris_db.ErisDb.Rpc.{
  RpcRequest, RpcResponse, Message, new_rpc_response, new_rpc_error_response, Outcome, parse_error,
  invalid_request, method_not_found, internal_error,
}
use eris_db.ErisDb.Params.{NodeTypes, ParamCodec, EventIdParam}
use eris_db.ErisDb.Methods.{Pipe, Reply, Handler, Io, finish, with_params}
use eris_db.ErisDb.Methods.Handlers.{get_methods}
use eris_db.ErisDb.JsonService.{find_handler}
use eris_db.Server.Sessions.{WsSession, write}

-- Go's `json.Unmarshal` into a request, and the methods `DecodeBytes` and `EncodeBytes` of the codec.
-- The one of erisdb/codec.go panics where it cannot encode, and returns no error.
pub record WsCodec (T : NodeTypes) : Type 0 where
  pub unmarshal : Bytes → Result RpcRequest
  pub decode_event_id : Bytes → Result EventIdParam
  pub encode_bytes : RpcResponse (Reply T) → Result Bytes

-- What `session.Write` returns, with the session.
abbrev pub written : WsSession → Result WsSession → Result (Unit {0}) × WsSession
written session (ok session2) = (ok tt, session2)
written session (err e) = (err e, session)
written session panic = (panic, session)

-- A write whose error is dropped.
abbrev dropped : WsSession → Result WsSession → Result (Unit {0}) × WsSession
dropped session (ok session2) = (ok tt, session2)
dropped session (err e) = (ok tt, session)
dropped session panic = (panic, session)

-- An error that is returned after another call has returned.
abbrev returned : Error → Result (Unit {0}) × WsSession → Result (Unit {0}) × WsSession
returned e (panic, session) = (panic, session)
returned e (_, session) = (err e, session)

module _ {T : NodeTypes} (json : WsCodec T) where
  unfoldable error_encoded : WsSession → Result Bytes → Result (Unit {0}) × WsSession
  error_encoded session (ok bts) = dropped session (write session bts)
  error_encoded session _ = (panic, session)

  unfoldable pub write_error : Message → Bytes → ℤ → WsSession → Result (Unit {0}) × WsSession
  unfolding error_encoded
  write_error msg id code session =
      error_encoded session (json.encode_bytes (new_rpc_error_response id code msg))

  unfoldable response_encoded : Bytes → WsSession → Result Bytes → Result (Unit {0}) × WsSession
  response_encoded id session (ok bts) = written session (write session bts)
  response_encoded id session (err e) =
      returned e (write_error (Message.internal e) id internal_error session)
  response_encoded id session panic = (panic, session)

  unfoldable pub write_response : Bytes → Reply T → WsSession → Result (Unit {0}) × WsSession
  unfolding response_encoded
  write_response id result session =
      response_encoded id session (json.encode_bytes (new_rpc_response id result))

module _ {T : NodeTypes} {S : Type 0} (json : WsCodec T) (pipe : Pipe T S)
    (generate_sub_id : Io S Bytes) where
  -- The callback writes to the session of the request.
  subscribe : Bytes → S → Outcome (Reply T) × S
  subscribe event_id s = finish Reply.event_sub (
      and_then (generate_sub_id s)
        λ sub_id s. and_then (pipe.subscribe sub_id event_id s) λ _ s. (ok sub_id, s))

  event_subscribe : Handler T S
  event_subscribe request =
      with_params (json.decode_event_id request.params) λ param s. subscribe param.event_id s

  -- The id that is passed on is the one that stands in the place of an event's.
  event_unsubscribe : Handler T S
  event_unsubscribe request =
      with_params (json.decode_event_id request.params)
        λ param s. finish Reply.event_unsub (pipe.unsubscribe param.event_id s)

  -- Nothing registers it.
  event_poll : Handler T S
  event_poll request s =
      (Outcome.failure internal_error (Error.other_error (str "Cannot poll with websockets")), s)

  pub default_handlers : ParamCodec T → List (Bytes × Handler T S)
  default_handlers codec =
      (str "erisdb.eventSubscribe", event_subscribe)
      ∷ (str "erisdb.eventUnsubscribe", event_unsubscribe)
      ∷ get_methods codec pipe

  -- The end of the callback that `event_subscribe` passes on.
  after_write : Bytes → S → Result (Unit {0}) × WsSession → Result (Unit {0}) × S × WsSession
  after_write sub_id s (ok u, session) = (ok tt, s, session)
  after_write sub_id s (err e, session) = (ok tt, (pipe.unsubscribe sub_id s).1, session)
  after_write sub_id s (panic, session) = (panic, s, session)

  -- The callback: an event is a response whose id is that of the subscription.
  pub callback : Bytes → T.EventData → S → WsSession → Result (Unit {0}) × S × WsSession
  callback sub_id ret s session =
      after_write sub_id s (write_response json sub_id (Reply.event_data ret) session)

-- `Process` drops what `writeResponse` returns.
ended : {S : Type 0} → S → Result (Unit {0}) × WsSession → Result (Unit {0}) × S × WsSession
ended s (panic, session) = (panic, s, session)
ended s (_, session) = (ok tt, s, session)

module _ {T : NodeTypes} {S : Type 0} (json : WsCodec T)
    (handlers : List (Bytes × Handler T S)) where
  write_outcome : Bytes → WsSession → Outcome (Reply T) × S → Result (Unit {0}) × S × WsSession
  write_outcome id session (Outcome.success resp, s) = ended s (write_response json id resp session)
  write_outcome id session (Outcome.failure code e, s) =
      ended s (write_error json (Message.of_handler e) id code session)
  write_outcome id session (Outcome.crash, s) = (panic, s, session)

  call_handler :
      RpcRequest → S → WsSession → Option (Handler T S) → Result (Unit {0}) × S × WsSession
  call_handler req s session (some handler) = write_outcome req.id session (handler req s)
  call_handler req s session none =
      ended s (write_error json (Message.no_method req.method) req.id method_not_found session)

  process_request : Bytes → S → WsSession → Result RpcRequest → Result (Unit {0}) × S × WsSession
  process_request msg s session (err e) =
      ended s (write_error json (Message.failed_to_parse_raw e msg) [] parse_error session)
  process_request msg s session panic = (panic, s, session)
  process_request msg s session (ok req) =
      if bytes_eq req.json_rpc (str "2.0")
      then call_handler req s session (find_handler req.method handlers)
      else ended s
          (write_error json (Message.wrong_version req.json_rpc) req.id invalid_request session)

  pub process : Bytes → S → WsSession → Result (Unit {0}) × S × WsSession
  process msg s session = process_request msg s session (json.unmarshal msg)
