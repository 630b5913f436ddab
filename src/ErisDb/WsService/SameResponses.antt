-- ===== src/ErisDb/WsService/SameResponses.antt =====
-- Where erisdb/wsService.go writes the responses that erisdb/json_service.go does. On a message that
-- cannot be parsed their responses differ: only the first quotes the message.
use eris_db.Base.{
  ◌≡◌, refl, inl, inr, Bool-cases, Bytes, bytes_eq, str, Bool, true, false, Option, none, some,
  List, Result, ok, err, panic, if◌then◌else◌,
}
use eris_db.Base.Int.{ℤ}
use eris_db.ErisDb.Rpc.{
  RpcRequest, RpcResponse, Message, Outcome, invalid_request, method_not_found, new_rpc_response,
  new_rpc_error_response,
}
use eris_db.ErisDb.Params.{NodeTypes}
use eris_db.ErisDb.Methods.{Reply, Handler}
use eris_db.ErisDb.JsonService
use eris_db.ErisDb.JsonService.{JsonCodec, Written, find_handler, error_written, response_written}
use eris_db.Server.Sessions.{WsSession, write}
use eris_db.ErisDb.WsService.{
  WsCodec, written, dropped, error_encoded, response_encoded, write_error, write_response, ended,
  write_outcome, call_handler, process_request, process,
}

-- The message waits for the write pump, unless the session is closed: then nothing changes.
abbrev pub sent : WsSession → Bytes → WsSession
sent session bts = (written session (write session bts)).1

dropped_lem :
    {S : Type 0} (s : S) (session : WsSession) (bts : Bytes)
    → ended s (dropped session (write session bts)) ≡ (ok tt, s, sent session bts)
unfolding ended write
dropped_lem s session bts = elim (Bool-cases session.closed) [
  | inl e ↦ rw e refl
  | inr e ↦ rw e refl
]

written_lem :
    {S : Type 0} (s : S) (session : WsSession) (bts : Bytes)
    → ended s (written session (write session bts)) ≡ (ok tt, s, sent session bts)
unfolding ended write
written_lem s session bts = elim (Bool-cases session.closed) [
  | inl e ↦ rw e refl
  | inr e ↦ rw e refl
]

module _ {T : NodeTypes} where
  -- The two methods of the codec that encode give the same bytes for every response.
  abbrev pub SameBytes : JsonCodec T → WsCodec T → Type 0
  SameBytes json ws =
      (r : RpcResponse (Reply T))
      → (bts : Bytes) × (json.encode r ≡ ok bts) × (ws.encode_bytes r ≡ ok bts)

module _ {T : NodeTypes} {S : Type 0} where
  -- How a call over a websocket ends, by how the same request over HTTP does: the same state, the
  -- same bytes as a message, and a panic where the other panics.
  abbrev pub SameEnd :
      WsSession → Result (Written T) × S → Result (Unit {0}) × S × WsSession → Type 0
  SameEnd session (ok (Written.replied r bts), s) end = end ≡ (ok tt, s, sent session bts)
  SameEnd session (ok (Written.server_error m), s) end = ⊥
  SameEnd session (err e, s) end = ⊥
  SameEnd session (panic, s) end = end ≡ (panic, s, session)

module _ {T : NodeTypes} {S : Type 0} (json : JsonCodec T) (ws : WsCodec T)
    (same : SameBytes json ws) (s : S) (session : WsSession) where
  error_encoded-SameEnd :
      (msg : Message) (id : Bytes) (code : ℤ) (r r2 : Result Bytes) (bts : Bytes)
      → r ≡ ok bts
      → r2 ≡ ok bts
      → SameEnd session
          (error_written json (new_rpc_error_response id code msg) r, s)
          (ended s (error_encoded ws session r2))
  unfolding error_written error_encoded
  error_encoded-SameEnd msg id code r r2 bts e e2 = rw (e, e2) (dropped_lem s session bts)

  write_error-SameEnd :
      (msg : Message) (id : Bytes) (code : ℤ)
      → SameEnd session
          (JsonService.write_error json msg id code, s)
          (ended s (write_error ws msg id code session))
  unfolding write_error JsonService.write_error
  write_error-SameEnd msg id code =
      let (bts, e, e2) = same (new_rpc_error_response id code msg) in
      error_encoded-SameEnd msg id code _ _ bts e e2

  response_encoded-SameEnd :
      (id : Bytes) (reply : Reply T) (r r2 : Result Bytes) (bts : Bytes)
      → r ≡ ok bts
      → r2 ≡ ok bts
      → SameEnd session
          (response_written json id (new_rpc_response id reply) r, s)
          (ended s (response_encoded ws id session r2))
  unfolding response_written response_encoded
  response_encoded-SameEnd id reply r r2 bts e e2 = rw (e, e2) (written_lem s session bts)

  write_response-SameEnd :
      (id : Bytes) (reply : Reply T)
      → SameEnd session
          (JsonService.write_response json id reply, s)
          (ended s (write_response ws id reply session))
  unfolding write_response JsonService.write_response
  write_response-SameEnd id reply =
      let (bts, e, e2) = same (new_rpc_response id reply) in
      response_encoded-SameEnd id reply _ _ bts e e2

module _ {T : NodeTypes} {S : Type 0} (json : JsonCodec T) (ws : WsCodec T)
    (same : SameBytes json ws) (handlers : List (Bytes × Handler T S)) (session : WsSession) where
  write_outcome-SameEnd :
      (id : Bytes) (x : Outcome (Reply T) × S)
      → SameEnd session
          (JsonService.write_outcome json handlers id x)
          (write_outcome ws handlers id session x)
  unfolding write_outcome JsonService.write_outcome
  write_outcome-SameEnd id (Outcome.success resp, s) =
      write_response-SameEnd json ws same s session id resp
  write_outcome-SameEnd id (Outcome.failure code e, s) =
      write_error-SameEnd json ws same s session (Message.of_handler e) id code
  write_outcome-SameEnd id (Outcome.crash, s) = refl

  call_handler-SameEnd :
      (req : RpcRequest) (s : S) (o : Option (Handler T S))
      → SameEnd session
          (JsonService.call_handler json handlers req s o)
          (call_handler ws handlers req s session o)
  unfolding call_handler JsonService.call_handler
  call_handler-SameEnd req s (some handler) = write_outcome-SameEnd req.id (handler req s)
  call_handler-SameEnd req s none =
      write_error-SameEnd json ws same s session (Message.no_method req.method) req.id
        method_not_found

  checked-SameEnd :
      (b : Bool) (a1 a2 : Result (Written T) × S) (b1 b2 : Result (Unit {0}) × S × WsSession)
      → SameEnd session a1 b1
      → SameEnd session a2 b2
      → SameEnd session (if b then a1 else a2) (if b then b1 else b2)
  checked-SameEnd true a1 a2 b1 b2 h1 h2 = h1
  checked-SameEnd false a1 a2 b1 b2 h1 h2 = h2

  process_request-SameEnd :
      (msg : Bytes) (s : S) (req : RpcRequest)
      → SameEnd session
          (JsonService.process_request json handlers s (ok req))
          (process_request ws handlers msg s session (ok req))
  unfolding process_request JsonService.process_request
  process_request-SameEnd msg s req =
      checked-SameEnd (bytes_eq req.json_rpc (str "2.0")) _ _ _ _
        (call_handler-SameEnd req s (find_handler req.method handlers))
        (write_error-SameEnd json ws same s session (Message.wrong_version req.json_rpc) req.id
          invalid_request)

  -- With the same handlers, a message that `json.Unmarshal` and the decoder of the HTTP service read
  -- as the same request ends over a websocket as it does over HTTP: the state is the same, the bytes
  -- of the response become the last message that waits in the session, or are lost if the session is
  -- closed, and there is a panic just where HTTP panics. `EncodeBytes` and `Encode` are assumed to
  -- give the same bytes, and no error, for every response.
  pub process-SameEnd :
      (msg : Bytes) (req : RpcRequest) (s : S)
      → json.decode_request msg ≡ ok req
      → ws.unmarshal msg ≡ ok req
      → SameEnd session
          (JsonService.process json handlers msg s)
          (process ws handlers msg s session)
  unfolding process JsonService.process
  process-SameEnd msg req s decoded unmarshalled =
      rw (decoded, unmarshalled) (process_request-SameEnd msg s req)
