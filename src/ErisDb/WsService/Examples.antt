-- ===== src/ErisDb/WsService/Examples.antt =====
-- A request for the moniker of a node, over an open session, and an event for a closed one.
use eris_db.Base.{refl, ℕ, Bytes, str, true, false, List, [], ok}
use eris_db.ErisDb.Rpc.{RpcRequest}
use eris_db.ErisDb.Methods.{Handler, Io}
use eris_db.ErisDb.JsonService
use eris_db.ErisDb.SmallNode.{small_types, small_codec, small_pipe, small_json, fails}
use eris_db.Server.Sessions.{WsSession}
use eris_db.ErisDb.WsService.{WsCodec, default_handlers, process}
use eris_db.ErisDb.WsService.SameResponses.{SameEnd, process-SameEnd}

abbrev small_sub_id : Io ℕ Bytes
small_sub_id s = (ok (str "1234"), s)

abbrev moniker_request : RpcRequest
moniker_request = record {
  json_rpc = str "2.0";
  method = str "erisdb.getMoniker";
  params = [];
  id = str "7";
}

-- The codec reads every message as a request for the moniker.
abbrev small_ws : WsCodec small_types
small_ws = record {
  unmarshal = λ _. ok moniker_request;
  decode_event_id = λ _. fails;
  encode_bytes = λ _. ok [];
}

abbrev small_ws_handlers : List (Bytes × Handler small_types ℕ)
small_ws_handlers = default_handlers small_ws small_pipe small_sub_id small_codec

abbrev session : WsSession
session = record { id = 1; write_chan = []; opened = true; closed = false }

process-SameEnd_example :
    SameEnd session
      (JsonService.process small_json small_ws_handlers (str "erisdb.getMoniker") 3)
      (process small_ws small_ws_handlers (str "erisdb.getMoniker") 3 session)
process-SameEnd_example =
    process-SameEnd small_json small_ws (λ r. ([], refl, refl)) small_ws_handlers session
      (str "erisdb.getMoniker") moniker_request 3 refl refl
