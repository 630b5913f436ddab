-- ===== src/ErisDb/JsonService/Examples.antt =====
-- A service whose node answers little, and a request for its moniker.
use eris_db.Base.{ℕ, Bytes, bytes_eq, str, List, [], ◌∷◌, refl, All, Result, ok}
use eris_db.ErisDb.Rpc.{RpcRequest}
use eris_db.ErisDb.Methods.{Handler, Reply}
use eris_db.ErisDb.Methods.Handlers.{get_methods}
use eris_db.ErisDb.Methods.Handlers.Codes.{IsCoded, get_methods-IsCoded}
use eris_db.ErisDb.JsonService.{JsonCodec, Written, default_handlers, process}
use eris_db.ErisDb.SmallNode.{
  small_types, small_codec, small_pipe, small_json, small_subs, node_with_height,
}
use eris_db.ErisDb.Events.Firing.{fire_all}
use eris_db.ErisDb.Events.SmallSwitch.{
  Subs, no_subs, no_subs-Bounded, fired, list_switch, list_switch-AddsListener,
}
use eris_db.ErisDb.JsonService.EventsOverRpc.{serve, Replied, process-poll}
use eris_db.ErisDb.JsonService.Writing.{Conforms}
use eris_db.ErisDb.JsonService.Replies.{Panics, process-Conforms}

abbrev small_handlers : List (Bytes × Handler small_types ℕ)
small_handlers = default_handlers small_json small_pipe small_subs small_codec

process-Conforms_example :
    Conforms
      (Panics small_handlers 3 (small_json.decode_request (str "erisdb.getMoniker")))
      (str "erisdb.getMoniker")
      (str "7")
      3
      (process small_json small_handlers (str "erisdb.getMoniker") 3)
process-Conforms_example =
    process-Conforms small_json small_codec small_pipe small_subs (str "erisdb.getMoniker") 3
      (λ response. ([], refl))

get_methods-IsCoded_example : All IsCoded (get_methods small_codec small_pipe)
get_methods-IsCoded_example = get_methods-IsCoded small_codec small_pipe

-- The codec reads every request for an event as one for new blocks under the id "A1".
abbrev events_json : JsonCodec small_types
events_json = record small_json {
  decode_event_id = λ _. ok (record { event_id = str "NewBlock" });
  decode_sub_id = λ _. ok (record { sub_id = str "A1" });
}

abbrev request_for : Bytes → RpcRequest
request_for method = record { json_rpc = str "2.0"; method = method; params = []; id = str "7" }

abbrev served : ℕ → Bytes → Subs → Result (Written small_types) × Subs
served now body st =
    serve list_switch events_json (node_with_height (λ st. 0)) small_codec (ok (str "A1")) now body
      st

process-poll_example :
    Replied list_switch events_json
      (node_with_height (λ st. 0))
      small_codec
      (request_for (str "erisdb.eventSubscribe"))
      (Reply.event_sub (str "A1"))
      (served 5 (str "erisdb.eventSubscribe") no_subs).0
    × Replied list_switch events_json
        (node_with_height (λ st. 0))
        small_codec
        (request_for (str "erisdb.eventPoll"))
        (Reply.poll_response (1 ∷ 3 ∷ []))
        (served 9
          (str "erisdb.eventPoll")
          (fire_all list_switch fired (served 5 (str "erisdb.eventSubscribe") no_subs).1)).0
unfolding bytes_eq
process-poll_example =
    process-poll list_switch events_json (node_with_height (λ st. 0)) small_codec
      (str "erisdb.eventSubscribe") (str "erisdb.eventPoll")
      (request_for (str "erisdb.eventSubscribe")) (request_for (str "erisdb.eventPoll")) (str "A1")
      (str "NewBlock") (ok (str "A1")) 5 9 no_subs fired (refl, refl, refl) refl (refl, refl, refl)
      refl (λ response. ([], refl)) list_switch-AddsListener no_subs-Bounded refl
