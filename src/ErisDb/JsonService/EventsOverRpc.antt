-- ===== src/ErisDb/JsonService/EventsOverRpc.antt =====
-- erisdb/json_service.go over erisdb/event_cache.go: what a client that polls over JSON-RPC gets.
use eris_db.Base.{ℕ, ◌≡◌, refl, ◌∙◌, ap, false, Bytes, bytes_eq, str, List, Result, ok, err, panic}
use eris_db.ErisDb.Rpc.{RpcRequest, new_rpc_response}
use eris_db.ErisDb.Params.{NodeTypes, ParamCodec}
use eris_db.ErisDb.Methods.{Pipe, Reply, Handler, finish, with_params}
use eris_db.ErisDb.Events.{EventSwitch, EventSubscriptions, add, poll, remove}
use eris_db.ErisDb.Events.Firing.{fire_all}
use eris_db.ErisDb.Events.Delivery.{AddsListener, Bounded, of_kind, poll-add}
use eris_db.ErisDb.JsonService.{
  JsonCodec, EventSubs, Written, find_handler, event_subscribe, event_poll, default_handlers,
  response_written, write_response, write_outcome, call_handler, process_request, process,
}
use eris_db.ErisDb.JsonService.Writing.{EncodesAll}

module _ {T : NodeTypes} {S : Type 0} (sw : EventSwitch S) where
  -- The event cache is what the service subscribes to and polls; `generated` is the next id that is
  -- generated, and `now` the time.
  abbrev pub cache_subs : Result Bytes → ℕ → EventSubs T (EventSubscriptions S T.EventData)
  cache_subs generated now = record {
    add = λ event_id st. add sw generated event_id now st;
    poll = λ sub_id st. poll sub_id now st;
    remove = λ sub_id st. remove sub_id st;
  }

module _ {T : NodeTypes} (json : JsonCodec T) where
  answered :
      (id : Bytes) (reply : Reply T) (r : Result Bytes) (bts : Bytes)
      → r ≡ ok bts
      → response_written json id (new_rpc_response id reply) r
        ≡ ok (Written.replied (new_rpc_response id reply) bts)
  unfolding response_written
  answered id reply (ok b) bts e = cc
  answered id reply (err x) bts e = (let bad : ⊥ = cc in absurd bad)
  answered id reply panic bts e = (let bad : ⊥ = cc in absurd bad)

-- The body is a request of version 2.0 for the method.
abbrev pub Asks : {T : NodeTypes} → JsonCodec T → Bytes → RpcRequest → Bytes → Type 0
Asks json body req method =
    (json.decode_request body ≡ ok req) × (req.json_rpc ≡ str "2.0") × (req.method ≡ method)

module _ {T : NodeTypes} {S : Type 0} (json : JsonCodec T) (pipe : Pipe T S)
    (event_subs : EventSubs T S) (codec : ParamCodec T) where
  abbrev handlers : List (Bytes × Handler T S)
  handlers = default_handlers json pipe event_subs codec

  process-event_subscribe :
      (body : Bytes) (s : S) (req : RpcRequest) (event_id : Bytes)
      → Asks json body req (str "erisdb.eventSubscribe")
      → json.decode_event_id req.params ≡ ok (record { event_id = event_id })
      → process json handlers body s
        ≡ write_outcome json handlers req.id (finish Reply.event_sub (event_subs.add event_id s))
  unfolding process process_request call_handler event_subscribe with_params bytes_eq find_handler
      default_handlers
  process-event_subscribe body s req event_id (decoded, version, method) params =
      rw (decoded, version, method, params) refl

  process-event_poll :
      (body : Bytes) (s : S) (req : RpcRequest) (id : Bytes)
      → Asks json body req (str "erisdb.eventPoll")
      → json.decode_sub_id req.params ≡ ok (record { sub_id = id })
      → process json handlers body s
        ≡ write_outcome json handlers req.id (finish Reply.poll_response (event_subs.poll id s))
  unfolding process process_request call_handler event_poll with_params bytes_eq find_handler
      default_handlers
  process-event_poll body s req id (decoded, version, method) params =
      rw (decoded, version, method, params) refl

  -- What a method of the event cache returns is what the client is replied.
  write_outcome-finish :
      {A : Type 0} (id : Bytes) (reply : A → Reply T) (a : A) (bts : Bytes) (r : Result A × S)
      → r.0 ≡ ok a
      → json.encode (new_rpc_response id (reply a)) ≡ ok bts
      → write_outcome json handlers id (finish reply r)
        ≡ (ok (Written.replied (new_rpc_response id (reply a)) bts), r.1)
  unfolding write_outcome finish write_response
  write_outcome-finish id reply a bts (r, s2) got encoded =
      rw (got, answered json id (reply a) _ bts encoded) refl

module _ {T : NodeTypes} {S : Type 0} (sw : EventSwitch S) (json : JsonCodec T)
    (pipe : Pipe T (EventSubscriptions S T.EventData)) (codec : ParamCodec T) where
  -- The service over the event cache.
  abbrev pub serve :
      Result Bytes
      → ℕ
      → Bytes
      → EventSubscriptions S T.EventData
      → Result (Written T) × EventSubscriptions S T.EventData
  serve generated now body st =
      process json (default_handlers json pipe (cache_subs {T = T} sw generated now) codec) body st

  -- The body is written out as the response to the request with the reply.
  abbrev pub Replied : RpcRequest → Reply T → Result (Written T) → Type 0
  Replied req reply written =
      (bts : Bytes) × (written ≡ ok (Written.replied (new_rpc_response req.id reply) bts))

  -- A client that subscribes to an event over JSON-RPC is replied the id that was generated. When
  -- events have been fired, a request to poll that id is replied with exactly the events of that
  -- kind, in order. The bodies are assumed to decode to these requests and their parameters, the
  -- codec to encode every response, the event switch to add one callback for a new listener, no
  -- callback to belong to a cache that is not made yet, and nothing to listen under the id before.
  pub process-poll :
      (subscribing polling : Bytes) (asked polled : RpcRequest) (id event_id : Bytes)
      (generated : Result Bytes) (now later : ℕ) (st : EventSubscriptions S T.EventData)
      (fs : List (Bytes × T.EventData))
      → Asks json subscribing asked (str "erisdb.eventSubscribe")
      → json.decode_event_id asked.params ≡ ok (record { event_id = event_id })
      → Asks json polling polled (str "erisdb.eventPoll")
      → json.decode_sub_id polled.params ≡ ok (record { sub_id = id })
      → EncodesAll json
      → AddsListener sw
      → Bounded sw st
      → sw.listens st.event_emitter id ≡ false
      → Replied asked (Reply.event_sub id) (serve (ok id) now subscribing st).0
        × Replied polled
            (Reply.poll_response (of_kind sw event_id fs))
            (serve generated later polling (fire_all sw fs (serve (ok id) now subscribing st).1)).0
  unfolding add
  process-poll subscribing polling asked polled id event_id generated now later st fs asks event
        asks2 sub encodes adds bounded fresh =
      let subs = cache_subs sw (ok id) now in
      let later_subs = cache_subs sw generated later in
      let reply = Reply.poll_response (of_kind sw event_id fs) in
      let written = encodes (new_rpc_response asked.id (Reply.event_sub id)) in
      let written2 = encodes (new_rpc_response polled.id reply) in
      let first =
        process-event_subscribe json pipe subs codec subscribing st asked event_id asks event
        ∙ write_outcome-finish json pipe subs codec asked.id Reply.event_sub id written.0
            (subs.add event_id st) refl written.1 in
      let after : EventSubscriptions S T.EventData → EventSubscriptions S T.EventData =
        λ st1. fire_all sw fs st1 in
      let st2 = after (add sw (ok id) event_id now st).1 in
      let second =
        process-event_poll json pipe later_subs codec polling st2 polled id asks2 sub
        ∙ write_outcome-finish json pipe later_subs codec polled.id Reply.poll_response
            (of_kind sw event_id fs) written2.0 (poll id later st2)
            (poll-add sw id event_id now later st fs adds bounded fresh).0 written2.1 in
      (
        (written.0, ap (λ r. r.0) first),
        (
          written2.0,
          ap (λ r. (serve generated later polling (after r.1)).0) first ∙ ap (λ r. r.0) second,
        ),
      )
