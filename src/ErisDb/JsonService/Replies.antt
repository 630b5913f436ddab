-- ===== src/ErisDb/JsonService/Replies.antt =====
-- The responses of erisdb/json_service.go are those of JSON-RPC 2.0.
use eris_db.Base.{
  eq_of_bytes_eq, ◌≡◌, refl, subst, ◌⊎◌, inl, inr, Bytes, bytes_eq, str, Bool, true, false, Option,
  none, some, List, [], ◌∷◌, Result, ok, err, panic, All, if◌then◌else◌, if_rule,
}
use eris_db.ErisDb.Rpc.{
  RpcRequest, Message, Outcome, parse_error, invalid_request, method_not_found,
}
use eris_db.ErisDb.Params.{NodeTypes, ParamCodec}
use eris_db.ErisDb.Methods.{Pipe, Handler}
use eris_db.ErisDb.Methods.Handlers.Codes.{IsCoded, with_params-Coded, get_methods-IsCoded}
use eris_db.ErisDb.JsonService.{
  JsonCodec, EventSubs, find_handler, event_subscribe, event_unsubscribe, event_poll,
  default_handlers, write_error, call_handler, process_request, process,
}
use eris_db.ErisDb.JsonService.Writing.{
  EncodesAll, Conforms, write_error-Conforms, write_outcome-Conforms,
}

-- The id of a request, which is empty where there is none.
abbrev pub id_of : Result RpcRequest → Bytes
id_of (ok req) = req.id
id_of _ = []

-- The method that it names, in the same way.
abbrev pub method_of : Result RpcRequest → Bytes
method_of (ok req) = req.method
method_of _ = []

module _ {T : NodeTypes} {S : Type 0} where
  found_first :
      (P : Handler T S → Type 0) (b : Bool) (g h : Handler T S) (o : Option (Handler T S))
      → (if b then some g else o) ≡ some h
      → (b ≡ true → P g)
      → (o ≡ some h → P h)
      → P h
  found_first P true g h o e p rest = let same : g ≡ h = cc in subst P same (p refl)
  found_first P false g h o e p rest = rest e

  find_handler-IsCoded :
      (k : Bytes) (m : List (Bytes × Handler T S)) (h : Handler T S)
      → All IsCoded m
      → find_handler k m ≡ some h
      → IsCoded (k, h)
  unfolding find_handler
  find_handler-IsCoded k [] h coded e = λ request s. (let bad : ⊥ = cc in absurd bad)
  find_handler-IsCoded k ((j, g) ∷ m) h coded e =
      found_first (λ f. IsCoded (k, f)) (bytes_eq j k) g h (find_handler k m) e
        (λ same. subst (λ n. IsCoded (n, g)) (eq_of_bytes_eq j k same) coded.0)
        (find_handler-IsCoded k m h coded.1)

module _ {T : NodeTypes} {S : Type 0} (handlers : List (Bytes × Handler T S)) where
  -- Why a call of `process` may panic.
  abbrev pub Panics : S → Result RpcRequest → Type 0
  Panics s decoded =
      (decoded ≡ panic)
      ⊎ ((req : RpcRequest) × (handler : Handler T S) × (decoded ≡ ok req)
          × (find_handler req.method handlers ≡ some handler)
          × ((handler req s).0 ≡ Outcome.crash))

module _ {T : NodeTypes} {S : Type 0} (json : JsonCodec T) (handlers : List (Bytes × Handler T S))
    (encodes : EncodesAll json) (coded : All IsCoded handlers) where
  call_handler-Conforms :
      (req : RpcRequest) (s : S) (o : Option (Handler T S))
      → find_handler req.method handlers ≡ o
      → Conforms
          (Panics handlers s (ok req))
          req.method
          req.id
          s
          (call_handler json handlers req s o)
  unfolding call_handler
  call_handler-Conforms req s none e =
      write_error-Conforms json encodes _ req.method req.id s s (Message.no_method req.method)
        method_not_found (inl (inr (inr (inl refl)), refl))
  call_handler-Conforms req s (some handler) e =
      write_outcome-Conforms json encodes (Panics handlers s (ok req)) req.method req.id s
        (handler req s).1 handlers (handler req s).0
        (find_handler-IsCoded req.method handlers handler coded e req s)
        (λ crash. inr (req, handler, refl, e, crash))

  process_request-Conforms :
      (s : S) (decoded : Result RpcRequest)
      → Conforms
          (Panics handlers s decoded)
          (method_of decoded)
          (id_of decoded)
          s
          (process_request json handlers s decoded)
  unfolding process_request
  process_request-Conforms s (err e) =
      write_error-Conforms json encodes _ [] [] s s (Message.failed_to_parse e) parse_error
        (inl (inl refl, refl))
  process_request-Conforms s panic = inl refl
  process_request-Conforms s (ok req) =
      if_rule (Conforms (Panics handlers s (ok req)) req.method req.id s)
        (bytes_eq req.json_rpc (str "2.0"))
        (call_handler json handlers req s (find_handler req.method handlers))
        (write_error json (Message.wrong_version req.json_rpc) req.id invalid_request, s)
        (λ _. call_handler-Conforms req s (find_handler req.method handlers) refl)
        (λ _.
          write_error-Conforms json encodes _ req.method req.id s s
            (Message.wrong_version req.json_rpc) invalid_request (inl (inr (inl refl), refl)))

  handlers-Conforms :
      (body : Bytes) (s : S)
      → Conforms
          (Panics handlers s (json.decode_request body))
          (method_of (json.decode_request body))
          (id_of (json.decode_request body))
          s
          (process json handlers body s)
  unfolding process
  handlers-Conforms body s = process_request-Conforms s (json.decode_request body)

module _ {T : NodeTypes} {S : Type 0} (json : JsonCodec T) (codec : ParamCodec T) (pipe : Pipe T S)
    (event_subs : EventSubs T S) where
  -- The handlers of the events too return the codes that the others do.
  default_handlers-IsCoded : All IsCoded (default_handlers json pipe event_subs codec)
  unfolding default_handlers event_subscribe event_unsubscribe event_poll
  default_handlers-IsCoded = (
    (λ request s. with_params-Coded _ _ _ s (λ _ no. absurd no)),
    (
      (λ request s. with_params-Coded _ _ _ s (λ _ no. absurd no)),
      (
        (λ request s. with_params-Coded _ _ _ s (λ _ no. absurd no)),
        get_methods-IsCoded codec pipe,
      ),
    ),
  )

  -- Whatever the body, `Process` writes one response in version 2.0, with the id of the request or
  -- the empty id where it cannot be parsed, and with exactly one of `Result` and `Error` set. The
  -- result may hold a nil pointer that the pipe returned, which is written as null, but a nil receipt
  -- only where the method is "erisdb.sendAndHold". An error has one of the codes of JSON-RPC, and if
  -- it is not an internal error, the state is as before. The only other end is a panic of the decoder
  -- or of the handler that the method names. The codec is assumed to encode every response.
  pub process-Conforms :
      (body : Bytes) (s : S)
      → EncodesAll json
      → Conforms
          (Panics (default_handlers json pipe event_subs codec) s (json.decode_request body))
          (method_of (json.decode_request body))
          (id_of (json.decode_request body))
          s
          (process json (default_handlers json pipe event_subs codec) body s)
  process-Conforms body s encodes =
      handlers-Conforms json (default_handlers json pipe event_subs codec) encodes
        default_handlers-IsCoded body s
