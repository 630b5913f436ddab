-- ===== src/ErisDb/JsonService/Writing.antt =====
-- What one write of erisdb/json_service.go makes a response of JSON-RPC 2.0.
use eris_db.Base.{
  ◌≡◌, refl, ◌⊎◌, inl, inr, Bytes, str, Option, none, some, List, Result, ok, err, panic,
}
use eris_db.Base.Int.{ℤ}
use eris_db.ErisDb.Rpc.{
  RpcResponse, RpcError, Message, new_rpc_response, new_rpc_error_response, Outcome, parse_error,
  invalid_request, method_not_found, invalid_params, internal_error,
}
use eris_db.ErisDb.Params.{NodeTypes}
use eris_db.ErisDb.Methods.{Reply, Handler}
use eris_db.ErisDb.Methods.Handlers.Codes.{Coded, NilReceiptOnly}
use eris_db.ErisDb.JsonService.{
  JsonCodec, Written, error_written, write_error, response_written, write_response, write_outcome,
}

-- The codes of the service itself.
abbrev pub IsServiceCode : ℤ → Type 0
IsServiceCode code =
    (code ≡ parse_error)
    ⊎ (code ≡ invalid_request)
    ⊎ (code ≡ method_not_found)
    ⊎ (code ≡ invalid_params)

module _ {T : NodeTypes} where
  -- The codec can encode every response.
  abbrev pub EncodesAll : JsonCodec T → Type 0
  EncodesAll json =
      (response : RpcResponse (Reply T)) → (bts : Bytes) × (json.encode response ≡ ok bts)

module _ {T : NodeTypes} {S : Type 0} where
  -- Exactly one of the two is there. A result is no nil receipt, unless the method is
  -- "erisdb.sendAndHold", and an error other than an internal one has changed nothing.
  abbrev pub OneOf : Bytes → S → S → Option (Reply T) → Option RpcError → Type 0
  OneOf method s s2 (some result) none = NilReceiptOnly method result
  OneOf method s s2 none (some e) = (IsServiceCode e.code × (s2 ≡ s)) ⊎ (e.code ≡ internal_error)
  OneOf method s s2 _ _ = ⊥

  -- A response to the method in version 2.0 with the id `id`, or a panic for which there is a reason.
  abbrev pub Conforms : Type 0 → Bytes → Bytes → S → Result (Written T) × S → Type 0
  Conforms Reason method id s (ok (Written.replied r bts), s2) =
      (r.json_rpc ≡ str "2.0") × (r.id ≡ id) × OneOf method s s2 r.result r.error
  Conforms Reason method id s (panic, s2) = Reason
  Conforms Reason method id s _ = ⊥

  module _ (json : JsonCodec T) (encodes : EncodesAll json) (Reason : Type 0) (method id : Bytes)
      (s s2 : S) where
    error_written-Conforms :
        (msg : Message) (code : ℤ) (r : Result Bytes) (bts : Bytes)
        → (IsServiceCode code × (s2 ≡ s)) ⊎ (code ≡ internal_error)
        → r ≡ ok bts
        → Conforms Reason method id s
            (error_written json (new_rpc_error_response id code msg) r, s2)
    unfolding error_written new_rpc_error_response
    error_written-Conforms msg code (ok bts) _ h e = (refl, refl, h)
    error_written-Conforms msg code (err x) bts h e = cc
    error_written-Conforms msg code panic bts h e = cc

    pub write_error-Conforms :
        (msg : Message) (code : ℤ)
        → (IsServiceCode code × (s2 ≡ s)) ⊎ (code ≡ internal_error)
        → Conforms Reason method id s (write_error json msg id code, s2)
    unfolding write_error
    write_error-Conforms msg code h =
        let (bts, e) = encodes (new_rpc_error_response id code msg) in
        error_written-Conforms msg code _ bts h e

    response_written-Conforms :
        (result : Reply T) (r : Result Bytes) (bts : Bytes)
        → NilReceiptOnly method result
        → r ≡ ok bts
        → Conforms Reason method id s (response_written json id (new_rpc_response id result) r, s2)
    unfolding response_written new_rpc_response
    response_written-Conforms result (ok bts) _ null e = (refl, refl, null)
    response_written-Conforms result (err x) bts null e = cc
    response_written-Conforms result panic bts null e = cc

    write_response-Conforms :
        (result : Reply T)
        → NilReceiptOnly method result
        → Conforms Reason method id s (write_response json id result, s2)
    unfolding write_response
    write_response-Conforms result null =
        let (bts, e) = encodes (new_rpc_response id result) in
        response_written-Conforms result _ bts null e

    pub write_outcome-Conforms :
        (handlers : List (Bytes × Handler T S)) (o : Outcome (Reply T))
        → Coded method s (o, s2)
        → (o ≡ Outcome.crash → Reason)
        → Conforms Reason method id s (write_outcome json handlers id (o, s2))
    unfolding write_outcome
    write_outcome-Conforms handlers (Outcome.success resp) h crash = write_response-Conforms resp h
    write_outcome-Conforms handlers (Outcome.failure code e) h crash =
        write_error-Conforms (Message.of_handler e) code
          (elim h [ inl (e, same) ↦ inl (inr (inr (inr e)), same) | inr e ↦ inr e ])
    write_outcome-Conforms handlers Outcome.crash h crash = crash refl
