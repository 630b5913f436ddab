-- ===== src/ErisDb/Rest.antt =====
-- erisdb/restServer.go: what its handlers do with gin's writer. The writer keeps the last status that
-- it is given until the body is written; a handler that panics is recovered from by gin.
mod Examples
pub mod Handlers
pub mod Routes
pub mod Statuses
pub mod Refusals
pub mod Dispatch
use eris_db.Base.{
  ℕ, Bool, true, Option, none, some, List, [], ◌∷◌, ◌++◌, Bytes, Result, ok, err, panic, Error,
}
use eris_db.Pipe.Filters.{FilterData}
use eris_db.ErisDb.Params.{
  NodeTypes, EventIdParam, CallParam, CallCodeParam, TransactParam, TransactNameRegParam,
  SignTxParam,
}
use eris_db.ErisDb.Methods.{Reply}
use eris_db.ErisDb.PathParams.{Context}

-- `codec.Decode(param, body)`, and `wire.ReadJSONPtr` for `tx`: what stands in `param` afterwards,
-- and the error, if any.
pub record RestCodec (T : NodeTypes) : Type 0 where
  pub event_id : Bytes → EventIdParam × Option Error
  pub tx : Bytes → T.Tx × Option Error
  pub call : Bytes → CallParam × Option Error
  pub call_code : Bytes → CallCodeParam × Option Error
  pub transact : Bytes → TransactParam × Option Error
  pub transact_name_reg : Bytes → TransactNameRegParam × Option Error
  pub sign_tx : Bytes → SignTxParam T × Option Error

-- What is encoded: a value, or what a call returns next to an error, which is nil or empty, alone or
-- in a struct. A refusal is what the middleware writes.
pub data Body (T : NodeTypes) : Type 0 where
  nothing : Body T
  value : Reply T → Body T
  zero_value : Body T
  refusal : Body T

-- `errors` are those of gin's context, which are logged and not sent.
pub record Response (T : NodeTypes) : Type 0 where
  pub status : ℕ
  pub errors : List Error
  pub body : Body T

abbrev pub fresh : {T : NodeTypes} → Response T
fresh = record { status = 200; errors = []; body = Body.nothing }

unfoldable pub write_header : {T : NodeTypes} → ℕ → Response T → Response T
write_header code r = record r { status = code }

unfoldable pub abort_with_error : {T : NodeTypes} → ℕ → Error → Response T → Response T
unfolding write_header
abort_with_error code e r = record (write_header code r) { errors = r.errors ++ e ∷ [] }

unfoldable pub encode : {T : NodeTypes} → Body T → Response T → Response T
encode body r = record r { body = body }

abbrev pub RestHandler : NodeTypes → Type 0 → Type 0
RestHandler T S = Context → Bytes → S → Result (Response T) × S

module _ {T : NodeTypes} {S : Type 0} where
  -- `if err != nil { c.AbortWithError(500, err) }; c.Writer.WriteHeader(200);
  -- this.codec.Encode(value, c.Writer)`, after a call of the pipe.
  unfoldable pub respond :
      {A : Type 0} → (A → Reply T) → Response T → Result A × S → Result (Response T) × S
  unfolding write_header abort_with_error encode
  respond reply r (ok a, s) = (ok (encode (Body.value (reply a)) (write_header 200 r)), s)
  respond reply r (err e, s) =
      (ok (encode Body.zero_value (write_header 200 (abort_with_error 500 e r))), s)
  respond reply r (panic, s) = (panic, s)

  -- The same, where the value is true whatever the call returns.
  unfoldable pub respond_true :
      (Bool → Reply T) → Response T → Result (Unit {0}) × S → Result (Response T) × S
  unfolding write_header abort_with_error encode
  respond_true reply r (ok _, s) = (ok (encode (Body.value (reply true)) (write_header 200 r)), s)
  respond_true reply r (err e, s) =
      (ok (encode (Body.value (reply true)) (write_header 200 (abort_with_error 500 e r))), s)
  respond_true reply r (panic, s) = (panic, s)

  -- `c.MustGet(key)`, and the rest of the handler.
  unfoldable pub must_get :
      {A : Type 0} → Option A → S → (A → Result (Response T) × S) → Result (Response T) × S
  must_get (some a) s rest = rest a
  must_get none s rest = (panic, s)

-- `if errD != nil { c.AbortWithError(500, errD) }`
unfoldable pub decode_error : {T : NodeTypes} → Option Error → Response T → Response T
unfolding abort_with_error
decode_error none r = r
decode_error (some e) r = abort_with_error 500 e r

-- The filters that `parseSearchQuery` has set; none are the same as an empty list.
abbrev pub filters_of : Option (List FilterData) → List FilterData
filters_of (some fs) = fs
filters_of none = []
