-- ===== src/Pipe/Transactor/Hold.antt =====
-- erisdb/pipe/transactor.go: the two calls that wait for an event of their transaction. What arrives
-- before the timer is over is a list of events, in order.
mod Examples
pub mod Waiting
use eris_db.Base.{
  ℕ, zero, suc, ◌+◌, ◌-◌, ◌/◌, ◌%◌, ◌≡◌, refl, ◌∙◌, ap, sym, subst, ◌⊎◌, inl, inr, Bytes, bytes_eq,
  eq_of_bytes_eq, str, Bool, true, false, ◌&&◌, Option, none, some, List, [], ◌∷◌, ◌++◌, Result, ok,
  err, panic, Error, and_then, ◌==◌, ltb, length, if◌then◌else◌, if_rule, Bool-cases,
}
use eris_db.Base.Int.{ℤ, eqb_ℤ}
use eris_db.Pipe.Values.{EventDataCall}
use eris_db.Pipe.Transactor.{TxInput, TxOutput, Tx, Chain, Receipt, transact, send}

-- `fmt.Sprintf("%X", b)`
upper_hex_char : ℕ → ℕ
upper_hex_char n = if ltb n 10 then b'0' + n else b'A' + (n - 10)

pub upper_hex : Bytes → Bytes
upper_hex [] = []
upper_hex (b ∷ s) = upper_hex_char (b / 16) ∷ upper_hex_char (b % 16) ∷ upper_hex s

-- The event emitter, with tendermint's names of events.
pub record EventEmitter (S : Type 0) : Type 0 where
  pub subscribe : Bytes → Bytes → S → S
  pub unsubscribe : Bytes → S → S
  pub event_string_acc_call : Bytes → Bytes
  pub event_string_acc_output : Bytes → Bytes

-- The callback sends on the first event of the transaction.
pub first_match : Bytes → List EventDataCall → Option EventDataCall
first_match tx_hash [] = none
first_match tx_hash (event ∷ events) =
    if bytes_eq event.tx_id tx_hash then some event else first_match tx_hash events

pub timed_out : Bytes → Error
timed_out sub_id = Error.other_error (str "Transaction timed out. Hash: " ++ sub_id)

-- The `select` of `TransactAndHold`.
held : Bytes → Option EventDataCall → Result EventDataCall
held sub_id none = err (timed_out sub_id)
held sub_id (some e) =
    if length e.exception == 0
    then ok e
    else err (Error.other_error (str "Error when transacting: " ++ e.exception))

-- `e.Inputs[0]`
first_input : List TxInput → Option TxInput
first_input [] = none
first_input (input ∷ inputs) = some input

module _ {S : Type 0} (chain : Chain S) (emitter : EventEmitter S) where
  hold : Bytes → List EventDataCall → Receipt → S → Result EventDataCall × S
  hold address arrivals rec s =
      let addr = if rec.creates_contract == 1 then rec.contract_addr else address in
      let sub_id = upper_hex rec.tx_hash in
      let s2 = emitter.subscribe sub_id (emitter.event_string_acc_call addr) s in
      (held sub_id (first_match rec.tx_hash arrivals), emitter.unsubscribe sub_id s2)

  pub transact_and_hold :
      Bytes → Bytes → Bytes → ℤ → ℤ → List EventDataCall → S → Result EventDataCall × S
  transact_and_hold priv_key address code gas_limit fee arrivals s =
      and_then (transact chain priv_key address code gas_limit fee s) (hold address arrivals)

  -- The first event decides. A transaction without inputs panics; where it is another's, the call
  -- returns a nil receipt and no error, and does not unsubscribe.
  own_input : Bytes → ℤ → Receipt → Bytes → S → Option TxInput → Result (Option Receipt) × S
  own_input priv_key amount rec sub_id s none = (panic, s)
  own_input priv_key amount rec sub_id s (some input) =
      let pa = chain.gen_priv_account priv_key in
      if bytes_eq input.address pa.address && eqb_ℤ input.amount amount
      then (ok (some rec), emitter.unsubscribe sub_id s)
      else (ok none, s)

  -- Nothing has arrived, or the inputs of the transaction that paid first.
  send_arrived : Bytes → ℤ → Receipt → Bytes → S → List (List TxInput) → Result (Option Receipt) × S
  send_arrived priv_key amount rec sub_id s [] = (err (timed_out sub_id), s)
  send_arrived priv_key amount rec sub_id s (inputs ∷ _) =
      own_input priv_key amount rec sub_id s (first_input inputs)

  hold_send : Bytes → Bytes → ℤ → List (List TxInput) → Receipt → S → Result (Option Receipt) × S
  hold_send priv_key to_address amount arrivals rec s =
      let sub_id = upper_hex rec.tx_hash in
      let s2 = emitter.subscribe sub_id (emitter.event_string_acc_output to_address) s in
      send_arrived priv_key amount rec sub_id s2 arrivals

  pub send_and_hold : Bytes → Bytes → ℤ → List (List TxInput) → S → Result (Option Receipt) × S
  send_and_hold priv_key to_address amount arrivals s =
      and_then (send chain priv_key to_address amount s)
        (hold_send priv_key to_address amount arrivals)
