-- ===== src/Pipe/Transactor/Hold/Examples.antt =====
-- Subscriptions that are a list of ids, and a mempool that takes everything.
use eris_db.Base.{
  ◌≡◌, refl, Bytes, bytes_eq, bytes_eq_refl, str, Bool, false, not, ◌||◌, List, [], ◌∷◌, none, some,
  ok, if_rule, select, arith,
}
use eris_db.Base.Int.{pos}
use eris_db.Pipe.Values.{EventDataCall}
use eris_db.Pipe.Transactor.{
  TxInput, Chain, Receipt, transact, send, receipt_of, broadcast_tx, broadcast_signed, sign_tx,
  sign_checked, sign_inputs, check_accounts,
}
use eris_db.Pipe.Transactor.Hold.{EventEmitter, upper_hex, transact_and_hold, send_and_hold}
use eris_db.Pipe.Transactor.Hold.Waiting.{
  IsEmitter, Waited, SendWaited, transact_and_hold-Waited, send_and_hold-SendWaited,
}

abbrev quiet_chain : Chain (List Bytes)
quiet_chain = record {
  chain_id = str "c";
  gen_priv_account = λ key. record { address = key; pub_key = key; priv_key = some key };
  sign = λ pa chain_id tx. [];
  tx_id = λ chain_id tx. str "T";
  new_contract_address = λ address sequence. address;
  name_input = λ key amount sequence. record {
    address = key;
    amount = amount;
    sequence = sequence;
    pub_key = key;
    signature = none;
  };
  get_account = λ s address. none;
  broadcast = λ tx s. (ok tt, s);
}

abbrev list_emitter : EventEmitter (List Bytes)
list_emitter = record {
  subscribe = λ id _ s. id ∷ s;
  unsubscribe = λ id s. select (λ k. not (bytes_eq k id)) s;
  event_string_acc_call = λ a. a;
  event_string_acc_output = λ a. a;
}

abbrev listens : List Bytes → Bytes → Bool
listens [] id = false
listens (k ∷ ks) id = bytes_eq k id || listens ks id

select-listens :
    (id : Bytes) (s : List Bytes) → listens (select (λ k. not (bytes_eq k id)) s) id ≡ false
select-listens id [] = refl
select-listens id (k ∷ s) =
    if_rule (λ l. listens l id ≡ false) (not (bytes_eq k id))
      (k ∷ select (λ j. not (bytes_eq j id)) s) (select (λ j. not (bytes_eq j id)) s)
      (λ e. ground (arith, e, select-listens id s)) (λ _. select-listens id s)

list_emitter-IsEmitter : IsEmitter list_emitter listens
list_emitter-IsEmitter = record {
  subscribe-listens = λ id event_id s. rw (bytes_eq_refl id) refl;
  unsubscribe-listens = λ id s. select-listens id s;
}

abbrev some_key : Bytes
some_key = str "0123456789abcdef0123456789abcdef0123456789abcdef0123456789abcdef"

abbrev some_address : Bytes
some_address = str "01234567890123456789"

abbrev receipt : Receipt
receipt = record { tx_hash = str "T"; creates_contract = 0; contract_addr = [] }

-- An event of another transaction, and then one of its own.
abbrev events : List EventDataCall
events =
    record { tx_id = str "U"; exception = [] } ∷ record { tx_id = str "T"; exception = [] } ∷ []

transacted : transact quiet_chain some_key some_address [] (pos 9) (pos 1) [] ≡ (ok receipt, [])
unfolding transact broadcast_signed broadcast_tx receipt_of sign_tx sign_checked check_accounts
transacted = refl

sent : send quiet_chain some_key some_address (pos 3) [] ≡ (ok receipt, [])
unfolding send broadcast_signed broadcast_tx receipt_of sign_tx sign_checked sign_inputs
    check_accounts
sent = refl

transact_and_hold-Waited_example :
    let r =
      transact_and_hold quiet_chain list_emitter some_key some_address []
        (pos 9)
        (pos 1)
        events
        [] in
    Waited receipt events r.0 × (listens r.1 (upper_hex (str "T")) ≡ false)
transact_and_hold-Waited_example =
    transact_and_hold-Waited quiet_chain list_emitter listens list_emitter-IsEmitter some_key
      some_address [] (pos 9) (pos 1) events [] [] receipt transacted

abbrev payments : List (List TxInput)
payments =
    (record {
      address = str "other";
      amount = pos 3;
      sequence = pos 1;
      pub_key = [];
      signature = none;
    }
      ∷ [])
    ∷ []

send_and_hold-SendWaited_example :
    SendWaited quiet_chain list_emitter listens list_emitter-IsEmitter some_key
      (pos 3)
      receipt
      payments
      (send_and_hold quiet_chain list_emitter some_key some_address (pos 3) payments [])
send_and_hold-SendWaited_example =
    send_and_hold-SendWaited quiet_chain list_emitter listens list_emitter-IsEmitter some_key
      some_address (pos 3) payments [] [] receipt sent
