-- ===== src/Pipe/Transactor/Hold/Waiting.antt =====
-- How the two calls of erisdb/pipe/transactor.go that wait for an event end.
use eris_db.Base.{
  ◌≡◌, ◌≢◌, refl, ◌∙◌, ap, sym, ◌⊎◌, inl, inr, Bytes, bytes_eq, eq_of_bytes_eq, bytes_eq_refl, Bool,
  true, false, ◌&&◌, Option, none, some, List, [], ◌∷◌, ◌++◌, Result, ok, err, panic, ◌==◌, length,
  if_rule, arith,
}
use eris_db.Base.Int.{ℤ, eqb_ℤ, eqb_ℤ_iff}
use eris_db.Pipe.Values.{EventDataCall}
use eris_db.Pipe.Transactor.{TxInput, Chain, Receipt, transact, send}
use eris_db.Pipe.Transactor.Hold.{
  upper_hex, EventEmitter, first_match, held, hold, transact_and_hold, first_input, own_input,
  timed_out, send_arrived, hold_send, send_and_hold,
}

-- An event emitter with what can be seen of its subscriptions.
pub record IsEmitter {S : Type 0} (emitter : EventEmitter S) (listens : S → Bytes → Bool)
    : Type 0 where
  pub subscribe-listens :
      (id event_id : Bytes) (s : S) → listens (emitter.subscribe id event_id s) id ≡ true
  pub unsubscribe-listens : (id : Bytes) (s : S) → listens (emitter.unsubscribe id s) id ≡ false

-- No event of the list has the hash.
abbrev pub NoneOf : Bytes → List EventDataCall → Type 0
NoneOf tx_hash [] = Unit
NoneOf tx_hash (event ∷ events) = (event.tx_id ≢ tx_hash) × NoneOf tx_hash events

-- The event has the hash, and those that arrived before it do not.
pub record FirstOf (tx_hash : Bytes) (arrivals : List EventDataCall) (e : EventDataCall)
    : Type 0 where
  pub before : List EventDataCall
  pub after : List EventDataCall
  pub split : arrivals ≡ before ++ e ∷ after
  pub others : NoneOf tx_hash before
  pub own : e.tx_id ≡ tx_hash

abbrev pub Waited : Receipt → List EventDataCall → Result EventDataCall → Type 0
Waited rec arrivals (ok e) = FirstOf rec.tx_hash arrivals e × (e.exception ≡ [])
Waited rec arrivals (err x) =
    NoneOf rec.tx_hash arrivals
    ⊎ ((e : EventDataCall) × FirstOf rec.tx_hash arrivals e × (e.exception ≢ []))
Waited rec arrivals panic = ⊥

-- What `first_match` finds is the first event with the hash.
abbrev Found : Bytes → List EventDataCall → Option EventDataCall → Type 0
Found tx_hash arrivals none = NoneOf tx_hash arrivals
Found tx_hash arrivals (some e) = FirstOf tx_hash arrivals e

other_hash : (a b : Bytes) → bytes_eq a b ≡ false → a ≢ b
other_hash a b differ same =
    (let yes = ap (bytes_eq a) same in let self = bytes_eq_refl a in let bad : ⊥ = cc in bad)

later_Found :
    (tx_hash : Bytes) (event : EventDataCall) (events : List EventDataCall)
    (o : Option EventDataCall)
    → event.tx_id ≢ tx_hash
    → Found tx_hash events o
    → Found tx_hash (event ∷ events) o
later_Found tx_hash event events none differ h = (differ, h)
later_Found tx_hash event events (some e) differ h = record {
  before = event ∷ h.before;
  after = h.after;
  split = ap (event ∷◌) h.split;
  others = (differ, h.others);
  own = h.own;
}

first_match-Found :
    (tx_hash : Bytes) (events : List EventDataCall)
    → Found tx_hash events (first_match tx_hash events)
unfolding first_match
first_match-Found tx_hash [] = tt
first_match-Found tx_hash (event ∷ events) =
    if_rule (Found tx_hash (event ∷ events)) (bytes_eq event.tx_id tx_hash) _ _
      (λ same. record {
        before = [];
        after = events;
        split = refl;
        others = tt;
        own = eq_of_bytes_eq event.tx_id tx_hash same;
      })
      (λ differ.
        later_Found tx_hash event events (first_match tx_hash events)
          (other_hash event.tx_id tx_hash differ) (first_match-Found tx_hash events))

no_exception : (x : Bytes) → (length x == 0) ≡ true → x ≡ []
no_exception [] h = refl
no_exception (c ∷ x) h = ground (arith, h)

an_exception : (x : Bytes) → (length x == 0) ≡ false → x ≢ []
an_exception x h e = ground (arith, h, ap length e)

held-Waited :
    (rec : Receipt) (arrivals : List EventDataCall) (sub_id : Bytes) (o : Option EventDataCall)
    → Found rec.tx_hash arrivals o
    → Waited rec arrivals (held sub_id o)
unfolding held
held-Waited rec arrivals sub_id none h = inl h
held-Waited rec arrivals sub_id (some e) h =
    if_rule (Waited rec arrivals) (length e.exception == 0) _ _
      (λ b. (h, no_exception e.exception b)) (λ b. inr (e, h, an_exception e.exception b))

own_payment : (a b : Bytes) (m n : ℤ) → bytes_eq a b && eqb_ℤ m n ≡ true → (a ≡ b) × (m ≡ n)
own_payment a b m n h =
    (eq_of_bytes_eq a b (ground (arith, h)), (eqb_ℤ_iff m n).0 (ground (arith, h)))

other_payment : (a b : Bytes) (m n : ℤ) → bytes_eq a b && eqb_ℤ m n ≡ false → (a ≡ b) × (m ≡ n) → ⊥
other_payment a b m n h (e, f) =
    (let e2 = ap (bytes_eq a) e in
      let f2 = ap (eqb_ℤ m) f in
      let self = bytes_eq_refl a in
      let self2 = (eqb_ℤ_iff m m).1 refl in ground (arith, h, sym e2 ∙ self, sym f2 ∙ self2))

module _ {S : Type 0} (chain : Chain S) (emitter : EventEmitter S) (listens : S → Bytes → Bool)
    (law : IsEmitter emitter listens) where
  -- Once its transaction is broadcast, `TransactAndHold` returns the first event that has the hash
  -- of the transaction, if that event tells of no exception, and an error if it does or if no such
  -- event comes in time. In every case nothing listens under the id of the subscription afterwards.
  -- The event emitter is assumed to end a subscription that it is told to end.
  pub transact_and_hold-Waited :
      (priv_key address code : Bytes) (gas_limit fee : ℤ) (arrivals : List EventDataCall) (s s1 : S)
      (rec : Receipt)
      → transact chain priv_key address code gas_limit fee s ≡ (ok rec, s1)
      → let r = transact_and_hold chain emitter priv_key address code gas_limit fee arrivals s in
        Waited rec arrivals r.0 × (listens r.1 (upper_hex rec.tx_hash) ≡ false)
  unfolding transact_and_hold hold
  transact_and_hold-Waited priv_key address code gas_limit fee arrivals s s1 rec sent = rw sent (
    held-Waited rec arrivals (upper_hex rec.tx_hash) (first_match rec.tx_hash arrivals)
        (first_match-Found rec.tx_hash arrivals),
    law.unsubscribe-listens (upper_hex rec.tx_hash) _,
  )

  -- The first payment is the sender's own: its first input has the account's address and the amount.
  abbrev pub Own : Bytes → ℤ → List TxInput → Type 0
  Own priv_key amount [] = ⊥
  Own priv_key amount (input ∷ _) =
      (input.address ≡ (chain.gen_priv_account priv_key).address) × (input.amount ≡ amount)

  -- The end of the wait, by the first payment to the address, and whether the subscription is there.
  abbrev pub SendWaited :
      Bytes → ℤ → Receipt → List (List TxInput) → Result (Option Receipt) × S → Type 0
  SendWaited priv_key amount rec [] (r, s) =
      (r ≡ err (timed_out (upper_hex rec.tx_hash))) × (listens s (upper_hex rec.tx_hash) ≡ true)
  SendWaited priv_key amount rec ([] ∷ _) (r, s) =
      (r ≡ panic) × (listens s (upper_hex rec.tx_hash) ≡ true)
  SendWaited priv_key amount rec ((input ∷ inputs) ∷ _) (r, s) =
      (Own priv_key amount (input ∷ inputs)
        × (r ≡ ok (some rec))
        × (listens s (upper_hex rec.tx_hash) ≡ false))
      ⊎ ((Own priv_key amount (input ∷ inputs) → ⊥)
          × (r ≡ ok none)
          × (listens s (upper_hex rec.tx_hash) ≡ true))

  send_arrived-SendWaited :
      (priv_key : Bytes) (amount : ℤ) (rec : Receipt) (arrivals : List (List TxInput)) (s : S)
      → listens s (upper_hex rec.tx_hash) ≡ true
      → SendWaited priv_key amount rec arrivals
          (send_arrived chain emitter priv_key amount rec (upper_hex rec.tx_hash) s arrivals)
  unfolding send_arrived own_input first_input
  send_arrived-SendWaited priv_key amount rec [] s h = (refl, h)
  send_arrived-SendWaited priv_key amount rec ([] ∷ more) s h = (refl, h)
  send_arrived-SendWaited priv_key amount rec ((input ∷ inputs) ∷ more) s h =
      let pa = chain.gen_priv_account priv_key in
      if_rule (SendWaited priv_key amount rec ((input ∷ inputs) ∷ more))
        (bytes_eq input.address pa.address && eqb_ℤ input.amount amount) _ _
        (λ own. inl (
          own_payment input.address pa.address input.amount amount own,
          refl,
          law.unsubscribe-listens (upper_hex rec.tx_hash) s,
        ))
        (λ other. inr (other_payment input.address pa.address input.amount amount other, refl, h))

  -- Once its transaction is broadcast, `SendAndHold` waits for the first payment to the address. Where
  -- none comes in time, it fails and its subscription stays. Where the first input of the payment is
  -- the sender's, with the amount, it returns the receipt and ends its subscription. Where it is not,
  -- it returns neither a receipt nor an error, and where there is no input it panics; then the
  -- subscription stays. The event emitter is assumed to keep a subscription until it is told to end
  -- it, and to end one that it is told to end.
  pub send_and_hold-SendWaited :
      (priv_key to_address : Bytes) (amount : ℤ) (arrivals : List (List TxInput)) (s s1 : S)
      (rec : Receipt)
      → send chain priv_key to_address amount s ≡ (ok rec, s1)
      → SendWaited priv_key amount rec arrivals
          (send_and_hold chain emitter priv_key to_address amount arrivals s)
  unfolding send_and_hold hold_send
  send_and_hold-SendWaited priv_key to_address amount arrivals s s1 rec sent = rw sent (
      send_arrived-SendWaited priv_key amount rec arrivals _ (
        law.subscribe-listens (upper_hex rec.tx_hash) (emitter.event_string_acc_output to_address)
          s1))
