-- ===== src/Pipe/Transactor/Checks.antt =====
-- What erisdb/pipe/transactor.go broadcasts, and when.
use eris_db.Base.{
  ℕ, ◌≡◌, ◌≢◌, refl, ◌∙◌, ap, ◌⊎◌, inl, inr, Bytes, true, false, not, ◌&&◌, ◌==◌, Option, none,
  some, List, [], ◌∷◌, Result, ok, err, Error, if◌then◌else◌, if_rule, length, arith, ◌>>=◌,
}
use eris_db.Base.Int.{ℤ, pos, wrap64, ◌+ℤ◌}
use eris_db.Pipe.Values.{Account}
use eris_db.Pipe.Node.{PrivAccount}
use eris_db.Pipe.Transactor.{
  TxInput, TxOutput, Tx, Chain, Receipt, next_sequence, with_key, check_accounts, keyed, signed,
  sign_inputs, sign_checked, sign_tx, broadcast_tx, broadcast_signed, bad_address, send,
}

abbrev unsigned_input : TxInput → TxInput
unsigned_input input = record input { signature = none }

abbrev unsigned_inputs : List TxInput → List TxInput
unsigned_inputs [] = []
unsigned_inputs (input ∷ inputs) = unsigned_input input ∷ unsigned_inputs inputs

-- The transaction without its signatures.
abbrev pub unsigned : Tx → Tx
unsigned (Tx.send_tx inputs outputs) = Tx.send_tx (unsigned_inputs inputs) outputs
unsigned (Tx.call_tx input address gas_limit fee code) =
    Tx.call_tx (unsigned_input input) address gas_limit fee code
unsigned (Tx.name_tx input name content fee) = Tx.name_tx (unsigned_input input) name content fee
unsigned (Tx.bond_tx pub_key signature inputs outputs) =
    Tx.bond_tx pub_key none (unsigned_inputs inputs) outputs
unsigned (Tx.unbond_tx address height signature) = Tx.unbond_tx address height none
unsigned (Tx.rebond_tx address height signature) = Tx.rebond_tx address height none
unsigned (Tx.other_tx bts) = Tx.other_tx bts

-- The sequence number that the node expects next: 1 for an account that it does not know, else one
-- more than that of the account, in 64 bits.
abbrev pub IsNext : Option Account → ℤ → Type 0
IsNext none n = n ≡ pos 1
IsNext (some acc) n = n ≡ wrap64 (acc.sequence +ℤ pos 1)

next_sequence-IsNext : (o : Option Account) → IsNext o (next_sequence o)
unfolding next_sequence
next_sequence-IsNext none = refl
next_sequence-IsNext (some acc) = refl

module _ {S : Type 0} (chain : Chain S) where
  -- A key of 64 bytes makes an account with a private key.
  abbrev pub MakesKeys : Type 0
  MakesKeys =
      (priv_key : Bytes) → (key : Bytes) × ((chain.gen_priv_account priv_key).priv_key ≡ some key)

  -- The transaction is `make` of one input, which is from the account of the key: it has the account's
  -- address and public key, the amount, the next sequence number of the account, and the signature of
  -- the account on what the transaction is without its signature.
  pub record FromKey (s : S) (priv_key : Bytes) (amount : ℤ) (make : TxInput → Tx) (tx : Tx)
      : Type 0 where
    pub input : TxInput
    pub is_input : tx ≡ make input
    pub owned : input.address ≡ (chain.gen_priv_account priv_key).address
    pub known_by : input.pub_key ≡ (chain.gen_priv_account priv_key).pub_key
    pub pays : input.amount ≡ amount
    pub sequenced :
        IsNext (chain.get_account s (chain.gen_priv_account priv_key).address) input.sequence
    pub signed_by :
        input.signature
        ≡ some (chain.sign (chain.gen_priv_account priv_key) chain.chain_id (unsigned tx))

  -- A call with a key and an address fails on a wrong length and leaves the state, or broadcasts a
  -- transaction for which `P` holds.
  abbrev pub Sends : (Tx → Type 0) → Bytes → Bytes → S → Result Receipt × S → Type 0
  Sends P priv_key address s r =
      ((length address ≢ 0)
        × (length address ≢ 20)
        × (r ≡ (err (Error.wrong_length (length address)), s)))
      ⊎ ((length priv_key ≢ 64) × (r ≡ (err (Error.wrong_length (length priv_key)), s)))
      ⊎ (((length address ≡ 0) ⊎ (length address ≡ 20))
          × (length priv_key ≡ 64)
          × (tx : Tx) × P tx
          × (r ≡ broadcast_tx chain tx s))

  checked_one :
      (pa : PrivAccount) (key : Bytes)
      → pa.priv_key ≡ some key
      → check_accounts 0 (some pa ∷ []) ≡ ok (pa ∷ [])
  unfolding check_accounts with_key
  checked_one pa key e = ap (with_key 0 pa (ok [])) e

  sign_one :
      (tx tx2 : Tx) (pa : PrivAccount) (key : Bytes)
      → pa.priv_key ≡ some key
      → sign_checked chain tx (pa ∷ []) ≡ ok tx2
      → sign_tx chain tx (some pa ∷ []) ≡ ok tx2
  unfolding sign_tx
  sign_one tx tx2 pa key has_key e =
      ap (◌>>= sign_checked chain tx) (checked_one pa key has_key) ∙ e

  broadcast_one :
      (tx tx2 : Tx) (pa : PrivAccount) (key : Bytes) (s : S)
      → pa.priv_key ≡ some key
      → sign_checked chain tx (pa ∷ []) ≡ ok tx2
      → broadcast_signed chain (sign_tx chain tx (some pa ∷ [])) s ≡ broadcast_tx chain tx2 s
  unfolding broadcast_signed
  broadcast_one tx tx2 pa key s has_key e =
      ap (λ r. broadcast_signed chain r s) (sign_one tx tx2 pa key has_key e)

too_long : (n : ℕ) → not (n == 0) && not (n == 20) ≡ true → (n ≢ 0) × (n ≢ 20)
too_long n h = (λ e. ground (arith, h, e), λ e. ground (arith, h, e))

fits : (n : ℕ) → not (n == 0) && not (n == 20) ≡ false → (n ≡ 0) ⊎ (n ≡ 20)
fits n h = ground (arith, h)

wrong_key : (n : ℕ) → not (n == 64) ≡ true → n ≢ 64
wrong_key n h = λ e. ground (arith, h, e)

right_key : (n : ℕ) → not (n == 64) ≡ false → n ≡ 64
right_key n h = ground (arith, h)

module _ {S : Type 0} (chain : Chain S) (P : Tx → Type 0) (priv_key address : Bytes) (s : S) where
  -- The three ends of the checks of lengths.
  checked_lengths :
      (r : Result Receipt × S) (tx : Tx)
      → P tx
      → r ≡ broadcast_tx chain tx s
      → Sends chain P priv_key address s (
          if bad_address chain address
          then (err (Error.wrong_length (length address)), s)
          else if not (length priv_key == 64)
          then (err (Error.wrong_length (length priv_key)), s)
          else r)
  checked_lengths r tx p e =
      if_rule (Sends chain P priv_key address s) (bad_address chain address) _ _
        (λ bad. inl ((too_long (length address) bad).0, (too_long (length address) bad).1, refl))
        (λ good.
          if_rule (Sends chain P priv_key address s) (not (length priv_key == 64)) _ _
            (λ bad_key. inr (inl (wrong_key (length priv_key) bad_key, refl)))
            (λ good_key.
              inr
                (inr (fits (length address) good, right_key (length priv_key) good_key, tx, p, e))))

module _ {S : Type 0} (chain : Chain S) (makes : MakesKeys chain) where
  -- `Send`, in the same way: it fails on a wrong length of the address or the key and broadcasts
  -- nothing, else it broadcasts a payment of the amount to the address, from the account of the key,
  -- with that amount, its public key, the next sequence number, which is 1 for an unknown account and
  -- else one more than the account's, and signed by it on what it is without its signature. A key is assumed to make an account with a private key.
  pub send-FromKey :
      (priv_key to_address : Bytes) (amount : ℤ) (s : S)
      → Sends chain
          (FromKey chain s priv_key amount (λ input.
            Tx.send_tx (input ∷ []) (record { address = to_address; amount = amount } ∷ [])))
          priv_key
          to_address
          s
          (send chain priv_key to_address amount s)
  unfolding send sign_checked sign_inputs signed keyed
  send-FromKey priv_key to_address amount s =
      let pa = chain.gen_priv_account priv_key in
      let (key, has_key) = makes priv_key in
      let input : TxInput = record {
        address = pa.address;
        amount = amount;
        sequence = next_sequence (chain.get_account s pa.address);
        pub_key = pa.pub_key;
        signature = none;
      } in
      let outputs : List TxOutput = record { address = to_address; amount = amount } ∷ [] in
      let tx = Tx.send_tx (input ∷ []) outputs in
      let sent = signed chain input pa tx in
      let tx2 = Tx.send_tx (sent ∷ []) outputs in
      checked_lengths chain _ priv_key to_address s _ tx2
        (record {
          input = sent;
          is_input = refl;
          owned = refl;
          known_by = refl;
          pays = refl;
          sequenced = next_sequence-IsNext (chain.get_account s pa.address);
          signed_by = refl;
        })
        (broadcast_one chain tx tx2 pa key s has_key refl)
