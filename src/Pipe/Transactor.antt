-- ===== src/Pipe/Transactor.antt =====
-- erisdb/pipe/transactor.go: transactions that the server builds, signs and broadcasts.
mod Examples
pub mod Checks
pub mod Hold
pub mod Calls
use eris_db.Base.{
  ℕ, suc, ◌+◌, Bytes, str, Bool, not, ◌&&◌, Option, none, some, List, [], ◌∷◌, ◌++◌, Result, ok,
  err, panic, Error, ◌==◌, if◌then◌else◌, length, ◌>>=◌, ◌>>◌, wrap_err,
}
use eris_db.Base.Int.{ℤ, pos, ◌+ℤ◌, wrap64}
use eris_db.Pipe.Values.{Account}
use eris_db.Pipe.Node.{PrivAccount}

-- The transactions of tendermint, with the fields that the transactor reads or writes. A signature
-- that is not made yet is none.
pub record TxInput : Type 0 where
  pub address : Bytes
  pub amount : ℤ
  pub sequence : ℤ
  pub pub_key : Bytes
  pub signature : Option Bytes

pub record TxOutput : Type 0 where
  pub address : Bytes
  pub amount : ℤ

-- A transaction of a bond has a signature of its own; `other_tx` is one that the signer does not know.
pub data Tx : Type 0 where
  send_tx : List TxInput → List TxOutput → Tx
  call_tx : TxInput → Bytes → ℤ → ℤ → Bytes → Tx
  name_tx : TxInput → Bytes → Bytes → ℤ → Tx
  bond_tx : Bytes → Option Bytes → List TxInput → List TxOutput → Tx
  unbond_tx rebond_tx : Bytes → ℤ → Option Bytes → Tx
  other_tx : Bytes → Tx

-- What the code calls of tendermint: keys, signatures, ids, and the mempool behind the state `S`.
pub record Chain (S : Type 0) : Type 0 where
  pub chain_id : Bytes
  pub gen_priv_account : Bytes → PrivAccount
  pub sign : PrivAccount → Bytes → Tx → Bytes
  pub tx_id : Bytes → Tx → Bytes
  pub new_contract_address : Bytes → ℤ → Bytes
  pub name_input : Bytes → ℤ → ℤ → TxInput
  pub get_account : S → Bytes → Option Account
  pub broadcast : Tx → S → Result (Unit {0}) × S

pub record Receipt : Type 0 where
  pub tx_hash : Bytes
  pub creates_contract : ℕ
  pub contract_addr : Bytes

-- `if acc == nil { sequence = 1 } else { sequence = acc.Sequence + 1 }`
unfoldable pub next_sequence : Option Account → ℤ
next_sequence none = pos 1
next_sequence (some acc) = wrap64 (acc.sequence +ℤ pos 1)

-- One account of the list, by its key; `rest` is the loop on those after it.
with_key : ℕ → PrivAccount → Result (List PrivAccount) → Option Bytes → Result (List PrivAccount)
with_key i pa rest none = err (Error.empty_account i)
with_key i pa rest (some key) = rest >>= λ pas. ok (pa ∷ pas)

-- The loop at the head of `SignTx`, from the index `i`.
unfoldable pub check_accounts : ℕ → List (Option PrivAccount) → Result (List PrivAccount)
unfolding with_key
check_accounts i [] = ok []
check_accounts i (none ∷ pas) = err (Error.empty_account i)
check_accounts i (some pa ∷ pas) = with_key i pa (check_accounts (suc i) pas) pa.priv_key

module _ {S : Type 0} (chain : Chain S) where
  keyed : TxInput → PrivAccount → TxInput
  keyed input pa = record input { pub_key = pa.pub_key }

  signed : TxInput → PrivAccount → Tx → TxInput
  signed input pa tx = record input { signature = some (chain.sign pa chain.chain_id tx) }

  -- The loop over the inputs; each signature is that of the transaction as it is then.
  unfoldable pub sign_inputs :
      List TxOutput → List TxInput → List TxInput → List PrivAccount → Result Tx
  unfolding keyed signed
  sign_inputs outputs before [] pas = ok (Tx.send_tx before outputs)
  sign_inputs outputs before (input ∷ inputs) [] = panic
  sign_inputs outputs before (input ∷ inputs) (pa ∷ pas) =
      let tx = Tx.send_tx (before ++ keyed input pa ∷ inputs) outputs in
      sign_inputs outputs (before ++ signed (keyed input pa) pa tx ∷ []) inputs pas

  -- The loop over the inputs of a bond, whose own signature is made.
  sign_bond_inputs :
      (List TxInput → Tx) → List TxInput → List TxInput → List PrivAccount → Result Tx
  sign_bond_inputs bond before [] pas = ok (bond before)
  sign_bond_inputs bond before (input ∷ inputs) [] = panic
  sign_bond_inputs bond before (input ∷ inputs) (pa ∷ pas) =
      let tx = bond (before ++ keyed input pa ∷ inputs) in
      sign_bond_inputs bond (before ++ signed (keyed input pa) pa tx ∷ []) inputs pas

  -- The first account signs the bond; the others are those of the inputs.
  sign_bond : Bytes → Option Bytes → List TxInput → List TxOutput → List PrivAccount → Result Tx
  sign_bond pub_key signature inputs unbond_to [] = panic
  sign_bond pub_key signature inputs unbond_to (pa ∷ pas) =
      let own = chain.sign pa chain.chain_id (Tx.bond_tx pub_key signature inputs unbond_to) in
      sign_bond_inputs (λ ins. Tx.bond_tx pub_key (some own) ins unbond_to) [] inputs pas

  -- One signature, by the first account.
  sign_own : (Option Bytes → Tx) → Option Bytes → List PrivAccount → Result Tx
  sign_own make signature [] = panic
  sign_own make signature (pa ∷ pas) =
      ok (make (some (chain.sign pa chain.chain_id (make signature))))

  -- The `switch` of `SignTx`; an index that is out of range panics.
  unfoldable pub sign_checked : Tx → List PrivAccount → Result Tx
  unfolding keyed signed sign_bond_inputs sign_bond sign_own
  sign_checked (Tx.send_tx inputs outputs) pas = sign_inputs outputs [] inputs pas
  sign_checked (Tx.call_tx input address gas_limit fee code) [] = panic
  sign_checked (Tx.call_tx input address gas_limit fee code) (pa ∷ pas) =
      let tx = Tx.call_tx (keyed input pa) address gas_limit fee code in
      ok (Tx.call_tx (signed (keyed input pa) pa tx) address gas_limit fee code)
  sign_checked (Tx.name_tx input name content fee) [] = panic
  sign_checked (Tx.name_tx input name content fee) (pa ∷ pas) =
      let tx = Tx.name_tx (keyed input pa) name content fee in
      ok (Tx.name_tx (signed (keyed input pa) pa tx) name content fee)
  sign_checked (Tx.bond_tx pub_key signature inputs unbond_to) pas =
      sign_bond pub_key signature inputs unbond_to pas
  sign_checked (Tx.unbond_tx address height signature) pas =
      sign_own (Tx.unbond_tx address height) signature pas
  sign_checked (Tx.rebond_tx address height signature) pas =
      sign_own (Tx.rebond_tx address height) signature pas
  sign_checked (Tx.other_tx bts) pas =
      err (Error.other_error (str "Object is not a proper transaction"))

  unfoldable pub sign_tx : Tx → List (Option PrivAccount) → Result Tx
  sign_tx tx pas = check_accounts 0 pas >>= sign_checked tx

  -- The receipt of a transaction that was broadcast.
  unfoldable pub receipt_of : Tx → Receipt
  receipt_of (Tx.call_tx input [] gas_limit fee code) = record {
    tx_hash = chain.tx_id chain.chain_id (Tx.call_tx input [] gas_limit fee code);
    creates_contract = 1;
    contract_addr = chain.new_contract_address input.address input.sequence;
  }
  receipt_of tx = record {
    tx_hash = chain.tx_id chain.chain_id tx;
    creates_contract = 0;
    contract_addr = [];
  }

  broadcasted : Tx → Result (Unit {0}) × S → Result Receipt × S
  broadcasted tx (ok _, s) = (ok (receipt_of tx), s)
  broadcasted tx (err e, s) = (err (Error.in_broadcast e), s)
  broadcasted tx (panic, s) = (panic, s)

  unfoldable pub broadcast_tx : Tx → S → Result Receipt × S
  unfolding broadcasted
  broadcast_tx tx s = broadcasted tx (chain.broadcast tx s)

  unfoldable pub broadcast_signed : Result Tx → S → Result Receipt × S
  broadcast_signed (ok tx) s = broadcast_tx tx s
  broadcast_signed (err e) s = (err e, s)
  broadcast_signed panic s = (panic, s)

  -- The checks of lengths; an empty address is nil.
  abbrev pub bad_address : Bytes → Bool
  bad_address address = not (length address == 0) && not (length address == 20)

  unfoldable pub transact : Bytes → Bytes → Bytes → ℤ → ℤ → S → Result Receipt × S
  transact priv_key address code gas_limit fee s =
      if bad_address address
      then (err (Error.wrong_length (length address)), s)
      else if not (length priv_key == 64)
      then (err (Error.wrong_length (length priv_key)), s)
      else (let pa = chain.gen_priv_account priv_key in
          let input : TxInput = record {
            address = pa.address;
            amount = pos 1;
            sequence = next_sequence (chain.get_account s pa.address);
            pub_key = pa.pub_key;
            signature = none;
          } in
          broadcast_signed (sign_tx (Tx.call_tx input address gas_limit fee code) (some pa ∷ [])) s)

  unfoldable pub send : Bytes → Bytes → ℤ → S → Result Receipt × S
  send priv_key to_address amount s =
      if bad_address to_address
      then (err (Error.wrong_length (length to_address)), s)
      else if not (length priv_key == 64)
      then (err (Error.wrong_length (length priv_key)), s)
      else (let pa = chain.gen_priv_account priv_key in
          let input : TxInput = record {
            address = pa.address;
            amount = amount;
            sequence = next_sequence (chain.get_account s pa.address);
            pub_key = pa.pub_key;
            signature = none;
          } in
          let output : TxOutput = record { address = to_address; amount = amount } in
          broadcast_signed (sign_tx (Tx.send_tx (input ∷ []) (output ∷ [])) (some pa ∷ [])) s)

  unfoldable pub transact_name_reg : Bytes → Bytes → Bytes → ℤ → ℤ → S → Result Receipt × S
  transact_name_reg priv_key name content amount fee s =
      if not (length priv_key == 64)
      then (err (Error.wrong_length (length priv_key)), s)
      else (let pa = chain.gen_priv_account priv_key in
          let sequence = next_sequence (chain.get_account s pa.address) in
          let input = chain.name_input pa.pub_key amount sequence in
          broadcast_signed (sign_tx (Tx.name_tx input name content fee) (some pa ∷ [])) s)
