-- ===== src/Pipe/Transactor/Examples.antt =====
-- A mempool that is the list of what was broadcast, and accounts that are named by their keys.
use eris_db.Base.{Bytes, str, none, some, List, [], ◌∷◌, ◌++◌, ok, refl}
use eris_db.Base.Int.{pos}
use eris_db.Pipe.Transactor.{Tx, Chain, send}
use eris_db.Pipe.Transactor.Checks.{MakesKeys, FromKey, Sends, send-FromKey}

abbrev small_chain : Chain (List Tx)
small_chain = record {
  chain_id = str "c";
  gen_priv_account = λ key. record { address = key; pub_key = key; priv_key = some key };
  sign = λ pa chain_id tx. chain_id ++ pa.address;
  tx_id = λ chain_id tx. chain_id;
  new_contract_address = λ address sequence. address;
  name_input = λ key amount sequence. record {
    address = key;
    amount = amount;
    sequence = sequence;
    pub_key = key;
    signature = none;
  };
  get_account = λ s address. none;
  broadcast = λ tx s. (ok tt, tx ∷ s);
}

small_chain-MakesKeys : MakesKeys small_chain
small_chain-MakesKeys priv_key = (priv_key, refl)

abbrev some_key : Bytes
some_key = str "0123456789abcdef0123456789abcdef0123456789abcdef0123456789abcdef"

send-FromKey_example :
    Sends small_chain
      (FromKey small_chain [] some_key (pos 3) (λ input.
        Tx.send_tx
          (input ∷ [])
          (record { address = str "01234567890123456789"; amount = pos 3 } ∷ [])))
      some_key
      (str "01234567890123456789")
      []
      (send small_chain some_key (str "01234567890123456789") (pos 3) [])
send-FromKey_example =
    send-FromKey small_chain small_chain-MakesKeys some_key (str "01234567890123456789") (pos 3) []
