-- ===== src/ErisDb/SmallNode.antt =====
-- A node that the tests share: it answers nothing but its moniker and its height.
use eris_db.Base.{ℕ, str, true, [], Result, ok, err, Error}
use eris_db.Base.Int.{pos}
use eris_db.ErisDb.Params.{NodeTypes, ParamCodec}
use eris_db.ErisDb.Methods.{Pipe, Io}
use eris_db.ErisDb.JsonService.{JsonCodec, EventSubs}

abbrev pub small_types : NodeTypes
small_types = record {
  Block = ℕ;
  Tx = ℕ;
  CallTx = ℕ;
  PrivAccount = ℕ;
  Peer = ℕ;
  ConsensusState = ℕ;
  ValidatorList = ℕ;
  EventData = ℕ;
}

abbrev pub fails : {A : Type 0} → Result A
fails = err (Error.other_error [])

abbrev pub refuses : {S A : Type 0} → Io S A
refuses s = (err (Error.other_error []), s)

abbrev pub small_codec : ParamCodec small_types
small_codec = record {
  address_param = λ _. fails;
  accounts_param = λ _. fails;
  filter_list_param = λ _. fails;
  priv_key_param = λ _. fails;
  storage_at_param = λ _. fails;
  height_param = λ _. fails;
  blocks_param = λ _. fails;
  event_id_param = λ _. fails;
  sub_id_param = λ _. fails;
  peer_param = λ _. fails;
  call_param = λ _. fails;
  call_code_param = λ _. fails;
  tx = λ _. fails;
  sign_tx_param = λ _. fails;
  transact_param = λ _. fails;
  send_param = λ _. fails;
  name_reg_entry_param = λ _. fails;
  transact_name_reg_param = λ _. fails;
}

-- The node, with the height of its last block.
abbrev pub node_with_height : {S : Type 0} → (S → ℕ) → Pipe small_types S
node_with_height height = record {
  accounts = record {
    gen_priv_account = λ s. refuses s;
    gen_priv_account_from_key = λ _ s. refuses s;
    accounts = λ _ s. refuses s;
    account = λ _ s. refuses s;
    storage = λ _ s. refuses s;
    storage_at = λ _ _ s. refuses s;
  };
  blockchain = record {
    info = λ s. refuses s;
    genesis_hash = λ s. refuses s;
    chain_id = λ s. refuses s;
    latest_block_height = λ s. (ok (pos (height s)), s);
    latest_block = λ s. refuses s;
    blocks = λ _ s. refuses s;
    block = λ _ s. refuses s;
  };
  consensus = record { state = λ s. refuses s; validators = λ s. refuses s };
  name_reg = record { entry = λ _ s. refuses s; entries = λ _ s. refuses s };
  net = record {
    info = λ s. refuses s;
    client_version = λ s. refuses s;
    moniker = λ s. (ok (str "anon"), s);
    listening = λ s. refuses s;
    listeners = λ s. refuses s;
    peers = λ s. refuses s;
    peer = λ _ s. refuses s;
  };
  transactor = record {
    call = λ _ _ _ s. refuses s;
    call_code = λ _ _ _ s. refuses s;
    broadcast_tx = λ _ s. refuses s;
    send = λ _ _ _ s. refuses s;
    send_and_hold = λ _ _ _ s. refuses s;
    transact = λ _ _ _ _ _ s. refuses s;
    transact_and_hold = λ _ _ _ _ _ s. refuses s;
    transact_name_reg = λ _ _ _ _ _ s. refuses s;
    unconfirmed_txs = λ s. refuses s;
    sign_tx = λ _ _ s. refuses s;
  };
  subscribe = λ _ _ s. (ok true, s);
  unsubscribe = λ _ s. (ok true, s);
}

abbrev pub small_pipe : Pipe small_types ℕ
small_pipe = node_with_height (λ s. s)

-- The codec reads a method's name as a request for it with the id "7".
abbrev pub small_json : JsonCodec small_types
small_json = record {
  decode_request =
      λ body. ok (record { json_rpc = str "2.0"; method = body; params = []; id = str "7" });
  decode_event_id = λ _. fails;
  decode_sub_id = λ _. fails;
  encode = λ _. ok [];
}

abbrev pub small_subs : EventSubs small_types ℕ
small_subs = record { add = λ _ s. refuses s; poll = λ _ s. refuses s; remove = λ _ s. refuses s }
