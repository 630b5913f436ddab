-- ===== src/ErisDb/Methods/Handlers.antt =====
-- erisdb/methods.go: one handler for each method, and the map from their names.
pub mod Codes
use eris_db.Base.{Bytes, bytes_eq, str, Option, none, some, List, [], ◌∷◌, ◌++◌, if◌then◌else◌}
use eris_db.ErisDb.Rpc.{RpcRequest, Outcome}
use eris_db.ErisDb.Params.{NodeTypes, ParamCodec}
use eris_db.ErisDb.Methods.{Pipe, Reply, Handler, finish, with_params}

module _ {T : NodeTypes} {S : Type 0} (codec : ParamCodec T) (pipe : Pipe T S) where
  handle_gen_priv_account : Handler T S
  handle_gen_priv_account request s = finish Reply.priv_account (pipe.accounts.gen_priv_account s)

  handle_gen_priv_account_from_key : Handler T S
  handle_gen_priv_account_from_key request =
      with_params (codec.priv_key_param request.params) λ param s.
        finish Reply.priv_account (pipe.accounts.gen_priv_account_from_key param.priv_key s)

  handle_account : Handler T S
  handle_account request =
      with_params (codec.address_param request.params)
        λ param s. finish Reply.account (pipe.accounts.account param.address s)

  handle_accounts : Handler T S
  handle_accounts request =
      with_params (codec.accounts_param request.params)
        λ param s. finish Reply.account_list (pipe.accounts.accounts param.filters s)

  handle_account_storage : Handler T S
  handle_account_storage request =
      with_params (codec.address_param request.params)
        λ param s. finish Reply.storage (pipe.accounts.storage param.address s)

  handle_account_storage_at : Handler T S
  handle_account_storage_at request =
      with_params (codec.storage_at_param request.params)
        λ param s. finish Reply.storage_item (pipe.accounts.storage_at param.address param.key s)

  handle_blockchain_info : Handler T S
  handle_blockchain_info request s = finish Reply.blockchain_info (pipe.blockchain.info s)

  handle_chain_id : Handler T S
  handle_chain_id request s = finish Reply.chain_id (pipe.blockchain.chain_id s)

  handle_genesis_hash : Handler T S
  handle_genesis_hash request s = finish Reply.genesis_hash (pipe.blockchain.genesis_hash s)

  handle_latest_block_height : Handler T S
  handle_latest_block_height request s =
      finish Reply.latest_block_height (pipe.blockchain.latest_block_height s)

  handle_latest_block : Handler T S
  handle_latest_block request s = finish Reply.block (pipe.blockchain.latest_block s)

  handle_blocks : Handler T S
  handle_blocks request =
      with_params (codec.blocks_param request.params)
        λ param s. finish Reply.blocks (pipe.blockchain.blocks param.filters s)

  handle_block : Handler T S
  handle_block request =
      with_params (codec.height_param request.params)
        λ param s. finish Reply.block (pipe.blockchain.block param.height s)

  handle_consensus_state : Handler T S
  handle_consensus_state request s = finish Reply.consensus_state (pipe.consensus.state s)

  handle_validators : Handler T S
  handle_validators request s = finish Reply.validator_list (pipe.consensus.validators s)

  handle_network_info : Handler T S
  handle_network_info request s = finish Reply.network_info (pipe.net.info s)

  handle_client_version : Handler T S
  handle_client_version request s = finish Reply.client_version (pipe.net.client_version s)

  handle_moniker : Handler T S
  handle_moniker request s = finish Reply.moniker (pipe.net.moniker s)

  handle_listening : Handler T S
  handle_listening request s = finish Reply.listening (pipe.net.listening s)

  handle_listeners : Handler T S
  handle_listeners request s = finish Reply.listeners (pipe.net.listeners s)

  handle_peers : Handler T S
  handle_peers request s = finish Reply.peers (pipe.net.peers s)

  handle_peer : Handler T S
  handle_peer request =
      with_params (codec.peer_param request.params)
        λ param s. finish Reply.peer (pipe.net.peer param.address s)

  handle_call : Handler T S
  handle_call request = with_params (codec.call_param request.params) λ param s.
      finish Reply.call (pipe.transactor.call param.from param.address param.data_bytes s)

  handle_call_code : Handler T S
  handle_call_code request = with_params (codec.call_code_param request.params) λ param s.
      finish Reply.call (pipe.transactor.call_code param.from param.code param.data_bytes s)

  handle_broadcast_tx : Handler T S
  handle_broadcast_tx request =
      with_params (codec.tx request.params)
        λ param s. finish Reply.receipt (pipe.transactor.broadcast_tx param s)

  handle_transact : Handler T S
  handle_transact request = with_params (codec.transact_param request.params) λ param s.
      finish Reply.receipt (
        pipe.transactor.transact param.priv_key param.address param.data_bytes param.gas_limit
          param.fee s)

  handle_transact_and_hold : Handler T S
  handle_transact_and_hold request = with_params (codec.transact_param request.params) λ param s.
      finish Reply.event_data_call (
        pipe.transactor.transact_and_hold param.priv_key param.address param.data_bytes
          param.gas_limit param.fee s)

  handle_send : Handler T S
  handle_send request = with_params (codec.send_param request.params) λ param s.
      finish Reply.receipt (pipe.transactor.send param.priv_key param.to_address param.amount s)

  handle_send_and_hold : Handler T S
  handle_send_and_hold request = with_params (codec.send_param request.params) λ param s.
      finish Reply.held_receipt
        (pipe.transactor.send_and_hold param.priv_key param.to_address param.amount s)

  handle_transact_name_reg : Handler T S
  handle_transact_name_reg request =
      with_params (codec.transact_name_reg_param request.params) λ param s. finish Reply.receipt (
        pipe.transactor.transact_name_reg param.priv_key param.name param.data_text param.amount
          param.fee s)

  handle_unconfirmed_txs : Handler T S
  handle_unconfirmed_txs request s =
      finish Reply.unconfirmed_txs (pipe.transactor.unconfirmed_txs s)

  handle_sign_tx : Handler T S
  handle_sign_tx request =
      with_params (codec.sign_tx_param request.params)
        λ param s. finish Reply.tx (pipe.transactor.sign_tx param.tx param.priv_accounts s)

  handle_name_reg_entry : Handler T S
  handle_name_reg_entry request =
      with_params (codec.name_reg_entry_param request.params)
        λ param s. finish Reply.name_reg_entry (pipe.name_reg.entry param.name s)

  handle_name_reg_entries : Handler T S
  handle_name_reg_entries request =
      with_params (codec.filter_list_param request.params)
        λ param s. finish Reply.name_reg_entries (pipe.name_reg.entries param.filters s)

  -- The map that `getMethods` makes; its keys are all different.
  pub get_methods : List (Bytes × Handler T S)
  get_methods =
      (str "erisdb.getAccounts", handle_accounts)
      ∷ (str "erisdb.getAccount", handle_account)
      ∷ (str "erisdb.getStorage", handle_account_storage)
      ∷ (str "erisdb.getStorageAt", handle_account_storage_at)
      ∷ (str "erisdb.genPrivAccount", handle_gen_priv_account)
      ∷ (str "erisdb.genPrivAccountFromKey", handle_gen_priv_account_from_key)
      ∷ (str "erisdb.getBlockchainInfo", handle_blockchain_info)
      ∷ (str "erisdb.getGenesisHash", handle_genesis_hash)
      ∷ (str "erisdb.getLatestBlockHeight", handle_latest_block_height)
      ∷ (str "erisdb.getLatestBlock", handle_latest_block)
      ∷ (str "erisdb.getBlocks", handle_blocks)
      ∷ (str "erisdb.getBlock", handle_block)
      ∷ (str "erisdb.getConsensusState", handle_consensus_state)
      ∷ (str "erisdb.getValidators", handle_validators)
      ∷ (str "erisdb.getNetworkInfo", handle_network_info)
      ∷ (str "erisdb.getClientVersion", handle_client_version)
      ∷ (str "erisdb.getMoniker", handle_moniker)
      ∷ (str "erisdb.getChainId", handle_chain_id)
      ∷ (str "erisdb.isListening", handle_listening)
      ∷ (str "erisdb.getListeners", handle_listeners)
      ∷ (str "erisdb.getPeers", handle_peers)
      ∷ (str "erisdb.getPeer", handle_peer)
      ∷ (str "erisdb.call", handle_call)
      ∷ (str "erisdb.callCode", handle_call_code)
      ∷ (str "erisdb.broadcastTx", handle_broadcast_tx)
      ∷ (str "erisdb.getUnconfirmedTxs", handle_unconfirmed_txs)
      ∷ (str "erisdb.signTx", handle_sign_tx)
      ∷ (str "erisdb.transact", handle_transact)
      ∷ (str "erisdb.transactAndHold", handle_transact_and_hold)
      ∷ (str "erisdb.send", handle_send)
      ∷ (str "erisdb.sendAndHold", handle_send_and_hold)
      ∷ (str "erisdb.transactNameReg", handle_transact_name_reg)
      ∷ (str "erisdb.getNameRegEntry", handle_name_reg_entry)
      ∷ (str "erisdb.getNameRegEntries", handle_name_reg_entries)
      ∷ []
