-- ===== src/ErisDb/Rest/Handlers.antt =====
-- erisdb/restServer.go: one handler for each route. An error of the pipe or of the decoder aborts the
-- context, and the handler goes on.
use eris_db.Base.{none, some}
use eris_db.ErisDb.Params.{NodeTypes}
use eris_db.ErisDb.Methods.{Pipe, Reply}
use eris_db.ErisDb.JsonService.{EventSubs}
use eris_db.ErisDb.Rest.{
  RestCodec, RestHandler, fresh, respond, respond_true, must_get, decode_error, filters_of,
}

module _ {T : NodeTypes} {S : Type 0} (codec : RestCodec T) (pipe : Pipe T S)
    (event_subs : EventSubs T S) where
  unfoldable pub handle_gen_priv_acc : RestHandler T S
  handle_gen_priv_acc c body s = respond Reply.priv_account fresh (pipe.accounts.gen_priv_account s)

  unfoldable pub handle_accounts : RestHandler T S
  handle_accounts c body s =
      let filters = filters_of c.filters in
      respond Reply.account_list fresh (pipe.accounts.accounts filters s)

  unfoldable pub handle_account : RestHandler T S
  handle_account c body s =
      must_get c.addr_bts s λ addr. respond Reply.account fresh (pipe.accounts.account addr s)

  unfoldable pub handle_storage : RestHandler T S
  handle_storage c body s =
      must_get c.addr_bts s λ addr. respond Reply.storage fresh (pipe.accounts.storage addr s)

  unfoldable pub handle_storage_at : RestHandler T S
  handle_storage_at c body s = must_get c.addr_bts s λ addr.
      must_get c.key_bts s
        λ key. respond Reply.storage_item fresh (pipe.accounts.storage_at addr key s)

  unfoldable pub handle_blockchain_info : RestHandler T S
  handle_blockchain_info c body s = respond Reply.blockchain_info fresh (pipe.blockchain.info s)

  unfoldable pub handle_genesis_hash : RestHandler T S
  handle_genesis_hash c body s = respond Reply.genesis_hash fresh (pipe.blockchain.genesis_hash s)

  unfoldable pub handle_chain_id : RestHandler T S
  handle_chain_id c body s = respond Reply.chain_id fresh (pipe.blockchain.chain_id s)

  unfoldable pub handle_latest_block_height : RestHandler T S
  handle_latest_block_height c body s =
      respond Reply.latest_block_height fresh (pipe.blockchain.latest_block_height s)

  unfoldable pub handle_latest_block : RestHandler T S
  handle_latest_block c body s = respond Reply.block fresh (pipe.blockchain.latest_block s)

  unfoldable pub handle_blocks : RestHandler T S
  handle_blocks c body s =
      let filters = filters_of c.filters in
      respond Reply.blocks fresh (pipe.blockchain.blocks filters s)

  unfoldable pub handle_block : RestHandler T S
  handle_block c body s =
      must_get c.height s λ height. respond Reply.block fresh (pipe.blockchain.block height s)

  unfoldable pub handle_consensus_state : RestHandler T S
  handle_consensus_state c body s = respond Reply.consensus_state fresh (pipe.consensus.state s)

  unfoldable pub handle_validator_list : RestHandler T S
  handle_validator_list c body s = respond Reply.validator_list fresh (pipe.consensus.validators s)

  unfoldable pub handle_event_subscribe : RestHandler T S
  handle_event_subscribe c body s =
      let (param, e) = codec.event_id body in
      respond Reply.event_sub (decode_error e fresh) (event_subs.add param.event_id s)

  unfoldable pub handle_event_poll : RestHandler T S
  handle_event_poll c body s =
      must_get c.id s λ sub_id. respond Reply.poll_response fresh (event_subs.poll sub_id s)

  unfoldable pub handle_event_unsubscribe : RestHandler T S
  handle_event_unsubscribe c body s =
      must_get c.id s λ sub_id. respond_true Reply.event_unsub fresh (event_subs.remove sub_id s)

  unfoldable pub handle_name_reg_entries : RestHandler T S
  handle_name_reg_entries c body s =
      let filters = filters_of c.filters in
      respond Reply.name_reg_entries fresh (pipe.name_reg.entries filters s)

  unfoldable pub handle_name_reg_entry : RestHandler T S
  handle_name_reg_entry c body s =
      must_get c.name s λ name. respond Reply.name_reg_entry fresh (pipe.name_reg.entry name s)

  unfoldable pub handle_network_info : RestHandler T S
  handle_network_info c body s = respond Reply.network_info fresh (pipe.net.info s)

  unfoldable pub handle_client_version : RestHandler T S
  handle_client_version c body s = respond Reply.client_version fresh (pipe.net.client_version s)

  unfoldable pub handle_moniker : RestHandler T S
  handle_moniker c body s = respond Reply.moniker fresh (pipe.net.moniker s)

  unfoldable pub handle_listening : RestHandler T S
  handle_listening c body s = respond Reply.listening fresh (pipe.net.listening s)

  unfoldable pub handle_listeners : RestHandler T S
  handle_listeners c body s = respond Reply.listeners fresh (pipe.net.listeners s)

  unfoldable pub handle_peers : RestHandler T S
  handle_peers c body s = respond Reply.peers fresh (pipe.net.peers s)

  unfoldable pub handle_peer : RestHandler T S
  handle_peer c body s =
      must_get c.address s λ address. respond Reply.peer fresh (pipe.net.peer address s)

  unfoldable pub handle_broadcast_tx : RestHandler T S
  handle_broadcast_tx c body s =
      let (param, e) = codec.tx body in
      respond Reply.receipt (decode_error e fresh) (pipe.transactor.broadcast_tx param s)

  unfoldable pub handle_unconfirmed_txs : RestHandler T S
  handle_unconfirmed_txs c body s =
      respond Reply.unconfirmed_txs fresh (pipe.transactor.unconfirmed_txs s)

  unfoldable pub handle_call : RestHandler T S
  handle_call c body s =
      let (param, e) = codec.call body in
      respond Reply.call (decode_error e fresh)
        (pipe.transactor.call param.from param.address param.data_bytes s)

  unfoldable pub handle_call_code : RestHandler T S
  handle_call_code c body s =
      let (param, e) = codec.call_code body in
      respond Reply.call (decode_error e fresh)
        (pipe.transactor.call_code param.from param.code param.data_bytes s)

  unfoldable pub handle_transact : RestHandler T S
  -- `hold` is set only to true.
  handle_transact c body s =
      let (param, e) = codec.transact body in
      elim c.hold [
        | some hold ↦ respond Reply.event_data_call (decode_error e fresh) (
            pipe.transactor.transact_and_hold param.priv_key param.address param.data_bytes
              param.gas_limit param.fee s)
        | none ↦ respond Reply.receipt (decode_error e fresh) (
            pipe.transactor.transact param.priv_key param.address param.data_bytes param.gas_limit
              param.fee s)
      ]

  unfoldable pub handle_transact_name_reg : RestHandler T S
  handle_transact_name_reg c body s =
      let (param, e) = codec.transact_name_reg body in
      respond Reply.receipt (decode_error e fresh) (
        pipe.transactor.transact_name_reg param.priv_key param.name param.data_text param.amount
          param.fee s)

  unfoldable pub handle_sign_tx : RestHandler T S
  handle_sign_tx c body s =
      let (param, e) = codec.sign_tx body in
      respond Reply.tx (decode_error e fresh)
        (pipe.transactor.sign_tx param.tx param.priv_accounts s)
