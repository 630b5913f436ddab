-- ===== src/ErisDb/Methods/Handlers/Codes.antt =====
-- The codes that the handlers return.
use eris_db.Base.{none, str, Bytes, ◌≡◌, refl, ◌⊎◌, inl, inr, Result, ok, err, panic, All}
use eris_db.ErisDb.Rpc.{RpcRequest, Outcome, invalid_params, internal_error}
use eris_db.ErisDb.Params.{NodeTypes, ParamCodec}
use eris_db.ErisDb.Methods.{Pipe, Reply, Handler, finish, with_params}
use eris_db.ErisDb.Methods.Handlers.{
  get_methods, handle_gen_priv_account, handle_gen_priv_account_from_key, handle_account,
  handle_accounts, handle_account_storage, handle_account_storage_at, handle_blockchain_info,
  handle_chain_id, handle_genesis_hash, handle_latest_block_height, handle_latest_block,
  handle_blocks, handle_block, handle_consensus_state, handle_validators, handle_network_info,
  handle_client_version, handle_moniker, handle_listening, handle_listeners, handle_peers,
  handle_peer, handle_call, handle_call_code, handle_broadcast_tx, handle_transact,
  handle_transact_and_hold, handle_send, handle_send_and_hold, handle_transact_name_reg,
  handle_unconfirmed_txs, handle_sign_tx, handle_name_reg_entry, handle_name_reg_entries,
}

-- The reply is a nil pointer to a receipt, which JSON writes as null.
abbrev pub IsNilReceipt : {T : NodeTypes} → Reply T → Type 0
IsNilReceipt (Reply.held_receipt none) = Unit
IsNilReceipt _ = ⊥

-- The reply of a method is no nil receipt, unless it is that of `SendAndHold`. What the node returns,
-- such as a block, is opaque, and may be a nil pointer too.
abbrev pub NilReceiptOnly : {T : NodeTypes} → Bytes → Reply T → Type 0
NilReceiptOnly name reply = IsNilReceipt reply → name ≡ str "erisdb.sendAndHold"

module _ {T : NodeTypes} {S : Type 0} where
  -- A failure is the pipe's, or that of parameters that do not decode: then the pipe was not called.
  abbrev pub Coded : Bytes → S → Outcome (Reply T) × S → Type 0
  Coded name s (Outcome.success r, s2) = NilReceiptOnly name r
  Coded name s (Outcome.failure code e, s2) =
      ((code ≡ invalid_params) × (s2 ≡ s)) ⊎ (code ≡ internal_error)
  Coded name s (Outcome.crash, s2) = Unit

  abbrev pub IsCoded : Bytes × Handler T S → Type 0
  IsCoded (name, handler) = (request : RpcRequest) (s : S) → Coded name s (handler request s)

  pub finish-Coded :
      {A : Type 0} {name : Bytes} (s : S) (reply : A → Reply T) (r : Result A × S)
      → ((a : A) → NilReceiptOnly name (reply a))
      → Coded name s (finish reply r)
  unfolding finish
  finish-Coded s reply (ok a, s2) h = h a
  finish-Coded s reply (err e, s2) h = inr refl
  finish-Coded s reply (panic, s2) h = tt

  pub with_params-Coded :
      {P A : Type 0} {name : Bytes} (r : Result P) (reply : A → Reply T)
      (call : P → S → Result A × S) (s : S)
      → ((a : A) → NilReceiptOnly name (reply a))
      → Coded name s (with_params r (λ param s1. finish reply (call param s1)) s)
  unfolding with_params
  with_params-Coded (ok param) reply call s h = finish-Coded s reply (call param s) h
  with_params-Coded (err e) reply call s h = inl (refl, refl)
  with_params-Coded panic reply call s h = tt

module _ {T : NodeTypes} {S : Type 0} (codec : ParamCodec T) (pipe : Pipe T S) where
  -- Each of the methods, on any request and state, succeeds, with a nil receipt only if it is
  -- `SendAndHold`, or fails with "invalid params" and leaves the state as it was, or fails with
  -- "internal error", or panics.
  pub get_methods-IsCoded : All IsCoded (get_methods codec pipe)
  unfolding get_methods handle_gen_priv_account handle_gen_priv_account_from_key handle_account
      handle_accounts handle_account_storage handle_account_storage_at handle_blockchain_info
      handle_chain_id handle_genesis_hash handle_latest_block_height handle_latest_block
      handle_blocks handle_block handle_consensus_state handle_validators handle_network_info
      handle_client_version handle_moniker handle_listening handle_listeners handle_peers
      handle_peer handle_call handle_call_code handle_broadcast_tx handle_transact
      handle_transact_and_hold handle_send handle_send_and_hold handle_transact_name_reg
      handle_unconfirmed_txs handle_sign_tx handle_name_reg_entry handle_name_reg_entries
  get_methods-IsCoded = (
    (λ request s. with_params-Coded _ _ _ s (λ _ no. absurd no)),
    (
      (λ request s. with_params-Coded _ _ _ s (λ _ no. absurd no)),
      (
        (λ request s. with_params-Coded _ _ _ s (λ _ no. absurd no)),
        (
          (λ request s. with_params-Coded _ _ _ s (λ _ no. absurd no)),
          (
            (λ request s. finish-Coded s _ _ (λ _ no. absurd no)),
            (
              (λ request s. with_params-Coded _ _ _ s (λ _ no. absurd no)),
              (
                (λ request s. finish-Coded s _ _ (λ _ no. absurd no)),
                (
                  (λ request s. finish-Coded s _ _ (λ _ no. absurd no)),
                  (
                    (λ request s. finish-Coded s _ _ (λ _ no. absurd no)),
                    (
                      (λ request s. finish-Coded s _ _ (λ _ no. absurd no)),
                      (
                        (λ request s. with_params-Coded _ _ _ s (λ _ no. absurd no)),
                        (
                          (λ request s. with_params-Coded _ _ _ s (λ _ no. absurd no)),
                          (
                            (λ request s. finish-Coded s _ _ (λ _ no. absurd no)),
                            (
                              (λ request s. finish-Coded s _ _ (λ _ no. absurd no)),
                              (
                                (λ request s. finish-Coded s _ _ (λ _ no. absurd no)),
                                (
                                  (λ request s. finish-Coded s _ _ (λ _ no. absurd no)),
                                  (
                                    (λ request s. finish-Coded s _ _ (λ _ no. absurd no)),
                                    (
                                      (λ request s. finish-Coded s _ _ (λ _ no. absurd no)),
                                      (
                                        (λ request s. finish-Coded s _ _ (λ _ no. absurd no)),
                                        (
                                          (λ request s. finish-Coded s _ _ (λ _ no. absurd no)),
                                          (
                                            (λ request s. finish-Coded s _ _ (λ _ no. absurd no)),
                                            (
                                              (λ request s.
                                                  with_params-Coded _ _ _ s (λ _ no. absurd no)),
                                              (
                                                (λ request s.
                                                    with_params-Coded _ _ _ s (λ _ no. absurd no)),
                                                (
                                                  (λ request s.
                                                      with_params-Coded _ _ _ s
                                                        (λ _ no. absurd no)),
                                                  (
                                                    (λ request s.
                                                        with_params-Coded _ _ _ s
                                                          (λ _ no. absurd no)),
                                                    (
                                                      (λ request s.
                                                          finish-Coded s _ _ (λ _ no. absurd no)),
                                                      (
                                                        (λ request s.
                                                            with_params-Coded _ _ _ s
                                                            (λ _ no. absurd no)),
                                                        (
                                                          (λ request s.
                                                            with_params-Coded _ _ _ s
                                                            (λ _ no. absurd no)),
                                                          (
                                                            (λ request s.
                                                            with_params-Coded _ _ _ s
                                                            (λ _ no. absurd no)),
                                                            (
                                                            (λ request s.
                                                            with_params-Coded _ _ _ s
                                                            (λ _ no. absurd no)),
                                                            (
                                                            (λ request s.
                                                            with_params-Coded _ _ _ s
                                                            (λ _ _. refl)),
                                                            (
                                                            (λ request s.
                                                            with_params-Coded _ _ _ s
                                                            (λ _ no. absurd no)),
                                                            (
                                                            (λ request s.
                                                            with_params-Coded _ _ _ s
                                                            (λ _ no. absurd no)),
                                                            (
                                                            (λ request s.
                                                            with_params-Coded _ _ _ s
                                                            (λ _ no. absurd no)),
                                                            tt,
                                                            ),
                                                            ),
                                                            ),
                                                            ),
                                                            ),
                                                          ),
                                                        ),
                                                      ),
                                                    ),
                                                  ),
                                                ),
                                              ),
                                            ),
                                          ),
                                        ),
                                      ),
                                    ),
                                  ),
                                ),
                              ),
                            ),
                          ),
                        ),
                      ),
                    ),
                  ),
                ),
              ),
            ),
          ),
        ),
      ),
    ),
  )
