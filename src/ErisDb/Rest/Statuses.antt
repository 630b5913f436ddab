-- ===== src/ErisDb/Rest/Statuses.antt =====
-- The handlers of erisdb/restServer.go answer with the status 200, or panic.
use eris_db.Base.{◌≡◌, refl, Bool, Option, none, some, Bytes, Result, ok, err, panic, All}
use eris_db.ErisDb.Params.{NodeTypes}
use eris_db.ErisDb.Methods.{Pipe, Reply}
use eris_db.ErisDb.JsonService.{EventSubs}
use eris_db.ErisDb.PathParams.{Context}
use eris_db.ErisDb.Rest.{RestCodec, Response, write_header, encode, respond, respond_true, must_get}
use eris_db.ErisDb.Rest.Handlers.{
  handle_gen_priv_acc, handle_accounts, handle_account, handle_storage, handle_storage_at,
  handle_blockchain_info, handle_genesis_hash, handle_chain_id, handle_latest_block_height,
  handle_latest_block, handle_blocks, handle_block, handle_consensus_state, handle_validator_list,
  handle_event_subscribe, handle_event_poll, handle_event_unsubscribe, handle_name_reg_entries,
  handle_name_reg_entry, handle_network_info, handle_client_version, handle_moniker,
  handle_listening, handle_listeners, handle_peers, handle_peer, handle_broadcast_tx,
  handle_unconfirmed_txs, handle_call, handle_call_code, handle_transact, handle_transact_name_reg,
  handle_sign_tx,
}
use eris_db.ErisDb.Rest.Routes.{Route, routes}

module _ {T : NodeTypes} {S : Type 0} where
  -- The status is 200, or there is a panic.
  abbrev pub Is200 : Result (Response T) × S → Type 0
  Is200 (ok r, s) = r.status ≡ 200
  Is200 (err e, s) = ⊥
  Is200 (panic, s) = Unit

  respond-Is200 :
      {A : Type 0} (reply : A → Reply T) (r : Response T) (x : Result A × S)
      → Is200 (respond reply r x)
  unfolding respond write_header encode
  respond-Is200 reply r (ok a, s) = refl
  respond-Is200 reply r (err e, s) = refl
  respond-Is200 reply r (panic, s) = tt

  respond_true-Is200 :
      (reply : Bool → Reply T) (r : Response T) (x : Result (Unit {0}) × S)
      → Is200 (respond_true reply r x)
  unfolding respond_true write_header encode
  respond_true-Is200 reply r (ok a, s) = refl
  respond_true-Is200 reply r (err e, s) = refl
  respond_true-Is200 reply r (panic, s) = tt

  must_get-Is200 :
      {A : Type 0} (o : Option A) (s : S) (rest : A → Result (Response T) × S)
      → ((a : A) → Is200 (rest a))
      → Is200 (must_get o s rest)
  unfolding must_get
  must_get-Is200 (some a) s rest h = h a
  must_get-Is200 none s rest h = tt

  abbrev pub Answers : Route T S → Type 0
  Answers route = (c : Context) (body : Bytes) (s : S) → Is200 (route.handler c body s)

  held-Is200 :
      (hold : Option Bool) (held plain : Result (Response T) × S)
      → Is200 held
      → Is200 plain
      → Is200 (elim hold [ some h ↦ held | none ↦ plain ])
  held-Is200 (some h) held plain a b = a
  held-Is200 none held plain a b = b

module _ {T : NodeTypes} {S : Type 0} (codec : RestCodec T) (pipe : Pipe T S)
    (event_subs : EventSubs T S) where
  transact-Is200 :
      (c : Context) (body : Bytes) (s : S) → Is200 (handle_transact codec pipe event_subs c body s)
  unfolding handle_transact
  transact-Is200 c body s = held-Is200 c.hold _ _ (respond-Is200 _ _ _) (respond-Is200 _ _ _)

  pub routes-Answers : All Answers (routes codec pipe event_subs)
  unfolding routes handle_gen_priv_acc handle_accounts handle_account handle_storage
      handle_storage_at handle_blockchain_info handle_genesis_hash handle_chain_id
      handle_latest_block_height handle_latest_block handle_blocks handle_block
      handle_consensus_state handle_validator_list handle_event_subscribe handle_event_poll
      handle_event_unsubscribe handle_name_reg_entries handle_name_reg_entry handle_network_info
      handle_client_version handle_moniker handle_listening handle_listeners handle_peers
      handle_peer handle_broadcast_tx handle_unconfirmed_txs handle_call handle_call_code
      handle_transact_name_reg handle_sign_tx
  routes-Answers = (
    (λ c body s. respond-Is200 _ _ _),
    (
      (λ c body s. must_get-Is200 _ s _ (λ x. respond-Is200 _ _ _)),
      (
        (λ c body s. must_get-Is200 _ s _ (λ x. respond-Is200 _ _ _)),
        (
          (λ c body s. must_get-Is200 _ s _ (λ x. must_get-Is200 _ s _ (λ y. respond-Is200 _ _ _))),
          (
            (λ c body s. respond-Is200 _ _ _),
            (
              (λ c body s. respond-Is200 _ _ _),
              (
                (λ c body s. respond-Is200 _ _ _),
                (
                  (λ c body s. respond-Is200 _ _ _),
                  (
                    (λ c body s. respond-Is200 _ _ _),
                    (
                      (λ c body s. respond-Is200 _ _ _),
                      (
                        (λ c body s. must_get-Is200 _ s _ (λ x. respond-Is200 _ _ _)),
                        (
                          (λ c body s. respond-Is200 _ _ _),
                          (
                            (λ c body s. respond-Is200 _ _ _),
                            (
                              (λ c body s. respond-Is200 _ _ _),
                              (
                                (λ c body s. must_get-Is200 _ s _ (λ x. respond-Is200 _ _ _)),
                                (
                                  (λ c body s.
                                      must_get-Is200 _ s _ (λ x. respond_true-Is200 _ _ _)),
                                  (
                                    (λ c body s. respond-Is200 _ _ _),
                                    (
                                      (λ c body s. must_get-Is200 _ s _ (λ x. respond-Is200 _ _ _)),
                                      (
                                        (λ c body s. respond-Is200 _ _ _),
                                        (
                                          (λ c body s. respond-Is200 _ _ _),
                                          (
                                            (λ c body s. respond-Is200 _ _ _),
                                            (
                                              (λ c body s. respond-Is200 _ _ _),
                                              (
                                                (λ c body s. respond-Is200 _ _ _),
                                                (
                                                  (λ c body s. respond-Is200 _ _ _),
                                                  (
                                                    (λ c body s.
                                                        must_get-Is200 _ s _
                                                          (λ x. respond-Is200 _ _ _)),
                                                    (
                                                      (λ c body s. respond-Is200 _ _ _),
                                                      (
                                                        (λ c body s. respond-Is200 _ _ _),
                                                        (
                                                          (λ c body s. respond-Is200 _ _ _),
                                                          (
                                                            (λ c body s. respond-Is200 _ _ _),
                                                            (
                                                            (λ c body s. respond-Is200 _ _ _),
                                                            (
                                                            (λ c body s. transact-Is200 c body s),
                                                            (
                                                            (λ c body s. respond-Is200 _ _ _),
                                                            ((λ c body s. respond-Is200 _ _ _), tt),
                                                            ),
                                                            ),
                                                            ),
                                                          ),
                                                        ),
                                                      ),
                                                    ),
                                                  ),
                                                ),
                                              ),
                                            ),
                                          ),
                                        ),
                                      ),
                                    ),
                                  ),
                                ),
                              ),
                            ),
                          ),
                        ),
                      ),
                    ),
                  ),
                ),
              ),
            ),
          ),
        ),
      ),
    ),
  )
