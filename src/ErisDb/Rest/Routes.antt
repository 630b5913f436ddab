-- ===== src/ErisDb/Rest/Routes.antt =====
-- erisdb/restServer.go: the routes that `Start` registers, and what becomes of a request, with the
-- check of the content type in server/server.go. CORS is left to its middleware.
use eris_db.Base.{
  ℕ, Bool, true, false, ◌&&◌, not, Option, none, some, List, [], ◌∷◌, Bytes, bytes_eq, str, Result,
  ok, if◌then◌else◌,
}
use eris_db.Base.Int.{ℤ}
use eris_db.ErisDb.Params.{NodeTypes}
use eris_db.ErisDb.Methods.{Pipe}
use eris_db.ErisDb.JsonService.{EventSubs}
use eris_db.ErisDb.PathParams.{
  Context, address_param, name_param, key_param, height_param, peer_address_param,
  parse_tx_modifier, search_query_param,
}
use eris_db.ErisDb.Rest.{RestCodec, Body, Response, RestHandler, fresh, write_header, encode}
use eris_db.ErisDb.Rest.Handlers.{
  handle_gen_priv_acc, handle_accounts, handle_account, handle_storage, handle_storage_at,
  handle_blockchain_info, handle_genesis_hash, handle_chain_id, handle_latest_block_height,
  handle_latest_block, handle_blocks, handle_block, handle_consensus_state, handle_validator_list,
  handle_event_subscribe, handle_event_poll, handle_event_unsubscribe, handle_name_reg_entries,
  handle_name_reg_entry, handle_network_info, handle_client_version, handle_moniker,
  handle_listening, handle_listeners, handle_peers, handle_peer, handle_broadcast_tx,
  handle_unconfirmed_txs, handle_call, handle_call_code, handle_transact, handle_transact_name_reg,
  handle_sign_tx,
}

pub data Verb : Type 0 where
  get post delete : Verb

pub data Middleware : Type 0 where
  address_mw name_mw key_mw height_mw peer_address_mw tx_modifier_mw search_query_mw : Middleware

-- The texts of the path and of the query, and what the decoders return next to an error.
pub record RawParams : Type 0 where
  pub address : Bytes
  pub key : Bytes
  pub height : Bytes
  pub hold : Bytes
  pub q : Bytes
  pub bytes_left : Bytes
  pub height_left : ℤ

-- A context in which nothing is set.
abbrev pub new_context : Context
new_context = record {
  aborted = none;
  addr_bts = none;
  name = none;
  key_bts = none;
  height = none;
  id = none;
  address = none;
  hold = none;
  filters = none;
}

abbrev pub apply : RawParams → Middleware → Context → Context
apply raw address_mw = address_param raw.bytes_left raw.address
apply raw name_mw = name_param raw.key
apply raw key_mw = key_param raw.bytes_left raw.key
apply raw height_mw = height_param raw.height_left raw.height
apply raw peer_address_mw = peer_address_param raw.address
apply raw tx_modifier_mw = parse_tx_modifier raw.hold
apply raw search_query_mw = search_query_param raw.q

abbrev pub continue_with : RawParams → List Middleware → Option ℕ → Context → Context
continue_with raw [] aborted c = c
continue_with raw (mw ∷ mws) (some code) c = c
continue_with raw (mw ∷ mws) none c = let c2 = apply raw mw c in continue_with raw mws c2.aborted c2

pub record Route (T : NodeTypes) (S : Type 0) : Type 0 where
  pub verb : Verb
  pub pattern : Bytes
  pub middleware : List Middleware
  pub handler : RestHandler T S

abbrev pub verb_eq : Verb → Verb → Bool
verb_eq get get = true
verb_eq post post = true
verb_eq delete delete = true
verb_eq _ _ = false

-- The test of `contentTypeMW`.
unfoldable pub bad_content_type : Verb → Bytes → Bool
bad_content_type verb content_type =
    verb_eq verb post && not (bytes_eq content_type (str "application/json"))

module _ {T : NodeTypes} {S : Type 0} where
  unfoldable pub handle : Route T S → Bytes → S → Context → Option ℕ → Result (Response T) × S
  handle route body s c (some code) = (ok (encode Body.refusal (write_header code fresh)), s)
  handle route body s c none = route.handler c body s

  unfoldable pub serve : Route T S → RawParams → Bytes → S → Result (Response T) × S
  serve route raw body s =
      let c = continue_with raw route.middleware none new_context in handle route body s c c.aborted

  unfoldable pub find_route : Verb → Bytes → List (Route T S) → Option (Route T S)
  find_route verb pattern [] = none
  find_route verb pattern (r ∷ rs) =
      if verb_eq r.verb verb && bytes_eq r.pattern pattern
      then some r
      else find_route verb pattern rs

  unfoldable pub serve_found : Option (Route T S) → RawParams → Bytes → S → Result (Response T) × S
  serve_found none raw body s = (ok (write_header 404 fresh), s)
  serve_found (some route) raw body s = serve route raw body s

  -- The router has matched a pattern, with the texts of its parameters. The middleware of
  -- server/server.go comes first, whether a route matches or not.
  unfoldable pub dispatch :
      List (Route T S) → Verb → Bytes → Bytes → RawParams → Bytes → S → Result (Response T) × S
  dispatch routes verb content_type pattern raw body s =
      if bad_content_type verb content_type
      then (ok (encode Body.refusal (write_header 415 fresh)), s)
      else serve_found (find_route verb pattern routes) raw body s

abbrev route :
    {T : NodeTypes} {S : Type 0} → Verb → Bytes → List Middleware → RestHandler T S → Route T S
route verb pattern middleware handler = record {
  verb = verb;
  pattern = pattern;
  middleware = middleware;
  handler = handler;
}

module _ {T : NodeTypes} {S : Type 0} (codec : RestCodec T) (pipe : Pipe T S)
    (event_subs : EventSubs T S) where
  unfoldable pub routes : List (Route T S)
  routes =
      route get (str "/accounts") (search_query_mw ∷ []) (handle_accounts codec pipe event_subs)
      ∷ route get (str "/accounts/:address") (address_mw ∷ [])
          (handle_account codec pipe event_subs)
      ∷ route get (str "/accounts/:address/storage") (address_mw ∷ [])
          (handle_storage codec pipe event_subs)
      ∷ route get (str "/accounts/:address/storage/:key") (address_mw ∷ key_mw ∷ [])
          (handle_storage_at codec pipe event_subs)
      ∷ route get (str "/blockchain") [] (handle_blockchain_info codec pipe event_subs)
      ∷ route get (str "/blockchain/chain_id") [] (handle_chain_id codec pipe event_subs)
      ∷ route get (str "/blockchain/genesis_hash") [] (handle_genesis_hash codec pipe event_subs)
      ∷ route get (str "/blockchain/latest_block_height") []
          (handle_latest_block_height codec pipe event_subs)
      ∷ route get (str "/blockchain/latest_block") [] (handle_latest_block codec pipe event_subs)
      ∷ route get (str "/blockchain/blocks") (search_query_mw ∷ [])
          (handle_blocks codec pipe event_subs)
      ∷ route get (str "/blockchain/block/:height") (height_mw ∷ [])
          (handle_block codec pipe event_subs)
      ∷ route get (str "/consensus") [] (handle_consensus_state codec pipe event_subs)
      ∷ route get (str "/consensus/validators") [] (handle_validator_list codec pipe event_subs)
      ∷ route post (str "/event_subs") [] (handle_event_subscribe codec pipe event_subs)
      ∷ route get (str "/event_subs/:id") [] (handle_event_poll codec pipe event_subs)
      ∷ route delete (str "/event_subs/:id") [] (handle_event_unsubscribe codec pipe event_subs)
      ∷ route get (str "/namereg") (search_query_mw ∷ [])
          (handle_name_reg_entries codec pipe event_subs)
      ∷ route get (str "/namereg/:key") (name_mw ∷ []) (handle_name_reg_entry codec pipe event_subs)
      ∷ route get (str "/network") [] (handle_network_info codec pipe event_subs)
      ∷ route get (str "/network/client_version") [] (handle_client_version codec pipe event_subs)
      ∷ route get (str "/network/moniker") [] (handle_moniker codec pipe event_subs)
      ∷ route get (str "/network/listening") [] (handle_listening codec pipe event_subs)
      ∷ route get (str "/network/listeners") [] (handle_listeners codec pipe event_subs)
      ∷ route get (str "/network/peers") [] (handle_peers codec pipe event_subs)
      ∷ route get (str "/network/peers/:address") (peer_address_mw ∷ [])
          (handle_peer codec pipe event_subs)
      ∷ route post (str "/txpool") [] (handle_broadcast_tx codec pipe event_subs)
      ∷ route get (str "/txpool") [] (handle_unconfirmed_txs codec pipe event_subs)
      ∷ route post (str "/calls") [] (handle_call codec pipe event_subs)
      ∷ route post (str "/codecalls") [] (handle_call_code codec pipe event_subs)
      ∷ route get (str "/unsafe/pa_generator") [] (handle_gen_priv_acc codec pipe event_subs)
      ∷ route post (str "/unsafe/txpool") (tx_modifier_mw ∷ [])
          (handle_transact codec pipe event_subs)
      ∷ route post (str "/unsafe/namereg/txpool") []
          (handle_transact_name_reg codec pipe event_subs)
      ∷ route post (str "/unsafe/tx_signer") [] (handle_sign_tx codec pipe event_subs)
      ∷ []
