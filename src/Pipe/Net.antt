-- ===== src/Pipe/Net.antt =====
-- erisdb/pipe/net.go: what the pipe says of the network, from tendermint's configuration and switch.
use eris_db.Base.{
  ◌≡◌, sym, Bytes, Bool, Option, none, some, List, [], ◌∷◌, ◌++◌, append_assoc, append-nil, map,
  ◌∙◌, Result, ok, panic,
}

-- A peer of the switch, with the type of what it says of itself.
pub record SwitchPeer (N : Type 0) : Type 0 where
  pub node_info : N
  pub is_outbound : Bool

pub record Switch (N : Type 0) : Type 0 where
  pub version : Bytes
  pub moniker : Bytes
  pub is_listening : Bool
  pub listeners : List Bytes
  pub peers : List (SwitchPeer N)
  pub get_peer : Bytes → Option (SwitchPeer N)

pub record Peer (N : Type 0) : Type 0 where
  pub node_info : N
  pub is_outbound : Bool

pub record NetworkInfo (N : Type 0) : Type 0 where
  pub client_version : Bytes
  pub moniker : Bytes
  pub listening : Bool
  pub listeners : List Bytes
  pub peers : List (Peer N)

-- The loops append to a slice.
append_listeners : List Bytes → List Bytes → List Bytes
append_listeners out [] = out
append_listeners out (l ∷ ls) = append_listeners (out ++ l ∷ []) ls

module _ {N : Type 0} where
  peer_of : SwitchPeer N → Peer N
  peer_of p = record { node_info = p.node_info; is_outbound = p.is_outbound }

  append_peers : List (Peer N) → List (SwitchPeer N) → List (Peer N)
  append_peers out [] = out
  append_peers out (p ∷ ps) = append_peers (out ++ peer_of p ∷ []) ps

  -- An address that the switch does not know is a nil peer.
  peer_found : Option (SwitchPeer N) → Result (Peer N)
  peer_found none = panic
  peer_found (some p) = ok (peer_of p)

module _ {N : Type 0} (switch : Switch N) where
  info : Result (NetworkInfo N)
  info = ok (record {
    client_version = switch.version;
    moniker = switch.moniker;
    listening = switch.is_listening;
    listeners = append_listeners [] switch.listeners;
    peers = append_peers [] switch.peers;
  })

  client_version : Result Bytes
  client_version = ok switch.version

  moniker : Result Bytes
  moniker = ok switch.moniker

  listening : Result Bool
  listening = ok switch.is_listening

  listeners : Result (List Bytes)
  listeners = ok (append_listeners [] switch.listeners)

  peers : Result (List (Peer N))
  peers = ok (append_peers [] switch.peers)

  unfoldable peer : Bytes → Result (Peer N)
  unfolding peer_found
  peer address = peer_found (switch.get_peer address)

append_listeners_lem : (out ls : List Bytes) → append_listeners out ls ≡ out ++ ls
unfolding append_listeners
append_listeners_lem out [] = sym (append-nil out)
append_listeners_lem out (l ∷ ls) =
    append_listeners_lem (out ++ l ∷ []) ls ∙ append_assoc out (l ∷ []) ls

append_peers_lem :
    {N : Type 0} (out : List (Peer N)) (ps : List (SwitchPeer N))
    → append_peers out ps ≡ out ++ map peer_of ps
unfolding append_peers
append_peers_lem out [] = sym (append-nil out)
append_peers_lem out (p ∷ ps) =
    append_peers_lem (out ++ peer_of p ∷ []) ps ∙ append_assoc out (peer_of p ∷ []) (map peer_of ps)

-- The information on the network is what the other calls return, one by one: the listeners and the
-- peers of the switch, in its order.
info_lem :
    {N : Type 0} (switch : Switch N) (net : NetworkInfo N)
    → info switch ≡ ok net
    → (client_version switch ≡ ok net.client_version)
      × (moniker switch ≡ ok net.moniker)
      × (listening switch ≡ ok net.listening)
      × (listeners switch ≡ ok net.listeners)
      × (net.listeners ≡ switch.listeners)
      × (peers switch ≡ ok net.peers)
      × (net.peers ≡ map peer_of switch.peers)
unfolding info client_version moniker listening listeners peers
info_lem switch net e = (
  cc,
  cc,
  cc,
  cc,
  (let same : append_listeners [] switch.listeners ≡ net.listeners = cc in
      sym same ∙ append_listeners_lem [] switch.listeners),
  cc,
  (let same : append_peers [] switch.peers ≡ net.peers = cc in
      sym same ∙ append_peers_lem [] switch.peers),
)
