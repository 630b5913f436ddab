-- ===== src/ErisDb/Serve.antt =====
-- erisdb/serve.go: the configuration, the signer and the servers of a process with a node. The node,
-- its configuration and its keys are tendermint's.
use eris_db.Base.{
  ◌≡◌, refl, Bool, true, false, not, ◌&&◌, ◌||◌, Bytes, bytes_eq, str, Option, none, some, List, [],
  ◌∷◌, ◌++◌, Result, ok, err, panic, and_then, ltb, ◌==◌, length, if◌then◌else◌,
}
use eris_db.Go.Strings.{split}
use eris_db.Go.Hex.{encode}
use eris_db.Files.{Os}
use eris_db.Server.Config.{
  ServerConfig, default_server_config, read_server_config, write_server_config,
}
use eris_db.Server.Process.{Server, ServeProcess, new_serve_process, stop_event_channel}

-- What the code calls of os, path, toml and tendermint's common package, and what it reads of tendermint's configuration.
pub record Setup (W F : Type 0) : Type 0 where
  pub os : Os W F
  pub join : Bytes → Bytes → Bytes
  pub ensure_dir : Bytes → W → Result (Unit {0}) × W
  pub file_exists : Bytes → W → Bool
  pub marshal : ServerConfig → Result Bytes
  pub unmarshal : Bytes → Result ServerConfig
  pub signer : Bytes
  pub validator_address : Bytes
  pub node_laddr : Bytes
  pub seeds : Bytes
  pub rpc_laddr : Bytes

pub record ErisSigner : Type 0 where
  pub host : Bytes
  pub address : Bytes

abbrev scheme : Bytes
scheme = str "http://"

-- `strings.HasPrefix(s, prefix)`
has_prefix : Bytes → Bytes → Bool
has_prefix s [] = true
has_prefix [] (c ∷ prefix) = false
has_prefix (d ∷ s) (c ∷ prefix) = (d == c) && has_prefix s prefix

pub new_eris_signer : Bytes → Bytes → ErisSigner
new_eris_signer host address = record {
  host = if has_prefix host scheme then host else scheme ++ host;
  address = address;
}

-- The signer that replaces the validator's own, if the configuration names one.
pub signer_of : Bytes → Bytes → Result (Option ErisSigner)
signer_of signer_cfg address =
    if bytes_eq signer_cfg (str "default") || bytes_eq signer_cfg []
    then ok none
    else if length (split signer_cfg b':') == 2
    then ok (some (new_eris_signer signer_cfg (encode address)))
    else panic

-- What `startNode` calls of the node, in order; the last call comes after the shutdown.
pub data NodeCall : Type 0 where
  add_listener : Bytes → NodeCall
  start dial_seed start_rpc ready stop : NodeCall

abbrev call_if : Bool → NodeCall → List NodeCall → List NodeCall
call_if b c cs = if b then c ∷ cs else cs

module _ {W F : Type 0} (setup : Setup W F) where
  unfoldable start_node : List NodeCall
  start_node =
      call_if (not (bytes_eq setup.node_laddr [])) (NodeCall.add_listener setup.node_laddr) (
        NodeCall.start
        ∷ call_if (ltb 0 (length setup.seeds)) NodeCall.dial_seed (
            call_if (ltb 0 (length setup.rpc_laddr)) NodeCall.start_rpc
              (NodeCall.ready ∷ NodeCall.stop ∷ [])))

  -- A default configuration that cannot be written panics; one that cannot be read is nil.
  wrote_default : Result (Unit {0}) × W → Result (Option ServerConfig) × W
  wrote_default (ok _, w) = (ok (some default_server_config), w)
  wrote_default (_, w) = (panic, w)

  read_config : Result ServerConfig × W → Result (Option ServerConfig) × W
  read_config (ok cfg, w) = (ok (some cfg), w)
  read_config (err e, w) = (ok none, w)
  read_config (panic, w) = (panic, w)

  pub load_config : Bytes → W → Result (Option ServerConfig) × W
  load_config path w =
      if not (setup.file_exists path w)
      then wrote_default (write_server_config setup.os setup.marshal path default_server_config w)
      else read_config (read_server_config setup.os setup.unmarshal path w)

  -- The three servers are made but not started; the session limit is read from the configuration,
  -- and the node waits for the stop event.
  assembled :
      Option ServerConfig → Option ErisSigner → Result (ServeProcess Bytes × Option ErisSigner)
  assembled none signer = panic
  assembled (some cfg) signer =
      let idle : Server = record { running = false } in
      ok (stop_event_channel (new_serve_process (some cfg) (idle ∷ idle ∷ idle ∷ [])), signer)

  unfoldable serve_eris_db : Bytes → W → Result (ServeProcess Bytes × Option ErisSigner) × W
  unfolding load_config assembled signer_of
  serve_eris_db work_dir w = and_then (setup.ensure_dir work_dir w) λ _ w.
      and_then (load_config (setup.join work_dir (str "server_conf.toml")) w) λ s_conf w.
        and_then (signer_of setup.signer setup.validator_address, w)
          λ signer w. (assembled s_conf signer, w)

-- A signer whose host has its scheme is refused, though `NewErisSigner` knows what to do with it.
signer_of-scheme : signer_of (str "http://localhost:4767") [] ≡ panic
unfolding signer_of bytes_eq split
signer_of-scheme = refl
