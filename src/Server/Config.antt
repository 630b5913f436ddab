-- ===== src/Server/Config.antt =====
-- server/config.go: the configuration of a server, with TOML's reader and writer as arguments.
use eris_db.Base.{ℕ, Bytes, str, Bool, false, List, [], Result, and_then}
use eris_db.Files.{Os, write_and_backup}

pub record Bind : Type 0 where
  pub address : Bytes
  pub port : ℕ

pub record Tls : Type 0 where
  pub tls : Bool
  pub cert_path : Bytes
  pub key_path : Bytes

pub record Cors : Type 0 where
  pub enable : Bool
  pub allow_origins : List Bytes
  pub allow_credentials : Bool
  pub allow_methods : List Bytes
  pub allow_headers : List Bytes
  pub expose_headers : List Bytes
  pub max_age : ℕ

pub record Http : Type 0 where
  pub json_rpc_endpoint : Bytes

pub record WebSocket : Type 0 where
  pub web_socket_endpoint : Bytes
  pub max_web_socket_sessions : ℕ
  pub read_buffer_size : ℕ
  pub write_buffer_size : ℕ

pub record Logging : Type 0 where
  pub console_log_level : Bytes
  pub file_log_level : Bytes
  pub log_file : Bytes

pub record ServerConfig : Type 0 where
  pub bind : Bind
  pub tls : Tls
  pub cors : Cors
  pub http : Http
  pub web_socket : WebSocket
  pub logging : Logging

unfoldable pub default_server_config : ServerConfig
default_server_config = record {
  bind = record { address = []; port = 1337 };
  tls = record { tls = false; cert_path = []; key_path = [] };
  cors = record {
    enable = false;
    allow_origins = [];
    allow_credentials = false;
    allow_methods = [];
    allow_headers = [];
    expose_headers = [];
    max_age = 0;
  };
  http = record { json_rpc_endpoint = str "/rpc" };
  web_socket = record {
    web_socket_endpoint = str "/socketrpc";
    max_web_socket_sessions = 50;
    read_buffer_size = 4096;
    write_buffer_size = 4096;
  };
  logging = record { console_log_level = str "info"; file_log_level = str "warn"; log_file = [] };
}

module _ {W F : Type 0} (os : Os W F) where
  unfoldable pub read_server_config :
      (Bytes → Result ServerConfig) → Bytes → W → Result ServerConfig × W
  read_server_config unmarshal file_path w =
      and_then (os.read_file file_path w, w) λ bts w. (unmarshal bts, w)

  unfoldable pub write_server_config :
      (ServerConfig → Result Bytes) → Bytes → ServerConfig → W → Result (Unit {0}) × W
  write_server_config marshal file_path cfg w =
      and_then (marshal cfg, w) λ bts w. write_and_backup os file_path bts w
