-- ===== src/Server/WebSocketServer.antt =====
-- server/websocket.go: the server that upgrades connections and opens sessions. The upgrade of a
-- connection is gorilla's.
use eris_db.Base.{ℕ, Bool, true, false, Option, none, some, [], Result, ok, err, panic, Error}
use eris_db.Server.Config.{ServerConfig}
use eris_db.Server.Sessions.{Heap, new_session_manager, create_session, open_session, shutdown}

pub record Upgrader : Type 0 where
  pub read_buffer_size : ℕ
  pub write_buffer_size : ℕ

-- The heap holds the session manager.
pub record WebSocketServer : Type 0 where
  pub upgrader : Option Upgrader
  pub running : Bool
  pub max_sessions : ℕ
  pub heap : Heap
  pub config : Option ServerConfig

-- What becomes of a request: a session at a place, or an error with its status.
pub data Connection : Type 0 where
  opened : ℕ → Connection
  refused : ℕ → Error → Connection

unfoldable new_web_socket_server : ℕ → WebSocketServer
new_web_socket_server max_sessions = record {
  upgrader = none;
  running = false;
  max_sessions = max_sessions;
  heap = record { manager = new_session_manager max_sessions; sessions = [] };
  config = none;
}

unfoldable start : ServerConfig → WebSocketServer → WebSocketServer
start config server = record server {
  config = some config;
  upgrader = some (record {
    read_buffer_size = config.web_socket.read_buffer_size;
    write_buffer_size = config.web_socket.write_buffer_size;
  });
  running = true;
}

unfoldable shut_down : WebSocketServer → WebSocketServer
shut_down server = record server {
  heap = record server.heap { manager = shutdown server.heap.manager };
  running = false;
}

-- The connection is not closed when there is no session for it.
established : WebSocketServer → Result (ℕ × Heap) → Result Connection × WebSocketServer
established server (ok (place, h)) =
    (ok (opened place), record server { heap = (open_session h place).0 })
established server (err e) = (ok (refused 503 e), server)
established server panic = (panic, server)

-- `upgraded` is what `Upgrade` returns; `Open` runs the pumps and returns with the read pump.
upgraded_to : WebSocketServer → Result (Unit {0}) → Result Connection × WebSocketServer
upgraded_to server (ok _) = established server (create_session server.heap)
upgraded_to server (err e) = (ok (refused 400 e), server)
upgraded_to server panic = (panic, server)

unfoldable handle_func : Result (Unit {0}) → WebSocketServer → Result Connection × WebSocketServer
unfolding upgraded_to established
handle_func upgraded server = upgraded_to server upgraded
