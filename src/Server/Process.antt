-- ===== src/Server/Process.antt =====
-- server/server.go: the process that starts all servers, listens, and stops. The servers, the
-- listener and TLS are arguments; a channel is what has been sent on it.
mod Examples
pub mod Lifecycle
use eris_db.Base.{
  ℕ, suc, ◌+◌, Bool, true, false, not, ◌&&◌, Option, none, some, List, [], ◌∷◌, ◌++◌, Bytes,
  bytes_eq, str, Result, ok, err, panic, Error, ◌==◌, if◌then◌else◌, map,
}
use eris_db.Base.Int.{pos}
use eris_db.Go.Strconv.Decimal.{format_int}
use eris_db.Server.Config.{ServerConfig, default_server_config}

-- A server, by what can be seen of it: whether it runs.
pub record Server : Type 0 where
  pub running : Bool

-- What the process calls of net and tls.
pub record Network (L : Type 0) : Type 0 where
  pub listen : Bytes → Result L
  pub load_key_pair : Bytes → Bytes → Result (Unit {0})

-- `start_listeners` and `stop_listeners` count what has been sent to each channel; `stop_signals` is
-- what waits in `stopChan`. `serving` holds the listener that is served, and whether over TLS.
pub record ServeProcess (L : Type 0) : Type 0 where
  pub config : ServerConfig
  pub servers : List Server
  pub stop_signals : ℕ
  pub start_listeners : List ℕ
  pub stop_listeners : List ℕ
  pub serving : Option (L × Bool)

unfoldable pub new_serve_process : {L : Type 0} → Option ServerConfig → List Server → ServeProcess L
new_serve_process config servers = record {
  config = elim config [ none ↦ default_server_config | some cfg ↦ cfg ];
  servers = servers;
  stop_signals = 0;
  start_listeners = [];
  stop_listeners = [];
  serving = none;
}

-- The index of the channel is its place in the list.
unfoldable start_event_channel : {L : Type 0} → ServeProcess L → ServeProcess L
start_event_channel proc = record proc { start_listeners = proc.start_listeners ++ 0 ∷ [] }

unfoldable pub stop_event_channel : {L : Type 0} → ServeProcess L → ServeProcess L
stop_event_channel proc = record proc { stop_listeners = proc.stop_listeners ++ 0 ∷ [] }

-- The loop that starts the servers, and the one that shuts them down.
pub start_servers : List Server → List Server
start_servers [] = []
start_servers (s ∷ ss) = record s { running = true } ∷ start_servers ss

pub shut_down_servers : List Server → List Server
shut_down_servers [] = []
shut_down_servers (s ∷ ss) = record s { running = false } ∷ shut_down_servers ss

pub listen_address : ServerConfig → Bytes
listen_address config = config.bind.address ++ str ":" ++ format_int (pos config.bind.port)

module _ {L : Type 0} where
  -- Every start listener is told; a channel of one place that is full would block.
  serve : ServeProcess L → Result (L × Bool) → Result (Unit {0}) × ServeProcess L
  serve proc (ok lst) =
      (ok tt, record proc { serving = some lst; start_listeners = map suc proc.start_listeners })
  serve proc (err e) = (err e, proc)
  serve proc panic = (panic, proc)

  over_tls : L → Result (Unit {0}) → Result (L × Bool)
  over_tls l (ok _) = ok (l, true)
  over_tls l (err e) = err e
  over_tls l panic = panic

module _ {L : Type 0} (network : Network L) where
  -- The listener is wrapped, or taken as it is.
  secured : ServerConfig → L → Result (L × Bool)
  secured config l =
      if config.tls.tls
      then over_tls l (network.load_key_pair config.tls.cert_path config.tls.key_path)
      else ok (l, false)

  -- The servers are started before the port is known to be free.
  bound : ServeProcess L → Result L → Result (Unit {0}) × ServeProcess L
  bound proc (ok l) = serve proc (secured proc.config l)
  bound proc (err e) = (err e, proc)
  bound proc panic = (panic, proc)

  pub start : ServeProcess L → Result (Unit {0}) × ServeProcess L
  start proc =
      if proc.config.bind.port == 0
      then (err (Error.other_error (str "0 is not a valid port.")), proc)
      else bound (record proc { servers = start_servers proc.servers })
          (network.listen (listen_address proc.config))

module _ {L : Type 0} where
  -- `Stop` up to its `select`: the servers are shut down, a listener is added and the signal sent.
  pub begin_stop : ServeProcess L → ServeProcess L
  begin_stop proc =
      let waiting = stop_event_channel (record proc { servers = shut_down_servers proc.servers }) in
      record waiting { stop_signals = waiting.stop_signals + 1 }

  stop_served : ServeProcess L → Option (L × Bool) → ServeProcess L
  stop_served proc none = proc
  stop_served proc (some lst) = record proc {
    stop_signals = 0;
    servers = shut_down_servers proc.servers;
    serving = none;
    stop_listeners = map suc proc.stop_listeners;
  }

  -- What the goroutines of `Start` do once the signal is there: only a process that serves has them.
  pub graceful_stop : ServeProcess L → ServeProcess L
  graceful_stop proc = stop_served proc proc.serving

-- The `select` of `Stop`: whether the stop event comes before the timeout.
unfoldable await_stop : Bool → Result (Unit {0})
await_stop true = ok tt
await_stop false = err (Error.other_error (str "Timeout when stopping server"))
