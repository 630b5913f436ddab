-- ===== src/Server/Process/Examples.antt =====
-- A process with two servers, on a network with one free port.
use eris_db.Base.{false, Bytes, str, none, some, [], ◌∷◌, ok}
use eris_db.Server.Process.{Network, ServeProcess, new_serve_process, start}
use eris_db.Server.Process.Lifecycle.{Started, start-Started}

abbrev network : Network Bytes
network = record { listen = λ address. ok address; load_key_pair = λ _ _. ok tt }

abbrev two_servers : ServeProcess Bytes
two_servers = new_serve_process none (record { running = false } ∷ record { running = false } ∷ [])

start-Started_example : Started two_servers (start network two_servers)
start-Started_example = start-Started network two_servers

abbrev served : ServeProcess Bytes
served = record two_servers { serving = some (str ":1337", false) }
