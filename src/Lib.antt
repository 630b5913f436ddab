-- ===== src/Lib.antt =====
-- Eris DB: an HTTP and websocket server in front of a tendermint node.
--
-- A request comes in over JSON-RPC (erisdb/json_service.go), over REST (erisdb/restServer.go) or over
-- a websocket (server/websocket.go, erisdb/wsService.go). The services call the pipe (erisdb/pipe), which reads the node's
-- accounts, names and blocks and selects them by filters. Events of the node are kept for clients
-- that poll (erisdb/event_cache.go). A process (server/server.go, erisdb/serve.go) starts the servers
-- over one listener, and a manager (erisdb/erisdbss) starts such processes for tests.
--
-- The files, and the code that they model:
--   Base        lists, bytes, results and the int64 arithmetic that all of them share
--   Go          what the program uses of Go's standard library: `strings.ToLower`, `EqualFold` and
--               `Split`, `strconv.ParseInt`, and `encoding/hex`
--   Pipe.Values, Pipe.Node    the fields of tendermint's types that the pipe reads
--   Pipe.Filters              erisdb/pipe/filters.go: `NewFilter` is `new_filter`, `GetRangeFilter` is
--               `get_range_filter`, `ParseNumberValue` is `parse_number_value`
--   Pipe.Accounts             erisdb/pipe/accounts.go: `Accounts` is `accounts`, with `iterate` for the
--               callback of its iteration; `configure_*` and `match_*` are the methods of the filters
--   Pipe.NameReg              erisdb/pipe/namereg.go, in the same way
--   Pipe.Blockchain           erisdb/pipe/blockchain.go: `getHeightMinMax` is `get_height_min_max` with
--               the loop `height_loop` and the switch `narrow`; `Blocks` is `blocks`
--   Pipe.Transactor           erisdb/pipe/transactor.go: `Transact`, `Send`, `TransactNameReg`, `SignTx`
--               and `BroadcastTx`; in Hold the two calls that wait for an event, on the list of the
--               events that arrive in time; in Calls `Call` and `CallCode`
--   Pipe.Net, Pipe.Consensus  erisdb/pipe/net.go and erisdb/pipe/consensus.go
--   Server.IdPool, Server.Sessions    server/idpool.go and the session manager of server/websocket.go;
--               `createSession`, `Open`, `Close` and `removeSession` are `create_session`,
--               `open_session`, `close` and `remove_session`
--   Server.Sessions.Pumps     `readPump` and `writePump` of a session, one round as one step
--   Server.WebSocketServer    server/websocket.go: the server that opens sessions
--   Server.Config, Server.Process    server/config.go and server/server.go: `Start` is `start`, `Stop`
--               is `begin_stop`, and `graceful_stop` is what the goroutines of `Start` do then
--   Files       files/files.go: `WriteFile` is `write_file`, `WriteAndBackup` is `write_and_backup`
--   ErisDb.Query              erisdb/restServer.go: `_parseSearchQuery` is `parse_search_query`
--   ErisDb.PathParams         erisdb/restServer.go: `addressParam`, `heightParam` and the others
--   ErisDb.Rest               erisdb/restServer.go: the handlers, `handleAccounts` as
--               `handle_accounts` and so on, the routes that `Start` registers, and `dispatch` for
--               what the router does with a request
--   Util                      util/util.go: `IsHex`, `IsAddress` and the others
--   ErisDb.Events             erisdb/event_cache.go: `add`, `poll`, `remove` and `reap`, and `fire` for
--               an event that calls the callbacks that `add` has subscribed; in Mailboxes what the
--               cache promises, as an abstract specification
--   ErisDb.EventFilters       erisdb/event_filters.go
--   ErisDb.Rpc, ErisDb.Params rpc/jsonrpc.go and erisdb/params.go
--   ErisDb.Methods            the interfaces of erisdb/pipe/pipe.go, and the handlers of
--               erisdb/methods.go with the map that `getMethods` makes
--   ErisDb.JsonService        erisdb/json_service.go: `Process` is `process`; in EventsOverRpc the
--               service over the event cache
--   ErisDb.WsService          erisdb/wsService.go: `Process` is `process`, and the callback of a
--               subscription is `callback`
--   ErisDb.ServerManager      erisdb/erisdbss/server_manager.go: `add`, `reap` and `kill_all`, with
--               `launch` for the folder and the process of a new server; Http is http.go beside it
--   ErisDb.Serve              erisdb/serve.go: `ServeErisDB` is `serve_eris_db`
-- Below each file, the files of its folder hold its proofs, and its file Examples concrete runs.
--
-- State. A session and an event cache are objects that several parts share, so they stand in a
-- store and are named by their place in it; a map is an association list, and a method takes the
-- state and returns the new one. A method is one step, and a history is a sequence of steps, in
-- any order that their guards allow. That is what a mutex gives; `add` and `poll` of the event
-- cache and `Shutdown` of the session manager take none, and their overlap with other methods is
-- not modelled. Two calls of `Close` on one session that overlap are not modelled. The functions
-- with (value, error) return a `Result`, whose third case is a panic; code that returns early on
-- an error is a chain of `and_then`.
--
-- Numbers. `int` and `int64` have 64 bits and wrap around (`wrap64`). Ids, lengths and times are
-- natural numbers; times are nanoseconds. Text is a list of bytes, and case is folded for ASCII only,
-- which is what the names of fields are compared in.
--
-- Fuel. Two loops of erisdb/pipe/blockchain.go need not end, so they run on fuel, one for each round;
-- with the answer `none` the loop still runs. On height filters alone, more fuel than there are
-- filters is enough; with a filter of another field at the head no fuel is.
--
-- Not the program's own code, and so parameters: the node's state, its block store, the virtual
-- machine, the codec, Go's JSON decoder, TOML, keys and signatures, the operating system's files,
-- processes and sockets, of which the proofs assume what IsLawful in Files/Writing.antt says, and
-- the event switch, of which they assume only that a new listener is called for its own event and
-- that removing a listener removes that one. A `sync.Pool` never gets a filter back here, so it is
-- the value that its `New` makes. Not modelled: the client, logging and the CORS middleware, which
-- only pass values on, the constructor of the pipe, and the flags of the commands.
pub mod Base
pub mod Go
pub mod Pipe
pub mod Server
pub mod Util
pub mod ErisDb
pub mod Files
