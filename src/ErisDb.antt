-- ===== src/ErisDb.antt =====
-- erisdb: the services that the servers run, on top of the pipe.
pub mod Query
pub mod Events
pub mod Rpc
pub mod Params
pub mod Methods
pub mod JsonService
pub mod ServerManager
pub mod WsService
pub mod PathParams
pub mod Rest
pub mod EventFilters
pub mod Serve
pub mod SmallNode
