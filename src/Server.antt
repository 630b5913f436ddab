-- ===== src/Server.antt =====
-- server: the id pool and the websocket sessions.
pub mod Config
pub mod WebSocketServer
pub mod Process
pub mod IdPool
pub mod Sessions
