-- ===== src/Wss.antt =====
-- internal/wss: the messages, the connections, the broadcasts, the dispatcher and the middleware.
pub mod Json
pub mod Socket
pub mod Broadcast
pub mod Dispatcher
pub mod Auth
pub mod Handlers
pub mod Server
