-- ===== src/Rpc.antt =====
-- src/server/api/jsonrpc.c and handlers/auth.c: the requests of clients, the check of who sends them,
-- and the handlers of the methods `auth.*`.
pub mod Types
pub mod Handlers
pub mod Dispatch
pub mod Methods
pub mod Registered
pub mod Locked
pub mod Served
pub mod Responses
mod Tests
