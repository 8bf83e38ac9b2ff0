-- ===== src/SourceSup.antt =====
-- src/server/supervisor/source_supervisor.c: the worker process of each source. An entry is a worker
-- with its sockets, event sources and restart counter; a function gives the entry afterwards and the
-- calls that it makes of the kernel and the main loop.
pub mod Types
pub mod Backoff
pub mod Worker
pub mod Callbacks
pub mod System
pub mod Invariant
pub mod Ledger
pub mod Supervisor
pub mod Operations
pub mod Shutdown
pub mod Restarts
pub mod Recovery
pub mod Metrics
pub mod Messages
mod Tests
