-- ===== src/Auth.antt =====
-- src/server/api/auth_manager.c: the server's login, its API keys and the sessions of its clients.
pub mod Types
pub mod Secrets
pub mod Config
pub mod Login
pub mod Keys
pub mod History
pub mod Credentials
pub mod Kept
pub mod Updates
pub mod Sessions
pub mod Salted
pub mod KeyLife
pub mod Reload
pub mod Restart
mod Tests
