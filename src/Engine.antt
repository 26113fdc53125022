-- ===== src/Engine.antt =====
-- engine.rs, a module for each part.
pub mod State
pub mod Operations
pub mod Apply
pub mod Settling
pub mod Frame
pub mod Window
pub mod Retry
pub mod Books
pub mod Markets
pub mod Endings
pub mod Accounts
pub mod Notes
pub mod Statements
pub mod Faucet
