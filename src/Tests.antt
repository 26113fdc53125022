-- ===== src/Tests.antt =====
-- Runs of the model on small inputs, and the theorems applied to them.
pub mod Sample
pub mod Books
pub mod Balances
pub mod Commands
pub mod Formats
pub mod Streams
pub mod Markets
pub mod Storage
pub mod Requests
pub mod Quoting
