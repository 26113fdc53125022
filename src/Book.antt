-- ===== src/Book.antt =====
-- book.rs, a module for each part.
pub mod Types
pub mod Levels
pub mod Matching
pub mod Cancel
pub mod Fills
pub mod Sides
pub mod Queue
pub mod Reach
pub mod Rounds
pub mod Sweep
pub mod Priority
pub mod Ending
pub mod Order
pub mod Placing
pub mod Deltas
pub mod Marking
pub mod Reports
pub mod Crossing
pub mod Uncrossed
pub mod Cancelling
pub mod SelfTrade
pub mod BuyCost
