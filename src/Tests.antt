-- ===== src/Tests.antt =====
-- Concrete runs: the theorems applied to small inputs on which their hypotheses hold.
pub mod Layers
pub mod Slots
pub mod Manager
pub mod Tasks
pub mod Documents
pub mod Network
pub mod Locks
