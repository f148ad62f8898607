-- ===== src/Reconciler.antt =====
-- internal/reconciler: the loop that brings providers to what is desired.
pub mod Effects
pub mod Snapshot
pub mod Failure
pub mod Routes
pub mod Destroy
pub mod Step
pub mod Cycle
pub mod Intent
pub mod Keeps
pub mod Held
pub mod Ready
pub mod Safety
pub mod Queue
