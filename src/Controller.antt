-- ===== src/Controller.antt =====
-- internal/controller: one reconciliation loop over any number of replication sets.
pub mod Select
pub mod Sets
pub mod World
pub mod Failover
pub mod Reconcile
pub mod Run
pub mod Converge
pub mod Samples
mod Tests
pub mod Pool
pub mod Wire
