-- ===== src/Tools/FailoverProbe.antt =====
-- tools/failover-probe/main.go: a client that keeps one connection, reads and writes on each tick, and
-- measures how long writing is out.
pub mod Client
pub mod Scan
pub mod Settings
pub mod Loop
