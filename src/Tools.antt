-- ===== src/Tools.antt =====
-- tools/: the programs that fill a Redis set with data and measure its failovers.
pub mod FailoverProbe
pub mod DataLoader
mod Tests
