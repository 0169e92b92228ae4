-- ===== src/Tools/DataLoader.antt =====
-- tools/data-loader/main.go: the program that fills a server with test data. The loop takes the pairs as
-- its input, and Generator makes them.
pub mod Client
pub mod Settings
pub mod Flush
pub mod Loop
pub mod Words
pub mod Generator
