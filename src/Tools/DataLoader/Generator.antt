-- ===== src/Tools/DataLoader/Generator.antt =====
-- The pairs that tools/data-loader/main.go writes (`newGenerator`, `genKeyValue`).
pub mod Shapes
pub mod Tables
pub mod Draws
pub mod Values
pub mod Catalog
pub mod Pairs
pub mod Total
pub mod Drawn
pub mod Guess
pub mod Keys
mod Tests
