-- ===== src/Stats.antt =====
-- The counters of used seconds, src-bill/classes/Stats*Manager.cpp.
pub mod Ledger
pub mod Freemin
pub mod Package
pub mod Minute
pub mod Account
pub mod TrunkSettings
pub mod Usage
pub mod Examples
