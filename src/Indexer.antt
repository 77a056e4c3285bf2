-- ===== src/Indexer.antt =====
-- The indexer's statistics: indexer/statistics.
pub mod Intervals
pub mod Assets
pub mod Turnover
pub mod Weeks
pub mod WalletsTop
pub mod Statistics
