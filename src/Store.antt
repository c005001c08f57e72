-- ===== src/Store.antt =====
-- The SQLite store of internal/store/store.go.
pub mod Sql
pub mod Tables
pub mod Archive
pub mod Deliveries
pub mod Invariant
pub mod Nodes
pub mod Positions
pub mod Tracks
pub mod Keys
pub mod Migrate
pub mod History
