-- ===== src/Diffable.antt =====
-- Source/NSDiffableDataSource.m: snapshots of sections and items, and the two data sources.
pub mod Collections
pub mod Snapshot
pub mod Source
pub mod Tests
