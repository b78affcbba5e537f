-- ===== src/Storage/Sqlite.antt =====
-- The SQLite adapter of runtime storage: src/storage/sqlite/codec.ts and service.ts.
pub mod Codec
pub mod Condition
pub mod Truth
pub mod Comparison
pub mod Filtering
pub mod Statement
pub mod Service
pub mod Represents
pub mod Refinement
pub mod Ties
pub mod Agreement
