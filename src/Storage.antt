-- ===== src/Storage.antt =====
-- Runtime records and their storage: src/RuntimeStorage.ts, src/Query.ts and the adapters in
-- src/storage.
pub mod Record
pub mod Query
pub mod Select
pub mod Memory
pub mod Sqlite
pub mod Redis
pub mod Build
pub mod Helpers
