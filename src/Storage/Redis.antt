-- ===== src/Storage/Redis.antt =====
-- src/storage/redis: runtime records as JSON texts in a Redis server.
pub mod Codec
pub mod Server
pub mod Service
pub mod Index
pub mod Preservation
pub mod Reachable
pub mod Commit
pub mod Load
