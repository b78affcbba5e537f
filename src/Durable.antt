-- ===== src/Durable.antt =====
-- The durability plane of a queue: the port (src/DurableQueueStore.ts) and its SQLite backend.
pub mod Port
pub mod Sqlite
