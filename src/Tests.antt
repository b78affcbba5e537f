-- ===== src/Tests.antt =====
-- The development at concrete inputs: instances of its parameters, and runs of its operations.
pub mod Instances
pub mod Lanes
pub mod Durable
pub mod Queue
pub mod Steps
pub mod Schedule
pub mod Scheduled
pub mod Persistence
pub mod Delivery
pub mod Projection
pub mod Storage
pub mod Sqlite
pub mod History
pub mod Polling
pub mod Usage
pub mod Redis
