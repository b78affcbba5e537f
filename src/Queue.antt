-- ===== src/Queue.antt =====
-- The queue engine (src/internal/queueResource.ts).
pub mod Types
pub mod Metrics
pub mod Engine
pub mod Validate
pub mod Enqueue
pub mod Projection
pub mod Control
pub mod Worker
pub mod Shutdown
pub mod Frame
pub mod Phases
pub mod Persistence
pub mod Delivery
pub mod Keys
