-- ===== src/Lanes.antt =====
-- The lane stores of the queue engine (src/internal/laneStore.ts and its two implementations).
pub mod Bounded
pub mod Levels
pub mod Store
pub mod Priority
pub mod Scheduled
