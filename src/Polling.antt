-- ===== src/Polling.antt =====
-- How long a process sleeps while its schedule is disarmed: src/disarmedIdleSleep.ts. Durations and
-- instants are in milliseconds.
pub mod IdleSleep
