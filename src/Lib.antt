-- ===== src/Lib.antt =====
-- effect-pm: process and queue primitives on the effect library.
--
-- A queue keeps items in the lanes of a lane store, lets workers take them in the order of their
-- levels, and records what happens as events, metrics and rows of a process store. With a durable
-- store in context the table is the truth: enqueueing writes to it, a feeder leases entries from it
-- into the lanes, and the end of an item's processing removes, requeues or buries its row.
--
-- Parts, and the files that model them:
--   Prelude: lists, tallies, integers and sorting over the native numbers.
--   Lanes: src/internal/laneStore.ts (the interface, with the laws the engine needs), levelLaneStorePriority.ts,
--     priorityMapping.ts, customQueueLevels.ts. `make`, `offer`, `poll`, `is_empty`, `sizes`,
--     `drain` and `extract_matching` are the store's operations on an explicit list of lanes; the
--     bounded queue of the effect library is a parameter (Lanes.Bounded).
--     Lanes.Scheduled: levelLaneStoreScheduled.ts and takeAlgorithm.ts, whose `poll` picks the lane; its
--     virtual times are exact fractions where the code has doubles.
--   Durable: src/DurableQueueStore.ts (the port) and src/storage/sqlite/durableQueue.ts, whose
--     statements are functions of the list of rows; Durable.Sqlite.Contract puts them behind the port,
--     and Durable.Sqlite.Exclusive has what can happen while an entry is leased.
--   Queue: src/internal/queueResource.ts and src/internal/queueProjection.ts. `Engine` holds what
--     `makeQueueRuntime` allocates; `Setup` what it is made from. Enqueue, Control, Worker and
--     Shutdown have the operations under the source's names in snake case; Validate and Metrics
--     have the validation of a batch and the metrics window; Keys, Phases, Persistence,
--     Delivery (the durable path over the SQLite store) and Frame have proofs, and Keys.Steps the interleavings of an in-memory queue, in which the start,
--     the finish and the settlement of an item's run are three steps.
--     Projection has the sizes and the status, and Projection.Custom those of a custom queue.
--   Schedule: src/internal/processSchedule.ts, the entries of a schedule and their in-memory
--     service, whose change signal is a counter.
--   Storage: src/RuntimeStorage.ts and its queries. Record has the records and patches, Query the
--     predicates, Select the order and the window, Memory the in-memory service. Build is
--     src/Query.ts, Helpers the queries and windows of src/internal/store/helpers.ts. Sqlite is
--     src/storage/sqlite/codec.ts and service.ts: Codec the columns, Condition and Statement the
--     compiled text with its parameters, Truth what SQLite makes of it, Service the operations on
--     the rows; JSON text, localeCompare, SQLite's reading of text as a number and the order in
--     which SQLite visits the rows, which decides between rows that ORDER BY leaves equal, are
--     parameters; errors of the driver are left out. Ties has when two orders of records agree. Redis is src/storage/redis: Codec the JSON text of a record,
--     Server the commands of the in-process server of send.ts, Service the operations of service.ts;
--     Index, Preservation, Reachable, Commit and Load have proofs. JSON text is a parameter.
--   History: src/HistoryStore.ts in memory and src/storage/sqlite/historyStore.ts, on the same
--     streams of entries.
--   Polling: src/disarmedIdleSleep.ts.
--   Usage: src/internal/apiUsageRegistry.ts, the counters of an API client and the windows it
--     publishes.
--   Tests: concrete instances of the parameters and runs of the operations.
--
-- Conventions. The clock's reading is an argument. `none` as the answer of an operation is a fiber
-- that stays suspended (an offer to a full lane), or an error where the type of the operation says
-- so. What runs between two suspensions is one function; interleavings are sequences of such steps.
-- `drain_loop`, the loop over a lane, runs on fuel: one more than the lane's size, which is enough,
-- since each round polls one item.
--
-- Not modelled: log lines, spans, OTEL metrics, attributes, the forking of fibers and the timers;
-- process supervision, remote resources, the store facets over runtime records, and all user interfaces.
pub mod Prelude
pub mod Lanes
pub mod Durable
pub mod Queue
pub mod Schedule
pub mod Storage
pub mod History
pub mod Polling
pub mod Usage
pub mod Tests
