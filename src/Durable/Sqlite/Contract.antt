-- ===== src/Durable/Sqlite/Contract.antt =====
-- The SQLite backend behind the port (src/storage/sqlite/durableQueue.ts).
use effect_pm.Prelude.{List}
use effect_pm.Durable.Port.{DurableStore}
use effect_pm.Durable.Sqlite.{Row, offer, take, complete, fail, sizes, recover, clear, drain}
use effect_pm.Durable.Sqlite.Invariant.{
  IsWellFormed, offer-IsWellFormed, take-IsWellFormed, complete-IsWellFormed, fail-IsWellFormed,
  recover-IsWellFormed, clear-IsWellFormed, drain-IsWellFormed,
}

abbrev pub sqlite_store : (P : Type 0) → DurableStore P
sqlite_store P = record {
  State = List (Row P);
  offer = offer;
  take = take;
  complete = complete;
  fail = fail;
  sizes = sizes;
  recover = recover;
  clear = clear;
  drain = drain;
  IsValid = IsWellFormed;
  offer-IsValid = offer-IsWellFormed;
  take-IsValid = take-IsWellFormed;
  complete-IsValid = complete-IsWellFormed;
  fail-IsValid = fail-IsWellFormed;
  recover-IsValid = recover-IsWellFormed;
  clear-IsValid = clear-IsWellFormed;
  drain-IsValid = drain-IsWellFormed;
}
