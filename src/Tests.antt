-- ===== src/Tests.antt =====
-- The theorems at concrete inputs: a log of small operations, a store of two slots and an engine that
-- is written to, flushed and opened again.
mod Log
mod Store
mod Writes
mod Sets
mod Calls
mod Indexes
