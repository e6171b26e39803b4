-- ===== src/Engine/Durable.antt =====
-- What a process that dies between two calls leaves on disk: the invariant that the snapshot and the
-- log together give the records of the running engine, the calls that keep it, and what `open` makes
-- of it. Deaths inside a call are not part of it.
pub mod Spec
pub mod Stages
pub mod Logged
pub mod Calls
pub mod Batched
pub mod Replayed
pub mod Drained
pub mod Recovery
pub mod Checkpoint
pub mod Limits
