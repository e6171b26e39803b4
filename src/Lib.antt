-- ===== src/Lib.antt =====
-- The storage engine of TurboSuperMemory, crates/turbomemory_storage: what a write does, what a
-- process that dies leaves, what the next start finds, and which segments and indexes a search reads.
--
-- The parts. A write (engine/write.rs) puts the vector into the mapped vector file (vector_store.rs),
-- logs the rest of the record (wal.rs) and lets the update worker (update_worker.rs) put it into the
-- metadata cache (metadata_store.rs) and the indexes. A flush (engine/mod.rs) drains the access
-- counters (access_counters.rs) into the cache, writes the cache to the redb snapshot and clears the
-- log. At the start (`open` in engine/mod.rs) the log is replayed on top of the snapshot, with the
-- vectors that it names taken from the vector file.
--
-- The files. Common has lists, dictionaries as association lists, sorting and Boolean tests. Record is
-- record.rs with the errors of lib.rs. Wal is wal.rs: Codec its operations, File the writer, Iter the
-- reader; Frames, Torn, Reading and Recovery are about them. Metadata is metadata_store.rs with
-- Synced, Runs, Reopen and History; Vectors is vector_store.rs with Slots, Survival and Found; Access is
-- access_counters.rs. Engine has the state and the stages of a write, Write and Batch are
-- engine/write.rs, Replay is `StorageEngine::open`, Flush is `StorageEngine::flush`, and History has
-- sequences of calls. Durable has the invariant that ties vectors, log and snapshot together,
-- Consistent the one of the id index. Tests has concrete inputs.
--
-- Segments is segment_holder.rs: the plain segment that takes the inserts, the lists of those behind
-- it, and the published snapshot; Found, Visible, Moves and Installs follow an offset through them.
-- Optimizer is optimizer.rs, which works on these lists: Passes, Seals, Merges, Budget, and Rounds for
-- sequences of steps. Scope is scope_index.rs, Bm25 is crates/turbomemory_graph/src/bm25.rs, Ccs
-- is ccs.rs beside it, and Retention is the choice of victims in engine/retention.rs, with Victims
-- and Ranking.
--
-- How state is written. Every operation takes the state and returns the new one. How the fallible steps
-- of a call end is an argument: `Outcome` for a write (resizing the vector file, syncing it, appending
-- to the log and what a failed roll-back leaves there, syncing the log, the indexes, the answer of the
-- worker), `FlushOutcome` for a flush, `OpenOutcome` for a start. Outside these are: the bytes of a cut
-- frame that stay in the log when the roll-back of an append fails, and so the loss of what later
-- calls append behind them; the appends to a log that a failed `clear` left without its header; what
-- a start that fails leaves on disk; errors of opening and reading files; allocation failures and
-- panics.
--
-- The operations of one call run alone, as they do under the write lock and the flush barrier of the
-- source. A process that dies between two calls leaves the snapshot, the vector file and the log
-- (`image_of`). Of deaths inside a call only two are covered, on the level of the files: a log that is
-- cut at any byte, and a vector that was put and never counted. Page caches and power failures are
-- not modelled. u64 counters wrap at 2 ^ 64; f32 values are bit patterns. The header of the vector
-- file has the lower 32 bits of the dimension; its well-formedness asks for a dimension that fits.
--
-- Fuel. `collect` reads the log with fuel one more than the number of its bytes; each frame takes at
-- least eight, so it ends before the fuel does. The loop over the pending seals takes one segment off
-- the queue in each pass that goes on, so fuel above the length of the queue is enough.
--
-- Parameters. bincode, crc32fast and the word encodings are the record `Codec`, with their laws in
-- `IsCodec`; the checksums of vectors, f32 tests, the normalization, the JSON parser and the concept
-- extractor are records of functions without laws. The Roaring bitmap is a record with the laws of a
-- set of numbers, and the tokenizer a function, as are `format!` and serde_json in Ccs. A built segment
-- stands for the offsets that it was built from; an `Arc` is an address of a heap, so that two lists
-- can share a segment.
--
-- Not modelled: the text and payload indexes and the graph, which `open` rebuilds from the records (the
-- engine keeps the list of calls that it makes of them); the directories of segments, their search and
-- the promotion of hot records; gists, deduplication and belief revision; the scores, which are
-- floating point; the GPU, the API and the language bindings.
--
-- Visited is visited_pool.rs, a part of its own: sets of visited nodes with generation tokens.
pub mod Common
pub mod Record
pub mod Wal
pub mod Metadata
pub mod Vectors
pub mod Access
pub mod Engine
pub mod Visited
pub mod Segments
pub mod Optimizer
pub mod Scope
pub mod Retention
pub mod Bm25
pub mod Ccs
pub mod Tests
