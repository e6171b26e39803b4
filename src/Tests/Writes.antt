-- ===== src/Tests/Writes.antt =====
-- The theorems on crates/turbomemory_storage/src/engine at a small engine.
use turbo_supermemory.Common.{
  ℕ, ◌+◌, ◌^◌, ◌<◌, ◌≡◌, refl, List, [], ◌∷◌, length, none, some, true, false, not, ◌&&◌, arith,
  ltb, ◌==◌, nat_eq, string_eq,
}
use turbo_supermemory.Common.Dict.{lookup, insert, has_key}
use turbo_supermemory.Record.{io, corrupted, redb_commit, meta_of, ok, err}
use turbo_supermemory.Metadata
use turbo_supermemory.Metadata.{Disk, MetadataStore, open_store, is_fresh}
use turbo_supermemory.Metadata.Synced.{open_store-IsSynced}
use turbo_supermemory.Vectors
use turbo_supermemory.Vectors.{Checks, Header, VectorFile, VectorStore, resized, stamp}
use turbo_supermemory.Vectors.Slots.{IsSound}
use turbo_supermemory.Access.{new_counters, drain_into, drain_all}
use turbo_supermemory.Engine.{
  Engine, Outcome, acknowledged, put_vector, submit_and_wait, sync_vectors_if_configured, log,
  apply_batch, index_loop, index_text, graph_loop, segment_loop, seal_if_needed,
}
use turbo_supermemory.Engine.Write.{
  Inputs, WriteInput, PreparedRecord, prepare, allocate, commit_insert, insert_with_payload_role,
  update_with_payload_role, delete_where,
}
use turbo_supermemory.Engine.Flush.{
  FlushOutcome, to_snapshot, flush, before_snapshot, after_snapshot, flush_meta, flush_vectors,
  drain_counters, clear_log,
}
use turbo_supermemory.Engine.Replay.{
  OpenConfig, Replay, RecoveryReport, all_work, open_engine, replay_all, start_replay, last_applied,
}
use turbo_supermemory.Engine.Durable.Stages.{IsDurable, SameView}
use turbo_supermemory.Engine.Durable.Spec.{apply_ops, replay_all-records}
use turbo_supermemory.Engine.Durable.Logged.{HasRoom}
use turbo_supermemory.Engine.Durable.Calls.{insert-IsDurable, update-IsDurable, delete-IsDurable}
use turbo_supermemory.Engine.Durable.Recovery.{open_engine-restores}
use turbo_supermemory.Engine.Durable.Replayed.{has_effect, image_of}
use turbo_supermemory.Engine.Durable.Checkpoint.{flush-IsDurable, flush_failed-IsDurable}
use turbo_supermemory.Engine.Durable.Limits.{unsynced, open_engine-refuses, insert_unsynced}

abbrev pub sum : List ℕ → ℕ
sum [] = 0
sum (x ∷ xs) = x + sum xs

abbrev pub checks : Checks
checks = record {
  hash_header = λ h. h.dimension + h.count;
  hash_row = sum;
  is_finite = λ x. true;
  is_nonzero = λ x. not (x == 0);
}

abbrev pub inputs : Inputs
inputs = record {
  normalize = λ v. ok v;
  is_finite = λ x. true;
  valid_json = λ p. true;
  merge_concepts = λ concepts text. concepts;
}

-- Everything works.
abbrev pub good : Outcome
good = record {
  resize = resized;
  sync_vectors = true;
  append = true;
  left = 0;
  worker = acknowledged;
  sync_log = true;
  payload = λ o. true;
  text = true;
  segment = λ o. true;
  fills = λ o. false;
  seal = true;
  text_removed = true;
}

abbrev no_append : Outcome
no_append = record good { append = false }

abbrev no_sync : Outcome
no_sync = record good { sync_log = false }

abbrev empty_disk : Disk
empty_disk = record {
  records = [];
  demotion = [];
  access_history = [];
  next_offset = none;
  next_seq = none;
  last_applied_seq = none;
}

abbrev two_slots : VectorStore
two_slots = record {
  file = record {
    header = record { magic = 0x544d4456; version = 2; dimension = 2; count = 0; header_crc = 2 };
    rows = (0 ∷ 0 ∷ []) ∷ (0 ∷ 0 ∷ []) ∷ [];
  };
  mapped = true;
  dim = 2;
  count = 0;
  slots = 2;
}

abbrev pub fresh : Engine
fresh = record {
  dimension = 2;
  sync_writes = true;
  meta = open_store empty_disk;
  vectors = two_slots;
  wal = [];
  id_index = [];
  counters = new_counters 8;
  calls = [];
}

two_slots-IsSound : IsSound checks two_slots
unfolding Vectors.validate_header
two_slots-IsSound = record {
  dim_pos = omega arith;
  dim_fits = omega arith;
  small = omega arith;
  valid = refl;
  slots = omega arith;
  count = omega arith;
  stamped = omega arith;
}

pub fresh-IsDurable : IsDurable checks fresh
unfolding open_store apply_ops Metadata.past_seqs Metadata.past_keys lookup
fresh-IsDurable = record {
  synced = open_store-IsSynced empty_disk tt;
  sound = two_slots-IsSound;
  ready = tt;
  same = λ o. refl;
  below = tt;
  newer = omega arith;
  counted = λ o m e. cc;
  stamped = λ o m e. cc;
}

abbrev pub note : WriteInput
note = record {
  id = "a";
  text = "tea";
  embedding = 1 ∷ 2 ∷ [];
  importance = 3;
  concepts = [];
  payload = none;
  scope = none;
  source_role = none;
}

abbrev revised : WriteInput
revised = record note { text = "coffee"; embedding = 4 ∷ 5 ∷ [] }

fresh-HasRoom : HasRoom fresh
unfolding open_store Metadata.past_seqs Metadata.past_keys
fresh-HasRoom = record { offsets = omega arith; seqs = omega arith }

insert-IsDurable_example :
    IsDurable checks (insert_with_payload_role checks inputs no_append 5 note fresh).1
insert-IsDurable_example =
    insert-IsDurable checks inputs no_append 5 note fresh refl refl fresh-HasRoom fresh-IsDurable

abbrev stored : Engine
stored = (insert_with_payload_role checks inputs good 5 note fresh).1

stored-IsDurable : IsDurable checks stored
stored-IsDurable =
    insert-IsDurable checks inputs good 5 note fresh refl refl fresh-HasRoom fresh-IsDurable

stored-HasRoom : HasRoom stored
unfolding insert_with_payload_role prepare allocate commit_insert put_vector Vectors.put
    Vectors.write_row sync_vectors_if_configured log submit_and_wait apply_batch Metadata.put_batch
    Metadata.put_loop index_loop index_text graph_loop segment_loop seal_if_needed lookup insert
    open_store Metadata.past_seqs Metadata.past_keys
stored-HasRoom = record { offsets = omega arith; seqs = omega arith }

stored_syncs : (stored.sync_writes && not good.sync_log) ≡ false
unfolding insert_with_payload_role prepare allocate commit_insert put_vector Vectors.put
    Vectors.write_row sync_vectors_if_configured log submit_and_wait apply_batch Metadata.put_batch
    Metadata.put_loop index_loop index_text graph_loop segment_loop seal_if_needed lookup insert
    open_store Metadata.past_seqs Metadata.past_keys
stored_syncs = refl

update-IsDurable_example :
    IsDurable checks (update_with_payload_role checks inputs good 6 revised stored).1
update-IsDurable_example =
    update-IsDurable checks inputs good 6 revised stored stored_syncs refl refl stored-HasRoom
      stored-IsDurable

delete-IsDurable_example :
    IsDurable checks (delete_where checks inputs good 6 "a" (λ o. true) stored).1
delete-IsDurable_example =
    delete-IsDurable checks inputs good 6 "a" (λ o. true) stored stored_syncs refl stored-IsDurable

abbrev config : OpenConfig
config = record {
  dimension = 2;
  initial_capacity = 2;
  sync_writes = true;
  access_history_len = 8;
  quantizers_fit = true;
}

stored_small : length stored.vectors.rows < 2 ^ 64
unfolding insert_with_payload_role prepare allocate commit_insert put_vector Vectors.put
    Vectors.write_row sync_vectors_if_configured log submit_and_wait apply_batch Metadata.put_batch
    Metadata.put_loop index_loop index_text graph_loop segment_loop seal_if_needed lookup insert
    open_store Metadata.past_seqs Metadata.past_keys
stored_small = omega arith

stored_dim : config.dimension ≡ stored.vectors.dim
unfolding insert_with_payload_role prepare allocate commit_insert put_vector Vectors.put
    Vectors.write_row sync_vectors_if_configured log submit_and_wait apply_batch Metadata.put_batch
    Metadata.put_loop index_loop index_text graph_loop segment_loop seal_if_needed lookup insert
    open_store Metadata.past_seqs Metadata.past_keys
stored_dim = refl

stored_plausible :
    (is_fresh (open_store stored.meta.db)
      && (not (has_effect stored.wal) && ltb 0 stored.vectors.header.count))
    ≡ false
unfolding insert_with_payload_role prepare allocate commit_insert put_vector Vectors.put
    Vectors.write_row sync_vectors_if_configured log submit_and_wait apply_batch Metadata.put_batch
    Metadata.put_loop index_loop index_text graph_loop segment_loop seal_if_needed lookup insert
    open_store Metadata.past_seqs Metadata.past_keys has_effect
stored_plausible = refl

open_engine-restores_example :
    (e' : Engine) × (report : RecoveryReport) × (open_engine checks config all_work
        (image_of 3 false stored)
      ≡ ok (e', report))
    × SameView e'.meta.records stored.meta.records
    × (report.wal_inserts_without_vector ≡ 0)
open_engine-restores_example =
    open_engine-restores checks config 3 false stored stored-IsDurable stored_small stored_dim refl
      stored_plausible

abbrev flushes : FlushOutcome
flushes = record {
  sealed = true;
  vectors = true;
  log_synced = true;
  text = true;
  committed = true;
  segments = true;
  graph = true;
  ccs = true;
  cleared = true;
  emptied = true;
}

abbrev no_commit : FlushOutcome
no_commit = record flushes { committed = false }

flush_works : (flush checks flushes stored).0 ≡ ok tt
unfolding insert_with_payload_role prepare allocate commit_insert put_vector Vectors.put
    Vectors.write_row sync_vectors_if_configured log submit_and_wait apply_batch Metadata.put_batch
    Metadata.put_loop index_loop index_text graph_loop segment_loop seal_if_needed lookup insert
    open_store Metadata.past_seqs Metadata.past_keys flush to_snapshot before_snapshot
    after_snapshot flush_meta flush_vectors drain_counters drain_into drain_all clear_log
    Vectors.flush Metadata.flush
flush_works = refl

flush-IsDurable_example :
    IsDurable checks (flush checks flushes stored).1
    × ((flush checks flushes stored).1.wal ≡ [])
    × SameView (flush checks flushes stored).1.meta.records stored.meta.records
flush-IsDurable_example = flush-IsDurable checks flushes stored stored-IsDurable flush_works

-- An insert whose vector is in the file and whose append to the log failed.
abbrev unlogged : Engine
unlogged = (insert_with_payload_role checks inputs no_append 5 note fresh).1

unlogged-IsDurable : IsDurable checks unlogged
unlogged-IsDurable =
    insert-IsDurable checks inputs no_append 5 note fresh refl refl fresh-HasRoom fresh-IsDurable

unlogged_fails : (to_snapshot checks no_commit unlogged).0 ≡ err redb_commit
unfolding insert_with_payload_role prepare allocate commit_insert put_vector Vectors.put
    Vectors.write_row sync_vectors_if_configured log submit_and_wait apply_batch Metadata.put_batch
    Metadata.put_loop index_loop index_text graph_loop segment_loop seal_if_needed lookup insert
    open_store Metadata.past_seqs Metadata.past_keys flush to_snapshot before_snapshot
    after_snapshot flush_meta flush_vectors drain_counters drain_into drain_all clear_log
    Vectors.flush Metadata.flush
unlogged_fails = refl

flush_failed-IsDurable_example :
    ((flush checks no_commit unlogged).0 ≡ err redb_commit)
    × IsDurable checks (flush checks no_commit unlogged).1
    × SameView (flush checks no_commit unlogged).1.meta.records unlogged.meta.records
flush_failed-IsDurable_example =
    flush_failed-IsDurable checks no_commit redb_commit unlogged unlogged-IsDurable unlogged_fails

-- Then a flush that stamps the vectors and fails to commit the snapshot.
abbrev stranded : Engine
stranded = (flush checks no_commit unlogged).1

stranded-IsDurable : IsDurable checks stranded
stranded-IsDurable =
    (flush_failed-IsDurable checks no_commit redb_commit unlogged unlogged-IsDurable
      unlogged_fails).1

stranded_facts :
    (length stranded.vectors.rows < 2 ^ 64)
    × (config.dimension ≡ stranded.vectors.dim)
    × (is_fresh (open_store stranded.meta.db) ≡ true)
    × (has_effect stranded.wal ≡ false)
    × (0 < stranded.vectors.header.count)
unfolding insert_with_payload_role prepare allocate commit_insert put_vector Vectors.put
    Vectors.write_row sync_vectors_if_configured log submit_and_wait apply_batch Metadata.put_batch
    Metadata.put_loop index_loop index_text graph_loop segment_loop seal_if_needed lookup insert
    open_store Metadata.past_seqs Metadata.past_keys flush to_snapshot before_snapshot
    after_snapshot flush_meta flush_vectors drain_counters drain_into drain_all clear_log
    Vectors.flush Metadata.flush has_effect
stranded_facts = (omega arith, refl, refl, refl, omega arith)

open_engine-refuses_example :
    open_engine checks config all_work (image_of 0 false stranded) ≡ err corrupted
open_engine-refuses_example =
    open_engine-refuses checks config 0 false stranded stranded-IsDurable stranded_facts.0
      stranded_facts.1 refl stranded_facts.2 stranded_facts.3 stranded_facts.4

abbrev prepared : PreparedRecord
prepared = record {
  id = "a";
  text = "tea";
  embedding = 1 ∷ 2 ∷ [];
  importance = 3;
  concepts = [];
  payload = none;
  scope = none;
  source_role = none;
}

note_good : prepare inputs 2 note ≡ ok prepared
unfolding prepare
note_good = refl

note_stored :
    (put_vector checks no_sync
      (allocate 5 prepared fresh).0.0
      prepared.embedding
      (allocate 5 prepared fresh).1).0
    ≡ ok tt
unfolding insert_with_payload_role prepare allocate commit_insert put_vector Vectors.put
    Vectors.write_row sync_vectors_if_configured log submit_and_wait apply_batch Metadata.put_batch
    Metadata.put_loop index_loop index_text graph_loop segment_loop seal_if_needed lookup insert
    open_store Metadata.past_seqs Metadata.past_keys
note_stored = refl

note_new : has_key "a" fresh.id_index ≡ false
unfolding lookup
note_new = refl

insert_unsynced_example :
    ((insert_with_payload_role checks inputs no_sync 5 note fresh).0 ≡ err io)
    × ((insert_with_payload_role checks inputs no_sync 5 note fresh).1.meta.records
        ≡ fresh.meta.records)
    × (lookup fresh.meta.next_offset (
          apply_ops
            (insert_with_payload_role checks inputs no_sync 5 note fresh).1.wal
            fresh.meta.db.records)
        ≡ some (meta_of (allocate 5 prepared fresh).0.1))
insert_unsynced_example =
    insert_unsynced checks inputs no_sync 5 io note prepared fresh note_good note_new refl refl refl
      (unsynced refl) note_stored

abbrev replaying : Replay
replaying = start_replay (image_of 0 false stored) stored.vectors

stored_mapped : stored.vectors.mapped ≡ true
unfolding insert_with_payload_role prepare allocate commit_insert put_vector Vectors.put
    Vectors.write_row sync_vectors_if_configured log submit_and_wait apply_batch Metadata.put_batch
    Metadata.put_loop index_loop index_text graph_loop segment_loop seal_if_needed lookup insert
    open_store Metadata.past_seqs Metadata.past_keys
stored_mapped = refl

replay_all-records_example :
    (replay_all checks (last_applied stored.meta.db) stored.wal replaying).meta.records
    ≡ apply_ops stored.wal replaying.meta.records
unfolding start_replay
replay_all-records_example =
    replay_all-records checks (last_applied stored.meta.db) stored.wal replaying
      stored-IsDurable.ready stored_mapped
