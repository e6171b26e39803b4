-- ===== src/Engine/Replay.antt =====
-- `StorageEngine::open` of engine/mod.rs: the replay of the log into the metadata cache and the vector
-- store, the checks that follow it, and the id index. The graph, the payload, scope and text indexes
-- and the segments are built from the same records, and are not part of this state.
use turbo_supermemory.Common.{
  ℕ, ◌+◌, max, String, List, [], ◌∷◌, Option, none, some, Bool, true, false, not, ◌&&◌, ◌||◌, ◌==◌,
  nat_eq, string_eq, ltb, leb, if◌then◌else◌,
}
use turbo_supermemory.Common.Dict.{Dict, insert}
use turbo_supermemory.Record.{
  invalid_argument, corrupted, io, MetaRecord, with_embedding, PointOffset, Result, ok, err, ◌>>=◌,
}
use turbo_supermemory.Wal.Codec.{WalOp}
use turbo_supermemory.Metadata
use turbo_supermemory.Metadata.{
  Disk, MetadataStore, open_store, advance_offset_past, advance_seq_past, is_fresh, max_live,
}
use turbo_supermemory.Vectors
use turbo_supermemory.Vectors.{
  Checks, VectorFile, VectorStore, open_vectors, new_with_capacity, recover,
}
use turbo_supermemory.Access.{new_counters}
use turbo_supermemory.Engine.{Engine}

pub record RecoveryReport : Type 0 where
  pub wal_ops_replayed : ℕ
  pub wal_inserts_without_vector : ℕ
  pub wal_bytes_discarded : ℕ

pub record Replay : Type 0 where
  pub meta : MetadataStore
  pub vectors : VectorStore
  pub report : RecoveryReport
  pub max_seq : ℕ
  pub max_offset : ℕ
  pub replayed : Bool

abbrev count_replayed : RecoveryReport → RecoveryReport
count_replayed r = record r { wal_ops_replayed = r.wal_ops_replayed + 1 }

abbrev count_missing : RecoveryReport → RecoveryReport
count_missing r = record r { wal_inserts_without_vector = r.wal_inserts_without_vector + 1 }

abbrev pub last_applied : Disk → ℕ
last_applied db = elim db.last_applied_seq [ none ↦ 0 | some n ↦ n ]

module _ (k : Checks) (applied : ℕ) where
  -- the part of an insert or a replace that both end with
  abbrev passed : ℕ → PointOffset → Replay → Replay
  passed seq offset st = record st {
    max_seq = max st.max_seq seq;
    max_offset = max st.max_offset offset;
    replayed = true;
  }

  unfoldable pub replay_op : WalOp → Replay → Replay
  replay_op (WalOp.insert offset seq meta crc) st =
      if ltb applied seq
      then passed seq offset (
          let (found, vectors) = recover k offset crc st.vectors in
          elim found [
            | some v ↦ record st {
              meta = Metadata.put offset (with_embedding meta v) st.meta;
              vectors = vectors;
              report = count_replayed st.report;
            }
            | none ↦ record st { vectors = vectors; report = count_missing st.report }
          ])
      else st
  replay_op (WalOp.replace old_offset offset seq meta crc) st =
      if ltb applied seq
      then passed seq offset (
          let (found, vectors) = recover k offset (some crc) st.vectors in
          elim found [
            | some v ↦ record st {
              meta =
                  Metadata.put offset (with_embedding meta v) (Metadata.remove old_offset st.meta);
              vectors = vectors;
              report = count_replayed st.report;
            }
            | none ↦ record st { vectors = vectors; report = count_missing st.report }
          ])
      else st
  replay_op (WalOp.delete offset) st = record st {
    meta = Metadata.remove offset st.meta;
    report = count_replayed st.report;
    replayed = true;
  }
  replay_op (WalOp.flush offset) st = st

  unfoldable pub replay_all : List WalOp → Replay → Replay
  replay_all [] st = st
  replay_all (op ∷ ops) st = replay_all ops (replay_op op st)

-- `sort_by` on (`created_at`, `insert_seq`): stable insertion
abbrev before : MetaRecord → MetaRecord → Bool
before a b =
    ltb a.created_at b.created_at || (a.created_at == b.created_at && leb a.insert_seq b.insert_seq)

unfoldable pub insert_record : PointOffset × MetaRecord → Dict ℕ MetaRecord → Dict ℕ MetaRecord
insert_record a [] = a ∷ []
insert_record a (b ∷ rest) = if before a.1 b.1 then a ∷ b ∷ rest else b ∷ insert_record a rest

unfoldable pub sort_records : Dict ℕ MetaRecord → Dict ℕ MetaRecord
unfolding insert_record
sort_records [] = []
sort_records (a ∷ rest) = insert_record a (sort_records rest)

-- Later records win; one without a vector is passed over.
unfoldable pub index_ids :
    VectorStore → Dict ℕ MetaRecord → Dict String PointOffset → Dict String PointOffset
index_ids s [] index = index
index_ids s ((offset, r) ∷ rest) index =
    index_ids s rest
      (elim (Vectors.get offset s) [ none ↦ index | some v ↦ insert r.id offset index ])

-- What the process finds on disk: the log is the operations of its readable frames.
pub record Image : Type 0 where
  pub db : Disk
  pub vectors : Option VectorFile
  pub wal : List WalOp
  pub wal_bytes_discarded : ℕ
  pub needs_upgrade : Bool

pub record OpenConfig : Type 0 where
  pub dimension : ℕ
  pub initial_capacity : ℕ
  pub sync_writes : Bool
  pub access_history_len : ℕ
  -- no quantizer of the tiers wants a power of two that the dimension is not
  pub quantizers_fit : Bool

unfoldable pub open_vector_store : Checks → OpenConfig → Option VectorFile → Result VectorStore
open_vector_store k config none = new_with_capacity k config.dimension config.initial_capacity
open_vector_store k config (some f) = open_vectors k config.dimension f

unfoldable pub start_replay : Image → VectorStore → Replay
start_replay image vectors = record {
  meta = open_store image.db;
  vectors = vectors;
  report = record {
    wal_ops_replayed = 0;
    wal_inserts_without_vector = 0;
    wal_bytes_discarded = image.wal_bytes_discarded;
  };
  max_seq = last_applied image.db;
  max_offset = 0;
  replayed = false;
}

-- How the steps of `open` that can fail end; `true` is success. On a failure `open` gives no engine.
pub record OpenOutcome : Type 0 where
  pub truncated : Bool
  pub vectors : Bool
  pub committed : Bool
  pub log_synced : Bool
  pub cleared : Bool

abbrev pub all_work : OpenOutcome
all_work = record {
  truncated = true;
  vectors = true;
  committed = true;
  log_synced = true;
  cleared = true;
}

-- A replay that changed something is made durable, and the log is cleared.
unfoldable pub persist : Checks → OpenOutcome → Image → Replay → Result (Replay × List WalOp)
persist k o image st =
    if st.replayed || image.needs_upgrade
    then (let meta = advance_seq_past st.max_seq (advance_offset_past st.max_offset st.meta) in
        let (synced, vectors) = Vectors.flush k o.vectors st.vectors in
        let (flushed, meta') = Metadata.flush o.committed st.max_seq meta in
        synced >>= λ _. flushed >>= λ _.
        if o.log_synced && o.cleared
        then ok (record st { meta = meta'; vectors = vectors }, [])
        else err io)
    else ok (st, image.wal)

abbrev pub live_beyond : Option PointOffset → ℕ → Bool
live_beyond none count = false
live_beyond (some offset) count = leb count offset

-- the value that `open` ends with
abbrev pub opened : OpenConfig → Replay × List WalOp → Engine
opened config (done, log) = record {
  dimension = config.dimension;
  sync_writes = config.sync_writes;
  meta = done.meta;
  vectors = done.vectors;
  wal = log;
  id_index = index_ids done.vectors (sort_records done.meta.records) [];
  counters = new_counters config.access_history_len;
  calls = [];
}

-- the checks after the replay, and the engine
unfoldable pub finish_open :
    Checks
    → OpenConfig
    → OpenOutcome
    → Image
    → (at_open : ℕ) → Replay
    → Result (Engine × RecoveryReport)
finish_open k config o image at_open st = persist k o image st >>= λ saved.
    let done = saved.0 in
    if is_fresh (open_store image.db) && (not st.replayed && ltb 0 at_open)
    then err corrupted
    else if live_beyond (max_live done.meta.records) done.vectors.count
    then err corrupted
    else ok (opened config saved, done.report)

unfoldable pub open_engine :
    Checks → OpenConfig → OpenOutcome → Image → Result (Engine × RecoveryReport)
open_engine k config o image =
    if not config.quantizers_fit
    then err invalid_argument
    else open_vector_store k config image.vectors >>= λ vectors.
        if ltb 0 image.wal_bytes_discarded && not o.truncated
        then err io
        else finish_open k config o image vectors.count
            (replay_all k (last_applied image.db) image.wal (start_replay image vectors))
