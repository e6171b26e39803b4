-- ===== src/Metadata.antt =====
-- crates/turbomemory_storage/src/metadata_store.rs: the cached metadata, what of it is dirty, and
-- the tables of the `redb` snapshot. A table is the map that its rows make; decimal counters of the
-- snapshot are numbers. The u64 counters wrap.
pub mod Synced
pub mod Runs
pub mod Reopen
pub mod History
use turbo_supermemory.Common.{
  ℕ, zero, suc, ◌+◌, ◌-◌, ◌%◌, ◌^◌, max, List, [], ◌∷◌, ◌++◌, length, drop, Option, none, some,
  Bool, true, false, not, ◌&&◌, ltb, ◌==◌, nat_eq, if◌then◌else◌,
}
use turbo_supermemory.Common.Dict.{Dict, lookup, insert, remove as remove_key, has_key}
use turbo_supermemory.Common.Sort.{sort}
use turbo_supermemory.Record.{
  MetaRecord, Record, meta_of, PointOffset, StorageError, redb_commit, Result, ok, err,
}

-- Floating-point operations on bit patterns: `clamp(0.0, 1.0)`, `>= 1.0` and `==`.
pub record F32 : Type 0 where
  pub clamp : ℕ → ℕ
  pub ge_no_demotion : ℕ → Bool
  pub eq : ℕ → ℕ → Bool

-- 1.0, `NO_DEMOTION`
abbrev pub no_demotion : ℕ
no_demotion = 0x3f800000

-- The tables of the snapshot.
pub record Disk : Type 0 where
  pub records : Dict ℕ MetaRecord
  pub demotion : Dict ℕ ℕ
  pub access_history : Dict ℕ (List ℕ)
  pub next_offset : Option ℕ
  pub next_seq : Option ℕ
  pub last_applied_seq : Option ℕ

abbrev pub DirtySet : Type 0
DirtySet = Dict ℕ (Unit {0})

pub record MetadataStore : Type 0 where
  pub db : Disk
  pub records : Dict ℕ MetaRecord
  pub dirty : DirtySet
  pub demotion : Dict ℕ ℕ
  pub demotion_dirty : DirtySet
  pub access_history : Dict ℕ (List ℕ)
  pub access_history_dirty : DirtySet
  pub next_offset : ℕ
  pub next_seq : ℕ
  pub record_count : ℕ

-- `keys().copied().max().map(|m| m + 1).unwrap_or(0)`
unfoldable pub past_keys : Dict ℕ MetaRecord → ℕ
past_keys [] = 0
past_keys ((o, r) ∷ m) = max ((o + 1) % 2 ^ 64) (past_keys m)

-- `values().map(|r| r.insert_seq + 1).max().unwrap_or(1)`
unfoldable pub past_seqs : Dict ℕ MetaRecord → ℕ
past_seqs [] = 1
past_seqs ((o, r) ∷ []) = (r.insert_seq + 1) % 2 ^ 64
past_seqs ((o, r) ∷ e ∷ m) = max ((r.insert_seq + 1) % 2 ^ 64) (past_seqs (e ∷ m))

abbrev or_else : Option ℕ → ℕ → ℕ
or_else none d = d
or_else (some n) d = n

unfoldable pub open_store : Disk → MetadataStore
unfolding past_keys past_seqs
open_store db = record {
  db = db;
  records = db.records;
  dirty = [];
  demotion = db.demotion;
  demotion_dirty = [];
  access_history = db.access_history;
  access_history_dirty = [];
  next_offset = or_else db.next_offset (past_keys db.records);
  next_seq = or_else db.next_seq (past_seqs db.records);
  record_count = length db.records % 2 ^ 64;
}

abbrev pub get : MetadataStore → PointOffset → Option MetaRecord
get m offset = lookup offset m.records

abbrev pub demotion_factor : MetadataStore → PointOffset → ℕ
demotion_factor m offset = or_else (lookup offset m.demotion) no_demotion

abbrev ring : Option (List ℕ) → List ℕ
ring none = []
ring (some r) = r

abbrev pub access_history_of : MetadataStore → PointOffset → List ℕ
access_history_of m offset = ring (lookup offset m.access_history)

-- `map.insert(offset, factor) != Some(factor)`
abbrev pub differs : F32 → Option ℕ → ℕ → Bool
differs f none factor = true
differs f (some old) factor = not (f.eq old factor)

unfoldable pub set_demotion_factor : F32 → PointOffset → ℕ → MetadataStore → MetadataStore
set_demotion_factor f offset factor m =
    let factor = f.clamp factor in
    let changed =
      if f.ge_no_demotion factor
      then has_key offset m.demotion
      else differs f (lookup offset m.demotion) factor in
    record m {
      demotion =
          if f.ge_no_demotion factor
          then remove_key offset m.demotion
          else insert offset factor m.demotion;
      demotion_dirty = if changed then insert offset tt m.demotion_dirty else m.demotion_dirty;
    }

-- the merged ring: sorted, and cut from the front to `max_len`
unfoldable pub merge_ring : List ℕ → List ℕ → ℕ → List ℕ
merge_ring old new max_len =
    let entry = sort (old ++ new) in
    if ltb max_len (length entry) then drop (length entry - max_len) entry else entry

unfoldable pub append_access_history : PointOffset → List ℕ → ℕ → MetadataStore → MetadataStore
append_access_history offset [] max_len m = m
append_access_history offset (t ∷ ts) max_len m = record m {
  access_history =
      insert offset (merge_ring (access_history_of m offset) (t ∷ ts) max_len) m.access_history;
  access_history_dirty = insert offset tt m.access_history_dirty;
}

unfoldable pub put_meta : PointOffset → MetaRecord → MetadataStore → MetadataStore
put_meta offset meta m = record m {
  records = insert offset meta m.records;
  record_count = if has_key offset m.records then m.record_count else (m.record_count + 1) % 2 ^ 64;
  dirty = insert offset tt m.dirty;
}

unfoldable pub put : PointOffset → Record → MetadataStore → MetadataStore
unfolding put_meta
put offset r m = put_meta offset (meta_of r) m

-- the loop of `put_batch`: the cache, the dirty set and how many offsets were new
unfoldable pub put_loop :
    List (PointOffset × Record)
    → Dict ℕ MetaRecord
    → DirtySet
    → ℕ
    → Dict ℕ MetaRecord × DirtySet × ℕ
put_loop [] cache dirty added = (cache, dirty, added)
put_loop ((offset, r) ∷ rest) cache dirty added =
    put_loop rest (insert offset (meta_of r) cache) (insert offset tt dirty)
      (if has_key offset cache then added else added + 1)

unfoldable pub put_batch : List (PointOffset × Record) → MetadataStore → MetadataStore
unfolding put_loop
put_batch records m =
    let (cache, dirty, added) = put_loop records m.records m.dirty 0 in
    record m {
      records = cache;
      dirty = dirty;
      record_count = if ltb 0 added then (m.record_count + added) % 2 ^ 64 else m.record_count;
    }

unfoldable pub remove : PointOffset → MetadataStore → MetadataStore
remove offset m = record m {
  records = remove_key offset m.records;
  record_count =
      if has_key offset m.records then (m.record_count + 2 ^ 64 - 1) % 2 ^ 64 else m.record_count;
  dirty = insert offset tt m.dirty;
  demotion = remove_key offset m.demotion;
  demotion_dirty =
      if has_key offset m.demotion then insert offset tt m.demotion_dirty else m.demotion_dirty;
  access_history = remove_key offset m.access_history;
  access_history_dirty =
      if has_key offset m.access_history
      then insert offset tt m.access_history_dirty
      else m.access_history_dirty;
}

-- The rows of the dirty offsets: written where the cache has a value, removed where it has none.
unfoldable pub write_rows : {V : Type 0} → DirtySet → Dict ℕ V → Dict ℕ V → Dict ℕ V
write_rows [] cache table = table
write_rows ((offset, _) ∷ dirty) cache table =
    write_rows dirty cache (elim (lookup offset cache) [
      | some v ↦ insert offset v table
      | none ↦ remove_key offset table
    ])

-- The transaction that `write_snapshot` commits.
unfoldable pub write_snapshot : ℕ → MetadataStore → Disk
unfolding write_rows
write_snapshot last_applied_seq m = record {
  records = write_rows m.dirty m.records m.db.records;
  demotion = write_rows m.demotion_dirty m.demotion m.db.demotion;
  access_history = write_rows m.access_history_dirty m.access_history m.db.access_history;
  next_offset = some m.next_offset;
  next_seq = some m.next_seq;
  last_applied_seq = some last_applied_seq;
}

abbrev is_empty {ℓ} : {A : Type ℓ} → List A → Bool
is_empty [] = true
is_empty (x ∷ xs) = false

abbrev is_some_of : Option ℕ → ℕ → Bool
is_some_of none n = false
is_some_of (some k) n = k == n

abbrev pub nothing_to_do : ℕ → MetadataStore → Bool
nothing_to_do last_applied_seq m =
    is_empty m.dirty
    && (is_empty m.demotion_dirty
        && (is_empty m.access_history_dirty
            && (is_some_of m.db.last_applied_seq last_applied_seq && is_empty m.records)))

-- `committed` says whether the transaction went through. If not, the dirty sets are put back.
unfoldable pub flush : (committed : Bool) → ℕ → MetadataStore → Result (Unit {0}) × MetadataStore
unfolding write_snapshot
flush committed last_applied_seq m =
    if nothing_to_do last_applied_seq m
    then (ok tt, record m { dirty = []; demotion_dirty = []; access_history_dirty = [] })
    else if committed
    then (
      ok tt,
      record m {
        db = write_snapshot last_applied_seq m;
        dirty = [];
        demotion_dirty = [];
        access_history_dirty = [];
      },
    )
    else (err redb_commit, m)

abbrev pub is_fresh : MetadataStore → Bool
is_fresh m =
    m.record_count == 0
    && (elim m.db.last_applied_seq [ none ↦ true | some _ ↦ false ]
        && elim m.db.next_offset [ none ↦ true | some _ ↦ false ])

-- `keys().copied().max()`
unfoldable pub max_live : Dict ℕ MetaRecord → Option ℕ
max_live [] = none
max_live ((o, r) ∷ m) = elim (max_live m) [ none ↦ some o | some k ↦ some (max o k) ]

-- `fetch_add` returns the value before.
abbrev pub allocate_offset : MetadataStore → PointOffset × MetadataStore
allocate_offset m = (m.next_offset, record m { next_offset = (m.next_offset + 1) % 2 ^ 64 })

abbrev pub allocate_seq : MetadataStore → ℕ × MetadataStore
allocate_seq m = (m.next_seq, record m { next_seq = (m.next_seq + 1) % 2 ^ 64 })

abbrev pub advance_offset_past : PointOffset → MetadataStore → MetadataStore
advance_offset_past offset m = record m { next_offset = max m.next_offset ((offset + 1) % 2 ^ 64) }

abbrev pub advance_seq_past : ℕ → MetadataStore → MetadataStore
advance_seq_past seq m = record m { next_seq = max m.next_seq ((seq + 1) % 2 ^ 64) }
