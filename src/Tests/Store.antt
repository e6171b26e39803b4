-- ===== src/Tests/Store.antt =====
-- The theorems on metadata_store.rs and vector_store.rs of crates/turbomemory_storage/src.
use turbo_supermemory.Common.{
  ℕ, ◌+◌, ◌≤◌, ◌≡◌, refl, List, [], ◌∷◌, ◌++◌, none, some, true, false, not, arith, ◌==◌, nat_eq,
  leb, min,
}
use turbo_supermemory.Common.Dict.{lookup, insert}
use turbo_supermemory.Record.{MetaRecord, Record, with_embedding, ok, hot}
use turbo_supermemory.Metadata
use turbo_supermemory.Metadata.{
  F32, no_demotion, Disk, MetadataStore, open_store, set_demotion_factor, put_loop, put_batch,
  append_access_history, access_history_of, merge_ring,
}
use turbo_supermemory.Metadata.Synced.{
  IsSynced, open_store-IsSynced, put_batch-IsSynced, set_demotion_factor-IsSynced,
}
use turbo_supermemory.Metadata.Runs.{puts, removes, accesses, flushes, run_meta, run_meta-IsSynced}
use turbo_supermemory.Metadata.Reopen.{IsOnDisk, flush-IsOnDisk}
use turbo_supermemory.Metadata.History.{IsLatest, append_access_history-IsLatest}
use turbo_supermemory.Vectors
use turbo_supermemory.Vectors.{Checks, VectorStore, resized, recover, accepts, open_vectors, stamp}
use turbo_supermemory.Vectors.Slots.{IsSound, succeeded}
use turbo_supermemory.Vectors.Survival.{Stored, put-Stored, reopen-IsSound}
use turbo_supermemory.Vectors.Found.{Compared, recover-put}

abbrev tea : MetaRecord
tea = record {
  id = "a";
  text = "tea";
  importance = 3;
  concepts = [];
  created_at = 5;
  insert_seq = 1;
  access_count = 0;
  last_accessed = 0;
  tier = hot;
  payload = none;
  scope = none;
  source_role = none;
}

abbrev disk : Disk
disk = record {
  records = (0, tea) ∷ [];
  demotion = (0, 5) ∷ [];
  access_history = [];
  next_offset = some 1;
  next_seq = some 2;
  last_applied_seq = some 1;
}

abbrev opened : MetadataStore
opened = open_store disk

opened-IsSynced : IsSynced opened
unfolding lookup
opened-IsSynced = open_store-IsSynced disk (refl, tt)

-- On the bit patterns of factors that are not negative.
abbrev f32 : F32
f32 = record {
  clamp = λ x. min x no_demotion;
  ge_no_demotion = λ x. leb no_demotion x;
  eq = λ x y. x == y;
}

abbrev batch : List (ℕ × Record)
batch = (1, with_embedding tea (1 ∷ 2 ∷ [])) ∷ (0, with_embedding tea (3 ∷ 4 ∷ [])) ∷ []

same_factor :
    (v : ℕ)
    → lookup 0 opened.demotion ≡ some v
    → (v == min 5 no_demotion) ≡ true
    → v ≡ min 5 no_demotion
same_factor v h e = ground arith

set_demotion_factor-IsSynced_example : IsSynced (set_demotion_factor f32 0 5 opened)
set_demotion_factor-IsSynced_example =
    set_demotion_factor-IsSynced f32 0 5 opened same_factor opened-IsSynced

append_access_history-IsLatest_example :
    IsLatest
      (access_history_of opened 0 ++ 9 ∷ 7 ∷ [])
      (access_history_of (append_access_history 0 (9 ∷ 7 ∷ []) 1 opened) 0)
      1
append_access_history-IsLatest_example = append_access_history-IsLatest 0 9 (7 ∷ []) 1 opened

abbrev changed : MetadataStore
changed = put_batch batch opened

abbrev flushed : MetadataStore
flushed = (Metadata.flush true 3 changed).1

changed_flushes : Metadata.flush true 3 changed ≡ (ok tt, flushed)
unfolding Metadata.flush put_batch put_loop open_store insert
changed_flushes = refl

flush-IsOnDisk_example : IsOnDisk flushed
flush-IsOnDisk_example =
    flush-IsOnDisk true 3 changed flushed (put_batch-IsSynced batch opened opened-IsSynced)
      changed_flushes

abbrev sum : List ℕ → ℕ
sum [] = 0
sum (x ∷ xs) = x + sum xs

abbrev checks : Checks
checks = record {
  hash_header = λ h. h.dimension + h.count;
  hash_row = sum;
  is_finite = λ x. true;
  is_nonzero = λ x. not (x == 0);
}

abbrev two_slots : VectorStore
two_slots = record {
  file = record {
    header = record { magic = 0x544d4456; version = 2; dimension = 2; count = 1; header_crc = 3 };
    rows = (6 ∷ 7 ∷ []) ∷ (0 ∷ 0 ∷ []) ∷ [];
  };
  mapped = true;
  dim = 2;
  count = 1;
  slots = 2;
}

two_slots-IsSound : IsSound checks two_slots
unfolding Vectors.validate_header
two_slots-IsSound = record {
  dim_pos = omega arith;
  dim_fits = omega arith;
  small = omega arith;
  valid = refl;
  slots = omega arith;
  count = omega arith;
  stamped = omega arith;
}

put-Stored_example :
    Stored checks 1
      (8 ∷ 9 ∷ [])
      two_slots
      (Vectors.put checks resized 1 (8 ∷ 9 ∷ []) two_slots).1
      (succeeded (Vectors.put checks resized 1 (8 ∷ 9 ∷ []) two_slots).0)
put-Stored_example = put-Stored checks resized 1 (8 ∷ 9 ∷ []) two_slots two_slots-IsSound

reopen-IsSound_example :
    (t : VectorStore) × (open_vectors checks 2 two_slots.file ≡ ok t)
    × IsSound checks t
    × (t.file ≡ two_slots.file)
    × (t.mapped ≡ true)
    × (2 ≤ t.slots)
    × (t.count ≡ 1)
    × (t.dim ≡ 2)
reopen-IsSound_example = reopen-IsSound checks two_slots two_slots-IsSound (omega arith)

recover-put_example :
    (Vectors.get 1 (Vectors.put checks resized 1 (8 ∷ 9 ∷ []) two_slots).1 ≡ some (8 ∷ 9 ∷ []))
    × ((t : VectorStore) × (open_vectors checks 2
            (Vectors.put checks resized 1 (8 ∷ 9 ∷ []) two_slots).1.file
          ≡ ok t)
        × Compared checks 1 17 (8 ∷ 9 ∷ []) t)
unfolding Vectors.put Vectors.write_row
recover-put_example =
    recover-put checks resized 1 17 (8 ∷ 9 ∷ []) two_slots two_slots-IsSound refl (omega arith)

run_meta-IsSynced_example :
    IsSynced
      (run_meta (puts batch ∷ removes 0 ∷ accesses 0 (9 ∷ 7 ∷ []) 1 ∷ flushes false 3 ∷ []) opened)
run_meta-IsSynced_example =
    run_meta-IsSynced (puts batch ∷ removes 0 ∷ accesses 0 (9 ∷ 7 ∷ []) 1 ∷ flushes false 3 ∷ [])
      opened opened-IsSynced
