-- ===== src/Metadata/Runs.antt =====
-- Sequences of calls to the cache of crates/turbomemory_storage/src/metadata_store.rs.
use turbo_supermemory.Common.{ℕ, List, [], ◌∷◌, Bool}
use turbo_supermemory.Record.{Record, PointOffset}
use turbo_supermemory.Metadata
use turbo_supermemory.Metadata.{MetadataStore, put_batch, append_access_history}
use turbo_supermemory.Metadata.Synced.{
  IsSynced, put_batch-IsSynced, remove-IsSynced, append_access_history-IsSynced,
}
use turbo_supermemory.Metadata.Reopen.{flush-IsSynced}

pub data MetaCall : Type 0 where
  puts : List (PointOffset × Record) → MetaCall
  removes : PointOffset → MetaCall
  accesses : PointOffset → (timestamps : List ℕ) → (max_len : ℕ) → MetaCall
  flushes : (committed : Bool) → (last_seq : ℕ) → MetaCall

unfoldable pub run_meta : List MetaCall → MetadataStore → MetadataStore
run_meta [] m = m
run_meta (puts rs ∷ cs) m = run_meta cs (put_batch rs m)
run_meta (removes o ∷ cs) m = run_meta cs (Metadata.remove o m)
run_meta (accesses o ts max_len ∷ cs) m = run_meta cs (append_access_history o ts max_len m)
run_meta (flushes committed n ∷ cs) m = run_meta cs (Metadata.flush committed n m).1

-- If what is not dirty agrees with the disk, offsets are distinct and the record count is right,
-- all of that is so after any sequence of batches of records, removals, appends to access
-- histories, and flushes, whether or not their transactions go through.
pub run_meta-IsSynced :
    (cs : List MetaCall) (m : MetadataStore) → IsSynced m → IsSynced (run_meta cs m)
unfolding run_meta
run_meta-IsSynced [] m s = s
run_meta-IsSynced (puts rs ∷ cs) m s = run_meta-IsSynced cs _ (put_batch-IsSynced rs m s)
run_meta-IsSynced (removes o ∷ cs) m s = run_meta-IsSynced cs _ (remove-IsSynced o m s)
run_meta-IsSynced (accesses o ts max_len ∷ cs) m s =
    run_meta-IsSynced cs _ (append_access_history-IsSynced o ts max_len m s)
run_meta-IsSynced (flushes committed n ∷ cs) m s =
    run_meta-IsSynced cs _ (flush-IsSynced committed n m s).0
