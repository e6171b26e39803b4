-- ===== src/Metadata/Reopen.antt =====
-- A flush and what a reopened store finds; a flush that fails.
use turbo_supermemory.Common.{
  ℕ, ◌≡◌, refl, sym, [], none, Bool, true, false, ◌||◌, arith, nat_eq, inl, inr, Bool-cases,
  Option-cases,
}
use turbo_supermemory.Common.Dict.{Dict, lookup}
use turbo_supermemory.Record.{redb_commit, ok, err}
use turbo_supermemory.Metadata.{
  Disk, DirtySet, MetadataStore, open_store, write_rows, write_snapshot, nothing_to_do, flush,
}
use turbo_supermemory.Metadata.Synced.{Agrees, IsSynced, write_rows-lookup}

-- The disk has the rows of the cache.
pub record IsOnDisk (m : MetadataStore) : Type 0 where
  pub records : (o : ℕ) → lookup o (open_store m.db).records ≡ lookup o m.records
  pub demotion : (o : ℕ) → lookup o (open_store m.db).demotion ≡ lookup o m.demotion
  pub access_history :
      (o : ℕ) → lookup o (open_store m.db).access_history ≡ lookup o m.access_history

write_rows-Agrees :
    {V : Type 0} (dirty : DirtySet) (cache table : Dict ℕ V)
    → Agrees dirty cache table
    → (o : ℕ) → lookup o (write_rows dirty cache table) ≡ lookup o cache
write_rows-Agrees dirty cache table a o = elim (Option-cases (lookup o dirty)) [
  | inl clean ↦ ground (arith, clean, write_rows-lookup dirty cache table o, a o clean)
  | inr (u, marked) ↦ ground (arith, marked, write_rows-lookup dirty cache table o)
]

-- With no dirty offset there is nothing that the disk lacks.
nothing_to_do-dirty :
    (n : ℕ) (m : MetadataStore)
    → nothing_to_do n m ≡ true
    → (m.dirty ≡ []) × (m.demotion_dirty ≡ []) × (m.access_history_dirty ≡ [])
nothing_to_do-dirty n m h = ground arith

lookup-clean : (o : ℕ) (d : DirtySet) → d ≡ [] → lookup o d ≡ none
unfolding lookup
lookup-clean o d h = rw h

flush_skipped :
    (b : Bool) (n : ℕ) (m : MetadataStore) → nothing_to_do n m ≡ true → (flush b n m).1.db ≡ m.db
unfolding flush
flush_skipped b n m h = rw h

-- If what is not dirty agrees with the disk and the flush returns ok, a store opened from the
-- disk finds every record, demotion factor and access history of the running one.
pub flush-IsOnDisk :
    (committed : Bool) (n : ℕ) (m m' : MetadataStore)
    → IsSynced m
    → flush committed n m ≡ (ok tt, m')
    → IsOnDisk m'
unfolding flush open_store write_snapshot
flush-IsOnDisk committed n m m' s h = elim (Bool-cases (nothing_to_do n m)) [
  | inl idle ↦
      let (d, e, f) = nothing_to_do-dirty n m idle in
      record {
        records = λ o. ground (arith, s.records o (lookup-clean o m.dirty d), idle);
        demotion = λ o. ground (arith, s.demotion o (lookup-clean o m.demotion_dirty e), idle);
        access_history =
            λ o. ground (arith, s.access_history o (lookup-clean o m.access_history_dirty f), idle);
      }
  | inr busy ↦ record {
    records =
        λ o. ground (arith, write_rows-Agrees m.dirty m.records m.db.records s.records o, busy);
    demotion = λ o.
        ground
          (arith, write_rows-Agrees m.demotion_dirty m.demotion m.db.demotion s.demotion o, busy);
    access_history = λ o. ground (
      arith,
      write_rows-Agrees m.access_history_dirty m.access_history m.db.access_history s.access_history
          o,
      busy,
    );
  }
]

cleared : MetadataStore → Disk → MetadataStore
cleared m db = record m { db = db; dirty = []; demotion_dirty = []; access_history_dirty = [] }

cleared-IsSynced :
    (m : MetadataStore) (db : Disk) → IsSynced m → IsOnDisk (cleared m db) → IsSynced (cleared m db)
unfolding cleared open_store
cleared-IsSynced m db s d = record {
  records = λ o h. sym (d.records o);
  demotion = λ o h. sym (d.demotion o);
  access_history = λ o h. sym (d.access_history o);
  distinct = s.distinct;
  counted = s.counted;
}

flush_ok :
    (committed : Bool) (n : ℕ) (m : MetadataStore)
    → (nothing_to_do n m || committed) ≡ true
    → (db : Disk) × (flush committed n m ≡ (ok tt, cleared m db))
unfolding flush cleared
flush_ok committed n m h = elim (Bool-cases (nothing_to_do n m)) [
  | inl idle ↦ (m.db, rw idle)
  | inr busy ↦ (write_snapshot n m, ground (arith, busy))
]

flush_err :
    (committed : Bool) (n : ℕ) (m : MetadataStore)
    → (nothing_to_do n m || committed) ≡ false
    → flush committed n m ≡ (err redb_commit, m)
unfolding flush
flush_err committed n m h = ground arith

-- If what is not dirty agrees with the disk, that is so after a flush as well, whether or not
-- its transaction goes through, and the cached records are the same.
pub flush-IsSynced :
    (committed : Bool) (n : ℕ) (m : MetadataStore)
    → IsSynced m
    → IsSynced (flush committed n m).1 × ((flush committed n m).1.records ≡ m.records)
flush-IsSynced committed n m s = elim (Bool-cases (nothing_to_do n m || committed)) [
  | inl done ↦
      let (db, e) = flush_ok committed n m done in
      rw e (
        cleared-IsSynced m db s (flush-IsOnDisk committed n m (cleared m db) s e),
        unfold cleared in refl,
      )
  | inr failed ↦ rw (flush_err committed n m failed) (s, refl)
]
