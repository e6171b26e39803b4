-- ===== src/Metadata/Synced.antt =====
-- What a flush relies on: an offset that is not dirty has the same row in the cache and on disk.
use turbo_supermemory.Common.{
  ℕ, ◌+◌, ◌%◌, ◌^◌, ◌≡◌, refl, List, [], ◌∷◌, length, none, some, true, arith, nat_eq, inl, inr,
  Option-cases, if◌then◌else◌,
}
use turbo_supermemory.Common.Dict.{
  Dict, lookup, insert, remove as remove_key, has_key, lookup-remove, lookup-insert, Distinct,
  insert-Distinct, remove-Distinct, length-insert, length-remove,
}
use turbo_supermemory.Record.{MetaRecord, Record, meta_of, PointOffset}
use turbo_supermemory.Metadata.{
  F32, differs, Disk, DirtySet, MetadataStore, open_store, set_demotion_factor,
  append_access_history, put_meta, put_loop, put_batch, remove, write_rows,
}

-- Away from the dirty offsets the table agrees with the cache.
abbrev pub Agrees : {V : Type 0} → DirtySet → Dict ℕ V → Dict ℕ V → Type 0
Agrees dirty cache table = (o : ℕ) → lookup o dirty ≡ none → lookup o cache ≡ lookup o table

pub record IsSynced (m : MetadataStore) : Type 0 where
  pub records : Agrees m.dirty m.records m.db.records
  pub demotion : Agrees m.demotion_dirty m.demotion m.db.demotion
  pub access_history : Agrees m.access_history_dirty m.access_history m.db.access_history
  pub distinct : Distinct m.records
  pub counted : m.record_count ≡ length m.records % 2 ^ 64

module _ {V : Type 0} (dirty : DirtySet) (cache table : Dict ℕ V) where
  pub insert-Agrees :
      (k : ℕ) (v : V)
      → Agrees dirty cache table
      → Agrees (insert k tt dirty) (insert k v cache) table
  insert-Agrees k v a o h =
      ground (arith, lookup-insert {V = Unit {0}} k o tt dirty, lookup-insert k o v cache, a o)

  pub remove-Agrees :
      (k : ℕ) → Agrees dirty cache table → Agrees (insert k tt dirty) (remove_key k cache) table
  remove-Agrees k a o h = ground (arith, lookup-insert k o tt dirty, lookup-remove k o cache, a o)

  -- Removing a key marks it only if it was there.
  pub drop-Agrees :
      (k : ℕ)
      → Agrees dirty cache table
      → Agrees (if has_key k cache then insert k tt dirty else dirty) (remove_key k cache) table
  drop-Agrees k a o d =
      ground (arith, lookup-insert {V = Unit {0}} k o tt dirty, lookup-remove k o cache, a o)

-- After the dirty rows are written the table has what the cache has.
pub write_rows-lookup :
    {V : Type 0} (dirty : DirtySet) (cache table : Dict ℕ V) (o : ℕ)
    → lookup o (write_rows dirty cache table)
      ≡ (if has_key o dirty then lookup o cache else lookup o table)
unfolding write_rows lookup
write_rows-lookup [] cache table o = refl
write_rows-lookup ((k, u) ∷ dirty) cache table o = elim (Option-cases (lookup k cache)) [
  | inl absent ↦
      ground (
        arith,
        absent,
        write_rows-lookup dirty cache (remove_key k table) o,
        lookup-remove k o table,
      )
  | inr (v, present) ↦ ground (
    arith,
    present,
    write_rows-lookup dirty cache (insert k v table) o,
    lookup-insert k o v table,
  )
]

pub open_store-IsSynced : (db : Disk) → Distinct db.records → IsSynced (open_store db)
unfolding open_store
open_store-IsSynced db d = record {
  records = λ o h. refl;
  demotion = λ o h. refl;
  access_history = λ o h. refl;
  distinct = d;
  counted = refl;
}

pub put_meta-IsSynced :
    (o : ℕ) (r : MetaRecord) (m : MetadataStore) → IsSynced m → IsSynced (put_meta o r m)
unfolding put_meta
put_meta-IsSynced o r m s = record {
  records = insert-Agrees m.dirty m.records m.db.records o r s.records;
  demotion = s.demotion;
  access_history = s.access_history;
  distinct = insert-Distinct o r m.records s.distinct;
  counted = ground (arith, length-insert o r m.records s.distinct, s.counted);
}

-- If what is not dirty agrees with the disk, offsets are distinct and the record count is right,
-- all of that is so after the removal of an offset, present or not.
pub remove-IsSynced : (o : ℕ) (m : MetadataStore) → IsSynced m → IsSynced (remove o m)
unfolding remove
remove-IsSynced o m s = record {
  records = remove-Agrees m.dirty m.records m.db.records o s.records;
  demotion = drop-Agrees m.demotion_dirty m.demotion m.db.demotion o s.demotion;
  access_history =
      drop-Agrees m.access_history_dirty m.access_history m.db.access_history o s.access_history;
  distinct = remove-Distinct o m.records s.distinct;
  counted = ground (arith, length-remove o m.records s.distinct, s.counted);
}

set_demotion-Agrees :
    (f : F32) (dirty : DirtySet) (cache table : Dict ℕ ℕ) (k factor : ℕ)
    → ((v : ℕ) → lookup k cache ≡ some v → f.eq v factor ≡ true → v ≡ factor)
    → Agrees dirty cache table
    → Agrees
        (if (if f.ge_no_demotion factor then has_key k cache else differs f (lookup k cache) factor)
          then insert k tt dirty
          else dirty)
        (if f.ge_no_demotion factor then remove_key k cache else insert k factor cache)
        table
set_demotion-Agrees f dirty cache table k factor exact a o d =
    elim (Option-cases (lookup k cache)) [
      | inl absent ↦ ground (
        arith,
        absent,
        lookup-insert {V = Unit {0}} k o tt dirty,
        lookup-remove k o cache,
        lookup-insert k o factor cache,
        a o,
      )
      | inr (v, present) ↦ ground (
        arith,
        present,
        lookup-insert {V = Unit {0}} k o tt dirty,
        lookup-remove k o cache,
        lookup-insert k o factor cache,
        a o,
        exact v present,
      )
    ]

-- The same is kept when a demotion factor is set, provided that a stored factor which compares
-- equal to the new one is the same bit pattern (which leaves out the two zeros).
pub set_demotion_factor-IsSynced :
    (f : F32) (o factor : ℕ) (m : MetadataStore)
    → ((v : ℕ) → lookup o m.demotion ≡ some v → f.eq v (f.clamp factor) ≡ true → v ≡ f.clamp factor)
    → IsSynced m
    → IsSynced (set_demotion_factor f o factor m)
unfolding set_demotion_factor
set_demotion_factor-IsSynced f o factor m exact s = record {
  records = s.records;
  demotion =
      set_demotion-Agrees f m.demotion_dirty m.demotion m.db.demotion o (f.clamp factor) exact
        s.demotion;
  access_history = s.access_history;
  distinct = s.distinct;
  counted = s.counted;
}

put_loop-Agrees :
    (rs : List (PointOffset × Record)) (dirty : DirtySet) (cache table : Dict ℕ MetaRecord) (n : ℕ)
    → Agrees dirty cache table
    → Agrees (put_loop rs cache dirty n).1 (put_loop rs cache dirty n).0 table
unfolding put_loop
put_loop-Agrees [] dirty cache table n a = a
put_loop-Agrees ((o, r) ∷ rs) dirty cache table n a =
    put_loop-Agrees rs _ _ table _ (insert-Agrees dirty cache table o (meta_of r) a)

put_loop-Distinct :
    (rs : List (PointOffset × Record)) (dirty : DirtySet) (cache : Dict ℕ MetaRecord) (n : ℕ)
    → Distinct cache
    → Distinct (put_loop rs cache dirty n).0
unfolding put_loop
put_loop-Distinct [] dirty cache n d = d
put_loop-Distinct ((o, r) ∷ rs) dirty cache n d =
    put_loop-Distinct rs _ _ _ (insert-Distinct o (meta_of r) cache d)

-- The number of new offsets is by how much the cache grew.
put_loop-added :
    (rs : List (PointOffset × Record)) (dirty : DirtySet) (cache : Dict ℕ MetaRecord) (n : ℕ)
    → Distinct cache
    → length (put_loop rs cache dirty n).0 + n ≡ length cache + (put_loop rs cache dirty n).2
unfolding put_loop
put_loop-added [] dirty cache n d = refl
put_loop-added ((o, r) ∷ rs) dirty cache n d = ground (
  arith,
  put_loop-added rs (insert o tt dirty) (insert o (meta_of r) cache)
      (if has_key o cache then n else n + 1) (insert-Distinct o (meta_of r) cache d),
  length-insert o (meta_of r) cache d,
)

-- If what is not dirty agrees with the disk, offsets are distinct and the record count is right,
-- all of that is so after a batch of records, repeated offsets included.
pub put_batch-IsSynced :
    (rs : List (PointOffset × Record)) (m : MetadataStore) → IsSynced m → IsSynced (put_batch rs m)
unfolding put_batch
put_batch-IsSynced rs m s = record {
  records = put_loop-Agrees rs m.dirty m.records m.db.records 0 s.records;
  demotion = s.demotion;
  access_history = s.access_history;
  distinct = put_loop-Distinct rs m.dirty m.records 0 s.distinct;
  counted = ground (arith, put_loop-added rs m.dirty m.records 0 s.distinct, s.counted);
}

-- The same is kept when timestamps are appended to an access history.
pub append_access_history-IsSynced :
    (o : ℕ) (ts : List ℕ) (max_len : ℕ) (m : MetadataStore)
    → IsSynced m
    → IsSynced (append_access_history o ts max_len m)
unfolding append_access_history
append_access_history-IsSynced o [] max_len m s = s
append_access_history-IsSynced o (t ∷ ts) max_len m s = record {
  records = s.records;
  demotion = s.demotion;
  access_history =
      insert-Agrees m.access_history_dirty m.access_history m.db.access_history o _
        s.access_history;
  distinct = s.distinct;
  counted = s.counted;
}
