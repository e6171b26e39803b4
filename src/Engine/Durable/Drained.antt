-- ===== src/Engine/Durable/Drained.antt =====
-- Draining the access counters changes access counts and history only.
use turbo_supermemory.Common.{
  ℕ, ◌≡◌, refl, ◌∙◌, List, [], ◌∷◌, some, arith, inl, inr, Bool-cases, Option-cases, ◌==◌, nat_eq,
  string_eq,
}
use turbo_supermemory.Common.Dict.{Dict, lookup, lookup-insert}
use turbo_supermemory.Common.Sort.{sort}
use turbo_supermemory.Record.{MetaRecord}
use turbo_supermemory.Metadata.{MetadataStore, append_access_history, put_meta}
use turbo_supermemory.Metadata.Synced.{IsSynced, put_meta-IsSynced, append_access_history-IsSynced}
use turbo_supermemory.Access.{AccessEntry, nonzero, drain_entry, drain_all}
use turbo_supermemory.Engine.Flush.{}
use turbo_supermemory.Engine.Durable.Stages.{erase, SameView, Counted}

-- Two stores that differ in access counts and history only.
pub record Drained (m m' : MetadataStore) : Type 0 where
  pub view : SameView m'.records m.records
  pub synced : IsSynced m → IsSynced m'
  pub db : m'.db ≡ m.db
  pub next_offset : m'.next_offset ≡ m.next_offset
  pub next_seq : m'.next_seq ≡ m.next_seq
  pub counted : (n : ℕ) → Counted n m.records → Counted n m'.records

Drained-refl : (m : MetadataStore) → Drained m m
Drained-refl m = record {
  view = λ o. refl;
  synced = λ s. s;
  db = refl;
  next_offset = refl;
  next_seq = refl;
  counted = λ n c. c;
}

Drained-trans : (a b c : MetadataStore) → Drained a b → Drained b c → Drained a c
Drained-trans a b c f g = record {
  view = λ o. g.view o ∙ f.view o;
  synced = λ s. g.synced (f.synced s);
  db = g.db ∙ f.db;
  next_offset = g.next_offset ∙ f.next_offset;
  next_seq = g.next_seq ∙ f.next_seq;
  counted = λ n c. g.counted n (f.counted n c);
}

append-Drained :
    (o : ℕ) (ts : List ℕ) (n : ℕ) (m : MetadataStore) → Drained m (append_access_history o ts n m)
append-Drained o [] n m = record (unfold append_access_history in Drained-refl m) {
  synced = append_access_history-IsSynced o [] n m;
}
append-Drained o (t ∷ ts) n m = record {
  view = λ j. unfold append_access_history in refl;
  synced = append_access_history-IsSynced o (t ∷ ts) n m;
  db = unfold append_access_history in refl;
  next_offset = unfold append_access_history in refl;
  next_seq = unfold append_access_history in refl;
  counted = λ j c. unfold append_access_history in c;
}

put_meta-Drained :
    (o : ℕ) (r r' : MetaRecord) (m : MetadataStore)
    → lookup o m.records ≡ some r
    → erase r' ≡ erase r
    → Drained m (put_meta o r' m)
unfolding put_meta
put_meta-Drained o r r' m present same = record {
  view = λ j. ground (arith, lookup-insert o j r' m.records, present, same);
  synced = put_meta-IsSynced o r' m;
  db = refl;
  next_offset = refl;
  next_seq = refl;
  counted = λ n c j q e. ground (arith, lookup-insert o j r' m.records, c o r present, c j q, e);
}

drain_entry-Drained :
    (n o : ℕ) (e : AccessEntry) (m : MetadataStore) → Drained m (drain_entry n o e m)
unfolding drain_entry
drain_entry-Drained n o e m = elim (Bool-cases (e.count == 0)) [
  | inl unused ↦ simp unused (Drained-refl m)
  | inr used ↦ elim (Option-cases (lookup o m.records)) [
    | inl gone ↦ rw (used, gone, drain_entry) (Drained-refl m)
    | inr (r, present) ↦
        rw (used, present, drain_entry)
          (Drained-trans m _ _ (put_meta-Drained o r _ m present refl)
            (append-Drained o (sort (nonzero e.ring)) n _))
  ]
]

pub drain_all-Drained :
    (n : ℕ) (entries : Dict ℕ AccessEntry) (m : MetadataStore) → Drained m (drain_all n entries m)
unfolding drain_all
drain_all-Drained n [] m = Drained-refl m
drain_all-Drained n ((o, e) ∷ rest) m =
    Drained-trans m _ _ (drain_entry-Drained n o e m) (drain_all-Drained n rest _)
