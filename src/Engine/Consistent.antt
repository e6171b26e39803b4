-- ===== src/Engine/Consistent.antt =====
-- The id index and the records agree: the invariant and the steps of the worker.
pub mod Calls
pub mod Writes
pub mod Batches
pub mod Histories
use turbo_supermemory.Common.{
  ℕ, ◌+◌, ◌-◌, ◌%◌, ◌^◌, ◌≤◌, ◌<◌, ◌≡◌, ◌≢◌, refl, sym, ◌∙◌, ap, subst, String, List, [], ◌∷◌, ◌++◌,
  length, Option, none, some, Bool, true, false, not, ◌&&◌, inl, inr, Bool-cases, Option-cases,
  nat_eq, string_eq, arith, if◌then◌else◌, ◌==◌,
}
use turbo_supermemory.Common.Dict.{
  Dict, lookup, insert, remove as remove_key, has_key, lookup-insert, lookup-remove,
  lookup-remove_some, lookup-insert_some, lookup-remove_ne, lookup-insert_ne, lookup-insert_self,
}
use turbo_supermemory.Record.{
  StorageError, MetaRecord, Record, meta_of, PointOffset, Result, ok, err,
}
use turbo_supermemory.Wal.Codec.{WalOp}
use turbo_supermemory.Metadata
use turbo_supermemory.Metadata.{MetadataStore, DirtySet, put_batch, put_loop}
use turbo_supermemory.Vectors.{Checks}
use turbo_supermemory.Engine.{
  Engine, Outcome, continue, put_vector, sync_vectors_if_configured, log, index_loop, index_text,
  graph_loop, segment_loop, seal_if_needed, apply_batch, remove_from_indexes,
}
use turbo_supermemory.Engine.Durable.Stages.{
  erase, view, SameView, Counted, Counted-mono, Counted-insert, Counted-remove, continue-ends,
}
use turbo_supermemory.Engine.Durable.Batched.{Rising}

-- Every id of the index stands for the offset of a record that has this id.
abbrev pub Live : Dict String ℕ → Dict ℕ MetaRecord → Type 0
Live ids records =
    (id : String) (o : ℕ)
    → lookup id ids ≡ some o
    → (m : MetaRecord) × (lookup o records ≡ some m) × (m.id ≡ id)

-- And every record lies below the offset that is handed out next.
pub record IsConsistent (e : Engine) : Type 0 where
  pub live : Live e.id_index e.meta.records
  pub below : Counted e.meta.next_offset e.meta.records

same_record :
    (o o' : ℕ) (m m' : MetaRecord) (d : Dict ℕ MetaRecord)
    → o ≡ o'
    → lookup o d ≡ some m
    → lookup o' d ≡ some m'
    → m ≡ m'
same_record o o' m m' d q h h' = ground arith

-- An id has one offset, and an offset one id.
pub Live-remove :
    (id : String) (old : ℕ) (ids : Dict String ℕ) (records : Dict ℕ MetaRecord)
    → lookup id ids ≡ some old
    → Live ids records
    → Live (remove_key id ids) (remove_key old records)
Live-remove id old ids records known h j o e =
    let (ne, was) = lookup-remove_some id j o ids e in
    let (m, here, named) = h j o was in
    let (m', here', named') = h id old known in
    (
      m,
      lookup-remove_ne old o records (λ q. ne (
            sym named'
            ∙ ap (λ (x : MetaRecord). x.id) (same_record old o m' m records q here' here)
            ∙ named))
          ∙ here,
      named,
    )

Live-insert :
    (o : ℕ) (r : Record) (ids : Dict String ℕ) (records : Dict ℕ MetaRecord)
    → lookup o records ≡ some (meta_of r)
    → Live ids records
    → Live (insert r.id o ids) records
Live-insert o r ids records here h j i e = elim (lookup-insert_some r.id j o i ids e) [
  | inl (same, at) ↦ (meta_of r, rw (← at) here, same)
  | inr (ne, was) ↦ h j i was
]

-- A record at an offset that no record had does not disturb the index.
Live-put :
    (o : ℕ) (m : MetaRecord) (ids : Dict String ℕ) (records : Dict ℕ MetaRecord)
    → lookup o records ≡ none
    → Live ids records
    → Live ids (insert o m records)
Live-put o m ids records absent h id i e =
    let (m', here, named) = h id i e in
    (m', lookup-insert_ne o i m records (λ q. ground (arith, q, here, absent)) ∙ here, named)

view-some :
    (o : ℕ) (m : MetaRecord) (d d' : Dict ℕ MetaRecord)
    → view o d' ≡ view o d
    → lookup o d ≡ some m
    → (m' : MetaRecord) × (lookup o d' ≡ some m') × (erase m' ≡ erase m)
view-some o m d d' v h = elim (Option-cases (lookup o d')) [
  | inl absent ↦ ground (arith, absent, v, h)
  | inr (m', here) ↦ (m', here, ground (arith, here, v, h))
]

pub Live-SameView :
    (ids : Dict String ℕ) (d d' : Dict ℕ MetaRecord) → SameView d' d → Live ids d → Live ids d'
Live-SameView ids d d' v h id o e =
    let (m, here, named) = h id o e in
    let (m', here', same) = view-some o m d d' (v o) here in
    (m', here', ap (λ (x : MetaRecord). x.id) same ∙ named)

pub Counted-SameView :
    (n : ℕ) (d d' : Dict ℕ MetaRecord) → SameView d' d → Counted n d → Counted n d'
Counted-SameView n d d' v h o m' e =
    let (m, here, same) = view-some o m' d' d (sym (v o)) e in h o m here

pub Counted-absent : (n o : ℕ) (d : Dict ℕ MetaRecord) → Counted n d → n ≤ o → lookup o d ≡ none
Counted-absent n o d c le = elim (Option-cases (lookup o d)) [
  | inl absent ↦ absent
  | inr (m, here) ↦ absurd (omega (arith, c o m here))
]

-- The records of a batch are where they were placed.
abbrev pub Present : List (PointOffset × Record) → Dict ℕ MetaRecord → Type 0
Present [] d = Unit
Present ((o, r) ∷ rs) d = (lookup o d ≡ some (meta_of r)) × Present rs d

put_loop-below :
    (n j : ℕ) (rs : List (PointOffset × Record)) (cache : Dict ℕ MetaRecord) (dirty : DirtySet)
    (a : ℕ)
    → Rising n rs
    → j < n
    → lookup j (put_loop rs cache dirty a).0 ≡ lookup j cache
unfolding put_loop
put_loop-below n j [] cache dirty a r lt = refl
put_loop-below n j ((o, x) ∷ rs) cache dirty a (le, r) lt =
    put_loop-below (o + 1) j rs _ _ _ r (omega arith)
    ∙ lookup-insert_ne o j (meta_of x) cache (λ q. omega arith)

-- Records at fresh offsets, in rising order, keep the index live and are all there.
pub put_loop-Live :
    (n : ℕ) (ids : Dict String ℕ) (rs : List (PointOffset × Record)) (cache : Dict ℕ MetaRecord)
    (dirty : DirtySet) (a : ℕ)
    → Rising n rs
    → Counted n cache
    → Live ids cache
    → Live ids (put_loop rs cache dirty a).0 × Present rs (put_loop rs cache dirty a).0
unfolding put_loop
put_loop-Live n ids [] cache dirty a r c h = (h, tt)
put_loop-Live n ids ((o, x) ∷ rs) cache dirty a (le, r) c h =
    let (live, present) =
      put_loop-Live (o + 1) ids rs (insert o (meta_of x) cache) _ _ r
        (Counted-insert (o + 1) o (meta_of x) cache (omega arith)
          (Counted-mono n (o + 1) cache (omega arith) c))
        (Live-put o (meta_of x) ids cache (Counted-absent n o cache c le) h) in
    (
      live,
      (
        put_loop-below (o + 1) o rs _ _ _ r (omega arith) ∙ lookup-insert_self o (meta_of x) cache,
        present,
      ),
    )

abbrev pub Below : ℕ → List (PointOffset × Record) → Type 0
Below n [] = Unit
Below n ((o, r) ∷ rs) = (o < n) × Below n rs

pub put_loop-bound :
    (n : ℕ) (rs : List (PointOffset × Record)) (cache : Dict ℕ MetaRecord) (dirty : DirtySet)
    (a : ℕ)
    → Below n rs
    → Counted n cache
    → Counted n (put_loop rs cache dirty a).0
unfolding put_loop
put_loop-bound n [] cache dirty a p c = c
put_loop-bound n ((o, x) ∷ rs) cache dirty a (lt, p) c =
    put_loop-bound n rs _ _ _ p (Counted-insert n o (meta_of x) cache lt c)

-- The metadata and the id index are the same.
pub record SameIds (e e' : Engine) : Type 0 where
  pub meta : e'.meta ≡ e.meta
  pub ids : e'.id_index ≡ e.id_index

pub SameIds-trans : {e f g : Engine} → SameIds e f → SameIds f g → SameIds e g
SameIds-trans a b = record { meta = b.meta ∙ a.meta; ids = b.ids ∙ a.ids }

pub IsConsistent-SameIds : (e e' : Engine) → SameIds e e' → IsConsistent e → IsConsistent e'
IsConsistent-SameIds e e' s h = record {
  live =
      subst (λ d. Live d e'.meta.records) (sym s.ids)
        (subst (λ (m : MetadataStore). Live e.id_index m.records) (sym s.meta) h.live);
  below = subst (λ (m : MetadataStore). Counted m.next_offset m.records) (sym s.meta) h.below;
}

module _ (out : Outcome) where
  pub index_loop-Live :
      (rs : List (PointOffset × Record)) (e : Engine)
      → Present rs e.meta.records
      → Live e.id_index e.meta.records
      → Live (index_loop out rs e).1.id_index e.meta.records
        × ((index_loop out rs e).1.meta ≡ e.meta)
  unfolding index_loop
  index_loop-Live [] e p h = (h, refl)
  index_loop-Live ((o, r) ∷ rs) e (here, p) h =
      let live = Live-insert o r e.id_index e.meta.records here h in
      elim (Bool-cases (out.payload o)) [
        | inl works ↦ rw works (index_loop-Live rs _ p live)
        | inr fails ↦ rw fails (live, refl)
      ]

  pub index_text-SameIds :
      (rs : List (PointOffset × Record)) (e : Engine) → SameIds e (index_text out rs e).1
  unfolding index_text
  index_text-SameIds rs e = record { meta = ground arith; ids = ground arith }

  pub graph_loop-SameIds :
      (rs : List (PointOffset × Record)) (e : Engine) → SameIds e (graph_loop out rs e)
  unfolding graph_loop
  graph_loop-SameIds [] e = record { meta = refl; ids = refl }
  graph_loop-SameIds (r ∷ rs) e =
      SameIds-trans (record { meta = refl; ids = refl }) (graph_loop-SameIds rs _)

  pub segment_loop-SameIds :
      (rs : List (PointOffset × Record)) (b : Bool) (e : Engine)
      → SameIds e (segment_loop out rs b e).1
  unfolding segment_loop
  segment_loop-SameIds [] b e = record { meta = refl; ids = refl }
  segment_loop-SameIds ((o, r) ∷ rs) b e = elim (Bool-cases (out.segment o)) [
    | inl works ↦
        rw works (SameIds-trans (record { meta = refl; ids = refl }) (segment_loop-SameIds rs _ _))
    | inr fails ↦ rw fails (record { meta = refl; ids = refl })
  ]

  pub seal-SameIds : (b : Bool) (e : Engine) → SameIds e (seal_if_needed out b e).1
  unfolding seal_if_needed
  seal-SameIds false e = record { meta = refl; ids = refl }
  seal-SameIds true e = record { meta = ground arith; ids = ground arith }
