-- ===== src/Engine/Durable/Stages.antt =====
-- The invariant that ties the running engine to what is on disk, and the stages of a write.
use turbo_supermemory.Common.{
  ℕ, ◌≤◌, ◌<◌, ◌≡◌, refl, sym, ap, ◌∙◌, String, List, [], ◌∷◌, Option, none, some, Bool, true,
  false, arith, inl, inr, Bool-cases, Option-cases, ◌==◌, nat_eq, if◌then◌else◌,
}
use turbo_supermemory.Common.Dict.{
  Dict, lookup, insert, remove as remove_key, lookup-insert, lookup-remove,
}
use turbo_supermemory.Record.{
  invalid_argument, StorageError, MetaRecord, Record, PointOffset, Result, ok, err,
}
use turbo_supermemory.Wal.Codec.{WalOp}
use turbo_supermemory.Metadata
use turbo_supermemory.Metadata.Synced.{IsSynced}
use turbo_supermemory.Metadata.{Disk, MetadataStore, put_batch, put_loop}
use turbo_supermemory.Vectors.{Checks, VectorStore}
use turbo_supermemory.Vectors.Slots.{IsSound}
use turbo_supermemory.Vectors.Survival.{Stored}
use turbo_supermemory.Engine.{
  Engine, Outcome, continue, index_loop, index_text, graph_loop, segment_loop, seal_if_needed,
  apply_batch, submit_and_wait, Reply, acknowledged, disconnected, lost, reaches_worker,
  remove_from_indexes,
}
use turbo_supermemory.Engine.Replay.{last_applied}
use turbo_supermemory.Engine.Durable.Spec.{apply_ops, IsReady, AllReady}

-- A record without its access counts, which are lost in a crash by design.
abbrev pub erase : MetaRecord → MetaRecord
erase m = record m { access_count = 0; last_accessed = 0 }

abbrev pub view : ℕ → Dict ℕ MetaRecord → Option MetaRecord
view o d = elim (lookup o d) [ none ↦ none | some m ↦ some (erase m) ]

-- The same records, up to access counts.
abbrev pub SameView : Dict ℕ MetaRecord → Dict ℕ MetaRecord → Type 0
SameView d d' = (o : ℕ) → view o d ≡ view o d'

view-insert :
    (k o : ℕ) (m : MetaRecord) (d : Dict ℕ MetaRecord)
    → view o (insert k m d) ≡ (if k == o then some (erase m) else view o d)
view-insert k o m d = ground (arith, lookup-insert k o m d)

view-remove :
    (k o : ℕ) (d : Dict ℕ MetaRecord)
    → view o (remove_key k d) ≡ (if k == o then none else view o d)
view-remove k o d = ground (arith, lookup-remove k o d)

pub SameView-insert :
    (k : ℕ) (m : MetaRecord) (d d' : Dict ℕ MetaRecord)
    → SameView d d'
    → SameView (insert k m d) (insert k m d')
SameView-insert k m d d' h o = view-insert k o m d ∙ rw (h o) (sym (view-insert k o m d'))

pub SameView-remove :
    (k : ℕ) (d d' : Dict ℕ MetaRecord) → SameView d d' → SameView (remove_key k d) (remove_key k d')
SameView-remove k d d' h o = view-remove k o d ∙ rw (h o) (sym (view-remove k o d'))

-- Every record lies below the count.
abbrev pub Counted : ℕ → Dict ℕ MetaRecord → Type 0
Counted n d = (o : ℕ) (m : MetaRecord) → lookup o d ≡ some m → o < n

pub Counted-insert :
    (n k : ℕ) (m : MetaRecord) (d : Dict ℕ MetaRecord)
    → k < n
    → Counted n d
    → Counted n (insert k m d)
Counted-insert n k m d lt h o m' e = ground (arith, lookup-insert k o m d, h o m')

pub Counted-remove : (n k : ℕ) (d : Dict ℕ MetaRecord) → Counted n d → Counted n (remove_key k d)
Counted-remove n k d h o m e = ground (arith, lookup-remove k o d, h o m)

pub Counted-mono : (n n' : ℕ) (d : Dict ℕ MetaRecord) → n ≤ n' → Counted n d → Counted n' d
Counted-mono n n' d le h o m e = omega (arith, h o m e)

-- The vectors of the log stand below an offset.
abbrev pub LogBelow : ℕ → List WalOp → Type 0
LogBelow n [] = Unit
LogBelow n (WalOp.insert offset seq meta crc ∷ ops) = (offset < n) × LogBelow n ops
LogBelow n (WalOp.replace old offset seq meta crc ∷ ops) = (offset < n) × LogBelow n ops
LogBelow n (WalOp.delete offset ∷ ops) = LogBelow n ops
LogBelow n (WalOp.flush offset ∷ ops) = LogBelow n ops

module _ (k : Checks) where
  -- From the snapshot and the log the records of the running engine can be rebuilt.
  pub record IsDurable (e : Engine) : Type 0 where
    pub synced : IsSynced e.meta
    pub sound : IsSound k e.vectors
    pub ready : AllReady k (last_applied e.meta.db) e.vectors e.wal
    pub same : SameView (apply_ops e.wal e.meta.db.records) e.meta.records
    pub below : LogBelow e.meta.next_offset e.wal
    pub newer : last_applied e.meta.db < e.meta.next_seq
    pub counted : Counted e.vectors.count e.meta.records
    pub stamped : Counted e.vectors.header.count e.meta.db.records

  IsReady-Stored :
      (applied o : ℕ) (v : List ℕ) (s t : VectorStore) (b : Bool) (op : WalOp) (ops : List WalOp)
      → Stored k o v s t b
      → LogBelow o (op ∷ ops)
      → IsReady k applied s op
      → IsReady k applied t op × LogBelow o ops
  IsReady-Stored applied o v s t b (WalOp.insert j seq m crc) ops w l (n, (u, h, a)) = (
    (
      n,
      (
        u,
        record {
          slot = omega (arith, h.slot, w.slots);
          row = w.others j u (λ e. omega (arith, l.0, e)) h.slot h.row;
          size = h.size ∙ sym w.dim;
        },
        a,
      ),
    ),
    l.1,
  )
  IsReady-Stored applied o v s t b (WalOp.replace old j seq m crc) ops w l (n, (u, h, a)) = (
    (
      n,
      (
        u,
        record {
          slot = omega (arith, h.slot, w.slots);
          row = w.others j u (λ e. omega (arith, l.0, e)) h.slot h.row;
          size = h.size ∙ sym w.dim;
        },
        a,
      ),
    ),
    l.1,
  )
  IsReady-Stored applied o v s t b (WalOp.delete j) ops w l h = (tt, l)
  IsReady-Stored applied o v s t b (WalOp.flush j) ops w l h = (tt, l)

  pub AllReady-Stored :
      (applied o : ℕ) (v : List ℕ) (s t : VectorStore) (b : Bool) (ops : List WalOp)
      → Stored k o v s t b
      → LogBelow o ops
      → AllReady k applied s ops
      → AllReady k applied t ops
  AllReady-Stored applied o v s t b [] w l h = tt
  AllReady-Stored applied o v s t b (op ∷ ops) w l h =
      let (now, l') = IsReady-Stored applied o v s t b op ops w l h.0 in
      (now, AllReady-Stored applied o v s t b ops w l' h.1)

-- The parts of the engine that recovery depends on are the same.
pub record SameCore (e e' : Engine) : Type 0 where
  pub meta : e'.meta ≡ e.meta
  pub vectors : e'.vectors ≡ e.vectors
  pub wal : e'.wal ≡ e.wal

pub SameCore-refl : (e : Engine) → SameCore e e
SameCore-refl e = record { meta = refl; vectors = refl; wal = refl }

SameCore-trans : {e f g : Engine} → SameCore e f → SameCore f g → SameCore e g
SameCore-trans a b = record {
  meta = b.meta ∙ a.meta;
  vectors = b.vectors ∙ a.vectors;
  wal = b.wal ∙ a.wal;
}

-- A sequence of two steps ends in the first, which failed, or in the second.
pub continue-ends {ℓ κ} :
    {A : Type ℓ} {B : Type κ} (P : Engine → Type 0) (m : Result A × Engine)
    (f : A → Engine → Result B × Engine)
    → ((x : StorageError) → m.0 ≡ err x → P m.1)
    → ((a : A) → m.0 ≡ ok a → P (f a m.1).1)
    → P (continue m f).1
continue-ends P (ok a, e) f h g = g a refl
continue-ends P (err x, e) f h g = h x refl

pub continue_ok {ℓ κ} :
    {A : Type ℓ} {B : Type κ} (a : A) (m : Result A × Engine) (f : A → Engine → Result B × Engine)
    → m.0 ≡ ok a
    → continue m f ≡ f a m.1
continue_ok a (ok b, e) f h = let same : b ≡ a = ground arith in ap (λ c. f c e) same
continue_ok a (err y, e) f h = cc

pub continue_err {ℓ κ} :
    {A : Type ℓ} {B : Type κ} (x : StorageError) (m : Result A × Engine)
    (f : A → Engine → Result B × Engine)
    → m.0 ≡ err x
    → continue m f ≡ (err x, m.1)
continue_err x (ok u, e) f h = cc
continue_err x (err y, e) f h = let same : y ≡ x = ground arith in ap (λ z. (err z, e)) same

module _ (o : Outcome) where
  SameCore-index_loop :
      (rs : List (PointOffset × Record)) (e : Engine) → SameCore e (index_loop o rs e).1
  unfolding index_loop
  SameCore-index_loop [] e = SameCore-refl e
  SameCore-index_loop ((offset, r) ∷ rs) e = elim (Bool-cases (o.payload offset)) [
    | inl works ↦ rw works (
        SameCore-trans (record { meta = refl; vectors = refl; wal = refl })
          (SameCore-index_loop rs _))
    | inr fails ↦ rw fails (record { meta = refl; vectors = refl; wal = refl })
  ]

  SameCore-index_text :
      (rs : List (PointOffset × Record)) (e : Engine) → SameCore e (index_text o rs e).1
  unfolding index_text
  SameCore-index_text rs e = record {
    meta = ground arith;
    vectors = ground arith;
    wal = ground arith;
  }

  SameCore-graph_loop :
      (rs : List (PointOffset × Record)) (e : Engine) → SameCore e (graph_loop o rs e)
  unfolding graph_loop
  SameCore-graph_loop [] e = SameCore-refl e
  SameCore-graph_loop ((offset, r) ∷ rs) e =
      SameCore-trans (record { meta = refl; vectors = refl; wal = refl }) (SameCore-graph_loop rs _)

  SameCore-segment_loop :
      (rs : List (PointOffset × Record)) (b : Bool) (e : Engine)
      → SameCore e (segment_loop o rs b e).1
  unfolding segment_loop
  SameCore-segment_loop [] b e = SameCore-refl e
  SameCore-segment_loop ((offset, r) ∷ rs) b e = elim (Bool-cases (o.segment offset)) [
    | inl works ↦ rw works (
        SameCore-trans (record { meta = refl; vectors = refl; wal = refl })
          (SameCore-segment_loop rs _ _))
    | inr fails ↦ rw fails (SameCore-refl e)
  ]

  SameCore-seal : (b : Bool) (e : Engine) → SameCore e (seal_if_needed o b e).1
  unfolding seal_if_needed
  SameCore-seal false e = SameCore-refl e
  SameCore-seal true e = record { meta = ground arith; vectors = ground arith; wal = ground arith }

  -- Whatever fails on the way, the metadata of a batch are in the cache, and neither the log nor the
  -- vectors change.
  pub apply_batch-SameCore :
      (rs : List (PointOffset × Record)) (e : Engine)
      → SameCore (record e { meta = put_batch rs e.meta }) (apply_batch o rs e).1
  unfolding apply_batch
  apply_batch-SameCore rs e =
      let e0 : Engine = record e { meta = put_batch rs e.meta } in
      let s1 = SameCore-index_loop rs e0 in
      continue-ends (SameCore e0) (index_loop o rs e0) _ (λ x q. s1)
        λ _ q1.
          let e1 : Engine = (index_loop o rs e0).1 in
          let s2 = SameCore-trans s1 (SameCore-index_text rs e1) in
          continue-ends (SameCore e0) (index_text o rs e1) _ (λ x q. s2)
            λ _ q2.
              let e2 : Engine = (index_text o rs e1).1 in
              let s3 =
                SameCore-trans s2
                  (SameCore-trans (SameCore-graph_loop rs e2) (SameCore-segment_loop rs false _)) in
              continue-ends (SameCore e0) (segment_loop o rs false (graph_loop o rs e2)) _
                (λ x q. s3) λ b q3. SameCore-trans s3 (SameCore-seal b _)

  pub submit_and_wait-SameCore :
      (rs : List (PointOffset × Record)) (e : Engine)
      → reaches_worker o.worker ≡ true
      → SameCore (record e { meta = put_batch rs e.meta }) (submit_and_wait o rs e).1
  unfolding submit_and_wait
  submit_and_wait-SameCore rs e works = ends o.worker works
    where
      e0 : Engine
      e0 = record e { meta = put_batch rs e.meta }

      ends :
          (w : Reply)
          → reaches_worker w ≡ true
          → SameCore e0
              (elim w as (λ x. Result (Unit {0}) × Engine) [
                | acknowledged ↦ apply_batch o rs e
                | disconnected ↦ (err invalid_argument, e)
                | lost worked ↦ (err invalid_argument, if worked then (apply_batch o rs e).1 else e)
              ]).1
      ends acknowledged q = apply_batch-SameCore rs e
      ends disconnected q = cc
      ends (lost true) q = apply_batch-SameCore rs e
      ends (lost false) q = cc

  pub remove_from_indexes-SameCore :
      (id : String) (offset : ℕ) (e : Engine)
      → o.text_removed ≡ true
      → SameCore
          (record e { meta = Metadata.remove offset e.meta })
          (remove_from_indexes o id offset e).1
        × ((remove_from_indexes o id offset e).0 ≡ ok tt)
  unfolding remove_from_indexes
  remove_from_indexes-SameCore id offset e works =
      elim (Option-cases (lookup offset e.meta.records)) [
        | inl absent ↦
            rw (absent, remove_from_indexes)
              (record { meta = refl; vectors = refl; wal = refl }, refl)
        | inr (r, present) ↦
            rw (present, remove_from_indexes, works)
              (record { meta = refl; vectors = refl; wal = refl }, refl)
      ]
