-- ===== src/Engine/Durable/Replayed.antt =====
-- What the replay of the log keeps: counted records, the report and the mapping.
use turbo_supermemory.Common.{
  ℕ, ◌≤◌, ◌<◌, ◌≡◌, refl, ◌∙◌, List, [], ◌∷◌, Option, some, Bool, true, false, arith, inl, inr, ◌⊎◌,
  Bool-cases, ◌==◌, nat_eq, string_eq, lt→ltb,
}
use turbo_supermemory.Common.Dict.{Dict, lookup, remove as remove_key}
use turbo_supermemory.Record.{MetaRecord}
use turbo_supermemory.Wal.Codec.{WalOp}
use turbo_supermemory.Metadata
use turbo_supermemory.Metadata.{
  Disk, MetadataStore, open_store, max_live, is_fresh, advance_offset_past, advance_seq_past,
  nothing_to_do,
}
use turbo_supermemory.Vectors
use turbo_supermemory.Vectors.{Checks, VectorFile, VectorStore, recover, open_vectors}
use turbo_supermemory.Vectors.Survival.{HasVector, recover-row}
use turbo_supermemory.Engine.{Engine}
use turbo_supermemory.Engine.Replay.{Replay, Image, replay_op, replay_all, live_beyond}
use turbo_supermemory.Engine.Durable.Spec.{IsReady, AllReady, AllReady-SameRows, replay_op-records}
use turbo_supermemory.Engine.Durable.Stages.{Counted, Counted-insert, Counted-remove, Counted-mono}

-- Whether the log has an operation that replay acts on.
unfoldable pub has_effect : List WalOp → Bool
has_effect [] = false
has_effect (WalOp.insert offset seq meta crc ∷ ops) = true
has_effect (WalOp.replace old offset seq meta crc ∷ ops) = true
has_effect (WalOp.delete offset ∷ ops) = true
has_effect (WalOp.flush offset ∷ ops) = has_effect ops

-- The files of an engine whose process has died.
unfoldable pub image_of : (discarded : ℕ) → (upgrade : Bool) → Engine → Image
image_of discarded upgrade e = record {
  db = e.meta.db;
  vectors = some e.vectors.file;
  wal = e.wal;
  wal_bytes_discarded = discarded;
  needs_upgrade = upgrade;
}

Counted-head : (n o : ℕ) (m : MetaRecord) (d : Dict ℕ MetaRecord) → Counted n ((o, m) ∷ d) → o < n
unfolding lookup
Counted-head n o m d h = h o m (ground arith)

Counted-tail :
    (n o : ℕ) (m : MetaRecord) (d : Dict ℕ MetaRecord) → Counted n ((o, m) ∷ d) → Counted n d
unfolding lookup
Counted-tail n o m d h j r e = elim (Bool-cases (o == j)) [
  | inl same ↦ h j m (ground arith)
  | inr other ↦ h j r (ground (arith, e))
]

-- No live record lies beyond the count, so `open` does not refuse.
pub Counted-max_live :
    (n : ℕ) (d : Dict ℕ MetaRecord) → Counted n d → live_beyond (max_live d) n ≡ false
unfolding max_live
Counted-max_live n [] h = refl
Counted-max_live n ((o, m) ∷ d) h =
    ground (arith, Counted-head n o m d h, Counted-max_live n d (Counted-tail n o m d h))

module _ (k : Checks) where
  -- What one replayed operation keeps.
  pub record Kept (st st' : Replay) : Type 0 where
    pub counted :
        Counted st.vectors.count st.meta.records → Counted st'.vectors.count st'.meta.records
    pub missing : st'.report.wal_inserts_without_vector ≡ st.report.wal_inserts_without_vector
    pub replayed : st.replayed ≡ true → st'.replayed ≡ true
    pub mapped : st'.vectors.mapped ≡ st.vectors.mapped

  recover-count :
      (o : ℕ) (crc : Option ℕ) (s : VectorStore) (v : List ℕ)
      → (recover k o crc s).0 ≡ some v
      → (s.count ≤ (recover k o crc s).1.count) × (o < (recover k o crc s).1.count)
  unfolding recover
  recover-count o crc s v h = ground arith

  found :
      (o : ℕ) (crc : Option ℕ) (s : VectorStore) (v : List ℕ)
      → HasVector k o v s
      → Vectors.accepts k crc v ≡ true
      → s.mapped ≡ true
      → (recover k o crc s).0 ≡ some v
  found o crc s v h a m = recover-row k o crc v s h m ∙ rw a

  recover-mapped :
      (o : ℕ) (crc : Option ℕ) (s : VectorStore) → (recover k o crc s).1.mapped ≡ s.mapped
  unfolding recover
  recover-mapped o crc s = ground arith

  replay_op-Kept :
      (applied : ℕ) (op : WalOp) (st : Replay)
      → IsReady k applied st.vectors op
      → st.vectors.mapped ≡ true
      → Kept st (replay_op k applied op st)
  unfolding replay_op Metadata.put Metadata.remove
  replay_op-Kept applied (WalOp.insert o seq m crc) st (n, (v, h, a)) live =
      let hit = found o crc st.vectors v h a live in
      let (le, lt) = recover-count o crc st.vectors v hit in
      rw (lt→ltb applied seq n, hit)
        (record {
          counted =
              λ c. Counted-insert _ o m st.meta.records lt (Counted-mono _ _ st.meta.records le c);
          missing = refl;
          replayed = λ q. refl;
          mapped = recover-mapped o crc st.vectors;
        })
  replay_op-Kept applied (WalOp.replace old o seq m crc) st (n, (v, h, a)) live =
      let hit = found o (some crc) st.vectors v h a live in
      let (le, lt) = recover-count o (some crc) st.vectors v hit in
      rw (lt→ltb applied seq n, hit)
        (record {
          counted = λ c.
              Counted-insert _ o m (remove_key old st.meta.records) lt
                (Counted-remove _ old st.meta.records (Counted-mono _ _ st.meta.records le c));
          missing = refl;
          replayed = λ q. refl;
          mapped = recover-mapped o (some crc) st.vectors;
        })
  replay_op-Kept applied (WalOp.delete o) st h live = record {
    counted = Counted-remove _ o st.meta.records;
    missing = refl;
    replayed = λ q. refl;
    mapped = refl;
  }
  replay_op-Kept applied (WalOp.flush o) st h live = record {
    counted = λ c. c;
    missing = refl;
    replayed = λ q. q;
    mapped = refl;
  }

  pub replay_all-Kept :
      (applied : ℕ) (ops : List WalOp) (st : Replay)
      → AllReady k applied st.vectors ops
      → st.vectors.mapped ≡ true
      → Kept st (replay_all k applied ops st)
  unfolding replay_all
  replay_all-Kept applied [] st h live = record {
    counted = λ c. c;
    missing = refl;
    replayed = λ q. q;
    mapped = refl;
  }
  replay_all-Kept applied (op ∷ ops) st h live =
      let (now, same) = replay_op-records k applied op st h.0 live in
      let a = replay_op-Kept applied op st h.0 live in
      let b =
        replay_all-Kept applied ops (replay_op k applied op st)
          (AllReady-SameRows k applied _ _ ops same h.1) (a.mapped ∙ live) in
      record {
        counted = λ c. b.counted (a.counted c);
        missing = b.missing ∙ a.missing;
        replayed = λ q. b.replayed (a.replayed q);
        mapped = b.mapped ∙ a.mapped;
      }

  replay_op-acts :
      (applied : ℕ) (op : WalOp) (ops : List WalOp) (st : Replay)
      → IsReady k applied st.vectors op
      → st.vectors.mapped ≡ true
      → has_effect (op ∷ ops) ≡ true
      → ((replay_op k applied op st).replayed ≡ true)
        ⊎ ((replay_op k applied op st ≡ st) × (has_effect ops ≡ true))
  unfolding replay_op has_effect
  replay_op-acts applied (WalOp.insert o seq m crc) ops st (n, r) live q =
      inl (rw (lt→ltb applied seq n) refl)
  replay_op-acts applied (WalOp.replace old o seq m crc) ops st (n, r) live q =
      inl (rw (lt→ltb applied seq n) refl)
  replay_op-acts applied (WalOp.delete o) ops st h live q = inl refl
  replay_op-acts applied (WalOp.flush o) ops st h live q = inr (refl, q)

  -- A log with an effect is noticed.
  pub replay_all-replayed :
      (applied : ℕ) (ops : List WalOp) (st : Replay)
      → AllReady k applied st.vectors ops
      → st.vectors.mapped ≡ true
      → has_effect ops ≡ true
      → (replay_all k applied ops st).replayed ≡ true
  unfolding replay_all
  replay_all-replayed applied [] st h live q = unfold has_effect in cc
  replay_all-replayed applied (op ∷ ops) st h live q =
      let (now, same) = replay_op-records k applied op st h.0 live in
      let rest = AllReady-SameRows k applied _ _ ops same h.1 in
      elim (replay_op-acts applied op ops st h.0 live q) [
        | inl acted ↦
            (replay_all-Kept applied ops (replay_op k applied op st) rest
                (same.mapped ∙ live)).replayed
              acted
        | inr (idle, more) ↦
            replay_all-replayed applied ops (replay_op k applied op st) rest (same.mapped ∙ live)
              more
      ]

  -- A log without one changes nothing.
  pub replay_all-idle :
      (applied : ℕ) (ops : List WalOp) (st : Replay)
      → has_effect ops ≡ false
      → replay_all k applied ops st ≡ st
  unfolding replay_all has_effect replay_op
  replay_all-idle applied [] st q = refl
  replay_all-idle applied (WalOp.insert o seq m crc ∷ ops) st q = cc
  replay_all-idle applied (WalOp.replace old o seq m crc ∷ ops) st q = cc
  replay_all-idle applied (WalOp.delete o ∷ ops) st q = cc
  replay_all-idle applied (WalOp.flush o ∷ ops) st q = replay_all-idle applied ops st q
