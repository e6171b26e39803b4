-- ===== src/Engine/Durable/Spec.antt =====
-- What an operation of the log means for the records, and that `replay_all` computes it.
use turbo_supermemory.Common.{
  ℕ, ◌≤◌, ◌<◌, ◌≡◌, refl, sym, ◌∙◌, ap, List, [], ◌∷◌, ◌++◌, Option, some, true, arith, nat_eq,
  lt→ltb,
}
use turbo_supermemory.Common.Dict.{Dict, insert, remove as remove_key}
use turbo_supermemory.Record.{MetaRecord, with_embedding}
use turbo_supermemory.Wal.Codec.{WalOp}
use turbo_supermemory.Metadata
use turbo_supermemory.Metadata.{MetadataStore, put_meta}
use turbo_supermemory.Vectors.{Checks, VectorStore, recover, accepts}
use turbo_supermemory.Vectors.Survival.{HasVector, recover-row}
use turbo_supermemory.Engine.Replay.{Replay, replay_op, replay_all}

abbrev pub apply_op : WalOp → Dict ℕ MetaRecord → Dict ℕ MetaRecord
apply_op (WalOp.insert offset seq meta crc) d = insert offset meta d
apply_op (WalOp.replace old_offset offset seq meta crc) d =
    insert offset meta (remove_key old_offset d)
apply_op (WalOp.delete offset) d = remove_key offset d
apply_op (WalOp.flush offset) d = d

unfoldable pub apply_ops : List WalOp → Dict ℕ MetaRecord → Dict ℕ MetaRecord
apply_ops [] d = d
apply_ops (op ∷ ops) d = apply_ops ops (apply_op op d)

pub apply_ops-append :
    (xs ys : List WalOp) (d : Dict ℕ MetaRecord)
    → apply_ops (xs ++ ys) d ≡ apply_ops ys (apply_ops xs d)
unfolding apply_ops
apply_ops-append [] ys d = refl
apply_ops-append (x ∷ xs) ys d = apply_ops-append xs ys (apply_op x d)

module _ (k : Checks) where
  -- The operation is newer than the snapshot, and its vector is in its slot.
  abbrev pub IsReady : ℕ → VectorStore → WalOp → Type 0
  IsReady applied s (WalOp.insert offset seq meta crc) =
      (applied < seq) × ((v : List ℕ) × HasVector k offset v s × (accepts k crc v ≡ true))
  IsReady applied s (WalOp.replace old_offset offset seq meta crc) =
      (applied < seq) × ((v : List ℕ) × HasVector k offset v s × (accepts k (some crc) v ≡ true))
  IsReady applied s (WalOp.delete offset) = Unit
  IsReady applied s (WalOp.flush offset) = Unit

  abbrev pub AllReady : ℕ → VectorStore → List WalOp → Type 0
  AllReady applied s [] = Unit
  AllReady applied s (op ∷ ops) = IsReady applied s op × AllReady applied s ops

  pub AllReady-append :
      (applied : ℕ) (s : VectorStore) (xs ys : List WalOp)
      → AllReady applied s xs
      → AllReady applied s ys
      → AllReady applied s (xs ++ ys)
  AllReady-append applied s [] ys h g = g
  AllReady-append applied s (x ∷ xs) ys h g = (h.0, AllReady-append applied s xs ys h.1 g)

  -- Two stores with the same slots and rows.
  pub record SameRows (s t : VectorStore) : Type 0 where
    pub file : t.file ≡ s.file
    pub mapped : t.mapped ≡ s.mapped
    pub slots : t.slots ≡ s.slots
    pub dim : t.dim ≡ s.dim

  SameRows-recover : (o : ℕ) (crc : Option ℕ) (s : VectorStore) → SameRows s (recover k o crc s).1
  unfolding recover
  SameRows-recover o crc s = record {
    file = ground arith;
    mapped = ground arith;
    slots = ground arith;
    dim = ground arith;
  }

  HasVector-SameRows :
      (o : ℕ) (v : List ℕ) (s t : VectorStore)
      → SameRows s t
      → HasVector k o v s
      → HasVector k o v t
  HasVector-SameRows o v s t r h = record {
    slot = omega (arith, r.slots, h.slot);
    row = ground (arith, r.file, h.row);
    size = h.size ∙ sym r.dim;
  }

  IsReady-SameRows :
      (applied : ℕ) (s t : VectorStore) (op : WalOp)
      → SameRows s t
      → IsReady applied s op
      → IsReady applied t op
  IsReady-SameRows applied s t (WalOp.insert o seq m crc) r (n, (v, h, a)) =
      (n, (v, HasVector-SameRows o v s t r h, a))
  IsReady-SameRows applied s t (WalOp.replace old o seq m crc) r (n, (v, h, a)) =
      (n, (v, HasVector-SameRows o v s t r h, a))
  IsReady-SameRows applied s t (WalOp.delete o) r h = tt
  IsReady-SameRows applied s t (WalOp.flush o) r h = tt

  pub AllReady-SameRows :
      (applied : ℕ) (s t : VectorStore) (ops : List WalOp)
      → SameRows s t
      → AllReady applied s ops
      → AllReady applied t ops
  AllReady-SameRows applied s t [] r h = tt
  AllReady-SameRows applied s t (op ∷ ops) r h =
      (IsReady-SameRows applied s t op r h.0, AllReady-SameRows applied s t ops r h.1)

  HasVector-reopened :
      (o : ℕ) (v : List ℕ) (s t : VectorStore)
      → t.rows ≡ s.rows
      → s.slots ≤ t.slots
      → t.dim ≡ s.dim
      → HasVector k o v s
      → HasVector k o v t
  HasVector-reopened o v s t rows slots dim h = record {
    slot = omega (arith, h.slot, slots);
    row = ground (arith, rows, h.row);
    size = h.size ∙ sym dim;
  }

  -- The same rows in a longer file.
  pub AllReady-reopened :
      (applied : ℕ) (s t : VectorStore) (ops : List WalOp)
      → t.rows ≡ s.rows
      → s.slots ≤ t.slots
      → t.dim ≡ s.dim
      → AllReady applied s ops
      → AllReady applied t ops
  AllReady-reopened applied s t [] f l d h = tt
  AllReady-reopened applied s t (WalOp.insert o seq m crc ∷ ops) f l d ((n, (v, w, a)), h) =
      ((n, (v, HasVector-reopened o v s t f l d w, a)), AllReady-reopened applied s t ops f l d h)
  AllReady-reopened applied s t (WalOp.replace old o seq m crc ∷ ops) f l d ((n, (v, w, a)), h) =
      ((n, (v, HasVector-reopened o v s t f l d w, a)), AllReady-reopened applied s t ops f l d h)
  AllReady-reopened applied s t (WalOp.delete o ∷ ops) f l d h =
      (tt, AllReady-reopened applied s t ops f l d h.1)
  AllReady-reopened applied s t (WalOp.flush o ∷ ops) f l d h =
      (tt, AllReady-reopened applied s t ops f l d h.1)

  recover_ready :
      (o : ℕ) (crc : Option ℕ) (s : VectorStore) (v : List ℕ)
      → HasVector k o v s
      → accepts k crc v ≡ true
      → s.mapped ≡ true
      → (recover k o crc s).0 ≡ some v
  recover_ready o crc s v h a m = recover-row k o crc v s h m ∙ rw a

  records-put :
      (o : ℕ) (m : MetaRecord) (v : List ℕ) (s : MetadataStore)
      → (Metadata.put o (with_embedding m v) s).records ≡ insert o m s.records
  unfolding Metadata.put
  records-put o m v s = refl

  records-remove :
      (o : ℕ) (s : MetadataStore) → (Metadata.remove o s).records ≡ remove_key o s.records
  unfolding Metadata.remove
  records-remove o s = refl

  -- One operation of the log, replayed.
  pub replay_op-records :
      (applied : ℕ) (op : WalOp) (st : Replay)
      → IsReady applied st.vectors op
      → st.vectors.mapped ≡ true
      → ((replay_op k applied op st).meta.records ≡ apply_op op st.meta.records)
        × SameRows st.vectors (replay_op k applied op st).vectors
  unfolding replay_op
  replay_op-records applied (WalOp.insert o seq m crc) st (n, (v, h, a)) live =
      rw (lt→ltb applied seq n, recover_ready o crc st.vectors v h a live)
        (records-put o m v st.meta, SameRows-recover o crc st.vectors)
  replay_op-records applied (WalOp.replace old o seq m crc) st (n, (v, h, a)) live =
      rw (lt→ltb applied seq n, recover_ready o (some crc) st.vectors v h a live)
        (
          records-put o m v (Metadata.remove old st.meta)
              ∙ ap (insert o m) (records-remove old st.meta),
          SameRows-recover o (some crc) st.vectors,
        )
  replay_op-records applied (WalOp.delete o) st h live =
      (records-remove o st.meta, record { file = refl; mapped = refl; slots = refl; dim = refl })
  replay_op-records applied (WalOp.flush o) st h live =
      (refl, record { file = refl; mapped = refl; slots = refl; dim = refl })

  -- If the vector store is mapped, every insert and replace of the log is newer than the
  -- snapshot, and its vector stands in its slot and passes its check, the replay makes of the
  -- records what the operations of the log, applied one after the other, make of them.
  pub replay_all-records :
      (applied : ℕ) (ops : List WalOp) (st : Replay)
      → AllReady applied st.vectors ops
      → st.vectors.mapped ≡ true
      → (replay_all k applied ops st).meta.records ≡ apply_ops ops st.meta.records
  unfolding replay_all apply_ops
  replay_all-records applied [] st h live = refl
  replay_all-records applied (op ∷ ops) st h live =
      let (now, same) = replay_op-records applied op st h.0 live in
      replay_all-records applied ops (replay_op k applied op st)
        (AllReady-SameRows applied _ _ ops same h.1) (same.mapped ∙ live)
      ∙ ap (apply_ops ops) now
