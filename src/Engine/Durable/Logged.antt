-- ===== src/Engine/Durable/Logged.antt =====
-- The steps that the writes are made of keep the invariant: the vector, the log record and the cache.
use turbo_supermemory.Common.{
  ℕ, ◌+◌, ◌^◌, ◌≤◌, ◌<◌, ◌≡◌, refl, sym, ap, subst, List, [], ◌∷◌, ◌++◌, Bool, false, not, ◌&&◌,
  arith, inl, inr, ◌⊎◌, Bool-cases, nat_eq, string_eq,
}
use turbo_supermemory.Common.Dict.{insert, remove as remove_key}
use turbo_supermemory.Record.{StorageError, Record, meta_of, Result, ok, err}
use turbo_supermemory.Wal.Codec.{WalOp}
use turbo_supermemory.Metadata
use turbo_supermemory.Metadata.Synced.{IsSynced, put_batch-IsSynced, remove-IsSynced}
use turbo_supermemory.Metadata.{
  Disk, MetadataStore, put_batch, put_loop, allocate_offset, allocate_seq,
}
use turbo_supermemory.Vectors.{Checks, accepts}
use turbo_supermemory.Vectors.Slots.{IsSound, succeeded}
use turbo_supermemory.Vectors.Survival.{HasVector, put-Stored}
use turbo_supermemory.Engine.{
  Engine, Outcome, leave, continue, put_vector, sync_vectors_if_configured, log,
}
use turbo_supermemory.Engine.Replay.{last_applied}
use turbo_supermemory.Engine.Write.{PreparedRecord, allocate, insert_op, replace_op}
use turbo_supermemory.Engine.Durable.Spec.{apply_ops, apply_ops-append, AllReady-append}
use turbo_supermemory.Engine.Durable.Stages.{
  SameView, SameView-insert, SameView-remove, Counted-insert, Counted-remove, Counted-mono,
  LogBelow, IsDurable, AllReady-Stored, SameCore, continue-ends,
}

pub put_batch-SameCore :
    (o : ℕ) (r : Record) (e e' : Engine)
    → SameCore e e'
    → SameCore
        (record e { meta = put_batch ((o, r) ∷ []) e.meta })
        (record e' { meta = put_batch ((o, r) ∷ []) e'.meta })
put_batch-SameCore o r e e' s = record {
  meta = ap (put_batch ((o, r) ∷ [])) s.meta;
  vectors = s.vectors;
  wal = s.wal;
}

-- The counters have room for one more offset and sequence number.
pub record HasRoom (e : Engine) : Type 0 where
  pub offsets : e.meta.next_offset + 1 < 2 ^ 64
  pub seqs : e.meta.next_seq + 1 < 2 ^ 64

pub Result-cases {ℓ} :
    {A : Type ℓ} (r : Result A) → ((a : A) × (r ≡ ok a)) ⊎ ((x : StorageError) × (r ≡ err x))
Result-cases (ok a) = inl (a, refl)
Result-cases (err x) = inr (x, refl)

module _ (k : Checks) where
  pub IsDurable-SameCore : (e e' : Engine) → SameCore e e' → IsDurable k e → IsDurable k e'
  IsDurable-SameCore e e' s h = record {
    synced = subst IsSynced (sym s.meta) h.synced;
    sound = subst (IsSound k) (sym s.vectors) h.sound;
    ready = ground (arith, h.ready, s.meta, s.vectors, s.wal);
    same = ground (arith, h.same, s.meta, s.wal);
    below = ground (arith, h.below, s.meta, s.wal);
    newer = ground (arith, h.newer, s.meta);
    counted = ground (arith, h.counted, s.meta, s.vectors);
    stamped = ground (arith, h.stamped, s.meta, s.vectors);
  }

  pub LogBelow-mono : (n n' : ℕ) (ops : List WalOp) → n ≤ n' → LogBelow n ops → LogBelow n' ops
  LogBelow-mono n n' [] le h = tt
  LogBelow-mono n n' (WalOp.insert o seq m crc ∷ ops) le h =
      (omega (arith, h.0), LogBelow-mono n n' ops le h.1)
  LogBelow-mono n n' (WalOp.replace old o seq m crc ∷ ops) le h =
      (omega (arith, h.0), LogBelow-mono n n' ops le h.1)
  LogBelow-mono n n' (WalOp.delete o ∷ ops) le h = LogBelow-mono n n' ops le h
  LogBelow-mono n n' (WalOp.flush o ∷ ops) le h = LogBelow-mono n n' ops le h

  pub LogBelow-append :
      (n : ℕ) (xs ys : List WalOp) → LogBelow n xs → LogBelow n ys → LogBelow n (xs ++ ys)
  LogBelow-append n [] ys h g = g
  LogBelow-append n (WalOp.insert o seq m crc ∷ xs) ys h g = (h.0, LogBelow-append n xs ys h.1 g)
  LogBelow-append n (WalOp.replace old o seq m crc ∷ xs) ys h g =
      (h.0, LogBelow-append n xs ys h.1 g)
  LogBelow-append n (WalOp.delete o ∷ xs) ys h g = LogBelow-append n xs ys h g
  LogBelow-append n (WalOp.flush o ∷ xs) ys h g = LogBelow-append n xs ys h g

  pub allocate-IsDurable :
      (now : ℕ) (p : PreparedRecord) (e : Engine)
      → HasRoom e
      → IsDurable k e
      → IsDurable k (allocate now p e).1
        × LogBelow (allocate now p e).0.0 (allocate now p e).1.wal
        × ((allocate now p e).0.0 < (allocate now p e).1.meta.next_offset)
        × (last_applied (allocate now p e).1.meta.db < (allocate now p e).0.1.insert_seq)
  unfolding allocate
  allocate-IsDurable now p e room h = (
    record {
      synced = record {
        records = h.synced.records;
        demotion = h.synced.demotion;
        access_history = h.synced.access_history;
        distinct = h.synced.distinct;
        counted = h.synced.counted;
      };
      sound = h.sound;
      ready = h.ready;
      same = h.same;
      below = LogBelow-mono e.meta.next_offset _ e.wal (omega (arith, room.offsets)) h.below;
      newer = omega (arith, h.newer, room.seqs);
      counted = h.counted;
      stamped = h.stamped;
    },
    h.below,
    omega (arith, room.offsets),
    h.newer,
  )

  pub same_sync :
      (now : ℕ) (p : PreparedRecord) (e : Engine) (out : Outcome)
      → (e.sync_writes && not out.sync_log) ≡ false
      → ((allocate now p e).1.sync_writes && not out.sync_log) ≡ false
  unfolding allocate
  same_sync now p e out h = h

  -- A step that stored, or failed to store, the vector of a fresh offset.
  pub put_vector-IsDurable :
      (out : Outcome) (o : ℕ) (v : List ℕ) (e : Engine)
      → IsDurable k e
      → LogBelow o e.wal
      → IsDurable k (put_vector k out o v e).1
        × ((put_vector k out o v e).0 ≡ ok tt
            → HasVector k o v (put_vector k out o v e).1.vectors
              × (o < (put_vector k out o v e).1.vectors.count))
        × ((put_vector k out o v e).1.meta ≡ e.meta)
        × ((put_vector k out o v e).1.wal ≡ e.wal)
        × ((put_vector k out o v e).1.sync_writes ≡ e.sync_writes)
  unfolding put_vector
  put_vector-IsDurable out o v e h l =
      let w = put-Stored k out.resize o v e.vectors h.sound in
      (
        record {
          synced = h.synced;
          sound = w.sound;
          ready = AllReady-Stored k _ o v e.vectors _ _ e.wal w l h.ready;
          same = h.same;
          below = h.below;
          newer = h.newer;
          counted = Counted-mono _ _ _ w.count h.counted;
          stamped = Counted-mono _ _ _ w.header h.stamped;
        },
        λ q. (w.written (ap succeeded q), (w.counted (ap succeeded q)).0),
        refl,
        refl,
        refl,
      )

  pub log_cases :
      (out : Outcome) (ops : List WalOp) (e : Engine)
      → (e.sync_writes && not out.sync_log) ≡ false
      → leave out.left e.wal ops ≡ e.wal
      → ((log out ops e).0 ≡ ok tt → (log out ops e).1 ≡ record e { wal = e.wal ++ ops })
        × ((x : StorageError) → (log out ops e).0 ≡ err x → (log out ops e).1 ≡ e)
  unfolding log
  log_cases out ops e synced clean = elim (Bool-cases out.append) [
    | inl works ↦ rw (works, synced) (λ q. refl, λ x q. cc)
    | inr fails ↦ rw fails (λ q. cc, λ x q. ap (λ w. record e { wal = w }) clean)
  ]

  -- The engine once an insert is logged and in the cache.
  pub insert_logged-IsDurable :
      (o : ℕ) (r : Record) (e : Engine)
      → IsDurable k e
      → HasVector k o r.embedding e.vectors
      → o < e.vectors.count
      → o < e.meta.next_offset
      → last_applied e.meta.db < r.insert_seq
      → IsDurable k (record e {
        wal = e.wal ++ (insert_op k o r ∷ []);
        meta = put_batch ((o, r) ∷ []) e.meta;
      })
  unfolding put_batch put_loop accepts apply_ops
  insert_logged-IsDurable o r e h v counted fresh newer = record {
    synced = put_batch-IsSynced ((o, r) ∷ []) e.meta h.synced;
    sound = h.sound;
    ready =
        AllReady-append k _ e.vectors e.wal _ h.ready ((newer, (r.embedding, v, ground arith)), tt);
    same =
        subst (λ d. SameView d (insert o (meta_of r) e.meta.records))
          (sym (apply_ops-append e.wal (insert_op k o r ∷ []) e.meta.db.records))
          (SameView-insert o (meta_of r) _ _ h.same);
    below = LogBelow-append _ e.wal _ h.below (fresh, tt);
    newer = h.newer;
    counted = Counted-insert _ o (meta_of r) _ counted h.counted;
    stamped = h.stamped;
  }

  pub replace_logged-IsDurable :
      (old o : ℕ) (r : Record) (e : Engine)
      → IsDurable k e
      → HasVector k o r.embedding e.vectors
      → o < e.vectors.count
      → o < e.meta.next_offset
      → last_applied e.meta.db < r.insert_seq
      → IsDurable k (record e {
        wal = e.wal ++ (replace_op k old o r ∷ []);
        meta = put_batch ((o, r) ∷ []) (Metadata.remove old e.meta);
      })
  unfolding put_batch put_loop accepts apply_ops Metadata.remove
  replace_logged-IsDurable old o r e h v counted fresh newer = record {
    synced =
        put_batch-IsSynced ((o, r) ∷ []) (Metadata.remove old e.meta)
          (remove-IsSynced old e.meta h.synced);
    sound = h.sound;
    ready =
        AllReady-append k _ e.vectors e.wal _ h.ready ((newer, (r.embedding, v, ground arith)), tt);
    same =
        subst (λ d. SameView d (insert o (meta_of r) (remove_key old e.meta.records)))
          (sym (apply_ops-append e.wal (replace_op k old o r ∷ []) e.meta.db.records))
          (SameView-insert o (meta_of r) _ _ (SameView-remove old _ _ h.same));
    below = LogBelow-append _ e.wal _ h.below (fresh, tt);
    newer = h.newer;
    counted =
        Counted-insert _ o (meta_of r) _ counted (Counted-remove _ old e.meta.records h.counted);
    stamped = h.stamped;
  }

  pub delete_logged-IsDurable :
      (o : ℕ) (e : Engine)
      → IsDurable k e
      → IsDurable k
          (record e { wal = e.wal ++ (WalOp.delete o ∷ []); meta = Metadata.remove o e.meta })
  unfolding apply_ops Metadata.remove
  delete_logged-IsDurable o e h = record {
    synced = remove-IsSynced o e.meta h.synced;
    sound = h.sound;
    ready = AllReady-append k _ e.vectors e.wal _ h.ready (tt, tt);
    same =
        subst (λ d. SameView d (remove_key o e.meta.records))
          (sym (apply_ops-append e.wal (WalOp.delete o ∷ []) e.meta.db.records))
          (SameView-remove o _ _ h.same);
    below = LogBelow-append _ e.wal _ h.below tt;
    newer = h.newer;
    counted = Counted-remove _ o e.meta.records h.counted;
    stamped = h.stamped;
  }

  pub sync_same : (out : Outcome) (e : Engine) → (sync_vectors_if_configured out e).1 ≡ e
  unfolding sync_vectors_if_configured
  sync_same out e = ground arith

  -- The front of an insert and of an update: the vector of a fresh offset, then one log record. If
  -- all goes well the rest runs from an engine that has both.
  pub store_and_log :
      (out : Outcome) (o : ℕ) (v : List ℕ) (op : WalOp) (e : Engine)
      (rest : Unit {0} → Engine → Result Bool × Engine)
      → (e.sync_writes && not out.sync_log) ≡ false
      → IsDurable k e
      → LogBelow o e.wal
      → ((e2 : Engine)
          → IsDurable k e2
          → HasVector k o v e2.vectors
          → o < e2.vectors.count
          → e2.meta ≡ e.meta
          → IsDurable k (rest tt (record e2 { wal = e2.wal ++ (op ∷ []) })).1)
      → IsDurable k
          (continue (put_vector k out o v e) λ _ e1.
            continue
              (sync_vectors_if_configured out e1)
              λ _ e2. continue (log out (op ∷ []) e2) rest).1
  store_and_log out o v op e rest synced h l after =
      let e1 : Engine = (put_vector k out o v e).1 in
      let (h1, stored, m1, w1, y1) = put_vector-IsDurable out o v e h l in
      continue-ends (IsDurable k) (put_vector k out o v e) _ (λ s q. h1)
        λ _ q1.
          let e2 : Engine = (sync_vectors_if_configured out e1).1 in
          let same : e2 ≡ e1 = sync_same out e1 in
          let h2 : IsDurable k e2 = subst (IsDurable k) (sym same) h1 in
          continue-ends (IsDurable k) (sync_vectors_if_configured out e1) _ (λ s q. h2)
            λ _ q2.
              let logged =
                log_cases out (op ∷ []) e2
                  (subst (λ (x : Engine). (x.sync_writes && not out.sync_log) ≡ false) (sym same)
                    (subst (λ b. (b && not out.sync_log) ≡ false) (sym y1) synced))
                  refl in
              continue-ends (IsDurable k) (log out (op ∷ []) e2) rest
                (λ s q. subst (IsDurable k) (sym (logged.1 s q)) h2)
                λ u q3.
                  subst (λ x. IsDurable k (rest tt x).1) (sym (logged.0 q3))
                    (after e2 h2
                      (subst (λ (x : Engine). HasVector k o v x.vectors) (sym same) (stored q1).0)
                      (subst (λ (x : Engine). o < x.vectors.count) (sym same) (stored q1).1)
                      (subst (λ (x : Engine). x.meta ≡ e.meta) (sym same) m1))
