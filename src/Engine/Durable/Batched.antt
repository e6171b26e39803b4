-- ===== src/Engine/Durable/Batched.antt =====
-- A batch insert keeps the invariant: several vectors, one write to the log, one update of the cache.
-- Left out are the failures that part the log from the cache.
use turbo_supermemory.Common.{
  true, is_empty, ℕ, ◌+◌, ◌%◌, ◌^◌, ◌≤◌, ◌<◌, ◌≡◌, ◌≢◌, refl, sym, ◌∙◌, ap, subst, String, List, [],
  ◌∷◌, ◌++◌, length, Option, Bool, false, not, ◌&&◌, inl, inr, Bool-cases, nat_eq, string_eq, arith,
  if◌then◌else◌,
}
use turbo_supermemory.Common.Dict.{Dict}
use turbo_supermemory.Record.{MetaRecord, Record, meta_of, PointOffset, Result, ok}
use turbo_supermemory.Metadata.{Disk, MetadataStore, DirtySet, put_batch, put_loop}
use turbo_supermemory.Metadata.Synced.{put_batch-IsSynced}
use turbo_supermemory.Wal.Codec.{WalOp}
use turbo_supermemory.Vectors.{Checks, VectorStore, Resize, accepts}
use turbo_supermemory.Vectors.Survival.{HasVector, Stored, put-Stored}
use turbo_supermemory.Engine.{
  Engine, Outcome, continue, put_vector, sync_vectors_if_configured, log, submit_and_wait, leave,
  reaches_worker,
}
use turbo_supermemory.Engine.Replay.{last_applied}
use turbo_supermemory.Engine.Write.{Inputs, WriteInput, PreparedRecord, allocate}
use turbo_supermemory.Engine.Batch.{
  contains, BatchInput, mismatched, inputs_of, prepare_batch, retain_new, allocate_all, put_vectors,
  insert_ops, commit_batch, insert_prepared, insert_batch_with_payload_role,
}
use turbo_supermemory.Engine.Durable.Spec.{apply_ops, apply_ops-append, AllReady, AllReady-append}
use turbo_supermemory.Engine.Durable.Stages.{
  SameView, SameView-insert, Counted, Counted-insert, LogBelow, IsDurable, continue-ends,
  continue_ok, continue_err, submit_and_wait-SameCore,
}
use turbo_supermemory.Engine.Durable.Logged.{
  Result-cases, IsDurable-SameCore, allocate-IsDurable, put_vector-IsDurable, LogBelow-append,
  LogBelow-mono, log_cases, sync_same,
}

-- The offsets rise from `n` on.
abbrev pub Rising : ℕ → List (PointOffset × Record) → Type 0
Rising n [] = Unit
Rising n ((o, r) ∷ rest) = (n ≤ o) × Rising (o + 1) rest

-- The offsets and sequence numbers that were handed out.
abbrev pub Placed : ℕ → ℕ → List (PointOffset × Record) → Type 0
Placed offsets applied [] = Unit
Placed offsets applied ((o, r) ∷ rest) =
    (o < offsets) × (applied < r.insert_seq) × Placed offsets applied rest

module _ (k : Checks) where
  -- The vectors of the records are stored and counted.
  abbrev AllStored : List (PointOffset × Record) → VectorStore → Type 0
  AllStored [] s = Unit
  AllStored ((o, r) ∷ rest) s = HasVector k o r.embedding s × (o < s.count) × AllStored rest s

  HasVector-Stored :
      (j o : ℕ) (u v : List ℕ) (s t : VectorStore) (b : Bool)
      → Stored k o v s t b
      → j ≢ o
      → HasVector k j u s × (j < s.count)
      → HasVector k j u t × (j < t.count)
  HasVector-Stored j o u v s t b w ne (h, c) = (
    record {
      slot = omega (arith, h.slot, w.slots);
      row = w.others j u ne h.slot h.row;
      size = h.size ∙ sym w.dim;
    },
    omega (arith, w.count),
  )

  -- What storing the vectors of a batch leaves, whether or not it gets through.
  record Vectors (n : ℕ) (rs : List (PointOffset × Record)) (e : Engine)
      (m : Result (Unit {0}) × Engine) : Type 0 where
    durable : IsDurable k m.1
    keeps :
        (j : ℕ) (u : List ℕ)
        → j < n
        → HasVector k j u e.vectors × (j < e.vectors.count)
        → HasVector k j u m.1.vectors × (j < m.1.vectors.count)
    stored : m.0 ≡ ok tt → AllStored rs m.1.vectors
    meta : m.1.meta ≡ e.meta
    wal : m.1.wal ≡ e.wal
    sync_writes : m.1.sync_writes ≡ e.sync_writes

  put_vector-HasVector :
      (out : Outcome) (o j : ℕ) (u v : List ℕ) (e : Engine)
      → IsDurable k e
      → j ≢ o
      → HasVector k j u e.vectors × (j < e.vectors.count)
      → HasVector k j u (put_vector k out o v e).1.vectors
        × (j < (put_vector k out o v e).1.vectors.count)
  unfolding put_vector
  put_vector-HasVector out o j u v e h ne has =
      HasVector-Stored j o u v e.vectors _ _ (put-Stored k out.resize o v e.vectors h.sound) ne has

  put_vectors-Vectors :
      (out : Outcome) (resizes : PointOffset → Resize) (n : ℕ) (rs : List (PointOffset × Record))
      (e : Engine)
      → IsDurable k e
      → Rising n rs
      → LogBelow n e.wal
      → Vectors n rs e (put_vectors k out resizes rs e)
  unfolding put_vectors
  put_vectors-Vectors out resizes n [] e h r l = record {
    durable = h;
    keeps = λ j u lt has. has;
    stored = λ q. tt;
    meta = refl;
    wal = refl;
    sync_writes = refl;
  }
  put_vectors-Vectors out resizes n ((o, r) ∷ rest) e h (le, rising) l =
      let here : Outcome = record out { resize = resizes o } in
      let m : Result (Unit {0}) × Engine = put_vector k here o r.embedding e in
      let (h1, stored, meta1, wal1, sync1) =
        put_vector-IsDurable k here o r.embedding e h (LogBelow-mono k n o e.wal le l) in
      let keep1 =
        λ (j : ℕ) (u : List ℕ) (ne : j ≢ o). put_vector-HasVector here o j u r.embedding e h ne in
      elim (Result-cases m.0) [
        | inr (x, q) ↦ rw (continue_err x m (λ _ e1. put_vectors k out resizes rest e1) q) (record {
          durable = h1;
          keeps = λ j u lt. keep1 j u (λ s. omega arith);
          stored = λ s. cc;
          meta = meta1;
          wal = wal1;
          sync_writes = sync1;
        })
        | inl (u, q) ↦
            let next = put_vectors-Vectors out resizes (o + 1) rest m.1 h1 rising (
              subst (LogBelow (o + 1)) (sym wal1)
                (LogBelow-mono k n (o + 1) e.wal (omega arith) l)) in
            rw (continue_ok u m (λ _ e1. put_vectors k out resizes rest e1) q) (record {
              durable = next.durable;
              keeps = λ j u lt has. next.keeps j u (omega arith) (keep1 j u (λ s. omega arith) has);
              stored = λ s.
                  let (v, c) = next.keeps o r.embedding (omega arith) (stored q) in
                  (v, c, next.stored s);
              meta = next.meta ∙ meta1;
              wal = next.wal ∙ wal1;
              sync_writes = next.sync_writes ∙ sync1;
            })
      ]

  put_loop-SameView :
      (rs : List (PointOffset × Record)) (d cache : Dict ℕ MetaRecord) (dirty : DirtySet) (n : ℕ)
      → SameView d cache
      → SameView (apply_ops (insert_ops k rs) d) (put_loop rs cache dirty n).0
  unfolding put_loop apply_ops
  put_loop-SameView [] d cache dirty n v = v
  put_loop-SameView ((o, r) ∷ rs) d cache dirty n v =
      put_loop-SameView rs _ _ _ _ (SameView-insert o (meta_of r) d cache v)

  put_loop-Counted :
      (rs : List (PointOffset × Record)) (cache : Dict ℕ MetaRecord) (dirty : DirtySet) (n : ℕ)
      (s : VectorStore)
      → AllStored rs s
      → Counted s.count cache
      → Counted s.count (put_loop rs cache dirty n).0
  unfolding put_loop
  put_loop-Counted [] cache dirty n s a c = c
  put_loop-Counted ((o, r) ∷ rs) cache dirty n s (v, lt, a) c =
      put_loop-Counted rs _ _ _ s a (Counted-insert s.count o (meta_of r) cache lt c)

  insert_ops-AllReady :
      (offsets applied : ℕ) (rs : List (PointOffset × Record)) (s : VectorStore)
      → AllStored rs s
      → Placed offsets applied rs
      → AllReady k applied s (insert_ops k rs) × LogBelow offsets (insert_ops k rs)
  unfolding accepts
  insert_ops-AllReady offsets applied [] s a p = (tt, tt)
  insert_ops-AllReady offsets applied ((o, r) ∷ rs) s (v, lt, a) (below, newer, p) =
      let (ready, l) = insert_ops-AllReady offsets applied rs s a p in
      (((newer, (r.embedding, v, ground arith)), ready), (below, l))

  -- The engine once a batch is logged and in the cache.
  batch_logged-IsDurable :
      (rs : List (PointOffset × Record)) (e : Engine)
      → IsDurable k e
      → AllStored rs e.vectors
      → Placed e.meta.next_offset (last_applied e.meta.db) rs
      → IsDurable k (record e { wal = e.wal ++ insert_ops k rs; meta = put_batch rs e.meta })
  unfolding put_batch
  batch_logged-IsDurable rs e h a p =
      let (ready, l) =
        insert_ops-AllReady e.meta.next_offset (last_applied e.meta.db) rs e.vectors a p in
      record {
        synced = put_batch-IsSynced rs e.meta h.synced;
        sound = h.sound;
        ready = AllReady-append k _ e.vectors e.wal _ h.ready ready;
        same =
            subst (λ d. SameView d (put_loop rs e.meta.records e.meta.dirty 0).0)
              (sym (apply_ops-append e.wal (insert_ops k rs) e.meta.db.records))
              (put_loop-SameView rs _ _ _ _ h.same);
        below = LogBelow-append k _ e.wal _ h.below l;
        newer = h.newer;
        counted = put_loop-Counted rs _ _ _ e.vectors a h.counted;
        stamped = h.stamped;
      }

  -- Nothing of a batch stays behind a roll-back that works.
  leave_none : (wal ops : List WalOp) → leave 0 wal ops ≡ wal
  leave_none wal [] = refl
  leave_none wal (op ∷ []) = refl
  leave_none wal (op ∷ next ∷ ops) = refl

  module _ (x : Inputs) (out : Outcome) (resizes : PointOffset → Resize) (now : ℕ) where
    commit_batch-IsDurable :
        (n : ℕ) (rs : List (PointOffset × Record)) (e : Engine)
        → (e.sync_writes && not out.sync_log) ≡ false
        → out.left ≡ 0
        → reaches_worker out.worker ≡ true
        → IsDurable k e
        → Rising n rs
        → LogBelow n e.wal
        → Placed e.meta.next_offset (last_applied e.meta.db) rs
        → IsDurable k (commit_batch k x out resizes now rs e).1
    unfolding commit_batch
    commit_batch-IsDurable n rs e synced clean works h rising l p =
        let v = put_vectors-Vectors out resizes n rs e h rising l in
        let e1 : Engine = (put_vectors k out resizes rs e).1 in
        continue-ends (IsDurable k) (put_vectors k out resizes rs e) _ (λ s q. v.durable)
          λ _ q1.
            let e2 : Engine = (sync_vectors_if_configured out e1).1 in
            let same : e2 ≡ e1 = sync_same k out e1 in
            let h2 : IsDurable k e2 = subst (IsDurable k) (sym same) v.durable in
            continue-ends (IsDurable k) (sync_vectors_if_configured out e1) _ (λ s q. h2)
              λ _ q2.
                let logged =
                  log_cases k out (insert_ops k rs) e2
                    (subst (λ (y : Engine). (y.sync_writes && not out.sync_log) ≡ false) (sym same)
                      (subst (λ b. (b && not out.sync_log) ≡ false) (sym v.sync_writes) synced))
                    (ap (λ n. leave n e2.wal (insert_ops k rs)) clean
                      ∙ leave_none e2.wal (insert_ops k rs)) in
                continue-ends (IsDurable k) (log out (insert_ops k rs) e2) _
                  (λ s q. subst (IsDurable k) (sym (logged.1 s q)) h2)
                  λ u q3.
                    let e3 : Engine = record e2 { wal = e2.wal ++ insert_ops k rs } in
                    let h3 : IsDurable k (submit_and_wait out rs e3).1 =
                      IsDurable-SameCore k _ _ (submit_and_wait-SameCore out rs e3 works) (
                        batch_logged-IsDurable rs e2 h2
                          (subst (λ (y : Engine). AllStored rs y.vectors) (sym same) (v.stored q1))
                          (subst
                            (λ (m : MetadataStore). Placed m.next_offset (last_applied m.db) rs)
                            (sym (ap (λ (y : Engine). y.meta) same ∙ v.meta)) p)) in
                    subst
                      (λ y.
                        IsDurable k
                          (continue (submit_and_wait out rs y) λ _ e4. (ok (length rs), e4)).1)
                      (sym (logged.0 q3))
                      (continue-ends (IsDurable k) (submit_and_wait out rs e3) _ (λ s q. h3)
                        (λ _ q. h3))

    -- What handing out offsets and sequence numbers for a batch leaves.
    record Allocated (e : Engine) (m : List (PointOffset × Record) × Engine) : Type 0 where
      durable : IsDurable k m.1
      rising : Rising e.meta.next_offset m.0
      placed : Placed m.1.meta.next_offset (last_applied e.meta.db) m.0
      more : e.meta.next_offset ≤ m.1.meta.next_offset
      wal : m.1.wal ≡ e.wal
      db : m.1.meta.db ≡ e.meta.db
      sync_writes : m.1.sync_writes ≡ e.sync_writes

    allocate_all-Allocated :
        (ps : List PreparedRecord) (e : Engine)
        → e.meta.next_offset + length ps < 2 ^ 64
        → e.meta.next_seq + length ps < 2 ^ 64
        → IsDurable k e
        → Allocated e (allocate_all now ps e)
    unfolding allocate_all allocate
    allocate_all-Allocated [] e room seqs h = record {
      durable = h;
      rising = tt;
      placed = tt;
      more = omega arith;
      wal = refl;
      db = refl;
      sync_writes = refl;
    }
    allocate_all-Allocated (p ∷ ps) e room seqs h =
        let (h1, l, fresh, newer) =
          allocate-IsDurable k now p e (record { offsets = omega arith; seqs = omega arith }) h in
        let next : (e.meta.next_offset + 1) % 2 ^ 64 ≡ e.meta.next_offset + 1 = omega arith in
        let rest : Allocated (allocate now p e).1 (allocate_all now ps (allocate now p e).1) =
          allocate_all-Allocated ps (allocate now p e).1 (omega arith) (omega arith) h1 in
        record {
          durable = rest.durable;
          rising = (
            omega arith,
            subst (λ n. Rising n (allocate_all now ps (allocate now p e).1).0) next rest.rising,
          );
          placed = (omega (arith, rest.more, next), h.newer, rest.placed);
          more = omega (arith, rest.more, next);
          wal = rest.wal;
          db = rest.db;
          sync_writes = rest.sync_writes;
        }

    insert_prepared-IsDurable :
        (ps : List PreparedRecord) (e : Engine)
        → (e.sync_writes && not out.sync_log) ≡ false
        → out.left ≡ 0
        → reaches_worker out.worker ≡ true
        → e.meta.next_offset + length ps < 2 ^ 64
        → e.meta.next_seq + length ps < 2 ^ 64
        → IsDurable k e
        → IsDurable k (insert_prepared k x out resizes now ps e).1
    unfolding insert_prepared
    insert_prepared-IsDurable [] e synced clean works room seqs h = h
    insert_prepared-IsDurable (p ∷ ps) e synced clean works room seqs h =
        let a : Allocated e (allocate_all now (p ∷ ps) e) =
          allocate_all-Allocated (p ∷ ps) e room seqs h in
        let e1 : Engine = (allocate_all now (p ∷ ps) e).1 in
        commit_batch-IsDurable e.meta.next_offset (allocate_all now (p ∷ ps) e).0 e1
          (subst (λ b. (b && not out.sync_log) ≡ false) (sym a.sync_writes) synced) clean works
          a.durable a.rising (subst (LogBelow e.meta.next_offset) (sym a.wal) h.below)
          (subst
            (λ (d : Disk).
              Placed e1.meta.next_offset (last_applied d) (allocate_all now (p ∷ ps) e).0)
            (sym a.db) a.placed)

    length-retain_new :
        (ps : List PreparedRecord) (e : Engine) → length (retain_new ps e) ≤ length ps
    unfolding retain_new
    length-retain_new [] e = omega arith
    length-retain_new (p ∷ ps) e = ground (arith, length-retain_new ps e)

    length-prepare_batch :
        (n : ℕ) (ws : List WriteInput) (seen : List String) (ps : List PreparedRecord)
        → prepare_batch x n ws seen ≡ ok ps
        → length ps ≤ length ws
    unfolding prepare_batch
    length-prepare_batch n [] seen ps h = ground arith
    length-prepare_batch n (w ∷ ws) seen ps h =
        let later : List String = if not (contains w.id seen) then w.id ∷ seen else seen in
        elim (Result-cases (prepare_batch x n ws later)) [
          | inr (s, q) ↦ ground (arith, q)
          | inl (qs, q) ↦ ground (arith, q, length-prepare_batch n ws later qs q)
        ]

    length-inputs_of :
        (ids texts : List String) (embs : List (List ℕ)) (imps : List ℕ) (css : List (List String))
        (pl sc ro : List (Option String))
        → length (inputs_of ids texts embs imps css pl sc ro) ≤ length ids
    unfolding inputs_of
    length-inputs_of [] texts embs imps css pl sc ro = omega arith
    length-inputs_of (id ∷ ids) [] embs imps css pl sc ro = omega arith
    length-inputs_of (id ∷ ids) (t ∷ texts) [] imps css pl sc ro = omega arith
    length-inputs_of (id ∷ ids) (t ∷ texts) (v ∷ embs) [] css pl sc ro = omega arith
    length-inputs_of (id ∷ ids) (t ∷ texts) (v ∷ embs) (i ∷ imps) [] pl sc ro = omega arith
    length-inputs_of (id ∷ ids) (t ∷ texts) (v ∷ embs) (i ∷ imps) (c ∷ css) pl sc ro =
        omega (arith, length-inputs_of ids texts embs imps css _ _ _)

    abbrev pub batch_inputs : BatchInput → List WriteInput
    batch_inputs b =
        inputs_of b.ids b.texts b.embeddings b.importances b.concepts b.payloads b.scopes
          b.source_roles

    -- No more records are inserted than ids were given.
    pub length-retained :
        (b : BatchInput) (e : Engine) (ps : List PreparedRecord)
        → prepare_batch x e.dimension (batch_inputs b) [] ≡ ok ps
        → length (retain_new ps e) ≤ length b.ids
    length-retained b e ps q = omega (
      arith,
      length-retain_new ps e,
      length-prepare_batch e.dimension (batch_inputs b) [] ps q,
      length-inputs_of b.ids b.texts b.embeddings b.importances b.concepts b.payloads b.scopes
          b.source_roles,
    )

    -- A batch of inserts, whichever of its steps fails, keeps the invariant, provided that the
    -- counters have room for the ids of the batch, that, with `sync_writes`, the sync of the log
    -- works, that an append to the log that fails leaves no whole frame behind, and that the
    -- worker is there and, if it is lost before it answers, has worked on the batch.
    pub insert_batch-IsDurable :
        (b : BatchInput) (e : Engine)
        → (e.sync_writes && not out.sync_log) ≡ false
        → out.left ≡ 0
        → reaches_worker out.worker ≡ true
        → e.meta.next_offset + length b.ids < 2 ^ 64
        → e.meta.next_seq + length b.ids < 2 ^ 64
        → IsDurable k e
        → IsDurable k (insert_batch_with_payload_role k x out resizes now b e).1
    unfolding insert_batch_with_payload_role
    insert_batch-IsDurable b e synced clean works room seqs h = elim (Bool-cases (is_empty b.ids)) [
      | inl none_given ↦ rw (none_given, insert_batch_with_payload_role) h
      | inr given ↦ elim (Bool-cases (mismatched b)) [
        | inl bad ↦ rw (given, bad, insert_batch_with_payload_role) h
        | inr fits ↦ elim (Result-cases (prepare_batch x e.dimension (batch_inputs b) [])) [
          | inr (s, q) ↦ rw (given, fits, q, insert_batch_with_payload_role) h
          | inl (ps, q) ↦
              let few : length (retain_new ps e) ≤ length b.ids = length-retained b e ps q in
              rw (given, fits, q, insert_batch_with_payload_role)
                (insert_prepared-IsDurable (retain_new ps e) e synced clean works (omega arith)
                  (omega arith) h)
        ]
      ]
    ]
