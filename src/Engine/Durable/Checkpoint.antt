-- ===== src/Engine/Durable/Checkpoint.antt =====
-- A flush takes the snapshot and empties the log; one that fails before the snapshot keeps the log.
use turbo_supermemory.Common.{
  ℕ, ◌-◌, ◌<◌, ◌≡◌, refl, sym, ◌∙◌, ap, subst, [], Bool, true, false, arith, inl, inr, ◌⊎◌,
  Bool-cases, nat_eq, string_eq,
}
use turbo_supermemory.Common.Dict.{Dict, lookup}
use turbo_supermemory.Record.{StorageError, index_error, MetaRecord, Result, ok, err}
use turbo_supermemory.Metadata
use turbo_supermemory.Metadata.{
  Disk, MetadataStore, append_access_history, put_meta, nothing_to_do, open_store,
}
use turbo_supermemory.Metadata.Reopen
use turbo_supermemory.Vectors.{Checks}
use turbo_supermemory.Vectors.Slots.{flush-IsSound}
use turbo_supermemory.Access.{drain_all, drain_into}
use turbo_supermemory.Engine.{Engine, continue}
use turbo_supermemory.Engine.Replay.{last_applied}
use turbo_supermemory.Engine.Flush.{
  FlushOutcome, step, drain_counters, flush_vectors, flush_meta, clear_log, before_snapshot,
  to_snapshot, after_snapshot, flush,
}
use turbo_supermemory.Engine.Durable.Spec.{apply_ops, AllReady-reopened}
use turbo_supermemory.Engine.Durable.Stages.{
  continue_err, view, SameView, Counted, Counted-mono, IsDurable,
}
use turbo_supermemory.Engine.Durable.Drained.{Drained, drain_all-Drained}

module _ (k : Checks) where
  drained-IsDurable :
      (e : Engine)
      → IsDurable k e
      → IsDurable k (drain_counters e) × SameView (drain_counters e).meta.records e.meta.records
  unfolding drain_counters drain_into
  drained-IsDurable e h =
      let d : Drained e.meta (drain_all e.counters.history_len e.counters.counters e.meta) =
        drain_all-Drained e.counters.history_len e.counters.counters e.meta in
      (
        record {
          synced = d.synced h.synced;
          sound = h.sound;
          ready = ground (arith, h.ready, d.db);
          same = λ o. ground (arith, h.same o, d.view o, d.db);
          below = ground (arith, h.below, d.next_offset);
          newer = ground (arith, h.newer, d.next_seq, d.db);
          counted = d.counted e.vectors.count h.counted;
          stamped = ground (arith, h.stamped, d.db);
        },
        d.view,
      )

  vectors-IsDurable :
      (b : Bool) (e : Engine)
      → IsDurable k e
      → IsDurable k (flush_vectors k b e).1
        × ((flush_vectors k b e).0 ≡ ok tt
            → (flush_vectors k b e).1.vectors.header.count ≡ (flush_vectors k b e).1.vectors.count)
        × ((flush_vectors k b e).1.meta ≡ e.meta)
  unfolding flush_vectors
  vectors-IsDurable b e h =
      let (sound, rows, slots, dim, count, more, stamped) = flush-IsSound k b e.vectors h.sound in
      (
        record {
          synced = h.synced;
          sound = sound;
          ready = AllReady-reopened k _ e.vectors _ e.wal rows (omega (arith, slots)) dim h.ready;
          same = h.same;
          below = h.below;
          newer = h.newer;
          counted = Counted-mono _ _ e.meta.records (omega (arith, count)) h.counted;
          stamped = Counted-mono _ _ e.meta.db.records more h.stamped;
        },
        λ q. stamped q ∙ sym count,
        refl,
      )

  abbrev Kept : Engine → Engine → Type 0
  Kept e e' = IsDurable k e' × SameView e'.meta.records e.meta.records

  abbrev Stamped : Engine → Type 0
  Stamped e = e.vectors.header.count ≡ e.vectors.count

  ends_both :
      (P Q : Engine → Type 0) (m : Result (Unit {0}) × Engine)
      (f : Unit {0} → Engine → Result (Unit {0}) × Engine)
      → ((x : StorageError) → m.0 ≡ err x → P m.1)
      → ((u : Unit {0}) → m.0 ≡ ok u → P (f u m.1).1 × ((f u m.1).0 ≡ ok tt → Q (f u m.1).1))
      → P (continue m f).1 × ((continue m f).0 ≡ ok tt → Q (continue m f).1)
  ends_both P Q (ok u, e) f h g = g u refl
  ends_both P Q (err x, e) f h g = (h x refl, λ q. cc)

  last_step :
      (P Q : Engine → Type 0) (b : Bool) (x : StorageError) (e : Engine)
      → P e
      → Q e
      → P (step b x e).1 × ((step b x e).0 ≡ ok tt → Q (step b x e).1)
  last_step P Q true x e p q = (p, λ r. q)
  last_step P Q false x e p q = (p, λ r. cc)

  -- Up to the snapshot nothing is lost, and a success has stamped the vectors.
  before_snapshot-IsDurable :
      (o : FlushOutcome) (e : Engine)
      → IsDurable k e
      → Kept e (before_snapshot k o e).1
        × ((before_snapshot k o e).0 ≡ ok tt → Stamped (before_snapshot k o e).1)
  unfolding before_snapshot
  before_snapshot-IsDurable o e h =
      let (h0, v0) = drained-IsDurable e h in
      let (h1, stamped, same) = vectors-IsDurable o.vectors (drain_counters e) h0 in
      elim (Bool-cases o.log_synced) [
        | inr no_sync ↦ rw no_sync ((h0, v0), λ q. cc)
        | inl sync ↦ rw sync (
            ends_both (Kept e) Stamped (flush_vectors k o.vectors (drain_counters e)) _
              (λ x q. (h1, λ j. ap (λ (m : MetadataStore). view j m.records) same ∙ v0 j))
              λ u q.
                last_step (Kept e) Stamped o.text index_error _
                  (h1, λ j. ap (λ (m : MetadataStore). view j m.records) same ∙ v0 j) (stamped q))
      ]

  pub flush_facts :
      (b : Bool) (n : ℕ) (m : MetadataStore)
      → ((Metadata.flush b n m).1.records ≡ m.records)
        × ((Metadata.flush b n m).1.next_seq ≡ m.next_seq)
        × ((x : StorageError) → (Metadata.flush b n m).0 ≡ err x → (Metadata.flush b n m).1 ≡ m)
        × ((Metadata.flush b n m).0 ≡ ok tt
            → ((Metadata.flush b n m).1.db ≡ m.db) ⊎ (last_applied (Metadata.flush b n m).1.db ≡ n))
  unfolding Metadata.flush Metadata.write_snapshot
  flush_facts b n m = (
    ground arith,
    ground arith,
    λ x q. ground arith,
    λ q. elim (Bool-cases (nothing_to_do n m)) [
      | inl idle ↦ inl (rw idle refl)
      | inr busy ↦ elim (Bool-cases b) [
        | inl done ↦ inr (rw (busy, done) refl)
        | inr failed ↦ inl (rw (busy, failed) refl)
      ]
    ],
  )

  from_facts :
      (n next : ℕ) (db db' : Disk)
      → last_applied db < next
      → n < next
      → (db' ≡ db) ⊎ (last_applied db' ≡ n)
      → last_applied db' < next
  from_facts n next db db' h lt (inl same) = rw same h
  from_facts n next db db' h lt (inr set) = omega (arith, set)

  view-lookup : (o : ℕ) (d d' : Dict ℕ MetaRecord) → lookup o d ≡ lookup o d' → view o d ≡ view o d'
  view-lookup o d d' e = rw (e, view) refl

  -- The snapshot: it goes through, and then the log is not needed any more, or nothing changes.
  flush_meta-IsDurable :
      (b : Bool) (e : Engine)
      → IsDurable k e
      → Stamped e
      → ((x : StorageError) → (flush_meta b e).0 ≡ err x → (flush_meta b e).1 ≡ e)
        × ((flush_meta b e).0 ≡ ok tt → IsDurable k (record (flush_meta b e).1 { wal = [] }))
        × ((flush_meta b e).1.meta.records ≡ e.meta.records)
  unfolding flush_meta open_store apply_ops
  flush_meta-IsDurable b e h full =
      let n : ℕ = e.meta.next_seq - 1 in
      let m : MetadataStore = (Metadata.flush b n e.meta).1 in
      let (records, seq, failed, applied) = flush_facts b n e.meta in
      let (synced, _) = Metadata.Reopen.flush-IsSynced b n e.meta h.synced in
      (
        λ x q. ap (λ m'. record e { meta = m' }) (failed x q),
        λ q.
            let same =
              (Metadata.Reopen.flush-IsOnDisk b n e.meta m h.synced (ap (λ r. (r, m)) q)).records in
            record {
              synced = synced;
              sound = h.sound;
              ready = tt;
              same = λ o. view-lookup o m.db.records m.records (same o);
              below = tt;
              newer =
                  subst (λ s. last_applied m.db < s) (sym seq)
                    (from_facts n e.meta.next_seq e.meta.db m.db h.newer (omega (arith, h.newer))
                      (applied q));
              counted = subst (λ d. Counted e.vectors.count d) (sym records) h.counted;
              stamped = λ o r p.
                  subst (λ c. o < c) (sym full)
                    (h.counted o r (ap (λ d. lookup o d) (sym records) ∙ (sym (same o) ∙ p)));
            },
        records,
      )

  -- The same behind the steps before it.
  flush_meta_after :
      (b : Bool) (e : Engine) (m : Result (Unit {0}) × Engine)
      → Kept e m.1
      → (m.0 ≡ ok tt → Stamped m.1)
      → ((x : StorageError)
          → (continue m λ _ e1. flush_meta b e1).0 ≡ err x
          → IsDurable k (continue m λ _ e1. flush_meta b e1).1)
        × ((continue m λ _ e1. flush_meta b e1).0 ≡ ok tt
            → IsDurable k (record (continue m λ _ e1. flush_meta b e1).1 { wal = [] }))
        × SameView (continue m λ _ e1. flush_meta b e1).1.meta.records e.meta.records
  flush_meta_after b e (ok u, e1) (h1, v1) full =
      let (failed, done, same) = flush_meta-IsDurable b e1 h1 (full refl) in
      (λ x q. subst (IsDurable k) (sym (failed x q)) h1, done, λ j. ap (view j) same ∙ v1 j)
  flush_meta_after b e (err x, e1) (h1, v1) full = (λ y q. h1, λ q. cc, v1)

  to_snapshot-IsDurable :
      (o : FlushOutcome) (e : Engine)
      → IsDurable k e
      → ((x : StorageError) → (to_snapshot k o e).0 ≡ err x → IsDurable k (to_snapshot k o e).1)
        × ((to_snapshot k o e).0 ≡ ok tt → IsDurable k (record (to_snapshot k o e).1 { wal = [] }))
        × SameView (to_snapshot k o e).1.meta.records e.meta.records
  unfolding to_snapshot
  to_snapshot-IsDurable o e h =
      let (kept, full) = before_snapshot-IsDurable o e h in
      flush_meta_after o.committed e (before_snapshot k o e) kept full

  continue_done :
      (m : Result (Unit {0}) × Engine) (f : Unit {0} → Engine → Result (Unit {0}) × Engine)
      → (continue m f).0 ≡ ok tt
      → (m.0 ≡ ok tt) × (continue m f ≡ f tt m.1)
  continue_done (ok u, e) f h = (refl, refl)
  continue_done (err x, e) f h = cc

  pub after_snapshot_facts :
      (o : FlushOutcome) (e : Engine)
      → ((after_snapshot o e).0 ≡ ok tt → (after_snapshot o e).1 ≡ record e { wal = [] })
        × ((after_snapshot o e).1.meta.records ≡ e.meta.records)
  unfolding after_snapshot clear_log
  after_snapshot_facts o e = (λ q. ground arith, ground arith)

  -- A flush that returns ok on an engine for which the invariant holds leaves one for which it
  -- holds, with an empty log and the same records up to access counts.
  pub flush-IsDurable :
      (o : FlushOutcome) (e : Engine)
      → IsDurable k e
      → (flush k o e).0 ≡ ok tt
      → IsDurable k (flush k o e).1
        × ((flush k o e).1.wal ≡ [])
        × SameView (flush k o e).1.meta.records e.meta.records
  unfolding flush
  flush-IsDurable o e h done =
      let (passed, same) = continue_done (to_snapshot k o e) (λ _ e1. after_snapshot o e1) done in
      let (_, ready, view1) = to_snapshot-IsDurable o e h in
      let (emptied, records) = after_snapshot_facts o (to_snapshot k o e).1 in
      let result = ap (λ r. r.1) same ∙ emptied (ap (λ r. r.0) (sym same) ∙ done) in
      (
        subst (IsDurable k) (sym result) (ready passed),
        ap (λ (y : Engine). y.wal) result,
        λ j. ap (λ (y : Engine). view j y.meta.records) result ∙ view1 j,
      )

  -- If a step of the flush up to the commit of the snapshot fails, the flush returns that error,
  -- and the invariant and the records up to access counts are kept.
  pub flush_failed-IsDurable :
      (o : FlushOutcome) (x : StorageError) (e : Engine)
      → IsDurable k e
      → (to_snapshot k o e).0 ≡ err x
      → ((flush k o e).0 ≡ err x)
        × IsDurable k (flush k o e).1
        × SameView (flush k o e).1.meta.records e.meta.records
  unfolding flush
  flush_failed-IsDurable o x e h failed =
      let (kept, _, view1) = to_snapshot-IsDurable o e h in
      rw (continue_err x (to_snapshot k o e) (λ _ e1. after_snapshot o e1) failed)
        (refl, kept x failed, view1)
