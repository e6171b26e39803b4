-- ===== src/Engine/Durable/Recovery.antt =====
-- Recovery: an engine for which the invariant holds is rebuilt by `open` from what is on disk.
use turbo_supermemory.Common.{
  ℕ, ◌^◌, ◌<◌, ◌≡◌, refl, sym, ◌∙◌, ap, subst, List, [], length, some, Bool, true, false, not, ◌&&◌,
  ◌||◌, arith, inl, inr, Bool-cases, nat_eq, string_eq, ltb,
}
use turbo_supermemory.Record.{ok}
use turbo_supermemory.Wal.Codec.{WalOp}
use turbo_supermemory.Metadata
use turbo_supermemory.Metadata.{
  Disk, MetadataStore, open_store, max_live, is_fresh, advance_offset_past, advance_seq_past,
  nothing_to_do,
}
use turbo_supermemory.Vectors
use turbo_supermemory.Vectors.{Checks, VectorFile, VectorStore, recover, open_vectors}
use turbo_supermemory.Vectors.Survival.{reopen-IsSound}
use turbo_supermemory.Engine.{Engine}
use turbo_supermemory.Engine.Replay.{
  Replay, RecoveryReport, Image, OpenConfig, last_applied, replay_all, start_replay, persist,
  opened, all_work, finish_open, open_engine, open_vector_store,
}
use turbo_supermemory.Engine.Durable.Spec.{AllReady, AllReady-reopened, replay_all-records}
use turbo_supermemory.Engine.Durable.Stages.{SameView, view, Counted, IsDurable}
use turbo_supermemory.Engine.Durable.Replayed.{
  has_effect, image_of, Counted-max_live, replay_all-Kept, replay_all-replayed,
}

module _ (k : Checks) where
  -- What a committed end of the replay leaves as it is.
  pub record Saved (st : Replay) (saved : Replay × List WalOp) : Type 0 where
    records : saved.0.meta.records ≡ st.meta.records
    count : saved.0.vectors.count ≡ st.vectors.count
    report : saved.0.report ≡ st.report

  flush_committed :
      (n : ℕ) (m : MetadataStore)
      → ((Metadata.flush true n m).0 ≡ ok tt) × ((Metadata.flush true n m).1.records ≡ m.records)
  unfolding Metadata.flush
  flush_committed n m = (ground arith, ground arith)

  flush_vectors :
      (s : VectorStore)
      → s.mapped ≡ true
      → ((Vectors.flush k true s).0 ≡ ok tt) × ((Vectors.flush k true s).1.count ≡ s.count)
  unfolding Vectors.flush
  flush_vectors s live = (ground arith, ground arith)

  pub persist_committed :
      (image : Image) (st : Replay)
      → st.vectors.mapped ≡ true
      → (saved : Replay × List WalOp) × (persist k all_work image st ≡ ok saved) × Saved st saved
  unfolding persist
  persist_committed image st live = elim (Bool-cases (st.replayed || image.needs_upgrade)) [
    | inr idle ↦
        ((st, image.wal), rw idle refl, record { records = refl; count = refl; report = refl })
    | inl busy ↦
        let m = advance_seq_past st.max_seq (advance_offset_past st.max_offset st.meta) in
        let (synced, same) = flush_vectors st.vectors live in
        let (flushed, kept) = flush_committed st.max_seq m in
        (
          (
            record st {
              meta = (Metadata.flush true st.max_seq m).1;
              vectors = (Vectors.flush k true st.vectors).1;
            },
            [],
          ),
          rw (busy, synced, flushed) refl,
          record { records = kept; count = same; report = refl },
        )
  ]

  -- The end of `open`: with a committed snapshot and every record counted, nothing is refused.
  finish_open_ok :
      (config : OpenConfig) (image : Image) (at_open : ℕ) (st : Replay)
      → st.vectors.mapped ≡ true
      → Counted st.vectors.count st.meta.records
      → (is_fresh (open_store image.db) && (not st.replayed && ltb 0 at_open)) ≡ false
      → (e : Engine) × (report : RecoveryReport) × (finish_open k config all_work image at_open st
          ≡ ok (e, report))
        × (e.meta.records ≡ st.meta.records)
        × (report ≡ st.report)
  unfolding finish_open
  finish_open_ok config image at_open st live c plausible =
      let (saved, e, s) = persist_committed image st live in
      let inside = Counted-max_live saved.0.vectors.count saved.0.meta.records (
        subst (λ d. Counted saved.0.vectors.count d) (sym s.records)
          (subst (λ n. Counted n st.meta.records) (sym s.count) c)) in
      (opened config saved, saved.0.report, rw (e, plausible, inside) refl, s.records, s.report)

  -- Either the log had an effect or the vectors are those of the snapshot.
  is_plausible :
      (applied count at_open : ℕ) (fresh : Bool) (ops : List WalOp) (st : Replay)
      → AllReady k applied st.vectors ops
      → st.vectors.mapped ≡ true
      → at_open ≡ count
      → (fresh && (not (has_effect ops) && ltb 0 count)) ≡ false
      → (fresh && (not (replay_all k applied ops st).replayed && ltb 0 at_open)) ≡ false
  is_plausible applied count at_open fresh ops st ready live same h =
      elim (Bool-cases (has_effect ops)) [
        | inl acts ↦ rw (replay_all-replayed k applied ops st ready live acts) ground arith
        | inr idle ↦ ground (arith, same, h, idle)
      ]

  pub open_engine_lem :
      (config : OpenConfig) (image : Image) (f : VectorFile) (t : VectorStore)
      → config.quantizers_fit ≡ true
      → image.vectors ≡ some f
      → open_vectors k config.dimension f ≡ ok t
      → open_engine k config all_work image
        ≡ finish_open k config all_work image t.count
            (replay_all k (last_applied image.db) image.wal (start_replay image t))
  unfolding open_engine open_vector_store
  open_engine_lem config image f t fit there opens = ground (arith, fit, there, opens)

  -- If the invariant holds when the process dies, the number of rows fits 64 bits, the
  -- configuration has the dimension of the vectors and its quantizers fit it, and it is not the
  -- case that the snapshot was never written, the log is without effect and the vector header
  -- counts vectors, then `open`, if none of its own steps fails, succeeds: the new engine has
  -- the records of the dead one up to access counts, and the report has no logged vector
  -- missing.
  pub open_engine-restores :
      (config : OpenConfig) (discarded : ℕ) (upgrade : Bool) (e : Engine)
      → IsDurable k e
      → length e.vectors.rows < 2 ^ 64
      → config.dimension ≡ e.vectors.dim
      → config.quantizers_fit ≡ true
      → (is_fresh (open_store e.meta.db)
          && (not (has_effect e.wal) && ltb 0 e.vectors.header.count))
        ≡ false
      → (e' : Engine) × (report : RecoveryReport) × (open_engine k config all_work
            (image_of discarded upgrade e)
          ≡ ok (e', report))
        × SameView e'.meta.records e.meta.records
        × (report.wal_inserts_without_vector ≡ 0)
  unfolding image_of start_replay open_store
  open_engine-restores config discarded upgrade e h small dim fit plausible =
      let image : Image = image_of discarded upgrade e in
      let (t, opens, sound, file, live, slots, count, same_dim) =
        reopen-IsSound k e.vectors h.sound small in
      let st : Replay = start_replay image t in
      let applied : ℕ = last_applied e.meta.db in
      let ready : AllReady k applied t e.wal =
        AllReady-reopened k applied e.vectors t e.wal (ap (λ (f : VectorFile). f.rows) file) slots
          same_dim h.ready in
      let st' : Replay = replay_all k applied e.wal st in
      let kept = replay_all-Kept k applied e.wal st ready live in
      let records = replay_all-records k applied e.wal st ready live in
      let (e', report, done, same, told) =
        finish_open_ok config image t.count st' (kept.mapped ∙ live)
          (kept.counted (λ o m q. subst (λ n. o < n) (sym count) (h.stamped o m q)))
          (is_plausible applied e.vectors.header.count t.count (is_fresh (open_store e.meta.db))
            e.wal st ready live count plausible) in
      (
        e',
        report,
        open_engine_lem config image e.vectors.file t fit refl
              (ap (λ n. open_vectors k n e.vectors.file) dim ∙ opens)
            ∙ done,
        λ o. ap (view o) (same ∙ records) ∙ h.same o,
        ap (λ (x : RecoveryReport). x.wal_inserts_without_vector) told ∙ kept.missing,
      )
