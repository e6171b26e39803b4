-- ===== src/Engine/Consistent/Histories.antt =====
-- Any sequence of calls, each with any failures, keeps the id index and the records in agreement.
use turbo_supermemory.Common.{
  ℕ, ◌+◌, ◌-◌, ◌^◌, ◌≤◌, ◌<◌, ◌≡◌, refl, sym, ◌∙◌, ap, subst, List, [], ◌∷◌, Bool, true, false,
  nat_eq, string_eq, arith, ◌==◌,
}
use turbo_supermemory.Record.{StorageError, io, index_error, Result}
use turbo_supermemory.Metadata
use turbo_supermemory.Metadata.{MetadataStore, put_batch, put_loop}
use turbo_supermemory.Vectors.{Checks}
use turbo_supermemory.Engine.{Engine}
use turbo_supermemory.Engine.Write.{Inputs, delete_by_id, delete_by_id_at}
use turbo_supermemory.Engine.Durable.Stages.{view, SameView, Counted, continue-ends}
use turbo_supermemory.Engine.Consistent.{Live, IsConsistent}
use turbo_supermemory.Engine.Consistent.{Live-SameView, Counted-SameView}
use turbo_supermemory.Engine.Consistent.Calls.{Within}
use turbo_supermemory.Engine.Batch.{}
use turbo_supermemory.Engine.History.{Call, run, run_all, cost, total_cost}
use turbo_supermemory.Engine.Flush.{
  FlushOutcome, step, drain_counters, flush_vectors, flush_meta, clear_log, before_snapshot,
  to_snapshot, after_snapshot,
}
use turbo_supermemory.Engine.Flush
use turbo_supermemory.Access.{drain_into, drain_all}
use turbo_supermemory.Engine.Durable.Drained.{Drained, drain_all-Drained}
use turbo_supermemory.Engine.Durable.Checkpoint.{flush_facts, after_snapshot_facts}
use turbo_supermemory.Engine.Consistent.Writes.{insert-Within, update-Within, delete-Within}
use turbo_supermemory.Engine.Consistent.Batches.{insert_batch-Within}

-- The records are the same up to access counts, and the index and the next offset are the same.
record SameRecords (e e' : Engine) : Type 0 where
  same : SameView e'.meta.records e.meta.records
  ids : e'.id_index ≡ e.id_index
  next_offset : e'.meta.next_offset ≡ e.meta.next_offset

SameRecords-trans : {e f g : Engine} → SameRecords e f → SameRecords f g → SameRecords e g
SameRecords-trans a b = record {
  same = λ o. b.same o ∙ a.same o;
  ids = b.ids ∙ a.ids;
  next_offset = b.next_offset ∙ a.next_offset;
}

SameRecords-meta :
    (e : Engine) (m : MetadataStore)
    → SameView m.records e.meta.records
    → m.next_offset ≡ e.meta.next_offset
    → SameRecords e (record e { meta = m })
SameRecords-meta e m v n = record { same = v; ids = refl; next_offset = n }

Within-SameRecords : (b : ℕ) (e e' : Engine) → SameRecords e e' → Within b e → Within b e'
Within-SameRecords b e e' s (h, le) = (
  record {
    live =
        subst (λ d. Live d e'.meta.records) (sym s.ids)
          (Live-SameView e.id_index _ _ s.same h.live);
    below =
        subst (λ n. Counted n e'.meta.records) (sym s.next_offset)
          (Counted-SameView e.meta.next_offset _ _ s.same h.below);
  },
  subst (λ n. n ≤ b) (sym s.next_offset) le,
)

module _ (k : Checks) where
  drain_counters-SameRecords : (e : Engine) → SameRecords e (drain_counters e)
  unfolding drain_counters drain_into
  drain_counters-SameRecords e =
      let d : Drained e.meta (drain_all e.counters.history_len e.counters.counters e.meta) =
        drain_all-Drained e.counters.history_len e.counters.counters e.meta in
      record { same = d.view; ids = refl; next_offset = d.next_offset }

  flush_meta-SameRecords : (b : Bool) (e : Engine) → SameRecords e (flush_meta b e).1
  unfolding flush_meta Metadata.flush
  flush_meta-SameRecords b e =
      SameRecords-meta e (Metadata.flush b (e.meta.next_seq - 1) e.meta).1
        (λ o. ap (λ d. view o d) (flush_facts k b (e.meta.next_seq - 1) e.meta).0) (ground arith)

  step-SameRecords :
      (b : Bool) (x : StorageError) (e e' : Engine)
      → SameRecords e e'
      → SameRecords e (step b x e').1
  step-SameRecords true x e e' s = s
  step-SameRecords false x e e' s = s

  before_snapshot-SameRecords :
      (o : FlushOutcome) (e : Engine) → SameRecords e (before_snapshot k o e).1
  unfolding before_snapshot flush_vectors
  before_snapshot-SameRecords o e =
      let m : Result (Unit {0}) × Engine = step o.log_synced io (drain_counters e) in
      let s1 : SameRecords e m.1 =
        step-SameRecords o.log_synced io e _ (drain_counters-SameRecords e) in
      continue-ends (SameRecords e) m _ (λ x q. s1)
        λ _ q1.
          let s2 : SameRecords e (flush_vectors k o.vectors m.1).1 =
            SameRecords-trans s1 (record { same = λ j. refl; ids = refl; next_offset = refl }) in
          continue-ends (SameRecords e) (flush_vectors k o.vectors m.1) _ (λ x q. s2)
            λ _ q2. step-SameRecords o.text index_error e _ s2

  after_snapshot-SameRecords :
      (o : FlushOutcome) (e : Engine) → SameRecords e (after_snapshot o e).1
  unfolding after_snapshot clear_log
  after_snapshot-SameRecords o e = record {
    same = λ j. ap (λ d. view j d) (after_snapshot_facts k o e).1;
    ids = ground arith;
    next_offset = ground arith;
  }

  flush-SameRecords : (o : FlushOutcome) (e : Engine) → SameRecords e (Flush.flush k o e).1
  unfolding Flush.flush to_snapshot
  flush-SameRecords o e =
      let s1 : SameRecords e (before_snapshot k o e).1 = before_snapshot-SameRecords o e in
      let s2 : SameRecords e (to_snapshot k o e).1 =
        continue-ends (SameRecords e) (before_snapshot k o e) _ (λ x q. s1)
          (λ _ q. SameRecords-trans s1 (flush_meta-SameRecords o.committed _)) in
      continue-ends (SameRecords e) (to_snapshot k o e) _ (λ x q. s2)
        (λ _ q. SameRecords-trans s2 (after_snapshot-SameRecords o _))

  Within-more : (b b' : ℕ) (e : Engine) → Within b e → b ≤ b' → Within b' e
  Within-more b b' e (h, le) more = (h, omega arith)

  module _ (x : Inputs) where
    run-Within :
        (b : ℕ) (c : Call) (e : Engine)
        → b + cost c < 2 ^ 64
        → Within b e
        → Within (b + cost c) (run k x c e)
    unfolding run delete_by_id delete_by_id_at
    run-Within b (Call.insert out now input) e room h = insert-Within k x out now b input e room h
    run-Within b (Call.insert_batch out resizes now input) e room h =
        insert_batch-Within k x out resizes now b input e room h
    run-Within b (Call.update out now input) e room h = update-Within k x out now b input e room h
    run-Within b (Call.delete out id) e room h =
        Within-more b _ _ (delete-Within k x out 0 b id (λ offset. true) e h) (omega arith)
    run-Within b (Call.delete_at out id o) e room h =
        Within-more b _ _ (delete-Within k x out 0 b id (λ current. current == o) e h) (omega arith)
    run-Within b (Call.flush o) e room h =
        Within-more b _ _ (Within-SameRecords b _ _ (flush-SameRecords o e) h) (omega arith)

    run_all-Within :
        (b n : ℕ) (cs : List Call) (e : Engine)
        → b + total_cost cs ≡ n
        → n < 2 ^ 64
        → Within b e
        → Within n (run_all k x cs e)
    unfolding run_all
    run_all-Within b n [] e q room h = (h.0, omega (arith, h.1))
    run_all-Within b n (c ∷ cs) e q room h =
        run_all-Within (b + cost c) n cs (run k x c e) (omega arith) room
          (run-Within b c e (omega arith) h)

    -- After any sequence of inserts, batches, updates, deletes and flushes, each with any steps
    -- failing, every id of the index stands for the offset of a record that has this id, and
    -- every record lies below the next offset, if this holds at the start and there is room for
    -- the offsets that the calls may hand out.
    pub run_all-IsConsistent :
        (cs : List Call) (e : Engine)
        → e.meta.next_offset + total_cost cs < 2 ^ 64
        → IsConsistent e
        → IsConsistent (run_all k x cs e)
    run_all-IsConsistent cs e room h =
        (run_all-Within e.meta.next_offset _ cs e refl room (h, omega arith)).0
