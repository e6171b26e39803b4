-- ===== src/Engine/Durable/Limits.antt =====
-- Where the invariant or the recovery gives way: a log whose sync fails or a worker that is gone behind
-- a logged record, and vectors without a snapshot.
use turbo_supermemory.Common.{
  ℕ, ◌^◌, ◌<◌, ◌≡◌, refl, ◌∙◌, ap, [], ◌∷◌, ◌++◌, length, some, Bool, true, false, not, ◌&&◌, arith,
  nat_eq, string_eq, ltb, lt→ltb,
}
use turbo_supermemory.Common.Dict.{lookup, lookup-insert}
use turbo_supermemory.Record.{StorageError, invalid_argument, ok, err}
use turbo_supermemory.Metadata.{MetadataStore, open_store, is_fresh}
use turbo_supermemory.Vectors.{Checks, open_vectors}
use turbo_supermemory.Vectors.Survival.{reopen-IsSound}
use turbo_supermemory.Engine.{Engine}
use turbo_supermemory.Engine.Replay.{
  Replay, Image, OpenConfig, last_applied, start_replay, all_work, finish_open, open_engine,
}
use turbo_supermemory.Engine.Durable.Spec.{apply_ops}
use turbo_supermemory.Engine.Durable.Stages.{IsDurable}
use turbo_supermemory.Record.{Record, meta_of, io, corrupted}
use turbo_supermemory.Common.Dict.{has_key}
use turbo_supermemory.Engine.{
  Outcome, put_vector, sync_vectors_if_configured, log, submit_and_wait, disconnected, lost,
}
use turbo_supermemory.Engine.Write.{
  Inputs, WriteInput, PreparedRecord, prepare, allocate, insert_op, commit_insert,
  insert_with_payload_role,
}
use turbo_supermemory.Engine.Durable.Replayed.{has_effect, image_of, replay_all-idle}
use turbo_supermemory.Engine.Durable.Recovery.{persist_committed, open_engine_lem}
use turbo_supermemory.Engine.Durable.Spec.{apply_ops-append}

module _ (k : Checks) where
  finish_open_refuses :
      (config : OpenConfig) (image : Image) (at_open : ℕ) (st : Replay)
      → st.vectors.mapped ≡ true
      → (is_fresh (open_store image.db) && (not st.replayed && ltb 0 at_open)) ≡ true
      → finish_open k config all_work image at_open st ≡ err corrupted
  unfolding finish_open
  finish_open_refuses config image at_open st live bad =
      let (saved, e, s) = persist_committed k image st live in rw (e, bad) refl

  -- If the invariant holds when the process dies, the number of rows fits 64 bits and the
  -- configuration fits, but the snapshot was never written, the log is without effect and the
  -- vector header counts vectors, `open`, with none of its own steps failing, returns
  -- `corrupted`.
  pub open_engine-refuses :
      (config : OpenConfig) (discarded : ℕ) (upgrade : Bool) (e : Engine)
      → IsDurable k e
      → length e.vectors.rows < 2 ^ 64
      → config.dimension ≡ e.vectors.dim
      → config.quantizers_fit ≡ true
      → is_fresh (open_store e.meta.db) ≡ true
      → has_effect e.wal ≡ false
      → 0 < e.vectors.header.count
      → open_engine k config all_work (image_of discarded upgrade e) ≡ err corrupted
  unfolding image_of start_replay open_store
  open_engine-refuses config discarded upgrade e h small dim fit fresh idle some_count =
      let image : Image = image_of discarded upgrade e in
      let (t, opens, sound, file, live, slots, count, same_dim) =
        reopen-IsSound k e.vectors h.sound small in
      let st : Replay = start_replay image t in
      open_engine_lem k config image e.vectors.file t fit refl
        (ap (λ n. open_vectors k n e.vectors.file) dim ∙ opens)
      ∙ ap (finish_open k config all_work image t.count)
          (replay_all-idle k (last_applied e.meta.db) e.wal st idle)
      ∙ finish_open_refuses config image t.count st live
          (ground (arith, fresh, lt→ltb 0 t.count (omega (arith, count, some_count))))

  -- What fails once the record is appended to the log, with its error: the sync of the log, or the
  -- worker, before it puts the record into the cache.
  pub data LateFailure (out : Outcome) : StorageError → Type 0 where
    unsynced : out.sync_log ≡ false → LateFailure out io
    no_worker : out.sync_log ≡ true → out.worker ≡ disconnected → LateFailure out invalid_argument
    lost_worker : out.sync_log ≡ true → out.worker ≡ lost false → LateFailure out invalid_argument

  module _ (x : Inputs) (out : Outcome) (now : ℕ) where
    commit_failed_late :
        (s : StorageError) (o : ℕ) (r : Record) (e : Engine)
        → e.sync_writes ≡ true
        → out.sync_vectors ≡ true
        → out.append ≡ true
        → LateFailure out s
        → (put_vector k out o r.embedding e).0 ≡ ok tt
        → ((commit_insert k x out now (o, r) e).0 ≡ err s)
          × ((commit_insert k x out now (o, r) e).1.meta ≡ e.meta)
          × ((commit_insert k x out now (o, r) e).1.wal ≡ e.wal ++ (insert_op k o r ∷ []))
    unfolding commit_insert sync_vectors_if_configured log put_vector submit_and_wait
    commit_failed_late _ o r e syncs vectors append (unsynced sync) stored =
        rw (stored, syncs, vectors, append, sync) (refl, refl, refl)
    commit_failed_late _ o r e syncs vectors append (no_worker sync gone) stored =
        rw (stored, syncs, vectors, append, sync, gone) (refl, refl, refl)
    commit_failed_late _ o r e syncs vectors append (lost_worker sync gone) stored =
        rw (stored, syncs, vectors, append, sync, gone) (refl, refl, refl)

    -- With `sync_writes`, if an insert of a valid record with a new id gets its vector stored
    -- and synced and its log record appended, and then the sync of the log fails, or the worker
    -- is gone or is lost before it works on the record, the caller gets an io error or, for the
    -- worker, `invalid_argument`, and the cache has the records of before, but applying the log
    -- to the snapshot gives the new record at its offset.
    pub insert_unsynced :
        (s : StorageError) (input : WriteInput) (p : PreparedRecord) (e : Engine)
        → prepare x e.dimension input ≡ ok p
        → has_key input.id e.id_index ≡ false
        → e.sync_writes ≡ true
        → out.sync_vectors ≡ true
        → out.append ≡ true
        → LateFailure out s
        → (put_vector k out (allocate now p e).0.0 p.embedding (allocate now p e).1).0 ≡ ok tt
        → ((insert_with_payload_role k x out now input e).0 ≡ err s)
          × ((insert_with_payload_role k x out now input e).1.meta.records ≡ e.meta.records)
          × (lookup e.meta.next_offset
                (apply_ops (insert_with_payload_role k x out now input e).1.wal e.meta.db.records)
              ≡ some (meta_of (allocate now p e).0.1))
    unfolding insert_with_payload_role allocate apply_ops
    insert_unsynced s input p e good new syncs vectors append late stored =
        let r : Record = (allocate now p e).0.1 in
        let e1 : Engine = (allocate now p e).1 in
        let (failed, kept, logged) =
          commit_failed_late s e.meta.next_offset r e1 syncs vectors append late stored in
        rw (good, new, insert_with_payload_role)
          (
            failed,
            ap (λ (m : MetadataStore). m.records) kept,
            ap (λ w. lookup e.meta.next_offset (apply_ops w e.meta.db.records)) logged
                ∙ ap (λ d. lookup e.meta.next_offset d)
                    (apply_ops-append e.wal (insert_op k e.meta.next_offset r ∷ [])
                      e.meta.db.records)
                ∙ ground (
                  arith,
                  lookup-insert e.meta.next_offset e.meta.next_offset (meta_of r)
                      (apply_ops e.wal e.meta.db.records),
                ),
          )
