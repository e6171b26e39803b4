-- ===== src/Engine/Durable/Calls.antt =====
-- Single writes keep the invariant whichever of their steps fails, but for a failed sync of the log, a
-- failed removal from the text index, and a worker that never works on the record.
use turbo_supermemory.Common.{
  ℕ, ◌<◌, ◌≡◌, refl, sym, subst, String, [], ◌∷◌, ◌++◌, Bool, true, false, not, ◌&&◌, inl, inr,
  Bool-cases, Option-cases, nat_eq, string_eq,
}
use turbo_supermemory.Common.Dict.{lookup, has_key}
use turbo_supermemory.Record.{Record, PointOffset, ok}
use turbo_supermemory.Wal.Codec.{WalOp}
use turbo_supermemory.Metadata.{MetadataStore}
use turbo_supermemory.Vectors.{Checks}
use turbo_supermemory.Engine.{
  Engine, Outcome, continue, log, submit_and_wait, reaches_worker, remove_from_indexes,
}
use turbo_supermemory.Engine.Replay.{last_applied}
use turbo_supermemory.Engine.Write.{
  Inputs, WriteInput, prepare, allocate, insert_op, replace_op, commit_insert,
  insert_with_payload_role, delete_where, commit_replace, update_with_payload_role,
}
use turbo_supermemory.Engine.Durable.Spec.{}
use turbo_supermemory.Engine.Durable.Stages.{
  LogBelow, IsDurable, continue-ends, submit_and_wait-SameCore, remove_from_indexes-SameCore,
}
use turbo_supermemory.Engine.Durable.Logged.{
  put_batch-SameCore, HasRoom, Result-cases, IsDurable-SameCore, allocate-IsDurable, same_sync,
  log_cases, insert_logged-IsDurable, replace_logged-IsDurable, delete_logged-IsDurable,
  store_and_log,
}

module _ (k : Checks) where
  module _ (x : Inputs) (out : Outcome) (now : ℕ) where
    commit_insert-IsDurable :
        (o : ℕ) (r : Record) (e : Engine)
        → (e.sync_writes && not out.sync_log) ≡ false
        → reaches_worker out.worker ≡ true
        → IsDurable k e
        → LogBelow o e.wal
        → o < e.meta.next_offset
        → last_applied e.meta.db < r.insert_seq
        → IsDurable k (commit_insert k x out now (o, r) e).1
    unfolding commit_insert
    commit_insert-IsDurable o r e synced works h l fresh newer =
        store_and_log k out o r.embedding (insert_op k o r) e _ synced h l λ e2 h2 v counted m.
          let e3 : Engine = record e2 { wal = e2.wal ++ (insert_op k o r ∷ []) } in
          let h3 : IsDurable k (submit_and_wait out ((o, r) ∷ []) e3).1 =
            IsDurable-SameCore k _ _ (submit_and_wait-SameCore out ((o, r) ∷ []) e3 works) (
              insert_logged-IsDurable k o r e2 h2 v counted
                (subst (λ (y : MetadataStore). o < y.next_offset) (sym m) fresh)
                (subst (λ (y : MetadataStore). last_applied y.db < r.insert_seq) (sym m) newer)) in
          continue-ends (IsDurable k) (submit_and_wait out ((o, r) ∷ []) e3) _ (λ s q. h3)
            (λ _ q. h3)

    commit_replace-IsDurable :
        (id : String) (old o : ℕ) (r : Record) (e : Engine)
        → (e.sync_writes && not out.sync_log) ≡ false
        → out.text_removed ≡ true
        → reaches_worker out.worker ≡ true
        → IsDurable k e
        → LogBelow o e.wal
        → o < e.meta.next_offset
        → last_applied e.meta.db < r.insert_seq
        → IsDurable k (commit_replace k x out now id old (o, r) e).1
    unfolding commit_replace
    commit_replace-IsDurable id old o r e synced removed works h l fresh newer =
        store_and_log k out o r.embedding (replace_op k old o r) e _ synced h l λ e2 h2 v counted m.
          let e3 : Engine = record e2 { wal = e2.wal ++ (replace_op k old o r ∷ []) } in
          let e4 : Engine = (remove_from_indexes out id old e3).1 in
          let (gone, done) = remove_from_indexes-SameCore out id old e3 removed in
          let h5 : IsDurable k (submit_and_wait out ((o, r) ∷ []) e4).1 =
            IsDurable-SameCore k _ _ (submit_and_wait-SameCore out ((o, r) ∷ []) e4 works) (
              IsDurable-SameCore k _ _ (put_batch-SameCore o r _ _ gone) (
                replace_logged-IsDurable k old o r e2 h2 v counted
                  (subst (λ (y : MetadataStore). o < y.next_offset) (sym m) fresh)
                  (subst (λ (y : MetadataStore). last_applied y.db < r.insert_seq) (sym m)
                    newer))) in
          continue-ends (IsDurable k) (remove_from_indexes out id old e3) _ (λ s q. cc (done, q))
            λ _ q.
              continue-ends (IsDurable k) (submit_and_wait out ((o, r) ∷ []) e4) _ (λ s q'. h5)
                (λ _ q'. h5)

    delete_found-IsDurable :
        (id : String) (o : PointOffset) (e : Engine)
        → (e.sync_writes && not out.sync_log) ≡ false
        → out.text_removed ≡ true
        → IsDurable k e
        → IsDurable k
            (continue
              (log out (WalOp.delete o ∷ []) e)
              λ _ e1. continue (remove_from_indexes out id o e1) λ _ e2. (ok true, e2)).1
    delete_found-IsDurable id o e synced removed h =
        let logged = log_cases k out (WalOp.delete o ∷ []) e synced refl in
        continue-ends (IsDurable k) (log out (WalOp.delete o ∷ []) e) _
          (λ s q. subst (IsDurable k) (sym (logged.1 s q)) h)
          λ u q.
            let e1 : Engine = record e { wal = e.wal ++ (WalOp.delete o ∷ []) } in
            let (gone, done) = remove_from_indexes-SameCore out id o e1 removed in
            let h1 : IsDurable k (remove_from_indexes out id o e1).1 =
              IsDurable-SameCore k _ _ gone (delete_logged-IsDurable k o e h) in
            subst
              (λ y. IsDurable k (continue (remove_from_indexes out id o y) λ _ e2. (ok true, e2)).1)
              (sym (logged.0 q))
              (continue-ends (IsDurable k) (remove_from_indexes out id o e1) _ (λ s q. h1)
                (λ _ q. h1))

    -- An insert, whichever of its steps fails, keeps the invariant, provided that the counters
    -- have room for one more, that, with `sync_writes`, the sync of the log does not fail, and
    -- that the worker is there and, if it is lost before it answers, has worked on the record.
    pub insert-IsDurable :
        (input : WriteInput) (e : Engine)
        → (e.sync_writes && not out.sync_log) ≡ false
        → reaches_worker out.worker ≡ true
        → HasRoom e
        → IsDurable k e
        → IsDurable k (insert_with_payload_role k x out now input e).1
    unfolding insert_with_payload_role
    insert-IsDurable input e synced works room h =
        elim (Result-cases (prepare x e.dimension input)) [
          | inr (s, bad) ↦ rw (bad, insert_with_payload_role) h
          | inl (p, good) ↦ elim (Bool-cases (has_key input.id e.id_index)) [
            | inl known ↦ rw (good, known, insert_with_payload_role) h
            | inr new ↦
                let (h1, l, fresh, newer) = allocate-IsDurable k now p e room h in
                rw (good, new, insert_with_payload_role)
                  (commit_insert-IsDurable (allocate now p e).0.0 (allocate now p e).0.1
                    (allocate now p e).1 (same_sync k now p e out synced) works h1 l fresh newer)
          ]
        ]

    -- An update, whichever of its steps fails, keeps the invariant, provided that the counters
    -- have room for one more, that the text index removes the old version, that, with
    -- `sync_writes`, the sync of the log does not fail, and that the worker is there and, if it
    -- is lost before it answers, has worked on the record.
    pub update-IsDurable :
        (input : WriteInput) (e : Engine)
        → (e.sync_writes && not out.sync_log) ≡ false
        → out.text_removed ≡ true
        → reaches_worker out.worker ≡ true
        → HasRoom e
        → IsDurable k e
        → IsDurable k (update_with_payload_role k x out now input e).1
    unfolding update_with_payload_role
    update-IsDurable input e synced removed works room h =
        elim (Option-cases (lookup input.id e.id_index)) [
          | inl absent ↦ rw (absent, update_with_payload_role) h
          | inr (old, present) ↦ elim (Result-cases (prepare x e.dimension input)) [
            | inr (s, bad) ↦ rw (present, bad, update_with_payload_role) h
            | inl (p, good) ↦
                let (h1, l, fresh, newer) = allocate-IsDurable k now p e room h in
                rw (present, good, update_with_payload_role)
                  (commit_replace-IsDurable input.id old (allocate now p e).0.0
                    (allocate now p e).0.1 (allocate now p e).1 (same_sync k now p e out synced)
                    removed works h1 l fresh newer)
          ]
        ]

    -- A delete, guarded by any test of the offset, keeps the invariant, whether or not the
    -- append to the log fails, provided that the text index removes the record and that, with
    -- `sync_writes`, the sync of the log does not fail.
    pub delete-IsDurable :
        (id : String) (matches : PointOffset → Bool) (e : Engine)
        → (e.sync_writes && not out.sync_log) ≡ false
        → out.text_removed ≡ true
        → IsDurable k e
        → IsDurable k (delete_where k x out now id matches e).1
    unfolding delete_where
    delete-IsDurable id matches e synced removed h = elim (Option-cases (lookup id e.id_index)) [
      | inl absent ↦ rw (absent, delete_where) h
      | inr (o, present) ↦ elim (Bool-cases (matches o)) [
        | inr other ↦ rw (present, other, delete_where) h
        | inl same ↦
            rw (present, same, delete_where) (delete_found-IsDurable id o e synced removed h)
      ]
    ]
