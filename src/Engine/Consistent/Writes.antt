-- ===== src/Engine/Consistent/Writes.antt =====
-- Inserts, updates and deletes keep the id index and the records in agreement.
use turbo_supermemory.Common.{
  ℕ, ◌+◌, ◌^◌, ◌<◌, ◌≡◌, refl, sym, ◌∙◌, ap, subst, String, List, [], ◌∷◌, some, Bool, inl, inr,
  Bool-cases, Option-cases, nat_eq, string_eq, arith,
}
use turbo_supermemory.Common.Dict.{lookup, has_key}
use turbo_supermemory.Record.{Record, PointOffset}
use turbo_supermemory.Wal.Codec.{WalOp}
use turbo_supermemory.Metadata.{MetadataStore}
use turbo_supermemory.Vectors.{Checks}
use turbo_supermemory.Engine.{
  Engine, Outcome, put_vector, log, submit_and_wait, remove_from_indexes,
}
use turbo_supermemory.Engine.Write.{
  Inputs, WriteInput, PreparedRecord, prepare, allocate, commit_insert, insert_with_payload_role,
  delete_where, commit_replace, update_with_payload_role,
}
use turbo_supermemory.Engine.Durable.Stages.{Counted, Counted-mono, continue-ends}
use turbo_supermemory.Engine.Durable.Logged.{Result-cases}
use turbo_supermemory.Engine.Consistent.{SameIds}
use turbo_supermemory.Engine.Consistent.Calls.{
  Within, Within-SameIds, submit_and_wait-Within, remove_from_indexes-Within, log-SameIds,
  front-Within,
}
use turbo_supermemory.Engine.Batch.{}
use turbo_supermemory.Engine.Flush.{}

module _ (k : Checks) where
  pub put_vector-SameIds :
      (out : Outcome) (o : ℕ) (v : List ℕ) (e : Engine) → SameIds e (put_vector k out o v e).1
  unfolding put_vector
  put_vector-SameIds out o v e = record { meta = refl; ids = refl }

  pub allocate-Within :
      (now b : ℕ) (p : PreparedRecord) (e : Engine)
      → b + 1 < 2 ^ 64
      → Within b e
      → Within (b + 1) (allocate now p e).1
        × ((allocate now p e).1.meta.next_offset ≡ e.meta.next_offset + 1)
  unfolding allocate
  allocate-Within now b p e room (h, le) = (
    (
      record {
        live = h.live;
        below = Counted-mono e.meta.next_offset _ e.meta.records (omega arith) h.below;
      },
      omega arith,
    ),
    omega arith,
  )

  Counted-allocate :
      (now : ℕ) (p : PreparedRecord) (e : Engine)
      → Counted e.meta.next_offset e.meta.records
      → Counted e.meta.next_offset (allocate now p e).1.meta.records
  unfolding allocate
  Counted-allocate now p e h = h

  ids-allocate :
      (now : ℕ) (p : PreparedRecord) (e : Engine) (id : String) (o : ℕ)
      → lookup id e.id_index ≡ some o
      → lookup id (allocate now p e).1.id_index ≡ some o
  unfolding allocate
  ids-allocate now p e id o h = h

  module _ (x : Inputs) (out : Outcome) (now : ℕ) where
    commit_insert-Within :
        (b o : ℕ) (r : Record) (e : Engine)
        → Within b e
        → Counted o e.meta.records
        → o < e.meta.next_offset
        → Within b (commit_insert k x out now (o, r) e).1
    unfolding commit_insert
    commit_insert-Within b o r e h counted lt =
        front-Within out b e (put_vector k out o r.embedding e) _ _
          (put_vector-SameIds out o r.embedding e) h
          λ e3 same.
            let h4 : Within b (submit_and_wait out ((o, r) ∷ []) e3).1 =
              submit_and_wait-Within out o b ((o, r) ∷ []) e3 (omega arith, tt)
                (subst (λ (m : MetadataStore). o < m.next_offset) (sym same.meta) lt, tt)
                (subst (λ (m : MetadataStore). Counted o m.records) (sym same.meta) counted)
                (Within-SameIds b _ _ same h) in
            continue-ends (Within b) (submit_and_wait out ((o, r) ∷ []) e3) _ (λ s q. h4)
              (λ _ q. h4)

    commit_replace-Within :
        (b : ℕ) (id : String) (old o : ℕ) (r : Record) (e : Engine)
        → Within b e
        → lookup id e.id_index ≡ some old
        → Counted o e.meta.records
        → o < e.meta.next_offset
        → Within b (commit_replace k x out now id old (o, r) e).1
    unfolding commit_replace
    commit_replace-Within b id old o r e h known counted lt =
        front-Within out b e (put_vector k out o r.embedding e) _ _
          (put_vector-SameIds out o r.embedding e) h
          λ e3 same.
            let (h4, counted4, next4) =
              remove_from_indexes-Within out o b id old e3 (ap (λ d. lookup id d) same.ids ∙ known)
                (subst (λ (m : MetadataStore). Counted o m.records) (sym same.meta) counted)
                (Within-SameIds b _ _ same h) in
            let e4 : Engine = (remove_from_indexes out id old e3).1 in
            continue-ends (Within b) (remove_from_indexes out id old e3) _ (λ s q. h4)
              λ _ q.
                let h5 : Within b (submit_and_wait out ((o, r) ∷ []) e4).1 =
                  submit_and_wait-Within out o b ((o, r) ∷ []) e4 (omega arith, tt)
                    (
                      subst (λ n. o < n) (sym next4)
                          (subst (λ (m : MetadataStore). o < m.next_offset) (sym same.meta) lt),
                      tt,
                    )
                    counted4 h4 in
                continue-ends (Within b) (submit_and_wait out ((o, r) ∷ []) e4) _ (λ s q'. h5)
                  (λ _ q'. h5)

    pub insert-Within :
        (b : ℕ) (input : WriteInput) (e : Engine)
        → b + 1 < 2 ^ 64
        → Within b e
        → Within (b + 1) (insert_with_payload_role k x out now input e).1
    unfolding insert_with_payload_role
    insert-Within b input e room h = elim (Result-cases (prepare x e.dimension input)) [
      | inr (s, bad) ↦ rw (bad, insert_with_payload_role) (h.0, omega (arith, h.1))
      | inl (p, good) ↦ elim (Bool-cases (has_key input.id e.id_index)) [
        | inl known ↦ rw (good, known, insert_with_payload_role) (h.0, omega (arith, h.1))
        | inr new ↦
            let (h1, next) = allocate-Within now b p e room h in
            rw (good, new, insert_with_payload_role)
              (commit_insert-Within (b + 1) e.meta.next_offset (allocate now p e).0.1
                (allocate now p e).1 h1 (Counted-allocate now p e h.0.below) (omega (arith, next)))
      ]
    ]

    pub update-Within :
        (b : ℕ) (input : WriteInput) (e : Engine)
        → b + 1 < 2 ^ 64
        → Within b e
        → Within (b + 1) (update_with_payload_role k x out now input e).1
    unfolding update_with_payload_role
    update-Within b input e room h = elim (Option-cases (lookup input.id e.id_index)) [
      | inl absent ↦ rw (absent, update_with_payload_role) (h.0, omega (arith, h.1))
      | inr (old, present) ↦ elim (Result-cases (prepare x e.dimension input)) [
        | inr (s, bad) ↦ rw (present, bad, update_with_payload_role) (h.0, omega (arith, h.1))
        | inl (p, good) ↦
            let (h1, next) = allocate-Within now b p e room h in
            rw (present, good, update_with_payload_role)
              (commit_replace-Within (b + 1) input.id old e.meta.next_offset (allocate now p e).0.1
                (allocate now p e).1 h1 (ids-allocate now p e input.id old present)
                (Counted-allocate now p e h.0.below) (omega (arith, next)))
      ]
    ]

    pub delete-Within :
        (b : ℕ) (id : String) (matches : PointOffset → Bool) (e : Engine)
        → Within b e
        → Within b (delete_where k x out now id matches e).1
    unfolding delete_where
    delete-Within b id matches e h = elim (Option-cases (lookup id e.id_index)) [
      | inl absent ↦ rw (absent, delete_where) h
      | inr (o, present) ↦ elim (Bool-cases (matches o)) [
        | inr other ↦ rw (present, other, delete_where) h
        | inl same ↦
            rw (present, same, delete_where)
              (let e1 : Engine = (log out (WalOp.delete o ∷ []) e).1 in
                let same1 = log-SameIds out (WalOp.delete o ∷ []) e in
                let h1 : Within b e1 = Within-SameIds b _ _ same1 h in
                let known : lookup id e1.id_index ≡ some o =
                  ap (λ d. lookup id d) same1.ids ∙ present in
                let (h2, _, _) =
                  remove_from_indexes-Within out e1.meta.next_offset b id o e1 known h1.0.below
                    h1 in
                continue-ends (Within b) (log out (WalOp.delete o ∷ []) e) _ (λ s q. h1)
                  λ _ q.
                    continue-ends (Within b) (remove_from_indexes out id o e1) _ (λ s q'. h2)
                      (λ _ q'. h2))
      ]
    ]
