-- ===== src/Engine/Consistent/Batches.antt =====
-- A batch insert keeps the id index and the records in agreement.
use turbo_supermemory.Common.{
  is_empty, ℕ, ◌+◌, ◌^◌, ◌≤◌, ◌<◌, ◌≡◌, refl, sym, subst, List, [], ◌∷◌, length, inl, inr,
  Bool-cases, nat_eq, string_eq, arith,
}
use turbo_supermemory.Record.{Record, PointOffset}
use turbo_supermemory.Metadata.{MetadataStore}
use turbo_supermemory.Vectors.{Checks, Resize}
use turbo_supermemory.Engine.{Engine, Outcome, put_vector, submit_and_wait}
use turbo_supermemory.Engine.Write.{Inputs, PreparedRecord, allocate}
use turbo_supermemory.Engine.Durable.Stages.{Counted, continue-ends}
use turbo_supermemory.Engine.Durable.Logged.{Result-cases}
use turbo_supermemory.Engine.Durable.Batched.{Rising, batch_inputs, length-retained}
use turbo_supermemory.Engine.Consistent.{Below, SameIds, SameIds-trans}
use turbo_supermemory.Engine.Consistent.Calls.{
  Within, Within-SameIds, submit_and_wait-Within, front-Within,
}
use turbo_supermemory.Engine.Batch.{
  mismatched, prepare_batch, retain_new, allocate_all, put_vectors, commit_batch, insert_prepared,
  BatchInput, insert_batch_with_payload_role,
}
use turbo_supermemory.Engine.Flush.{}
use turbo_supermemory.Engine.Consistent.Writes.{put_vector-SameIds, allocate-Within}

module _ (k : Checks) where
  put_vectors-SameIds :
      (out : Outcome) (resizes : PointOffset → Resize) (rs : List (PointOffset × Record))
      (e : Engine)
      → SameIds e (put_vectors k out resizes rs e).1
  unfolding put_vectors
  put_vectors-SameIds out resizes [] e = record { meta = refl; ids = refl }
  put_vectors-SameIds out resizes ((o, r) ∷ rs) e =
      let here : Outcome = record out { resize = resizes o } in
      let first : SameIds e (put_vector k here o r.embedding e).1 =
        put_vector-SameIds k here o r.embedding e in
      continue-ends (SameIds e) (put_vector k here o r.embedding e) _ (λ s q. first)
        λ _ q. SameIds-trans first (put_vectors-SameIds out resizes rs _)

  -- The offsets of a batch are fresh, and the index and the records are as they were.
  record Handed (b : ℕ) (e : Engine) (m : List (PointOffset × Record) × Engine) : Type 0 where
    within : Within b m.1
    rising : Rising e.meta.next_offset m.0
    below : Below m.1.meta.next_offset m.0
    more : e.meta.next_offset ≤ m.1.meta.next_offset
    records : m.1.meta.records ≡ e.meta.records

  allocate_all-Handed :
      (now b n : ℕ) (ps : List PreparedRecord) (e : Engine)
      → b + length ps ≡ n
      → n < 2 ^ 64
      → Within b e
      → Handed n e (allocate_all now ps e)
  unfolding allocate_all allocate
  allocate_all-Handed now b n [] e q room h = record {
    within = (h.0, omega (arith, h.1));
    rising = tt;
    below = tt;
    more = omega arith;
    records = refl;
  }
  allocate_all-Handed now b n (p ∷ ps) e q room h =
      let (h1, next) = allocate-Within k now b p e (omega arith) h in
      let rest : Handed n (allocate now p e).1 (allocate_all now ps (allocate now p e).1) =
        allocate_all-Handed now (b + 1) n ps (allocate now p e).1 (omega arith) room h1 in
      record {
        within = rest.within;
        rising = (
          omega arith,
          subst (λ i. Rising i (allocate_all now ps (allocate now p e).1).0) next rest.rising,
        );
        below = (omega (arith, rest.more, next), rest.below);
        more = omega (arith, rest.more, next);
        records = rest.records;
      }

  module _ (x : Inputs) (out : Outcome) (resizes : PointOffset → Resize) (now : ℕ) where
    commit_batch-Within :
        (b n : ℕ) (rs : List (PointOffset × Record)) (e : Engine)
        → Within b e
        → Rising n rs
        → Below e.meta.next_offset rs
        → Counted n e.meta.records
        → Within b (commit_batch k x out resizes now rs e).1
    unfolding commit_batch
    commit_batch-Within b n rs e h rising below counted =
        front-Within out b e (put_vectors k out resizes rs e) _ _
          (put_vectors-SameIds out resizes rs e) h
          λ e3 same.
            let h4 : Within b (submit_and_wait out rs e3).1 =
              submit_and_wait-Within out n b rs e3 rising
                (subst (λ (m : MetadataStore). Below m.next_offset rs) (sym same.meta) below)
                (subst (λ (m : MetadataStore). Counted n m.records) (sym same.meta) counted)
                (Within-SameIds b _ _ same h) in
            continue-ends (Within b) (submit_and_wait out rs e3) _ (λ s q. h4) (λ _ q. h4)

    insert_prepared-Within :
        (b n : ℕ) (ps : List PreparedRecord) (e : Engine)
        → b + length ps ≤ n
        → n < 2 ^ 64
        → Within b e
        → Within n (insert_prepared k x out resizes now ps e).1
    unfolding insert_prepared
    insert_prepared-Within b n [] e le room h = (h.0, omega (arith, h.1))
    insert_prepared-Within b n (p ∷ ps) e le room h =
        let a : Handed (b + length (p ∷ ps)) e (allocate_all now (p ∷ ps) e) =
          allocate_all-Handed now b (b + length (p ∷ ps)) (p ∷ ps) e refl (omega arith) h in
        commit_batch-Within n e.meta.next_offset (allocate_all now (p ∷ ps) e).0 _
          (a.within.0, omega (arith, a.within.1)) a.rising a.below
          (subst (λ d. Counted e.meta.next_offset d) (sym a.records) h.0.below)

    pub insert_batch-Within :
        (b : ℕ) (input : BatchInput) (e : Engine)
        → b + length input.ids < 2 ^ 64
        → Within b e
        → Within
            (b + length input.ids)
            (insert_batch_with_payload_role k x out resizes now input e).1
    unfolding insert_batch_with_payload_role
    insert_batch-Within b input e room h =
        let same : Within (b + length input.ids) e = (h.0, omega (arith, h.1)) in
        elim (Bool-cases (is_empty input.ids)) [
          | inl none_given ↦ rw (none_given, insert_batch_with_payload_role) same
          | inr given ↦ elim (Bool-cases (mismatched input)) [
            | inl bad ↦ rw (given, bad, insert_batch_with_payload_role) same
            | inr fits ↦
                elim (Result-cases
                  (prepare_batch x e.dimension (batch_inputs k x out resizes now input) [])) [
                    | inr (s, q) ↦ rw (given, fits, q, insert_batch_with_payload_role) same
                    | inl (ps, q) ↦
                        rw (given, fits, q, insert_batch_with_payload_role)
                          (insert_prepared-Within b (b + length input.ids) (retain_new ps e) e
                            (omega (arith, length-retained k x out resizes now input e ps q)) room
                            h)
                  ]
          ]
        ]
