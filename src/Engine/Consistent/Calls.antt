-- ===== src/Engine/Consistent/Calls.antt =====
-- The stages that the writes share, up to the worker's answer, keep the id index and the records in
-- agreement.
use turbo_supermemory.Common.{
  if◌then◌else◌, ℕ, ◌≤◌, ◌≡◌, refl, sym, subst, String, List, some, true, false, inl, inr,
  Bool-cases, nat_eq, string_eq, arith,
}
use turbo_supermemory.Common.Dict.{lookup}
use turbo_supermemory.Record.{Record, PointOffset, Result}
use turbo_supermemory.Wal.Codec.{WalOp}
use turbo_supermemory.Metadata
use turbo_supermemory.Metadata.{MetadataStore, put_batch, put_loop}
use turbo_supermemory.Engine.{
  err, invalid_argument, Engine, Outcome, continue, sync_vectors_if_configured, log, index_loop,
  index_text, graph_loop, segment_loop, apply_batch, submit_and_wait, Reply, acknowledged,
  disconnected, lost, remove_from_indexes,
}
use turbo_supermemory.Engine.Write.{}
use turbo_supermemory.Engine.Durable.Stages.{Counted, Counted-remove, continue-ends}
use turbo_supermemory.Engine.Durable.Batched.{Rising}
use turbo_supermemory.Engine.Consistent.{
  Live, Live-remove, IsConsistent, Present, Below, put_loop-Live, put_loop-bound, SameIds,
  SameIds-trans, IsConsistent-SameIds, index_loop-Live, index_text-SameIds, graph_loop-SameIds,
  segment_loop-SameIds, seal-SameIds,
}

-- Consistent, with no more than `b` offsets handed out.
abbrev pub Within : ℕ → Engine → Type 0
Within b e = IsConsistent e × (e.meta.next_offset ≤ b)

pub Within-SameIds : (b : ℕ) (e e' : Engine) → SameIds e e' → Within b e → Within b e'
Within-SameIds b e e' s (h, le) = (
  IsConsistent-SameIds e e' s h,
  subst (λ (m : MetadataStore). m.next_offset ≤ b) (sym s.meta) le,
)

module _ (out : Outcome) where
  put_batch-Within :
      (n b : ℕ) (rs : List (PointOffset × Record)) (e : Engine)
      → Rising n rs
      → Below e.meta.next_offset rs
      → Counted n e.meta.records
      → Within b e
      → Within b (record e { meta = put_batch rs e.meta })
        × Present rs (put_batch rs e.meta).records
  unfolding put_batch
  put_batch-Within n b rs e r p counted (h, le) =
      let (live, present) =
        put_loop-Live n e.id_index rs e.meta.records e.meta.dirty 0 r counted h.live in
      (
        (
          record {
            live = live;
            below = put_loop-bound e.meta.next_offset rs e.meta.records e.meta.dirty 0 p h.below;
          },
          le,
        ),
        present,
      )

  index_loop-Within :
      (b : ℕ) (rs : List (PointOffset × Record)) (e : Engine)
      → Present rs e.meta.records
      → Within b e
      → Within b (index_loop out rs e).1
  index_loop-Within b rs e p (h, le) =
      let (live, same) = index_loop-Live out rs e p h.live in
      (
        record {
          live =
              subst (λ (m : MetadataStore). Live (index_loop out rs e).1.id_index m.records)
                (sym same) live;
          below = subst (λ (m : MetadataStore). Counted m.next_offset m.records) (sym same) h.below;
        },
        subst (λ (m : MetadataStore). m.next_offset ≤ b) (sym same) le,
      )

  -- Records at fresh offsets go into the cache and the indexes, up to a failure.
  pub apply_batch-Within :
      (n b : ℕ) (rs : List (PointOffset × Record)) (e : Engine)
      → Rising n rs
      → Below e.meta.next_offset rs
      → Counted n e.meta.records
      → Within b e
      → Within b (apply_batch out rs e).1
  unfolding apply_batch
  apply_batch-Within n b rs e r p counted h =
      let e0 : Engine = record e { meta = put_batch rs e.meta } in
      let (h0, present) = put_batch-Within n b rs e r p counted h in
      let h1 : Within b (index_loop out rs e0).1 = index_loop-Within b rs e0 present h0 in
      continue-ends (Within b) (index_loop out rs e0) _ (λ x q. h1)
        λ _ q1.
          let e1 : Engine = (index_loop out rs e0).1 in
          let h2 : Within b (index_text out rs e1).1 =
            Within-SameIds b _ _ (index_text-SameIds out rs e1) h1 in
          continue-ends (Within b) (index_text out rs e1) _ (λ x q. h2)
            λ _ q2.
              let e2 : Engine = graph_loop out rs (index_text out rs e1).1 in
              let h3 : Within b (segment_loop out rs false e2).1 =
                Within-SameIds b _ _
                  (SameIds-trans (graph_loop-SameIds out rs _)
                    (segment_loop-SameIds out rs false e2))
                  h2 in
              continue-ends (Within b) (segment_loop out rs false e2) _ (λ x q. h3)
                λ needs q3. Within-SameIds b _ _ (seal-SameIds out needs _) h3

  -- Whatever becomes of the worker.
  pub submit_and_wait-Within :
      (n b : ℕ) (rs : List (PointOffset × Record)) (e : Engine)
      → Rising n rs
      → Below e.meta.next_offset rs
      → Counted n e.meta.records
      → Within b e
      → Within b (submit_and_wait out rs e).1
  unfolding submit_and_wait
  submit_and_wait-Within n b rs e r p counted h =
      let done : Within b (apply_batch out rs e).1 = apply_batch-Within n b rs e r p counted h in
      ended out.worker done
    where
      ended :
          (w : Reply)
          → Within b (apply_batch out rs e).1
          → Within b
              (elim w as (λ x. Result (Unit {0}) × Engine) [
                | acknowledged ↦ apply_batch out rs e
                | disconnected ↦ (err invalid_argument, e)
                | lost worked ↦
                    (err invalid_argument, if worked then (apply_batch out rs e).1 else e)
              ]).1
      ended acknowledged done = done
      ended disconnected done = h
      ended (lost true) done = done
      ended (lost false) done = h

  pub remove_from_indexes-Within :
      (n b : ℕ) (id : String) (o : ℕ) (e : Engine)
      → lookup id e.id_index ≡ some o
      → Counted n e.meta.records
      → Within b e
      → Within b (remove_from_indexes out id o e).1
        × Counted n (remove_from_indexes out id o e).1.meta.records
        × ((remove_from_indexes out id o e).1.meta.next_offset ≡ e.meta.next_offset)
  unfolding remove_from_indexes Metadata.remove
  remove_from_indexes-Within n b id o e known counted (h, le) =
      let (m, here, named) = h.live id o known in
      elim (Bool-cases out.text_removed) [
        | inl works ↦
            rw (here, works, remove_from_indexes)
              (
                (
                  record {
                    live = Live-remove id o e.id_index e.meta.records known h.live;
                    below = Counted-remove e.meta.next_offset o e.meta.records h.below;
                  },
                  le,
                ),
                Counted-remove n o e.meta.records counted,
                refl,
              )
        | inr fails ↦
            rw (here, fails, remove_from_indexes)
              ((record { live = h.live; below = h.below }, le), counted, refl)
      ]

  pub log-SameIds : (ops : List WalOp) (e : Engine) → SameIds e (log out ops e).1
  unfolding log
  log-SameIds ops e = record { meta = ground arith; ids = ground arith }

  sync-SameIds : (e : Engine) → SameIds e (sync_vectors_if_configured out e).1
  unfolding sync_vectors_if_configured
  sync-SameIds e = record { meta = ground arith; ids = ground arith }

  -- The front of every write: vectors, their sync and the log.
  pub front-Within :
      {A : Type 0} (b : ℕ) (e : Engine) (m : Result (Unit {0}) × Engine) (ops : List WalOp)
      (rest : Unit {0} → Engine → Result A × Engine)
      → SameIds e m.1
      → Within b e
      → ((e3 : Engine) → SameIds e e3 → Within b (rest tt e3).1)
      → Within b
          (continue m λ _ e1.
            continue (sync_vectors_if_configured out e1) λ _ e2. continue (log out ops e2) rest).1
  front-Within b e m ops rest same h after =
      continue-ends (Within b) m _ (λ s q. Within-SameIds b _ _ same h)
        λ _ q1.
          let e2 : Engine = (sync_vectors_if_configured out m.1).1 in
          let same2 : SameIds e e2 = SameIds-trans same (sync-SameIds m.1) in
          continue-ends (Within b) (sync_vectors_if_configured out m.1) _
            (λ s q. Within-SameIds b _ _ same2 h)
            λ _ q2.
              let same3 : SameIds e (log out ops e2).1 = SameIds-trans same2 (log-SameIds ops e2) in
              continue-ends (Within b) (log out ops e2) rest (λ s q. Within-SameIds b _ _ same3 h)
                λ _ q3. after (log out ops e2).1 same3
