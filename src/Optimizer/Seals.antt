-- ===== src/Optimizer/Seals.antt =====
-- How the loop over the pending seals of crates/turbomemory_storage/src/optimizer.rs ends.
use turbo_supermemory.Common.{
  ℕ, zero, suc, ◌<◌, ◌≤◌, ◌≡◌, refl, ap, ◌∙◌, sym, subst, List, [], ◌∷◌, ◌++◌, length, is_empty,
  Option, some, Bool, true, false, nat_eq, if◌then◌else◌, arith, Bool-cases, ◌⊎◌, inl, inr,
  Option-cases, length-append,
}
use turbo_supermemory.Record.{PointOffset, Result, ok, err}
use turbo_supermemory.Segments.{
  Arc, SegmentHolder, TierConfig, publish_snapshot, allocate_arc, next_path, pop_last, without,
  pop_sealing_plain, remove_sealing_plain, push_sealed_hot, push_warm, compact_warm, install_cold,
}
use turbo_supermemory.Segments.Found.{pop_last-append}
use turbo_supermemory.Segments.Visible.{}
use turbo_supermemory.Segments.Moves.{}
use turbo_supermemory.Segments.Installs.{}
use turbo_supermemory.Optimizer.{
  ResourceBudget, BuiltSegment, sealed, warm, Builds, use_hnsw, build_segment, install, seal_popped,
  process_one_seal, process_pending_seals,
}
use turbo_supermemory.Optimizer.Passes.{IsSearchable, Keeps, process_one_seal-Keeps}

-- A pass reports progress, or the loop stops.
progress_cases :
    (r : Result Bool)
    → (r ≡ ok true)
      ⊎ ((rest done : Option (SegmentHolder × ResourceBudget))
          → elim r as (λ x. Option (SegmentHolder × ResourceBudget)) [
            | ok more ↦ if more then rest else done
            | err x ↦ done
          ]
            ≡ done)
progress_cases (ok true) = inl refl
progress_cases (ok false) = inr (λ rest done. refl)
progress_cases (err x) = inr (λ rest done. refl)

length-without : (p : Arc) (ps : List Arc) → length (without p ps) ≤ length ps
unfolding without
length-without p [] = omega arith
length-without p (q ∷ qs) = ground (arith, length-without p qs)

module _ (c : TierConfig) (stored : PointOffset → Bool) (o : Builds) where
  compact_warm-queue :
      (h : SegmentHolder)
      → (compact_warm c stored o.cold_built h).1.lists.sealing_plain ≡ h.lists.sealing_plain
  unfolding compact_warm install_cold publish_snapshot allocate_arc next_path
  compact_warm-queue h = ground arith

  length-install :
      (plain : Arc) (r : Result BuiltSegment) (h : SegmentHolder)
      → (install c stored o plain r h).0 ≡ ok true
      → length (install c stored o plain r h).1.lists.sealing_plain ≤ length h.lists.sealing_plain
  unfolding install push_sealed_hot publish_snapshot allocate_arc remove_sealing_plain push_warm
  length-install plain (ok (sealed v)) h e = length-without plain h.lists.sealing_plain
  length-install plain (ok (warm v)) h e =
      subst (λ ps. length ps ≤ length h.lists.sealing_plain)
        (sym (compact_warm-queue (push_warm v (remove_sealing_plain plain h))))
        (length-without plain h.lists.sealing_plain)
  length-install plain (err x) h e = absurd (ground (arith, e))

  length-seal_popped :
      (plain : Arc) (h : SegmentHolder) (b : ResourceBudget)
      → (seal_popped c stored o plain h b).0 ≡ ok true
      → length (seal_popped c stored o plain h b).1.0.lists.sealing_plain
        ≤ length h.lists.sealing_plain
  unfolding seal_popped publish_snapshot remove_sealing_plain next_path
  length-seal_popped plain h b q = elim (Bool-cases (is_empty (h.heap plain))) [
    | inl e ↦ rw (e) (length-without plain h.lists.sealing_plain)
    | inr e ↦ rw (e) (
        length-install plain
          (build_segment c stored o (use_hnsw c (length (h.heap plain)) b).0 (h.heap plain))
          (next_path h) (ground (arith, e, q)))
  ]

  -- A pass that reports progress leaves a shorter queue.
  process_one_seal-shrinks :
      (h : SegmentHolder) (b : ResourceBudget)
      → (process_one_seal c stored o h b).0 ≡ ok true
      → length (process_one_seal c stored o h b).1.0.lists.sealing_plain
        < length h.lists.sealing_plain
  unfolding process_one_seal pop_sealing_plain
  process_one_seal-shrinks h b q = elim (Option-cases (pop_last h.lists.sealing_plain)) [
    | inl e ↦ absurd (ground (arith, e, q))
    | inr ((plain, rest), e) ↦
        let h1 : SegmentHolder = record h {
          lists = record h.lists {
            sealing_plain = rest;
            building_plain = h.lists.building_plain ++ (plain ∷ []);
          };
        } in
        let le = length-seal_popped plain h1 b (ground (arith, e, q)) in
        rw (e, process_one_seal, length)
          (omega (
            arith,
            le,
            ap length (pop_last-append h.lists.sealing_plain plain rest e),
            length-append rest (plain ∷ []),
          ))
  ]

pub Keeps-trans :
    (stored : PointOffset → Bool) (h h1 h2 : SegmentHolder)
    → Keeps stored h h1
    → Keeps stored h1 h2
    → Keeps stored h h2
Keeps-trans stored h h1 h2 a b = record {
  searchable = b.searchable;
  same = λ o s. b.same o s ∙ a.same o s;
}

module _ (c : TierConfig) (stored : PointOffset → Bool) (builds : ℕ → Builds) where
  pending_step :
      (fuel : ℕ) (h : SegmentHolder) (b : ResourceBudget)
      → (process_one_seal c stored (builds fuel) h b).0 ≡ ok true
      → process_pending_seals c stored builds (suc fuel) h b
        ≡ process_pending_seals c stored builds fuel
            (process_one_seal c stored (builds fuel) h b).1.0
            (process_one_seal c stored (builds fuel) h b).1.1
  unfolding process_pending_seals
  pending_step fuel h b q = rw (q, process_pending_seals) refl

  -- The loop over the pending seals ends with more fuel than there are pending segments,
  -- whichever builds fail. Then the snapshot is again that of the lists, and the lists have the
  -- same offsets with vectors as before, provided that at the start the snapshot is that of the
  -- lists and no list shares the plain segment.
  pub process_pending_seals-Keeps :
      (fuel : ℕ) (h : SegmentHolder) (b : ResourceBudget)
      → length h.lists.sealing_plain < fuel
      → IsSearchable h
      → (r : SegmentHolder × ResourceBudget) × ((process_pending_seals c stored builds fuel h b
            ≡ some r)
          × Keeps stored h r.0)
  unfolding process_pending_seals
  process_pending_seals-Keeps zero h b lt w = absurd (omega (arith, lt))
  process_pending_seals-Keeps (suc fuel) h b lt w =
      let kept = process_one_seal-Keeps c stored (builds fuel) h b w in
      elim (progress_cases (process_one_seal c stored (builds fuel) h b).0) [
        | inl q ↦
            let rest =
              process_pending_seals-Keeps fuel _ (process_one_seal c stored (builds fuel) h b).1.1
                (omega (arith, lt, process_one_seal-shrinks c stored (builds fuel) h b q))
                kept.searchable in
            (rest.0, (pending_step fuel h b q ∙ rest.1.0, Keeps-trans stored _ _ _ kept rest.1.1))
        | inr stop ↦ (_, (stop _ _, kept))
      ]
