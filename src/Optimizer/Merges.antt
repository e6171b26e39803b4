-- ===== src/Optimizer/Merges.antt =====
-- The merges of crates/turbomemory_storage/src/optimizer.rs: which segments a merge takes, and what a
-- search finds after it.
use turbo_supermemory.Common.{
  ℕ, ◌+◌, ◌-◌, ◌^◌, min, max, ◌<◌, ◌≤◌, ◌≡◌, refl, ap, List, [], ◌∷◌, length, is_empty, Bool, true,
  ◌||◌, ◌==◌, nat_eq, ltb, leb, arith, Bool-cases, inl, inr, length-append,
}
use turbo_supermemory.Record.{PointOffset}
use turbo_supermemory.Segments.{
  Arc, Heap, SegmentHolder, TierConfig, covers, searchable_segments, publish_snapshot, next_path,
  push_sealed_hot, remove_sealed_hot_segments, read_vectors_for_offsets, all_offsets,
}
use turbo_supermemory.Segments.Found.{finds, covers-read_vectors, covers-all_offsets}
use turbo_supermemory.Segments.Visible.{found, IsOwned, publish-Published, shrunk-IsOwned}
use turbo_supermemory.Segments.Moves.{}
use turbo_supermemory.Segments.Installs.{
  push_sealed_hot-IsOwned, found-push_sealed_hot, remove_sealed_hot_segments-IsOwned,
  found-remove_sealed_hot_segments,
}
use turbo_supermemory.Optimizer.{
  ResourceBudget, merge_candidates, distinct, merge_group, process_one_merge,
}
use turbo_supermemory.Optimizer.{
  hard_cap, take_up_to, sort_by_count, insert_by_count, merge_threshold, merge_max, try_acquire,
}
use turbo_supermemory.Optimizer.Passes.{
  IsSearchable, Keeps, not_covered, next_path-IsOwned, push_sealed_hot-Published,
}

covers-distinct :
    (o : PointOffset) (seen xs : List PointOffset)
    → (covers o (distinct seen xs) || covers o seen) ≡ (covers o xs || covers o seen)
unfolding covers distinct
covers-distinct o seen [] = refl
covers-distinct o seen (x ∷ xs) =
    let ih = covers-distinct o (x ∷ seen) xs in
    elim (Bool-cases (x == o)) [
      | inl same ↦
          let e : x ≡ o = (nat_eq.matches_iff x o).0 same in
          ground (arith, ih, ap (λ y. covers y seen) e, same)
      | inr other ↦ ground (arith, ih, other)
    ]

module _ (c : TierConfig) (stored : PointOffset → Bool) (built : Bool) where
  merged-finds :
      (ts : List Arc) (h : SegmentHolder) (o : PointOffset)
      → covers o (distinct [] (all_offsets h.heap ts)) ≡ finds h.heap ts o
  unfolding covers
  merged-finds ts h o =
      ground (arith, covers-distinct o [] (all_offsets h.heap ts), covers-all_offsets h.heap ts o)

  replaced-Keeps :
      (ts : List Arc) (h : SegmentHolder)
      → IsOwned h
      → ((o : PointOffset) → finds h.heap ts o ≡ true → found h o ≡ true)
      → Keeps stored h (
          push_sealed_hot
            (read_vectors_for_offsets stored (distinct [] (all_offsets h.heap ts)))
            (remove_sealed_hot_segments ts (next_path h)))
  unfolding next_path
  replaced-Keeps ts h w inside =
      let v : List PointOffset =
        read_vectors_for_offsets stored (distinct [] (all_offsets h.heap ts)) in
      let left : SegmentHolder = remove_sealed_hot_segments ts (next_path h) in
      let lw : IsOwned left =
        remove_sealed_hot_segments-IsOwned ts (next_path h) (next_path-IsOwned h w) in
      record {
        searchable = record {
          owned = push_sealed_hot-IsOwned v left lw;
          published = push_sealed_hot-Published v left;
        };
        same = λ o s. ground (
          arith,
          s,
          inside o,
          merged-finds ts h o,
          found-push_sealed_hot v left o lw,
          covers-read_vectors stored o (distinct [] (all_offsets h.heap ts)),
          found-remove_sealed_hot_segments ts (next_path h) o,
        );
      }

  cleared-Keeps :
      (ts : List Arc) (h : SegmentHolder)
      → IsOwned h
      → is_empty (distinct [] (all_offsets h.heap ts)) ≡ true
      → Keeps stored h (publish_snapshot (remove_sealed_hot_segments ts h))
  unfolding publish_snapshot
  cleared-Keeps ts h w e = record {
    searchable = record {
      owned =
          shrunk-IsOwned (remove_sealed_hot_segments ts h) _
            (remove_sealed_hot_segments-IsOwned ts h w) refl refl (λ q d. d);
      published = publish-Published (remove_sealed_hot_segments ts h);
    };
    same = λ o s. ground (
      arith,
      merged-finds ts h o,
      not_covered o (distinct [] (all_offsets h.heap ts)) e,
      found-remove_sealed_hot_segments ts h o,
    );
  }

  kept_as_is : (h : SegmentHolder) → IsSearchable h → Keeps stored h h
  kept_as_is h w = record { searchable = w; same = λ o s. refl }

  next_path_kept : (h : SegmentHolder) → IsSearchable h → Keeps stored h (next_path h)
  unfolding next_path searchable_segments
  next_path_kept h w = record {
    searchable = record { owned = next_path-IsOwned h w.owned; published = w.published };
    same = λ o s. refl;
  }

  merge_group-Keeps :
      (ts : List Arc) (h : SegmentHolder) (b : ResourceBudget)
      → IsSearchable h
      → ((o : PointOffset) → finds h.heap ts o ≡ true → found h o ≡ true)
      → Keeps stored h (merge_group c stored built ts h b).1.0
  unfolding merge_group
  merge_group-Keeps ts h b w inside =
      let vectors : List PointOffset =
        read_vectors_for_offsets stored (distinct [] (all_offsets h.heap ts)) in
      elim (Bool-cases (is_empty (distinct [] (all_offsets h.heap ts)))) [
        | inl e ↦ rw (e) (cleared-Keeps ts h w.owned e)
        | inr e ↦ elim (Bool-cases (is_empty vectors)) [
          | inl e1 ↦ rw (e, e1) (kept_as_is h w)
          | inr e1 ↦
              elim (Bool-cases
                (try_acquire b.inflight (length vectors) c.dimension c.max_edges b).0) [
                  | inr e2 ↦ rw (e, e1, e2) (kept_as_is h w)
                  | inl e2 ↦ elim (Bool-cases built) [
                    | inr e3 ↦ rw (e, e1, e2, e3) (next_path_kept h w)
                    | inl e3 ↦ rw (e, e1, e2, e3) (replaced-Keeps ts h w.owned inside)
                  ]
                ]
        ]
      ]

finds-insert_by_count :
    (heap : Heap) (p : Arc) (ps : List Arc) (o : PointOffset)
    → finds heap (insert_by_count heap p ps) o ≡ (covers o (heap p) || finds heap ps o)
unfolding finds insert_by_count
finds-insert_by_count heap p [] o = refl
finds-insert_by_count heap p (q ∷ qs) o = ground (arith, finds-insert_by_count heap p qs o)

finds-sort_by_count :
    (heap : Heap) (ps : List Arc) (o : PointOffset)
    → finds heap (sort_by_count heap ps) o ≡ finds heap ps o
unfolding finds sort_by_count
finds-sort_by_count heap [] o = refl
finds-sort_by_count heap (p ∷ ps) o =
    ground
      (arith, finds-insert_by_count heap p (sort_by_count heap ps) o, finds-sort_by_count heap ps o)

finds-take_up_to :
    (heap : Heap) (cap total : ℕ) (ps : List Arc) (o : PointOffset)
    → finds heap (take_up_to heap cap total ps) o ≡ true
    → finds heap ps o ≡ true
unfolding finds take_up_to
finds-take_up_to heap cap total [] o h = h
finds-take_up_to heap cap total (p ∷ ps) o h =
    ground (arith, h, finds-take_up_to heap cap (total + length (heap p)) ps o)

pub process_one_merge-Keeps :
    (c : TierConfig) (stored : PointOffset → Bool) (built : Bool) (h : SegmentHolder)
    (b : ResourceBudget)
    → IsSearchable h
    → Keeps stored h (process_one_merge c stored built h b).1.0
unfolding process_one_merge merge_candidates
process_one_merge-Keeps c stored built h b w =
    let ts : List Arc =
      take_up_to h.heap (hard_cap (merge_max c)) 0 (sort_by_count h.heap h.lists.sealed_hot) in
    elim (Bool-cases (ltb (length h.lists.sealed_hot) (merge_threshold c))) [
      | inl e ↦ rw (e, process_one_merge, merge_candidates) (kept_as_is c stored built h w)
      | inr e ↦ elim (Bool-cases (leb (merge_threshold c) (length ts))) [
        | inr e1 ↦ rw (e, e1, process_one_merge, merge_candidates) (kept_as_is c stored built h w)
        | inl e1 ↦
            rw (e, e1, process_one_merge, merge_candidates)
              (merge_group-Keeps c stored built ts h b w λ o d. ground (
                arith,
                finds-sort_by_count h.heap h.lists.sealed_hot o,
                finds-take_up_to h.heap (hard_cap (merge_max c)) 0
                    (sort_by_count h.heap h.lists.sealed_hot) o d,
              ))
      ]
    ]

-- Taken segments after the first stay within the cap.
take_up_to-bound :
    (heap : Heap) (cap total : ℕ) (ps : List Arc)
    → 0 < total
    → total ≤ cap
    → cap < 2 ^ 64 - 1
    → total + length (all_offsets heap (take_up_to heap cap total ps)) ≤ cap
unfolding take_up_to all_offsets
take_up_to-bound heap cap total [] p le small = omega (arith, le)
take_up_to-bound heap cap total (q ∷ qs) p le small =
    elim (Bool-cases (ltb cap (min (total + length (heap q)) (2 ^ 64 - 1)))) [
      | inl e ↦ ground (arith, e, p, le)
      | inr e ↦
          let fits : total + length (heap q) ≤ cap = ground (arith, e, small) in
          let ih =
            take_up_to-bound heap cap (total + length (heap q)) qs (omega (arith, p)) fits small in
          ground (
            arith,
            e,
            ih,
            length-append (heap q)
                (all_offsets heap (take_up_to heap cap (total + length (heap q)) qs)),
          )
    ]

take_up_to-over :
    (heap : Heap) (cap total : ℕ) (ps : List Arc)
    → cap < total
    → cap < 2 ^ 64 - 1
    → length (all_offsets heap (take_up_to heap cap total ps)) ≡ 0
unfolding take_up_to all_offsets
take_up_to-over heap cap total [] over small = refl
take_up_to-over heap cap total (q ∷ qs) over small =
    let e : ltb cap (min (total + length (heap q)) (2 ^ 64 - 1)) ≡ true =
      ground (arith, over, small) in
    ground (arith, e, over)

pub take_up_to-within :
    (heap : Heap) (cap largest : ℕ) (ps : List Arc)
    → cap < 2 ^ 64 - 1
    → ((p : Arc) → covers p ps ≡ true → length (heap p) ≤ largest)
    → length (all_offsets heap (take_up_to heap cap 0 ps)) ≤ max cap largest
unfolding take_up_to all_offsets covers
take_up_to-within heap cap largest [] small each = omega arith
take_up_to-within heap cap largest (p ∷ ps) small each =
    let one : length (heap p) ≤ largest =
      each p (ground (arith, (nat_eq.matches_iff p p).1 refl)) in
    let n : ℕ = length (heap p) in
    let sum = length-append (heap p) (all_offsets heap (take_up_to heap cap n ps)) in
    let rest = λ (z : n ≡ 0).
      take_up_to-within heap cap largest ps small (λ q d. each q (ground (arith, d))) in
    ground
      (arith, one, sum, take_up_to-bound heap cap n ps, take_up_to-over heap cap n ps, small, rest)

covers-insert_by_count :
    (heap : Heap) (q p : Arc) (ps : List Arc)
    → covers q (insert_by_count heap p ps) ≡ (p == q || covers q ps)
unfolding covers insert_by_count
covers-insert_by_count heap q p [] = refl
covers-insert_by_count heap q p (r ∷ rs) = ground (arith, covers-insert_by_count heap q p rs)

pub covers-sort_by_count :
    (heap : Heap) (q : Arc) (ps : List Arc)
    → covers q (sort_by_count heap ps) ≡ true
    → covers q ps ≡ true
unfolding covers sort_by_count
covers-sort_by_count heap q [] h = h
covers-sort_by_count heap q (p ∷ ps) h = ground (
  arith,
  h,
  covers-insert_by_count heap q p (sort_by_count heap ps),
  covers-sort_by_count heap q ps,
)
