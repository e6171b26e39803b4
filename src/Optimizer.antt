-- ===== src/Optimizer.antt =====
-- The background optimizer of crates/turbomemory_storage/src/optimizer.rs: its budget, and one pass
-- over the pending seals and merges. The steps of a pass run in the order of the source; a build that
-- may fail has its result given. Directories are left out.
pub mod Passes
pub mod Seals
pub mod Budget
pub mod Merges
pub mod Rounds
use turbo_supermemory.Common.{
  ℕ, zero, suc, ◌+◌, ◌*◌, ◌/◌, ◌-◌, ◌%◌, ◌^◌, ◌<◌, min, max, List, [], ◌∷◌, ◌++◌, length, is_empty,
  Option, none, some, Bool, true, false, not, ◌&&◌, ◌||◌, ◌==◌, nat_eq, if◌then◌else◌, ltb, leb,
  arith,
}
use turbo_supermemory.Record.{PointOffset, StorageError, io, invalid_argument, Result, ok, err}
use turbo_supermemory.Segments.{
  Arc, Heap, TierConfig, SegmentHolder, covers, publish_snapshot, next_path, pop_sealing_plain,
  push_sealing_plain, remove_sealing_plain, push_sealed_hot, push_warm, read_vectors_for_offsets,
  compact_warm, all_offsets, remove_sealed_hot_segments,
}

abbrev pub saturate : ℕ → ℕ
saturate n = min n (2 ^ 64 - 1)

pub record ResourceBudget : Type 0 where
  pub inflight : ℕ
  pub max_concurrent : ℕ
  pub max_memory_bytes : Option ℕ

unfoldable pub new_budget : (max_concurrent_builds : ℕ) → Option ℕ → ResourceBudget
new_budget max_concurrent_builds max_build_memory_bytes = record {
  inflight = 0;
  max_concurrent = max max_concurrent_builds 1;
  max_memory_bytes = max_build_memory_bytes;
}

-- The bytes that a build is expected to take.
unfoldable pub estimate : (n dim max_edges : ℕ) → ℕ
estimate n dim max_edges =
    let vector_bytes = saturate (saturate (n * dim) * 4) in
    let graph_bytes = saturate (saturate (n * max_edges) * 8) in
    saturate (saturate (vector_bytes + graph_bytes) * 13) / 10

unfoldable pub over_memory : Option ℕ → ℕ → Bool
over_memory none est = false
over_memory (some max_mem) est = ltb max_mem est

-- `current` is what the load found; other threads may have changed `inflight` before the exchange.
unfoldable pub try_acquire : (current n dim max_edges : ℕ) → ResourceBudget → Bool × ResourceBudget
try_acquire current n dim max_edges b =
    if leb b.max_concurrent current
    then (false, b)
    else if over_memory b.max_memory_bytes (estimate n dim max_edges)
    then (false, b)
    else if b.inflight == current
    then (true, record b { inflight = current + 1 })
    else (false, b)

-- `Drop for BuildGuard`
unfoldable pub drop_guard : ResourceBudget → ResourceBudget
drop_guard b = record b { inflight = (b.inflight + 2 ^ 64 - 1) % 2 ^ 64 }

pub data BuiltSegment : Type 0 where
  sealed : List PointOffset → BuiltSegment
  warm : List PointOffset → BuiltSegment

-- How the builds of one pass end.
pub record Builds : Type 0 where
  pub sealed_built : Bool
  pub warm_built : Bool
  pub cold_built : Bool

unfoldable pub threshold_met : TierConfig → (count : ℕ) → Bool
threshold_met c count =
    let kb = saturate (saturate (count * c.dimension) * 4) / 1024 in
    leb c.hnsw_threshold count
    || (ltb 0 c.full_scan_threshold_kb && leb c.full_scan_threshold_kb kb)

-- The slot taken by the test is given back at the end of the test.
unfoldable pub use_hnsw : TierConfig → (count : ℕ) → ResourceBudget → Bool × ResourceBudget
use_hnsw c count b =
    if threshold_met c count
    then (let taken = try_acquire b.inflight count c.dimension c.max_edges b in
        (taken.0, if taken.0 then drop_guard taken.1 else taken.1))
    else (false, b)

module _ (c : TierConfig) (stored : PointOffset → Bool) (o : Builds) where
  unfoldable pub build_segment : (use_hnsw : Bool) → List PointOffset → Result BuiltSegment
  build_segment use_hnsw offsets =
      let vectors = read_vectors_for_offsets stored offsets in
      if is_empty vectors
      then err invalid_argument
      else if use_hnsw
      then (if o.sealed_built then ok (sealed vectors) else err io)
      else (if o.warm_built then ok (warm vectors) else err io)

  unfoldable pub install : Arc → Result BuiltSegment → SegmentHolder → Result Bool × SegmentHolder
  install plain (ok (sealed vectors)) h =
      (ok true, push_sealed_hot vectors (remove_sealing_plain plain h))
  install plain (ok (warm vectors)) h = (
    ok true,
    (compact_warm c stored o.cold_built (push_warm vectors (remove_sealing_plain plain h))).1,
  )
  install plain (err x) h = (err x, push_sealing_plain plain (remove_sealing_plain plain h))

  unfoldable pub seal_popped :
      Arc → SegmentHolder → ResourceBudget → Result Bool × (SegmentHolder × ResourceBudget)
  seal_popped plain h b =
      let offsets = h.heap plain in
      if is_empty offsets
      then (ok true, (publish_snapshot (remove_sealing_plain plain h), b))
      else (let slot = use_hnsw c (length offsets) b in
          let done = install plain (build_segment slot.0 offsets) (next_path h) in
          (done.0, (done.1, slot.1)))

  unfoldable pub process_one_seal :
      SegmentHolder → ResourceBudget → Result Bool × (SegmentHolder × ResourceBudget)
  process_one_seal h b = elim (pop_sealing_plain h) [
    | none ↦ (ok false, (h, b))
    | some (plain, h1) ↦ seal_popped plain h1 b
  ]

-- `while let Ok(true) = ...`: the builds of the passes, one after the other
unfoldable pub process_pending_seals :
    TierConfig
    → (PointOffset → Bool)
    → (ℕ → Builds)
    → (fuel : ℕ) → SegmentHolder
    → ResourceBudget
    → Option (SegmentHolder × ResourceBudget)
process_pending_seals c stored builds zero h b = none
process_pending_seals c stored builds (suc fuel) h b =
    let pass = process_one_seal c stored (builds fuel) h b in
    let rest = process_pending_seals c stored builds fuel pass.1.0 pass.1.1 in
    elim pass.0 [ ok more ↦ if more then rest else some pass.1 | err x ↦ some pass.1 ]

-- Stable, smallest first: `sort_by_key(point_count)`.
unfoldable pub insert_by_count : Heap → Arc → List Arc → List Arc
insert_by_count heap p [] = p ∷ []
insert_by_count heap p (q ∷ qs) =
    if leb (length (heap p)) (length (heap q)) then p ∷ q ∷ qs else q ∷ insert_by_count heap p qs

unfoldable pub sort_by_count : Heap → List Arc → List Arc
sort_by_count heap [] = []
sort_by_count heap (p ∷ ps) = insert_by_count heap p (sort_by_count heap ps)

abbrev pub hard_cap : ℕ → ℕ
hard_cap max_records = max (saturate (max_records * 2)) max_records

unfoldable pub take_up_to : Heap → (cap total : ℕ) → List Arc → List Arc
take_up_to heap cap total [] = []
take_up_to heap cap total (p ∷ ps) =
    let count = length (heap p) in
    let rest = take_up_to heap cap (total + count) ps in
    if ltb 0 total && ltb cap (saturate (total + count)) then [] else p ∷ rest

unfoldable pub merge_candidates : (threshold max_records : ℕ) → SegmentHolder → Option (List Arc)
merge_candidates threshold max_records h =
    if ltb (length h.lists.sealed_hot) threshold
    then none
    else (let candidates =
          take_up_to h.heap (hard_cap max_records) 0 (sort_by_count h.heap h.lists.sealed_hot) in
        if leb threshold (length candidates) then some candidates else none)

-- `offset_set.insert(offset)` keeps the first of each offset.
unfoldable pub distinct : List PointOffset → List PointOffset → List PointOffset
distinct seen [] = []
distinct seen (x ∷ xs) =
    let rest = distinct (x ∷ seen) xs in if covers x seen then rest else x ∷ rest

unfoldable pub merge_threshold : TierConfig → ℕ
merge_threshold c = max c.merge_threshold_segments 2

unfoldable pub merge_max : TierConfig → ℕ
merge_max c = max (max c.merge_max_records c.hot_capacity) 2

-- The slot is held over the build and given back at the end; nothing else takes one meanwhile.
unfoldable pub merge_group :
    TierConfig
    → (PointOffset → Bool)
    → (built : Bool) → List Arc
    → SegmentHolder
    → ResourceBudget
    → Result Bool × (SegmentHolder × ResourceBudget)
merge_group c stored built candidates h b =
    let offsets = distinct [] (all_offsets h.heap candidates) in
    if is_empty offsets
    then (ok true, (publish_snapshot (remove_sealed_hot_segments candidates h), b))
    else (let vectors = read_vectors_for_offsets stored offsets in
        let taken = try_acquire b.inflight (length vectors) c.dimension c.max_edges b in
        if is_empty vectors
        then (ok false, (h, b))
        else if not taken.0
        then (ok false, (h, taken.1))
        else if not built
        then (err io, (next_path h, drop_guard taken.1))
        else (
          ok true,
          (
            push_sealed_hot vectors (remove_sealed_hot_segments candidates (next_path h)),
            drop_guard taken.1,
          ),
        ))

unfoldable pub process_one_merge :
    TierConfig
    → (PointOffset → Bool)
    → (built : Bool) → SegmentHolder
    → ResourceBudget
    → Result Bool × (SegmentHolder × ResourceBudget)
process_one_merge c stored built h b = elim (merge_candidates (merge_threshold c) (merge_max c) h) [
  | none ↦ (ok false, (h, b))
  | some candidates ↦ merge_group c stored built candidates h b
]
