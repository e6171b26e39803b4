-- ===== src/Segments.antt =====
-- The segment lists of crates/turbomemory_storage/src/segment_holder.rs and the plain segment of
-- segments/hot.rs. A segment is its list of offsets; an `Arc` is an address of the heap, so a
-- segment that two lists share has one content. A published snapshot is the list of the addresses
-- that a search walks. Directories are left out; a build that may fail has its result given.
pub mod Found
pub mod Visible
pub mod Moves
pub mod Installs
use turbo_supermemory.Common.{
  ℕ, ◌+◌, ◌*◌, ◌-◌, ◌%◌, ◌^◌, ◌<◌, min, max, List, [], ◌∷◌, ◌++◌, length, is_empty, Option, none,
  some, Bool, true, false, not, ◌&&◌, ◌||◌, ◌==◌, nat_eq, if◌then◌else◌, ltb, leb, arith,
}
use turbo_supermemory.Common.Sort.{sort}
use turbo_supermemory.Record.{
  PointOffset, StorageError, io, invalid_argument, dimension_mismatch, Result, ok, err,
}

abbrev pub Arc : Type 0
Arc = ℕ

abbrev pub Heap : Type 0
Heap = Arc → List PointOffset

abbrev pub write : Heap → Arc → List PointOffset → Heap
write heap p offsets q = if p == q then offsets else heap q

pub record SegmentLists : Type 0 where
  pub sealing_plain : List Arc
  pub building_plain : List Arc
  pub sealed_hot : List Arc
  pub warm : List Arc
  pub cold : List Arc

pub record SegmentHolder : Type 0 where
  pub heap : Heap
  pub next_arc : ℕ
  pub hot : Arc
  pub lists : SegmentLists
  pub next_segment_id : ℕ
  pub snapshot : List Arc

pub record TierConfig : Type 0 where
  pub dimension : ℕ
  pub max_edges : ℕ
  pub hot_capacity : ℕ
  pub warm_capacity : ℕ
  pub hnsw_threshold : ℕ
  pub full_scan_threshold_kb : ℕ
  pub merge_threshold_segments : ℕ
  pub merge_max_records : ℕ

-- `seg.offsets().contains(&o)`; for a plain segment also `seen.contains(&o)`, since `insert` and
-- `new` keep `seen` and `offsets` the same set
unfoldable pub covers : PointOffset → List PointOffset → Bool
covers o [] = false
covers o (x ∷ xs) = x == o || covers o xs

unfoldable pub searchable_segments : SegmentHolder → List Arc
searchable_segments h =
    h.hot
    ∷ (h.lists.sealing_plain
        ++ (h.lists.building_plain ++ (h.lists.sealed_hot ++ (h.lists.warm ++ h.lists.cold))))

unfoldable pub publish_snapshot : SegmentHolder → SegmentHolder
publish_snapshot h = record h { snapshot = searchable_segments h }

unfoldable pub empty_holder : (next_segment_id : ℕ) → SegmentHolder
empty_holder id = publish_snapshot record {
  heap = λ p. [];
  next_arc = 1;
  hot = 0;
  lists = record { sealing_plain = []; building_plain = []; sealed_hot = []; warm = []; cold = [] };
  next_segment_id = id;
  snapshot = [];
}

-- `Arc::new(RwLock::new(segment))`
unfoldable pub allocate_arc : List PointOffset → SegmentHolder → SegmentHolder
allocate_arc offsets h = record h {
  heap = write h.heap h.next_arc offsets;
  next_arc = h.next_arc + 1;
}

unfoldable pub next_path : SegmentHolder → SegmentHolder
next_path h = record h { next_segment_id = (h.next_segment_id + 1) % 2 ^ 64 }

-- `Vec::pop`: the last element and what is before it
unfoldable pub pop_last : List Arc → Option (Arc × List Arc)
pop_last [] = none
pop_last (p ∷ ps) = elim (pop_last ps) [ none ↦ some (p, []) | some (q, rest) ↦ some (q, p ∷ rest) ]

-- `retain(|p| !Arc::ptr_eq(p, target))`
unfoldable pub without : Arc → List Arc → List Arc
without p [] = []
without p (q ∷ qs) = let rest = without p qs in if p == q then rest else q ∷ rest

unfoldable pub without_all : List Arc → List Arc → List Arc
without_all targets [] = []
without_all targets (q ∷ qs) =
    let rest = without_all targets qs in if covers q targets then rest else q ∷ rest

unfoldable pub pop_sealing_plain : SegmentHolder → Option (Arc × SegmentHolder)
pop_sealing_plain h = elim (pop_last h.lists.sealing_plain) [
  | none ↦ none
  | some (plain, rest) ↦ some (
    plain,
    record h {
      lists = record h.lists {
        sealing_plain = rest;
        building_plain = h.lists.building_plain ++ (plain ∷ []);
      };
    },
  )
]

unfoldable pub push_sealing_plain : Arc → SegmentHolder → SegmentHolder
push_sealing_plain plain h = publish_snapshot record h {
  lists = record h.lists {
    sealing_plain = h.lists.sealing_plain ++ (plain ∷ []);
    building_plain = without plain h.lists.building_plain;
  };
}

unfoldable pub remove_sealing_plain : Arc → SegmentHolder → SegmentHolder
remove_sealing_plain target h = record h {
  lists = record h.lists {
    sealing_plain = without target h.lists.sealing_plain;
    building_plain = without target h.lists.building_plain;
  };
}

unfoldable pub push_sealed_hot : List PointOffset → SegmentHolder → SegmentHolder
push_sealed_hot offsets h0 =
    let h = allocate_arc offsets h0 in
    publish_snapshot
      record h { lists = record h.lists { sealed_hot = h.lists.sealed_hot ++ (h0.next_arc ∷ []) } }

unfoldable pub push_warm : List PointOffset → SegmentHolder → SegmentHolder
push_warm offsets h0 =
    let h = allocate_arc offsets h0 in
    publish_snapshot
      record h { lists = record h.lists { warm = h.lists.warm ++ (h0.next_arc ∷ []) } }

unfoldable pub remove_sealed_hot_segments : List Arc → SegmentHolder → SegmentHolder
remove_sealed_hot_segments targets h = record h {
  lists = record h.lists { sealed_hot = without_all targets h.lists.sealed_hot };
}

-- Into the plain segment; the result is whether it is full. `fits` is `validate_dimension`.
unfoldable pub insert_hot :
    TierConfig → (fits : Bool) → PointOffset → SegmentHolder → Result Bool × SegmentHolder
insert_hot c fits o h =
    if fits
    then (let old = h.heap h.hot in
        let offsets = if covers o old then old else old ++ (o ∷ []) in
        (ok (leb c.hot_capacity (length offsets)), record h { heap = write h.heap h.hot offsets }))
    else (err dimension_mismatch, h)

-- `mem::replace` of the plain segment, and the push of the old one
unfoldable pub swap_hot : SegmentHolder → SegmentHolder
swap_hot h0 =
    let h = allocate_arc (h0.heap h0.hot) h0 in
    record h {
      heap = write h.heap h.hot [];
      lists = record h.lists { sealing_plain = h.lists.sealing_plain ++ (h0.next_arc ∷ []) };
    }

unfoldable pub seal_hot : TierConfig → SegmentHolder → SegmentHolder
seal_hot c h =
    if ltb (length (h.heap h.hot)) c.hot_capacity then h else publish_snapshot (swap_hot h)

-- `view.get(offset)` finds a vector or not
unfoldable pub read_vectors_for_offsets : (PointOffset → Bool) → List PointOffset → List PointOffset
read_vectors_for_offsets stored [] = []
read_vectors_for_offsets stored (o ∷ os) =
    let rest = read_vectors_for_offsets stored os in if stored o then o ∷ rest else rest

unfoldable pub dedup : List PointOffset → List PointOffset
dedup [] = []
dedup (x ∷ []) = x ∷ []
dedup (x ∷ y ∷ xs) = let rest = dedup (y ∷ xs) in if x == y then rest else x ∷ rest

unfoldable pub all_offsets : Heap → List Arc → List PointOffset
all_offsets heap [] = []
all_offsets heap (p ∷ ps) = heap p ++ all_offsets heap ps

-- One merged segment in place of the warm ones.
unfoldable pub install_cold : List Arc → List PointOffset → SegmentHolder → SegmentHolder
install_cold targets records h0 =
    let h = if is_empty records then h0 else allocate_arc records h0 in
    publish_snapshot record h {
      lists = record h.lists {
        cold = if is_empty records then h.lists.cold else h.lists.cold ++ (h0.next_arc ∷ []);
        warm = without_all targets h.lists.warm;
      };
    }

-- `built` is whether `ColdSegment::from_records` succeeds.
unfoldable pub compact_warm :
    TierConfig
    → (stored : PointOffset → Bool) → (built : Bool) → SegmentHolder
    → Result (Unit {0}) × SegmentHolder
compact_warm c stored built h =
    let targets = h.lists.warm in
    let offsets = all_offsets h.heap targets in
    if leb (length offsets) c.warm_capacity || is_empty targets
    then (ok tt, h)
    else (let records = read_vectors_for_offsets stored (dedup (sort offsets)) in
        if is_empty records
        then (ok tt, install_cold targets records h)
        else if built
        then (ok tt, install_cold targets records (next_path h))
        else (err io, next_path h))
