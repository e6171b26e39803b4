-- ===== src/Segments/Visible.antt =====
-- What a search of a published snapshot sees while segments are sealed, converted and compacted, for
-- crates/turbomemory_storage/src/segment_holder.rs.
use turbo_supermemory.Common.{
  ◌+◌, ◌<◌, ◌≡◌, refl, ap, ◌∙◌, List, [], ◌∷◌, Bool, true, false, ◌||◌, nat_eq, arith, Bool-cases,
  ◌⊎◌, inl, inr,
}
use turbo_supermemory.Record.{PointOffset}
use turbo_supermemory.Segments.{
  Arc, Heap, write, SegmentLists, SegmentHolder, covers, searchable_segments, publish_snapshot,
  allocate_arc,
}
use turbo_supermemory.Segments.Found.{finds, finds-append, finds-write}

-- What a search finds through the published snapshot.
unfoldable pub visible : SegmentHolder → PointOffset → Bool
visible h o = finds h.heap h.snapshot o

abbrev pub listed : SegmentLists → Arc → Bool
listed l p =
    covers p l.sealing_plain
    || (covers p l.building_plain
        || (covers p l.sealed_hot || (covers p l.warm || covers p l.cold)))

abbrev pub in_lists : Heap → SegmentLists → PointOffset → Bool
in_lists heap l o =
    finds heap l.sealing_plain o
    || (finds heap l.building_plain o
        || (finds heap l.sealed_hot o || (finds heap l.warm o || finds heap l.cold o)))

-- What the next snapshot will find.
abbrev pub found : SegmentHolder → PointOffset → Bool
found h o = covers o (h.heap h.hot) || in_lists h.heap h.lists o

-- No list shares the plain segment that inserts change, and every listed segment is allocated.
pub record IsOwned (h : SegmentHolder) : Type 0 where
  pub hot_old : h.hot < h.next_arc
  pub old : (p : Arc) → listed h.lists p ≡ true → p < h.next_arc
  pub alone : listed h.lists h.hot ≡ false

abbrev pub Published : SegmentHolder → Type 0
Published h = h.snapshot ≡ searchable_segments h

pub finds-searchable :
    (h : SegmentHolder) (o : PointOffset) → finds h.heap (searchable_segments h) o ≡ found h o
unfolding finds searchable_segments
finds-searchable h o = simp finds-append refl

pub publish-Published : (h : SegmentHolder) → Published (publish_snapshot h)
unfolding publish_snapshot searchable_segments
publish-Published h = refl

pub visible_of_Published :
    (h : SegmentHolder) (o : PointOffset) → Published h → visible h o ≡ found h o
unfolding visible
visible_of_Published h o p = ap (λ ps. finds h.heap ps o) p ∙ finds-searchable h o

pub unlisted_next : (h : SegmentHolder) → IsOwned h → listed h.lists h.next_arc ≡ false
unlisted_next h w = elim (Bool-cases (listed h.lists h.next_arc)) [
  | inl there ↦ absurd (omega (arith, w.old h.next_arc there))
  | inr absent ↦ absent
]

pub in_lists-write :
    (heap : Heap) (l : SegmentLists) (p : Arc) (v : List PointOffset) (o : PointOffset)
    → listed l p ≡ false
    → in_lists (write heap p v) l o ≡ in_lists heap l o
in_lists-write heap l p v o h = ground (
  arith,
  h,
  finds-write heap p v l.sealing_plain o,
  finds-write heap p v l.building_plain o,
  finds-write heap p v l.sealed_hot o,
  finds-write heap p v l.warm o,
  finds-write heap p v l.cold o,
)

pub hot_of_write :
    (heap : Heap) (p q : Arc) (v : List PointOffset) → q < p → write heap p v q ≡ heap q
hot_of_write heap p q v h = ground arith

pub found-allocate :
    (h : SegmentHolder) (v : List PointOffset) (o : PointOffset)
    → IsOwned h
    → found (allocate_arc v h) o ≡ found h o
unfolding allocate_arc
found-allocate h v o w = ground (
  arith,
  in_lists-write h.heap h.lists h.next_arc v o (unlisted_next h w),
  ap (λ xs. covers o xs) (hot_of_write h.heap h.next_arc h.hot v w.hot_old),
)

pub new_segment :
    (h : SegmentHolder) (v : List PointOffset) → write h.heap h.next_arc v h.next_arc ≡ v
new_segment h v = ground (arith, nat_eq.matches_iff h.next_arc h.next_arc)

pub finds_one :
    (heap : Heap) (p : Arc) (o : PointOffset) → finds heap (p ∷ []) o ≡ covers o (heap p)
unfolding finds
finds_one heap p o = ground arith

pub covers_one : (p q : Arc) → covers p (q ∷ []) ≡ true → q ≡ p
unfolding covers
covers_one p q h = ground (arith, (nat_eq.matches_iff q p).0)

pub allocate-IsOwned :
    (h : SegmentHolder) (v : List PointOffset) → IsOwned h → IsOwned (allocate_arc v h)
unfolding allocate_arc
allocate-IsOwned h v w = record {
  hot_old = omega (arith, w.hot_old);
  old = λ p d. omega (arith, w.old p d);
  alone = w.alone;
}

-- Lists that hold what they held and perhaps one new segment.
pub grown-IsOwned :
    (h h' : SegmentHolder)
    → IsOwned h
    → h'.hot ≡ h.hot
    → h'.next_arc ≡ h.next_arc + 1
    → ((q : Arc)
        → listed h'.lists q ≡ true
        → (covers q (h.next_arc ∷ []) ≡ true) ⊎ (listed h.lists q ≡ true))
    → IsOwned h'
grown-IsOwned h h' w hot next less = record {
  hot_old = omega (arith, w.hot_old, hot, next);
  old = λ q e. elim (less q e) [
    | inl one ↦ omega (arith, covers_one q h.next_arc one, next)
    | inr before ↦ omega (arith, w.old q before, next)
  ];
  alone = elim (Bool-cases (listed h'.lists h'.hot)) [
    | inr absent ↦ absent
    | inl there ↦ absurd (elim (less h'.hot there) [
      | inl one ↦ omega (arith, covers_one h'.hot h.next_arc one, w.hot_old, hot)
      | inr before ↦ ground (arith, before, w.alone, ap (listed h.lists) hot)
    ])
  ];
}

-- Lists that hold nothing else than they held.
pub shrunk-IsOwned :
    (h h' : SegmentHolder)
    → IsOwned h
    → h'.hot ≡ h.hot
    → h'.next_arc ≡ h.next_arc
    → ((q : Arc) → listed h'.lists q ≡ true → listed h.lists q ≡ true)
    → IsOwned h'
shrunk-IsOwned h h' w hot next less = record {
  hot_old = omega (arith, w.hot_old, hot, next);
  old = λ q e. omega (arith, w.old q (less q e), next);
  alone = elim (Bool-cases (listed h'.lists h'.hot)) [
    | inl there ↦ absurd (ground (arith, less h'.hot there, w.alone, ap (listed h.lists) hot))
    | inr absent ↦ absent
  ];
}
