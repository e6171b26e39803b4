-- ===== src/Segments/Installs.antt =====
-- New segments in the lists of crates/turbomemory_storage/src/segment_holder.rs: sealed and warm ones,
-- the plain one that is swapped out, and the cold one that takes the place of the warm ones.
use turbo_supermemory.Common.{◌≡◌, refl, ap, ◌∙◌, List, [], ◌∷◌, Bool, true, ◌||◌, nat_eq, arith}
use turbo_supermemory.Common.Sort.{sort}
use turbo_supermemory.Record.{PointOffset}
use turbo_supermemory.Segments.{
  Arc, Heap, write, SegmentHolder, TierConfig, covers, searchable_segments, publish_snapshot,
  allocate_arc, next_path, push_sealed_hot, push_warm, remove_sealed_hot_segments, swap_hot,
  read_vectors_for_offsets, dedup, all_offsets, install_cold, compact_warm,
}
use turbo_supermemory.Segments.Found.{
  finds, finds-append, finds-write, finds-without_all, covers-append, covers-without_all,
  covers-read_vectors, covers-sort, covers-dedup, covers-all_offsets, without_all_self,
}
use turbo_supermemory.Segments.Visible.{
  visible, in_lists, found, IsOwned, Published, publish-Published, unlisted_next, finds-searchable,
  found-allocate, grown-IsOwned, shrunk-IsOwned, new_segment, finds_one, in_lists-write,
}

-- A segment with these offsets is put at the end of one list.
pub push_sealed_hot-IsOwned :
    (v : List PointOffset) (h : SegmentHolder) → IsOwned h → IsOwned (push_sealed_hot v h)
unfolding push_sealed_hot publish_snapshot allocate_arc
push_sealed_hot-IsOwned v h w =
    grown-IsOwned h _ w refl refl
      λ q e. ground (arith, e, covers-append q h.lists.sealed_hot (h.next_arc ∷ []))

pub found-push_sealed_hot :
    (v : List PointOffset) (h : SegmentHolder) (o : PointOffset)
    → IsOwned h
    → found (push_sealed_hot v h) o ≡ (found h o || covers o v)
unfolding push_sealed_hot publish_snapshot allocate_arc
found-push_sealed_hot v h o w =
    let n : Heap = write h.heap h.next_arc v in
    ground (
      arith,
      found-allocate h v o w,
      finds-append n h.lists.sealed_hot (h.next_arc ∷ []) o,
      finds_one n h.next_arc o,
      ap (covers o) (new_segment h v),
    )

pub push_warm-IsOwned :
    (v : List PointOffset) (h : SegmentHolder) → IsOwned h → IsOwned (push_warm v h)
unfolding push_warm publish_snapshot allocate_arc
push_warm-IsOwned v h w =
    grown-IsOwned h _ w refl refl
      λ q e. ground (arith, e, covers-append q h.lists.warm (h.next_arc ∷ []))

pub found-push_warm :
    (v : List PointOffset) (h : SegmentHolder) (o : PointOffset)
    → IsOwned h
    → found (push_warm v h) o ≡ (found h o || covers o v)
unfolding push_warm publish_snapshot allocate_arc
found-push_warm v h o w =
    let n : Heap = write h.heap h.next_arc v in
    ground (
      arith,
      found-allocate h v o w,
      finds-append n h.lists.warm (h.next_arc ∷ []) o,
      finds_one n h.next_arc o,
      ap (covers o) (new_segment h v),
    )

pub install_cold-IsOwned :
    (v : List PointOffset) (h : SegmentHolder) → IsOwned h → IsOwned (install_cold h.lists.warm v h)
unfolding install_cold publish_snapshot allocate_arc
install_cold-IsOwned [] h w =
    shrunk-IsOwned h _ w refl refl
      λ q e. ground (arith, e, covers-without_all q h.lists.warm h.lists.warm)
install_cold-IsOwned (x ∷ v) h w = grown-IsOwned h _ w refl refl λ q e. ground (
  arith,
  e,
  covers-append q h.lists.cold (h.next_arc ∷ []),
  covers-without_all q h.lists.warm h.lists.warm,
)

install_cold-Published :
    (ts : List Arc) (v : List PointOffset) (h : SegmentHolder) → Published (install_cold ts v h)
unfolding install_cold
install_cold-Published ts v h = publish-Published _

pub found-install_cold :
    (v : List PointOffset) (h : SegmentHolder) (o : PointOffset)
    → IsOwned h
    → covers o v ≡ finds h.heap h.lists.warm o
    → found (install_cold h.lists.warm v h) o ≡ found h o
unfolding install_cold publish_snapshot allocate_arc covers finds
found-install_cold [] h o w e =
    ground (arith, e, ap (λ ps. finds h.heap ps o) (without_all_self h.lists.warm))
found-install_cold (x ∷ v) h o w e =
    let n : Heap = write h.heap h.next_arc (x ∷ v) in
    ground (
      arith,
      e,
      found-allocate h (x ∷ v) o w,
      finds-append n h.lists.cold (h.next_arc ∷ []) o,
      finds_one n h.next_arc o,
      ap (covers o) (new_segment h (x ∷ v)),
      ap (λ ps. finds n ps o) (without_all_self h.lists.warm),
      unlisted_next h w,
      finds-write h.heap h.next_arc (x ∷ v) h.lists.warm o,
    )

-- The plain segment is empty and a new one at the end of the queue has its offsets.
pub swap_hot-IsOwned : (h : SegmentHolder) → IsOwned h → IsOwned (swap_hot h)
unfolding swap_hot allocate_arc
swap_hot-IsOwned h w =
    grown-IsOwned h _ w refl refl
      λ q e. ground (arith, e, covers-append q h.lists.sealing_plain (h.next_arc ∷ []))

pub found-swap_hot :
    (h : SegmentHolder) (o : PointOffset) → IsOwned h → found (swap_hot h) o ≡ found h o
unfolding swap_hot allocate_arc covers
found-swap_hot h o w =
    let old : List PointOffset = h.heap h.hot in
    let n : Heap = write h.heap h.next_arc old in
    let m : Heap = write n h.hot [] in
    ground (
      arith,
      in_lists-write n h.lists h.hot [] o w.alone,
      in_lists-write h.heap h.lists h.next_arc old o (unlisted_next h w),
      finds-append m h.lists.sealing_plain (h.next_arc ∷ []) o,
      finds_one m h.next_arc o,
      w.hot_old,
      (nat_eq.matches_iff h.hot h.hot).1 refl,
      (nat_eq.matches_iff h.next_arc h.next_arc).1 refl,
      (nat_eq.matches_iff h.hot h.next_arc).0,
    )

pub remove_sealed_hot_segments-IsOwned :
    (ts : List Arc) (h : SegmentHolder) → IsOwned h → IsOwned (remove_sealed_hot_segments ts h)
unfolding remove_sealed_hot_segments
remove_sealed_hot_segments-IsOwned ts h w =
    shrunk-IsOwned h _ w refl refl
      λ q e. ground (arith, e, covers-without_all q ts h.lists.sealed_hot)

pub found-remove_sealed_hot_segments :
    (ts : List Arc) (h : SegmentHolder) (o : PointOffset)
    → (found (remove_sealed_hot_segments ts h) o || finds h.heap ts o)
      ≡ (found h o || finds h.heap ts o)
unfolding remove_sealed_hot_segments
found-remove_sealed_hot_segments ts h o =
    ground (arith, finds-without_all h.heap ts h.lists.sealed_hot o)

module _ (c : TierConfig) (stored : PointOffset → Bool) (built : Bool) where
  -- The rest after a compaction, failed or not.
  pub compact_warm-IsOwned :
      (h : SegmentHolder) → IsOwned h → IsOwned (compact_warm c stored built h).1
  unfolding compact_warm next_path
  compact_warm-IsOwned h w =
      let records : List PointOffset =
        read_vectors_for_offsets stored (dedup (sort (all_offsets h.heap h.lists.warm))) in
      let past : IsOwned (next_path h) = shrunk-IsOwned h _ w refl refl (λ q e. e) in
      ground (
        arith,
        w,
        past,
        install_cold-IsOwned records h w,
        install_cold-IsOwned records (next_path h) past,
      )

  pub found-compact_warm :
      (h : SegmentHolder) (o : PointOffset)
      → IsOwned h
      → stored o ≡ true
      → found (compact_warm c stored built h).1 o ≡ found h o
  unfolding compact_warm next_path
  found-compact_warm h o w s =
      let all : List PointOffset = all_offsets h.heap h.lists.warm in
      let records : List PointOffset = read_vectors_for_offsets stored (dedup (sort all)) in
      let e : covers o records ≡ finds h.heap h.lists.warm o = ground (
        arith,
        s,
        covers-read_vectors stored o (dedup (sort all)),
        covers-dedup o (sort all),
        covers-sort o all,
        covers-all_offsets h.heap h.lists.warm o,
      ) in
      let past : IsOwned (next_path h) = shrunk-IsOwned h _ w refl refl (λ q e. e) in
      ground (
        arith,
        found-install_cold records h o w e,
        found-install_cold records (next_path h) o past e,
      )

  -- A published snapshot stays one, and a new one is published whenever the lists change.
  pub compact_warm-Published :
      (h : SegmentHolder) → Published h → Published (compact_warm c stored built h).1
  unfolding compact_warm next_path searchable_segments
  compact_warm-Published h p =
      let records : List PointOffset =
        read_vectors_for_offsets stored (dedup (sort (all_offsets h.heap h.lists.warm))) in
      ground (
        arith,
        p,
        install_cold-Published h.lists.warm records h,
        install_cold-Published h.lists.warm records (next_path h),
      )

-- Between the swap of the plain segment and the publication of the new snapshot, a search finds
-- just what the other lists had, if the snapshot was that of the lists and no list shares the
-- plain segment.
pub visible-swap_hot :
    (h : SegmentHolder) (o : PointOffset)
    → IsOwned h
    → Published h
    → visible (swap_hot h) o ≡ in_lists h.heap h.lists o
unfolding visible swap_hot allocate_arc covers searchable_segments
visible-swap_hot h o w p =
    let old : List PointOffset = h.heap h.hot in
    let n : Heap = write h.heap h.next_arc old in
    let m : Heap = write n h.hot [] in
    ap (λ ps. finds m ps o) p
    ∙ finds-searchable (record h { heap = m }) o
    ∙ ground (
      arith,
      in_lists-write n h.lists h.hot [] o w.alone,
      in_lists-write h.heap h.lists h.next_arc old o (unlisted_next h w),
      (nat_eq.matches_iff h.hot h.hot).1 refl,
    )
