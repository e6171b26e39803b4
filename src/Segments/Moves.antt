-- ===== src/Segments/Moves.antt =====
-- Each operation of crates/turbomemory_storage/src/segment_holder.rs on the lists: who owns what
-- after it, and what a search finds.
use turbo_supermemory.Common.{
  ◌<◌, ◌≡◌, ◌≢◌, refl, ap, ◌∙◌, sym, List, [], ◌∷◌, ◌++◌, some, true, ◌||◌, nat_eq, arith,
  Bool-cases, ◌⊎◌, inl, inr,
}
use turbo_supermemory.Record.{PointOffset}
use turbo_supermemory.Segments.{
  Arc, Heap, SegmentLists, SegmentHolder, covers, publish_snapshot, pop_last, push_sealing_plain,
  remove_sealing_plain,
}
use turbo_supermemory.Segments.Found.{
  finds, finds-append, finds-without, covers-append, covers-without, pop_last-append,
}
use turbo_supermemory.Segments.Visible.{
  listed, in_lists, found, IsOwned, Published, publish-Published, shrunk-IsOwned, finds_one,
  covers_one,
}

-- A plain segment is taken from the queue and stays in the lists.
pub record Popped (h h1 : SegmentHolder) (plain : Arc) : Type 0 where
  pub owned : IsOwned h1
  pub same : (o : PointOffset) → found h1 o ≡ found h o
  pub inside : (o : PointOffset) → covers o (h1.heap plain) ≡ true → found h1 o ≡ true
  pub old : plain < h1.next_arc
  pub other : plain ≢ h1.hot

popped_parts :
    (l : SegmentLists) (p q : Arc) (rest : List Arc)
    → pop_last l.sealing_plain ≡ some (q, rest)
    → listed (record l { sealing_plain = rest; building_plain = l.building_plain ++ (q ∷ []) }) p
      ≡ listed l p
unfolding covers
popped_parts l p q rest e = ground (
  arith,
  ap (covers p) (pop_last-append l.sealing_plain q rest e),
  covers-append p rest (q ∷ []),
  covers-append p l.building_plain (q ∷ []),
)

finds_popped :
    (heap : Heap) (l : SegmentLists) (q : Arc) (rest : List Arc) (o : PointOffset)
    → pop_last l.sealing_plain ≡ some (q, rest)
    → in_lists heap
        (record l { sealing_plain = rest; building_plain = l.building_plain ++ (q ∷ []) })
        o
      ≡ in_lists heap l o
finds_popped heap l q rest o e = ground (
  arith,
  ap (λ ps. finds heap ps o) (pop_last-append l.sealing_plain q rest e),
  finds-append heap rest (q ∷ []) o,
  finds-append heap l.building_plain (q ∷ []) o,
)

pub pop_sealing_plain-Popped :
    (h : SegmentHolder) (q : Arc) (rest : List Arc)
    → pop_last h.lists.sealing_plain ≡ some (q, rest)
    → IsOwned h
    → Popped h
        (record h {
          lists = record h.lists {
            sealing_plain = rest;
            building_plain = h.lists.building_plain ++ (q ∷ []);
          };
        })
        q
unfolding covers
pop_sealing_plain-Popped h q rest e w =
    let there : listed h.lists q ≡ true = ground (
      arith,
      ap (covers q) (pop_last-append h.lists.sealing_plain q rest e),
      covers-append q rest (q ∷ []),
      (nat_eq.matches_iff q q).1 refl,
    ) in
    record {
      owned = record {
        hot_old = w.hot_old;
        old = λ p d. w.old p (sym (popped_parts h.lists p q rest e) ∙ d);
        alone = popped_parts h.lists h.hot q rest e ∙ w.alone;
      };
      same = λ o. ground (arith, finds_popped h.heap h.lists q rest o e);
      inside = λ o d.
          ground
            (arith, d, finds-append h.heap h.lists.building_plain (q ∷ []) o, finds_one h.heap q o);
      old = w.old q there;
      other = λ same. ground (arith, w.alone, there, ap (listed h.lists) same);
    }

pub remove_sealing_plain-IsOwned :
    (p : Arc) (h : SegmentHolder) → IsOwned h → IsOwned (remove_sealing_plain p h)
unfolding remove_sealing_plain
remove_sealing_plain-IsOwned p h w = shrunk-IsOwned h _ w refl refl λ q d.
    ground (
      arith,
      d,
      covers-without q p h.lists.sealing_plain,
      covers-without q p h.lists.building_plain,
    )

pub found-remove_sealing_plain :
    (p : Arc) (h : SegmentHolder) (o : PointOffset)
    → (found (remove_sealing_plain p h) o || covers o (h.heap p))
      ≡ (found h o || covers o (h.heap p))
unfolding remove_sealing_plain
found-remove_sealing_plain p h o = ground (
  arith,
  finds-without h.heap p h.lists.sealing_plain o,
  finds-without h.heap p h.lists.building_plain o,
)

pub push_sealing_plain-IsOwned :
    (p : Arc) (h : SegmentHolder)
    → IsOwned h
    → p < h.next_arc
    → p ≢ h.hot
    → IsOwned (push_sealing_plain p h)
unfolding push_sealing_plain publish_snapshot
push_sealing_plain-IsOwned p h w n d =
    let less : (q : Arc)
        → listed (push_sealing_plain p h).lists q ≡ true
        → (covers q (p ∷ []) ≡ true) ⊎ (listed h.lists q ≡ true) =
      λ q e. ground (
        arith,
        e,
        covers-append q h.lists.sealing_plain (p ∷ []),
        covers-without q p h.lists.building_plain,
      ) in
    record {
      hot_old = w.hot_old;
      old = λ q e. elim (less q e) [
        | inl one ↦ omega (arith, n, covers_one q p one)
        | inr before ↦ w.old q before
      ];
      alone = elim (Bool-cases (listed (push_sealing_plain p h).lists h.hot)) [
        | inr absent ↦ absent
        | inl there ↦ absurd (elim (less h.hot there) [
          | inl one ↦ d (covers_one h.hot p one)
          | inr before ↦ ground (arith, before, w.alone)
        ])
      ];
    }

pub found-push_sealing_plain :
    (p : Arc) (h : SegmentHolder) (o : PointOffset)
    → found (push_sealing_plain p h) o ≡ (found h o || covers o (h.heap p))
unfolding push_sealing_plain publish_snapshot
found-push_sealing_plain p h o = ground (
  arith,
  finds-append h.heap h.lists.sealing_plain (p ∷ []) o,
  finds_one h.heap p o,
  finds-without h.heap p h.lists.building_plain o,
)

pub push_sealing_plain-Published :
    (p : Arc) (h : SegmentHolder) → Published (push_sealing_plain p h)
unfolding push_sealing_plain
push_sealing_plain-Published p h = publish-Published _
