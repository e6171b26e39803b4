-- ===== src/Optimizer/Rounds.antt =====
-- Inserts, seals, optimizer passes, merges and compactions in any order, and what a search finds after
-- them: crates/turbomemory_storage/src/segment_holder.rs and optimizer.rs together.
use turbo_supermemory.Common.{
  ℕ, ◌*◌, ◌-◌, ◌^◌, max, ◌<◌, ◌≤◌, ◌≡◌, refl, ap, List, [], ◌∷◌, ◌++◌, length, some, Bool, true,
  false, ◌&&◌, ◌||◌, ◌==◌, nat_eq, if◌then◌else◌, ltb, arith, Bool-cases, inl, inr,
}
use turbo_supermemory.Record.{PointOffset}
use turbo_supermemory.Segments.{
  Arc, SegmentHolder, TierConfig, covers, searchable_segments, publish_snapshot, insert_hot,
  swap_hot, seal_hot, all_offsets, compact_warm, empty_holder,
}
use turbo_supermemory.Segments.Found.{covers-append}
use turbo_supermemory.Segments.Visible.{
  visible, found, publish-Published, visible_of_Published, in_lists-write, shrunk-IsOwned,
}
use turbo_supermemory.Segments.Moves.{}
use turbo_supermemory.Segments.Installs.{
  swap_hot-IsOwned, found-swap_hot, compact_warm-IsOwned, found-compact_warm,
  compact_warm-Published,
}
use turbo_supermemory.Optimizer.{
  ResourceBudget, Builds, process_one_seal, merge_candidates, process_one_merge,
}
use turbo_supermemory.Optimizer.{hard_cap, take_up_to, sort_by_count}
use turbo_supermemory.Optimizer.Passes.{IsSearchable, Keeps, process_one_seal-Keeps}
use turbo_supermemory.Optimizer.Merges.{
  process_one_merge-Keeps, take_up_to-within, covers-sort_by_count,
}

-- An insert with the end of its dimension check, or a step of the background work with its builds.
pub data Round : Type 0 where
  insert : (fits : Bool) → PointOffset → Round
  seal : Round
  pass : Builds → Round
  merge : (built : Bool) → Round
  compact : (built : Bool) → Round

abbrev pub inserted : List Round → List PointOffset
inserted [] = []
inserted (insert fits o ∷ rs) = if fits then o ∷ inserted rs else inserted rs
inserted (seal ∷ rs) = inserted rs
inserted (pass builds ∷ rs) = inserted rs
inserted (merge built ∷ rs) = inserted rs
inserted (compact built ∷ rs) = inserted rs

abbrev inserted_by : Round → PointOffset → Bool
inserted_by (insert fits j) o = fits && j == o
inserted_by _ o = false

joined : (x y a i p q : Bool) → x ≡ (y || p) → y ≡ (a || i) → q ≡ (i || p) → x ≡ (a || q)
joined x y a i p q e f g = ground (arith, e, f, g)

module _ (c : TierConfig) (stored : PointOffset → Bool) where
  unfoldable pub round : Round → SegmentHolder × ResourceBudget → SegmentHolder × ResourceBudget
  round (insert fits o) (h, b) = ((insert_hot c fits o h).1, b)
  round seal (h, b) = (seal_hot c h, b)
  round (pass builds) (h, b) = (process_one_seal c stored builds h b).1
  round (merge built) (h, b) = (process_one_merge c stored built h b).1
  round (compact built) (h, b) = ((compact_warm c stored built h).1, b)

  unfoldable pub run_rounds :
      List Round → SegmentHolder × ResourceBudget → SegmentHolder × ResourceBudget
  run_rounds [] s = s
  run_rounds (r ∷ rs) s = run_rounds rs (round r s)

  -- The round adds what it inserts and takes nothing away.
  record Adds (r : Round) (h h' : SegmentHolder) : Type 0 where
    searchable : IsSearchable h'
    more : (o : PointOffset) → stored o ≡ true → found h' o ≡ (found h o || inserted_by r o)

  kept-Adds :
      (r : Round) (h h' : SegmentHolder)
      → ((o : PointOffset) → inserted_by r o ≡ false)
      → Keeps stored h h'
      → Adds r h h'
  kept-Adds r h h' nothing k = record {
    searchable = k.searchable;
    more = λ o s. ground (arith, k.same o s, nothing o);
  }

  seal_hot-Keeps : (h : SegmentHolder) → IsSearchable h → Keeps stored h (seal_hot c h)
  unfolding publish_snapshot seal_hot
  seal_hot-Keeps h w = elim (Bool-cases (ltb (length (h.heap h.hot)) c.hot_capacity)) [
    | inl e ↦ rw (e) (record { searchable = w; same = λ o s. refl })
    | inr e ↦ rw (e) (record {
      searchable = record {
        owned = shrunk-IsOwned (swap_hot h) _ (swap_hot-IsOwned h w.owned) refl refl (λ q d. d);
        published = publish-Published (swap_hot h);
      };
      same = λ o s. found-swap_hot h o w.owned;
    })
  ]

  insert_hot-Adds :
      (fits : Bool) (j : PointOffset) (h : SegmentHolder)
      → IsSearchable h
      → Adds (insert fits j) h (insert_hot c fits j h).1
  unfolding insert_hot searchable_segments covers
  insert_hot-Adds false j h w = record { searchable = w; more = λ o s. ground arith }
  insert_hot-Adds true j h w =
      let old : List PointOffset = h.heap h.hot in
      let now : List PointOffset = if covers j old then old else old ++ (j ∷ []) in
      record {
        searchable = record {
          owned = shrunk-IsOwned h _ w.owned refl refl (λ q d. d);
          published = w.published;
        };
        more = λ o s. ground (
          arith,
          in_lists-write h.heap h.lists h.hot now o w.owned.alone,
          covers-append o old (j ∷ []),
          (nat_eq.matches_iff h.hot h.hot).1 refl,
          (nat_eq.matches_iff j o).0,
          ap (λ i. covers i old),
        );
      }

  compact_warm-Keeps :
      (built : Bool) (h : SegmentHolder)
      → IsSearchable h
      → Keeps stored h (compact_warm c stored built h).1
  compact_warm-Keeps built h w = record {
    searchable = record {
      owned = compact_warm-IsOwned c stored built h w.owned;
      published = compact_warm-Published c stored built h w.published;
    };
    same = λ o s. found-compact_warm c stored built h o w.owned s;
  }

  round-Adds :
      (r : Round) (h : SegmentHolder) (b : ResourceBudget)
      → IsSearchable h
      → Adds r h (round r (h, b)).0
  unfolding round
  round-Adds (insert fits o) h b w = insert_hot-Adds fits o h w
  round-Adds seal h b w = kept-Adds seal h _ (λ o. refl) (seal_hot-Keeps h w)
  round-Adds (pass builds) h b w =
      kept-Adds (pass builds) h _ (λ o. refl) (process_one_seal-Keeps c stored builds h b w)
  round-Adds (merge built) h b w =
      kept-Adds (merge built) h _ (λ o. refl) (process_one_merge-Keeps c stored built h b w)
  round-Adds (compact built) h b w =
      kept-Adds (compact built) h _ (λ o. refl) (compact_warm-Keeps built h w)

  inserted_cons :
      (r : Round) (rs : List Round) (o : PointOffset)
      → covers o (inserted (r ∷ rs)) ≡ (inserted_by r o || covers o (inserted rs))
  unfolding covers
  inserted_cons (insert true j) rs o = refl
  inserted_cons (insert false j) rs o = refl
  inserted_cons seal rs o = refl
  inserted_cons (pass builds) rs o = refl
  inserted_cons (merge built) rs o = refl
  inserted_cons (compact built) rs o = refl

  Found : List Round → PointOffset → SegmentHolder → SegmentHolder → Type 0
  Found rs o h h' = IsSearchable h' × (found h' o ≡ (found h o || covers o (inserted rs)))

  after_round :
      (r : Round) (rs : List Round) (o : PointOffset) (h h1 h2 : SegmentHolder)
      → stored o ≡ true
      → Adds r h h1
      → Found rs o h1 h2
      → Found (r ∷ rs) o h h2
  unfolding Found
  after_round r rs o h h1 h2 s first rest =
      (rest.0, joined _ _ _ _ _ _ rest.1 (first.more o s) (inserted_cons r rs o))

  run_rounds-Found :
      (rs : List Round) (st : SegmentHolder × ResourceBudget) (o : PointOffset)
      → stored o ≡ true
      → IsSearchable st.0
      → Found rs o st.0 (run_rounds rs st).0
  unfolding run_rounds covers Found
  run_rounds-Found [] st o s w = (w, ground arith)
  run_rounds-Found (r ∷ rs) st o s w =
      let first = round-Adds r st.0 st.1 w in
      after_round r rs o st.0 (round r st).0 (run_rounds rs (round r st)).0 s first
        (run_rounds-Found rs (round r st) o s first.searchable)

  pub run_rounds-IsSearchable :
      (rs : List Round) (st : SegmentHolder × ResourceBudget)
      → IsSearchable st.0
      → IsSearchable (run_rounds rs st).0
  unfolding run_rounds
  run_rounds-IsSearchable [] st w = w
  run_rounds-IsSearchable (r ∷ rs) st w =
      run_rounds-IsSearchable rs (round r st) (round-Adds r st.0 st.1 w).searchable

  -- After any sequence of inserts, seals, seal passes, merges and warm compactions, whichever
  -- builds fail, a search of the published snapshot finds an offset that has a vector exactly if
  -- it found it before or one of the inserts that pass their dimension check inserted it,
  -- provided that at the start the snapshot is that of the lists and no list shares the plain
  -- segment.
  pub run_rounds-visible :
      (rs : List Round) (h : SegmentHolder) (b : ResourceBudget) (o : PointOffset)
      → stored o ≡ true
      → IsSearchable h
      → visible (run_rounds rs (h, b)).0 o ≡ (visible h o || covers o (inserted rs))
  unfolding Found
  run_rounds-visible rs h b o s w =
      let all = run_rounds-Found rs (h, b) o s w in
      ground (
        arith,
        all.1,
        visible_of_Published h o w.published,
        visible_of_Published (run_rounds rs (h, b)).0 o all.0.published,
      )

pub empty_holder-IsSearchable : (id : ℕ) → IsSearchable (empty_holder id)
unfolding empty_holder publish_snapshot searchable_segments covers
empty_holder-IsSearchable id = record {
  owned = record { hot_old = omega arith; old = λ p d. absurd (ground (arith, d)); alone = refl };
  published = refl;
}

-- If a merge finds candidates, they are at least as many as the threshold, and together they
-- have at most twice `max_records` points or as many as the largest sealed segment may have,
-- where twice `max_records` is below the largest 64-bit number.
pub merge_candidates-bound :
    (threshold max_records largest : ℕ) (h : SegmentHolder) (ts : List Arc)
    → max_records * 2 < 2 ^ 64 - 1
    → ((p : Arc) → covers p h.lists.sealed_hot ≡ true → length (h.heap p) ≤ largest)
    → merge_candidates threshold max_records h ≡ some ts
    → (threshold ≤ length ts) × (length (all_offsets h.heap ts) ≤ max (max_records * 2) largest)
unfolding merge_candidates
merge_candidates-bound threshold m largest h ts small each q =
    let all : List Arc =
      take_up_to h.heap (hard_cap m) 0 (sort_by_count h.heap h.lists.sealed_hot) in
    let within =
      take_up_to-within h.heap (hard_cap m) largest (sort_by_count h.heap h.lists.sealed_hot)
        (ground (arith, small))
        (λ p d. each p (covers-sort_by_count h.heap p h.lists.sealed_hot d)) in
    let same : all ≡ ts = ground (arith, q) in
    (
      ground (arith, q, ap length same),
      ground (arith, within, small, ap (λ ps. length (all_offsets h.heap ps)) same),
    )
