-- ===== src/Tests/Indexes.antt =====
-- The segments, the optimizer, the indexes and the eviction at small inputs.
use turbo_supermemory.Common.{
  ℕ, ◌+◌, ◌*◌, ◌-◌, ◌≤◌, ◌<◌, ◌≡◌, ◌⊎◌, refl, max, List, [], ◌∷◌, ◌++◌, length, inl, none, some,
  Bool, true, false, not, ◌||◌, ◌&&◌, ◌==◌, arith, nat_eq, String, ltb, if◌then◌else◌,
}
use turbo_supermemory.Record.{PointOffset}
use turbo_supermemory.Segments.{
  Arc, TierConfig, SegmentHolder, covers, empty_holder, insert_hot, swap_hot, seal_hot, all_offsets,
  publish_snapshot, allocate_arc, write,
}
use turbo_supermemory.Common.Dict.{lookup}
use turbo_supermemory.Segments.Found.{covers-append}
use turbo_supermemory.Segments.Visible.{visible, in_lists}
use turbo_supermemory.Segments.Installs.{visible-swap_hot}
use turbo_supermemory.Optimizer.{
  ResourceBudget, new_budget, Builds, process_pending_seals, merge_candidates, use_hnsw, take_up_to,
  sort_by_count, insert_by_count,
}
use turbo_supermemory.Optimizer.Passes.{IsSearchable, Keeps}
use turbo_supermemory.Optimizer.Seals.{process_pending_seals-Keeps}
use turbo_supermemory.Optimizer.Budget.{
  SlotEvent, attempt, finish, slot_run, WithinBudget, slot_run-WithinBudget, use_hnsw-inflight,
}
use turbo_supermemory.Optimizer.Rounds.{
  Round, insert, seal, pass, merge, compact, inserted, round, run_rounds, run_rounds-visible,
  run_rounds-IsSearchable, empty_holder-IsSearchable, merge_candidates-bound,
}
use turbo_supermemory.Scope.{RoaringBitmap, IsBitmap, query, new_index}
use turbo_supermemory.Scope.Runs.{
  ScopeOp, added, removed, run_ops, is_in, query-run_ops, AllHeld, run_ops-AllHeld,
}
use turbo_supermemory.Bm25.{recompute, new_bm25}
use turbo_supermemory.Bm25.Counts
use turbo_supermemory.Bm25.Counts.{Bm25Op, freq, run_bm25, recompute-run_bm25}
use turbo_supermemory.Ccs.{CompressedCognitiveState, Formats, parse_or_default}
use turbo_supermemory.Ccs.Sessions.{Turn, Remembers, facts_of, run_session, run_session-Remembers}
use turbo_supermemory.Retention.{
  Scored, offsets_of, survivors, sort_ranked, insert_ranked, cap_pass, floor_victims,
  choose_victims, cap_victims, not_after,
}
use turbo_supermemory.Retention.Victims.{choose_victims-cap}
use turbo_supermemory.Retention.Ranking.{Among, cap_victims-order}

abbrev tier : TierConfig
tier = record {
  dimension = 2;
  max_edges = 2;
  hot_capacity = 2;
  warm_capacity = 3;
  hnsw_threshold = 3;
  full_scan_threshold_kb = 0;
  merge_threshold_segments = 2;
  merge_max_records = 10;
}

abbrev stored : PointOffset → Bool
stored o = ltb o 100

abbrev builds : Builds
builds = record { sealed_built = true; warm_built = true; cold_built = false }

abbrev rounds : List Round
rounds =
    insert true 7
    ∷ insert true 8
    ∷ seal
    ∷ insert false 9
    ∷ pass builds
    ∷ merge true
    ∷ compact true
    ∷ insert true 5
    ∷ []

run_rounds-visible_example :
    visible (run_rounds tier stored rounds (empty_holder 0, new_budget 1 none)).0 7
    ≡ (visible (empty_holder 0) 7 || covers 7 (inserted rounds))
run_rounds-visible_example =
    run_rounds-visible tier stored rounds (empty_holder 0) (new_budget 1 none) 7 refl
      (empty_holder-IsSearchable 0)

abbrev filled : List Round
filled = insert true 7 ∷ insert true 8 ∷ seal ∷ insert true 5 ∷ []

abbrev busy : SegmentHolder
busy = (run_rounds tier stored filled (empty_holder 0, new_budget 1 none)).0

busy-IsSearchable : IsSearchable busy
busy-IsSearchable =
    run_rounds-IsSearchable tier stored filled (empty_holder 0, new_budget 1 none)
      (empty_holder-IsSearchable 0)

busy_queue : length busy.lists.sealing_plain < 3
unfolding empty_holder publish_snapshot run_rounds round insert_hot seal_hot swap_hot allocate_arc
    covers
busy_queue = omega arith

process_pending_seals-Keeps_example :
    (r : SegmentHolder × ResourceBudget) × ((process_pending_seals tier stored
          (λ n. builds)
          3
          busy
          (new_budget 1 none)
        ≡ some r)
      × Keeps stored busy r.0)
process_pending_seals-Keeps_example =
    process_pending_seals-Keeps tier stored (λ n. builds) 3 busy (new_budget 1 none) busy_queue
      busy-IsSearchable

visible-swap_hot_example : visible (swap_hot busy) 5 ≡ in_lists busy.heap busy.lists 5
visible-swap_hot_example =
    visible-swap_hot busy 5 busy-IsSearchable.owned busy-IsSearchable.published

abbrev two_sealed : SegmentHolder
two_sealed = record (empty_holder 0) {
  heap = write (write (λ p. []) 1 (7 ∷ 8 ∷ [])) 2 (9 ∷ []);
  next_arc = 3;
  lists = record (empty_holder 0).lists { sealed_hot = 1 ∷ 2 ∷ [] };
}

at_most_two :
    (p : Arc) → covers p two_sealed.lists.sealed_hot ≡ true → length (two_sealed.heap p) ≤ 2
unfolding covers
at_most_two p h = ground arith

abbrev chosen : List Arc
chosen = 2 ∷ 1 ∷ []

both_chosen : merge_candidates 2 10 two_sealed ≡ some chosen
unfolding merge_candidates take_up_to sort_by_count insert_by_count
both_chosen = refl

merge_candidates-bound_example :
    (2 ≤ length chosen) × (length (all_offsets two_sealed.heap chosen) ≤ max (10 * 2) 2)
merge_candidates-bound_example =
    merge_candidates-bound 2 10 2 two_sealed chosen (omega arith) at_most_two both_chosen

fresh-WithinBudget : WithinBudget (new_budget 1 none) 0
unfolding new_budget
fresh-WithinBudget = record { counted = refl; bounded = omega arith; fits = omega arith }

abbrev slot_events : List SlotEvent
slot_events = attempt 0 100 8 8 ∷ attempt 0 100 8 8 ∷ finish ∷ finish ∷ attempt 0 5 8 8 ∷ []

slot_run-WithinBudget_example :
    WithinBudget
      (slot_run slot_events (new_budget 1 none, 0)).0
      (slot_run slot_events (new_budget 1 none, 0)).1
slot_run-WithinBudget_example =
    slot_run-WithinBudget slot_events (new_budget 1 none) 0 fresh-WithinBudget

use_hnsw-inflight_example :
    (use_hnsw tier 5
      (record { inflight = 0; max_concurrent = 1; max_memory_bytes = none })).1.inflight
    ≡ 0
use_hnsw-inflight_example =
    use_hnsw-inflight tier 5 (record { inflight = 0; max_concurrent = 1; max_memory_bytes = none })
      (omega arith) (omega arith)

-- A list of numbers is a bitmap.
unfoldable drop_bit : ℕ → List ℕ → List ℕ
drop_bit i [] = []
drop_bit i (x ∷ xs) = let rest = drop_bit i xs in if i == x then rest else x ∷ rest

unfoldable no_bits : List ℕ → Bool
no_bits [] = true
no_bits (x ∷ xs) = false

abbrev bits : RoaringBitmap (List ℕ)
bits = record {
  new_bitmap = [];
  insert = λ i b. i ∷ b;
  remove = drop_bit;
  union = λ a b. a ++ b;
  is_empty = no_bits;
  contains = covers;
}

covers-drop_bit : (i j : ℕ) (b : List ℕ) → covers j (drop_bit i b) ≡ (not (i == j) && covers j b)
unfolding covers drop_bit
covers-drop_bit i j [] = ground arith
covers-drop_bit i j (x ∷ xs) = ground (
  arith,
  covers-drop_bit i j xs,
  nat_eq.matches_iff i x,
  nat_eq.matches_iff x j,
  nat_eq.matches_iff i j,
)

no_bits_cover : (j : ℕ) (b : List ℕ) → no_bits b ≡ true → covers j b ≡ false
unfolding covers no_bits
no_bits_cover j [] h = refl
no_bits_cover j (x ∷ xs) h = absurd (ground (arith, h))

some_bit : (b : List ℕ) → no_bits b ≡ false → (j : ℕ) × (covers j b ≡ true)
unfolding covers no_bits
some_bit [] h = absurd (ground (arith, h))
some_bit (x ∷ xs) h = (x, ground (arith, (nat_eq.matches_iff x x).1 refl))

bits-IsBitmap : IsBitmap bits
unfolding covers
bits-IsBitmap = record {
  contains_new = λ j. refl;
  contains_insert = λ i j b. refl;
  contains_remove = covers-drop_bit;
  contains_union = covers-append;
  empty_has = no_bits_cover;
  other_has = some_bit;
}

abbrev tags : List ScopeOp
tags =
    added 0 none
    ∷ added 1 (some "agent1")
    ∷ added 2 (some "agent2")
    ∷ removed 2 (some "agent2")
    ∷ []

query-run_ops_example :
    covers 1 (query bits (some "agent1") (run_ops bits bits-IsBitmap tags (new_index bits)))
    ≡ (is_in tags none 1 false || is_in tags (some "agent1") 1 false)
query-run_ops_example = query-run_ops bits bits-IsBitmap tags "agent1" 1

new_index-AllHeld : AllHeld bits bits-IsBitmap (new_index bits)
unfolding new_index lookup AllHeld
new_index-AllHeld s b h = absurd (ground (arith, h))

run_ops-AllHeld_example :
    AllHeld bits bits-IsBitmap (run_ops bits bits-IsBitmap tags (new_index bits))
run_ops-AllHeld_example = run_ops-AllHeld bits bits-IsBitmap tags (new_index bits) new_index-AllHeld

abbrev words : String → List String
words text = text ∷ "tea" ∷ []

abbrev edits : List Bm25Op
edits =
    Counts.added "m1" "rust"
    ∷ Counts.added "m2" "tea"
    ∷ Counts.added "m1" "python"
    ∷ Counts.removed "m2"
    ∷ []

recompute-run_bm25_example :
    (freq (recompute (run_bm25 words edits new_bm25)).term_doc_freq "tea"
      ≡ freq (run_bm25 words edits new_bm25).term_doc_freq "tea")
    × ((recompute (run_bm25 words edits new_bm25)).total_doc_len
        ≡ (run_bm25 words edits new_bm25).total_doc_len)
recompute-run_bm25_example = recompute-run_bm25 words edits "tea"

abbrev scores : List Scored
scores =
    record { offset = 3; id = "a"; score = 5 }
    ∷ record { offset = 1; id = "b"; score = 2 }
    ∷ record { offset = 2; id = "c"; score = 2 }
    ∷ []

choose_victims-cap_example :
    (length (choose_victims (λ s. s) (some (λ s. ltb s 1)) (some 2) 4 scores)
      ≤ max (length (floor_victims (some (λ s. ltb s 1)) scores)) (4 - 2))
    × ((4 ≤ length (choose_victims (λ s. s) (some (λ s. ltb s 1)) (some 2) 4 scores) + 2)
        ⊎ ((o : PointOffset)
            → covers o (offsets_of scores) ≡ true
            → covers o
                (offsets_of (choose_victims (λ s. s) (some (λ s. ltb s 1)) (some 2) 4 scores))
              ≡ true))
choose_victims-cap_example = choose_victims-cap (λ s. s) (some (λ s. ltb s 1)) 2 4 scores

abbrev low : Scored
low = record { offset = 1; id = "b"; score = 2 }

abbrev high : Scored
high = record { offset = 3; id = "a"; score = 5 }

low_chosen : Among low (cap_victims (λ s. s) (some 2) 4 [] scores)
unfolding cap_pass sort_ranked insert_ranked not_after survivors covers
low_chosen = inl refl

high_kept : covers 3 (offsets_of (cap_victims (λ s. s) (some 2) 4 [] scores)) ≡ false
unfolding cap_pass sort_ranked insert_ranked not_after survivors covers
high_kept = refl

none_before : covers 3 (offsets_of []) ≡ false
unfolding covers
none_before = refl

cap_victims-order_example : not_after (λ s. s) low high ≡ true
cap_victims-order_example =
    cap_victims-order (λ s. s) 2 4 [] scores low high low_chosen (inl refl) none_before high_kept

-- The state stands for its JSON.
abbrev plain_json : Formats CompressedCognitiveState
plain_json = record {
  words = λ text. if ltb 2 (length text) then "rust" ∷ [] else [];
  format_fact = λ turn user assistant. "turn";
  to_json = λ ccs. ccs;
  from_json = λ ccs. some ccs;
}

abbrev turns : List Turn
turns =
    record { user = 7 ∷ 8 ∷ 9 ∷ []; assistant = 1 ∷ [] }
    ∷ record { user = 7 ∷ 8 ∷ 9 ∷ []; assistant = [] }
    ∷ []

run_session-Remembers_example :
    Remembers plain_json
      (facts_of plain_json 1 turns)
      (parse_or_default plain_json (run_session plain_json turns none))
run_session-Remembers_example = run_session-Remembers plain_json (λ ccs. refl) turns
