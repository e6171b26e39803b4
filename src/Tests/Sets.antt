-- ===== src/Tests/Sets.antt =====
-- The theorems on crates/turbomemory_storage/src/visited_pool.rs at small sets.
use turbo_supermemory.Common.{ℕ, ◌<◌, ◌≡◌, [], ◌∷◌, length, false, arith, ltb, nat_eq}
use turbo_supermemory.Visited.{
  VisitedSet, mark, is_visited, clear, VisitedPool, resize, acquire, release,
}
use turbo_supermemory.Visited.Marks.{
  IsValid, AllValid, mark-visited, clear-IsValid, acquire-AllValid, release-drops,
}

abbrev worn : VisitedSet
worn = record { tokens = 255 ∷ 3 ∷ []; generation = 255 }

worn-IsValid : IsValid worn
worn-IsValid = record {
  positive = omega arith;
  byte = omega arith;
  older = (omega arith, (omega arith, tt));
}

mark-visited_example : is_visited 1 (mark 1 worn) ≡ ltb 1 (length worn.tokens)
mark-visited_example = mark-visited 1 1 worn

clear-IsValid_example : IsValid (clear worn) × ((j : ℕ) → is_visited j (clear worn) ≡ false)
clear-IsValid_example = clear-IsValid worn worn-IsValid

abbrev pool : VisitedPool
pool = record { slots = worn ∷ []; capacity = 2 }

acquire-AllValid_example :
    IsValid (acquire pool).0
    × ((j : ℕ) → is_visited j (acquire pool).0 ≡ false)
    × AllValid (acquire pool).1.slots
acquire-AllValid_example = acquire-AllValid pool (worn-IsValid, tt)

release-drops_example :
    ((acquire (release worn (resize 9 pool))).0 ≡ clear worn)
    × (5 < (release worn (resize 9 pool)).capacity)
    × (is_visited 5 (mark 5 (acquire (release worn (resize 9 pool))).0) ≡ false)
release-drops_example = release-drops 9 5 worn pool (omega arith) (omega arith)
