-- ===== src/Visited.antt =====
-- crates/turbomemory_storage/src/visited_pool.rs: visited sets with generation tokens, and the pool
-- that lends them out. A handle that is dropped is a `release`; the pool's list stands in the order in
-- which sets are popped.
pub mod Marks
use turbo_supermemory.Common.{
  ℕ, zero, suc, ◌+◌, ◌-◌, ◌%◌, List, [], ◌∷◌, ◌++◌, length, get_elem?, set, replicate, map, Option,
  none, some, Bool, true, false, ltb, leb, ◌==◌, nat_eq, if◌then◌else◌,
}

pub record VisitedSet : Type 0 where
  pub tokens : List ℕ
  pub generation : ℕ

abbrev pub new_set : ℕ → VisitedSet
new_set capacity = record { tokens = replicate capacity 0; generation = 1 }

unfoldable pub resize_set : ℕ → VisitedSet → VisitedSet
resize_set capacity s =
    if ltb (length s.tokens) capacity
    then record s { tokens = s.tokens ++ replicate (capacity - length s.tokens) 0 }
    else s

unfoldable pub mark : ℕ → VisitedSet → VisitedSet
mark node s =
    if ltb node (length s.tokens) then record s { tokens = set s.tokens node s.generation } else s

abbrev is_token : ℕ → Option ℕ → Bool
is_token generation none = false
is_token generation (some t) = t == generation

unfoldable pub is_visited : ℕ → VisitedSet → Bool
is_visited node s = is_token s.generation (get_elem? s.tokens node)

-- `fill(0)`
abbrev zeros : List ℕ → List ℕ
zeros tokens = replicate (length tokens) 0

unfoldable pub clear : VisitedSet → VisitedSet
clear s =
    let next = (s.generation + 1) % 256 in
    if next == 0
    then record { tokens = zeros s.tokens; generation = 1 }
    else record s { generation = next }

pub record VisitedPool : Type 0 where
  pub slots : List VisitedSet
  pub capacity : ℕ

abbrev pub new_pool : ℕ → ℕ → VisitedPool
new_pool size capacity = record { slots = replicate size (new_set capacity); capacity = capacity }

unfoldable pub resize : ℕ → VisitedPool → VisitedPool
unfolding resize_set
resize capacity p =
    if leb capacity p.capacity
    then p
    else record { slots = map (resize_set capacity) p.slots; capacity = capacity }

unfoldable pub acquire : VisitedPool → VisitedSet × VisitedPool
unfolding clear
acquire p = elim p.slots [
  | [] ↦ (clear (new_set p.capacity), p)
  | s ∷ rest ↦ (clear s, record p { slots = rest })
]

unfoldable pub release : VisitedSet → VisitedPool → VisitedPool
release s p = record p { slots = s ∷ p.slots }
