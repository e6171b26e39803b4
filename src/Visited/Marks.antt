-- ===== src/Visited/Marks.antt =====
-- A set that is lent out has no node visited, and visits just what is marked.
use turbo_supermemory.Common.{
  ℕ, zero, suc, ◌+◌, ◌%◌, ◌≤◌, ◌<◌, ◌≡◌, refl, List, [], ◌∷◌, ◌++◌, length, get_elem?, set,
  replicate, map, some, false, ltb, leb, ◌==◌, nat_eq, if◌then◌else◌, arith, get_elem?-set_self,
  get_elem?-set_ne, length-replicate, ◌∙◌, inl, inr, Bool-cases, Option-cases, get_elem?_of_le,
}
use turbo_supermemory.Visited.{
  VisitedSet, new_set, is_token, resize_set, mark, is_visited, clear, VisitedPool, resize, acquire,
  release,
}

-- No token is newer than the generation.
abbrev pub AllLe : ℕ → List ℕ → Type 0
AllLe g [] = Unit
AllLe g (t ∷ ts) = (t ≤ g) × AllLe g ts

pub record IsValid (s : VisitedSet) : Type 0 where
  pub positive : 0 < s.generation
  pub byte : s.generation < 256
  pub older : AllLe s.generation s.tokens

AllLe-get : (g i t : ℕ) (ts : List ℕ) → AllLe g ts → get_elem? ts i ≡ some t → t ≤ g
AllLe-get g i t [] h e = cc
AllLe-get g zero t (x ∷ ts) h e = ground (arith, h.0)
AllLe-get g (suc i) t (x ∷ ts) h e = AllLe-get g i t ts h.1 e

AllLe-mono : (g g' : ℕ) (ts : List ℕ) → g ≤ g' → AllLe g ts → AllLe g' ts
AllLe-mono g g' [] le h = tt
AllLe-mono g g' (t ∷ ts) le h = (omega (arith, h.0), AllLe-mono g g' ts le h.1)

AllLe-set : (g i : ℕ) (ts : List ℕ) → AllLe g ts → AllLe g (set ts i g)
AllLe-set g i [] h = tt
AllLe-set g zero (t ∷ ts) h = (omega arith, h.1)
AllLe-set g (suc i) (t ∷ ts) h = (h.0, AllLe-set g i ts h.1)

AllLe-zeros : (g n : ℕ) → AllLe g (replicate n 0)
AllLe-zeros g zero = tt
AllLe-zeros g (suc n) = (omega arith, AllLe-zeros g n)

AllLe-append : (g : ℕ) (ts us : List ℕ) → AllLe g ts → AllLe g us → AllLe g (ts ++ us)
AllLe-append g [] us h k = k
AllLe-append g (t ∷ ts) us h k = (h.0, AllLe-append g ts us h.1 k)

pub resize_set-IsValid : (n : ℕ) (s : VisitedSet) → IsValid s → IsValid (resize_set n s)
unfolding resize_set
resize_set-IsValid n s h = elim (Bool-cases (ltb (length s.tokens) n)) [
  | inr fits ↦ simp fits h
  | inl short ↦ simp short (record {
    positive = h.positive;
    byte = h.byte;
    older = AllLe-append s.generation s.tokens _ h.older (AllLe-zeros s.generation _);
  })
]

pub mark-IsValid : (n : ℕ) (s : VisitedSet) → IsValid s → IsValid (mark n s)
unfolding mark
mark-IsValid n s h = elim (Bool-cases (ltb n (length s.tokens))) [
  | inr out ↦ simp out h
  | inl inside ↦ simp inside (record {
    positive = h.positive;
    byte = h.byte;
    older = AllLe-set s.generation n s.tokens h.older;
  })
]

-- After a mark of `n`, the node `n` is visited exactly if the set has room for it, and every
-- other node is visited as before.
pub mark-visited :
    (n j : ℕ) (s : VisitedSet)
    → is_visited j (mark n s) ≡ (if n == j then ltb n (length s.tokens) else is_visited j s)
unfolding mark is_visited
mark-visited n j s = ground (
  arith,
  get_elem?-set_self s.tokens n s.generation,
  get_elem?-set_ne s.tokens n j s.generation,
  get_elem?_of_le s.tokens n,
)

-- An older token is not the generation.
is_token_older :
    (g g' j : ℕ) (ts : List ℕ) → AllLe g ts → g < g' → is_token g' (get_elem? ts j) ≡ false
is_token_older g g' j ts h lt = elim (Option-cases (get_elem? ts j)) [
  | inl out ↦ rw out refl
  | inr (t, e) ↦ rw e (ground (arith, AllLe-get g j t ts h e))
]

-- If the generation of a set is a positive byte and no token is newer, this holds after a clear
-- as well and no node is visited, also when the generation wraps.
pub clear-IsValid :
    (s : VisitedSet) → IsValid s → IsValid (clear s) × ((j : ℕ) → is_visited j (clear s) ≡ false)
unfolding clear is_visited
clear-IsValid s h = elim (Bool-cases ((s.generation + 1) % 256 == 0)) [
  | inl wraps ↦ simp wraps (
    record { positive = omega arith; byte = omega arith; older = AllLe-zeros 1 (length s.tokens) },
    λ j. is_token_older 0 1 j _ (AllLe-zeros 0 (length s.tokens)) (omega arith),
  )
  | inr counts ↦
      let next : (s.generation + 1) % 256 ≡ s.generation + 1 = ground (arith, counts, h.byte) in
      simp counts (
        record {
          positive = omega (arith, next);
          byte = omega arith;
          older = AllLe-mono s.generation _ s.tokens (omega (arith, next)) h.older;
        },
        λ j. is_token_older s.generation _ j s.tokens h.older (omega (arith, next)),
      )
]

new_set-IsValid : (n : ℕ) → IsValid (new_set n)
new_set-IsValid n = record { positive = omega arith; byte = omega arith; older = AllLe-zeros 1 n }

abbrev pub AllValid : List VisitedSet → Type 0
AllValid [] = Unit
AllValid (s ∷ rest) = IsValid s × AllValid rest

resize-AllValid : (n : ℕ) (ss : List VisitedSet) → AllValid ss → AllValid (map (resize_set n) ss)
resize-AllValid n [] h = tt
resize-AllValid n (s ∷ ss) h = (resize_set-IsValid n s h.0, resize-AllValid n ss h.1)

pub pool_resize-AllValid :
    (n : ℕ) (p : VisitedPool) → AllValid p.slots → AllValid (resize n p).slots
unfolding resize
pool_resize-AllValid n p h = elim (Bool-cases (leb n p.capacity)) [
  | inl enough ↦ simp enough h
  | inr grows ↦ simp grows (resize-AllValid n p.slots h)
]

lent-AllValid :
    (slots : List VisitedSet) (capacity : ℕ)
    → AllValid slots
    → IsValid (acquire (record { slots = slots; capacity = capacity })).0
      × ((j : ℕ) → is_visited j (acquire (record { slots = slots; capacity = capacity })).0 ≡ false)
      × AllValid (acquire (record { slots = slots; capacity = capacity })).1.slots
unfolding acquire
lent-AllValid [] capacity h =
    let (valid, unvisited) = clear-IsValid (new_set capacity) (new_set-IsValid capacity) in
    (valid, unvisited, tt)
lent-AllValid (s ∷ rest) capacity h =
    let (valid, unvisited) = clear-IsValid s h.0 in (valid, unvisited, h.1)

-- From a pool of valid sets, be it empty or not, a search gets a valid set with no node visited,
-- and the sets that stay are valid.
pub acquire-AllValid :
    (p : VisitedPool)
    → AllValid p.slots
    → IsValid (acquire p).0
      × ((j : ℕ) → is_visited j (acquire p).0 ≡ false)
      × AllValid (acquire p).1.slots
acquire-AllValid p h = lent-AllValid p.slots p.capacity h

length-clear : (s : VisitedSet) → length (clear s).tokens ≡ length s.tokens
unfolding clear
length-clear s = ground (arith, length-replicate {A = ℕ} (length s.tokens) 0)

-- If a set is handed back to the pool after the pool was resized, the next search gets it
-- cleared, and a mark of a node beyond the set's size and below the new capacity, which the pool
-- has, is dropped.
pub release-drops :
    (capacity n : ℕ) (s : VisitedSet) (p : VisitedPool)
    → length s.tokens ≤ n
    → n < capacity
    → ((acquire (release s (resize capacity p))).0 ≡ clear s)
      × (n < (release s (resize capacity p)).capacity)
      × (is_visited n (mark n (acquire (release s (resize capacity p))).0) ≡ false)
unfolding release resize acquire
release-drops capacity n s p small room =
    (refl, ground (arith, room), mark-visited n n (clear s) ∙ ground (arith, length-clear s, small))
