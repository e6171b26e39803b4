-- ===== src/Segments/Found.antt =====
-- Which offsets a list of segments has, as each step of crates/turbomemory_storage/src/segment_holder.rs
-- changes the list.
use turbo_supermemory.Common.{
  ℕ, ◌≡◌, refl, ap, List, [], ◌∷◌, ◌++◌, Option, none, some, Bool, true, false, ◌&&◌, ◌||◌, ◌==◌,
  nat_eq, arith, Bool-cases, inl, inr, Option-cases,
}
use turbo_supermemory.Common.Sort.{sort, insert_sorted}
use turbo_supermemory.Record.{PointOffset}
use turbo_supermemory.Segments.{
  Arc, Heap, write, covers, pop_last, without, without_all, read_vectors_for_offsets, dedup,
  all_offsets,
}

unfoldable pub finds : Heap → List Arc → PointOffset → Bool
finds heap [] o = false
finds heap (p ∷ ps) o = covers o (heap p) || finds heap ps o

pub covers-append : (o : ℕ) (xs ys : List ℕ) → covers o (xs ++ ys) ≡ (covers o xs || covers o ys)
unfolding covers
covers-append o [] ys = refl
covers-append o (x ∷ xs) ys = ground (arith, covers-append o xs ys)

pub finds-append :
    (heap : Heap) (ps qs : List Arc) (o : PointOffset)
    → finds heap (ps ++ qs) o ≡ (finds heap ps o || finds heap qs o)
unfolding finds
finds-append heap [] qs o = refl
finds-append heap (p ∷ ps) qs o = ground (arith, finds-append heap ps qs o)

pub covers-read_vectors :
    (stored : PointOffset → Bool) (o : PointOffset) (xs : List PointOffset)
    → covers o (read_vectors_for_offsets stored xs) ≡ (stored o && covers o xs)
unfolding covers read_vectors_for_offsets
covers-read_vectors stored o [] = ground arith
covers-read_vectors stored o (x ∷ xs) =
    let ih = covers-read_vectors stored o xs in
    elim (Bool-cases (x == o)) [
      | inl same ↦
          let q : x ≡ o = (nat_eq.matches_iff x o).0 same in ground (arith, ih, ap stored q, same)
      | inr other ↦ ground (arith, ih, other)
    ]

covers-insert_sorted :
    (o a : ℕ) (xs : List ℕ) → covers o (insert_sorted a xs) ≡ (a == o || covers o xs)
unfolding covers insert_sorted
covers-insert_sorted o a [] = refl
covers-insert_sorted o a (x ∷ xs) = ground (arith, covers-insert_sorted o a xs)

pub covers-sort : (o : ℕ) (xs : List ℕ) → covers o (sort xs) ≡ covers o xs
unfolding covers sort
covers-sort o [] = refl
covers-sort o (x ∷ xs) = ground (arith, covers-insert_sorted o x (sort xs), covers-sort o xs)

pub covers-dedup : (o : ℕ) (xs : List ℕ) → covers o (dedup xs) ≡ covers o xs
unfolding covers dedup
covers-dedup o [] = refl
covers-dedup o (x ∷ []) = refl
covers-dedup o (x ∷ y ∷ xs) = ground (arith, covers-dedup o (y ∷ xs))

pub covers-all_offsets :
    (heap : Heap) (ps : List Arc) (o : PointOffset)
    → covers o (all_offsets heap ps) ≡ finds heap ps o
unfolding finds all_offsets covers
covers-all_offsets heap [] o = refl
covers-all_offsets heap (p ∷ ps) o =
    ground (arith, covers-append o (heap p) (all_offsets heap ps), covers-all_offsets heap ps o)

-- What a list has, its own removed segment has or the rest has.
pub finds-without :
    (heap : Heap) (p : Arc) (ps : List Arc) (o : PointOffset)
    → (finds heap (without p ps) o || covers o (heap p)) ≡ (finds heap ps o || covers o (heap p))
unfolding finds without
finds-without heap p [] o = refl
finds-without heap p (q ∷ qs) o =
    let ih = finds-without heap p qs o in
    elim (Bool-cases (p == q)) [
      | inl same ↦
          let e : p ≡ q = (nat_eq.matches_iff p q).0 same in
          ground (arith, ih, ap (λ r. covers o (heap r)) e, same)
      | inr other ↦ ground (arith, ih, other)
    ]

finds_of_covers :
    (heap : Heap) (q : Arc) (ts : List Arc) (o : PointOffset)
    → covers q ts ≡ true
    → covers o (heap q) ≡ true
    → finds heap ts o ≡ true
unfolding finds covers
finds_of_covers heap q [] o h d = ground (arith, h)
finds_of_covers heap q (t ∷ ts) o h d = elim (Bool-cases (t == q)) [
  | inl same ↦
      let e : t ≡ q = (nat_eq.matches_iff t q).0 same in
      ground (arith, ap (λ r. covers o (heap r)) e, d)
  | inr other ↦ ground (arith, finds_of_covers heap q ts o, other, h, d)
]

pub finds-without_all :
    (heap : Heap) (ts ps : List Arc) (o : PointOffset)
    → (finds heap (without_all ts ps) o || finds heap ts o) ≡ (finds heap ps o || finds heap ts o)
unfolding finds without_all
finds-without_all heap ts [] o = refl
finds-without_all heap ts (q ∷ qs) o =
    ground (arith, finds-without_all heap ts qs o, finds_of_covers heap q ts o)

pub covers-without :
    (o p : Arc) (ps : List Arc) → covers o (without p ps) ≡ true → covers o ps ≡ true
unfolding covers without
covers-without o p [] h = h
covers-without o p (q ∷ qs) h = ground (arith, covers-without o p qs, h)

pub covers-without_all :
    (o : Arc) (ts ps : List Arc) → covers o (without_all ts ps) ≡ true → covers o ps ≡ true
unfolding covers without_all
covers-without_all o ts [] h = h
covers-without_all o ts (q ∷ qs) h = ground (arith, covers-without_all o ts qs, h)

without_all_self_rest :
    (ts ps : List Arc)
    → ((q : Arc) → covers q ps ≡ true → covers q ts ≡ true)
    → without_all ts ps ≡ []
unfolding without_all covers
without_all_self_rest ts [] h = refl
without_all_self_rest ts (p ∷ ps) h = ground (
  arith,
  h p,
  (nat_eq.matches_iff p p).1 refl,
  without_all_self_rest ts ps (λ q d. h q (ground (arith, d))),
)

pub without_all_self : (ps : List Arc) → without_all ps ps ≡ []
without_all_self ps = without_all_self_rest ps ps (λ q h. h)

-- A segment that the list does not have may change.
pub finds-write :
    (heap : Heap) (p : Arc) (v : List PointOffset) (ps : List Arc) (o : PointOffset)
    → covers p ps ≡ false
    → finds (write heap p v) ps o ≡ finds heap ps o
unfolding finds covers
finds-write heap p v [] o h = refl
finds-write heap p v (q ∷ qs) o h =
    ground (arith, h, finds-write heap p v qs o, nat_eq.matches_iff p q, nat_eq.matches_iff q p)

pub pop_last-none : (ps : List Arc) → pop_last ps ≡ none → ps ≡ []
unfolding pop_last
pop_last-none [] h = refl
pop_last-none (p ∷ ps) h = elim (Option-cases (pop_last ps)) [
  | inl e ↦ absurd (ground (arith, e, h))
  | inr ((r, before), e) ↦ absurd (ground (arith, e, h))
]

abbrev last_of : Arc → List Arc → Option (Arc × List Arc)
last_of q rest = some (q, rest)

pub pop_last-append :
    (ps : List Arc) (q : Arc) (rest : List Arc)
    → pop_last ps ≡ some (q, rest)
    → ps ≡ rest ++ (q ∷ [])
unfolding pop_last
pop_last-append [] q rest h = cc
pop_last-append (p ∷ ps) q rest h = elim (Option-cases (pop_last ps)) [
  | inl e ↦
      let nothing : ps ≡ [] = pop_last-none ps e in
      let same : last_of p [] ≡ last_of q rest = rw (e) at h in cc
  | inr ((r, before), e) ↦
      let ih : ps ≡ before ++ (r ∷ []) = pop_last-append ps r before e in
      let same : last_of r (p ∷ before) ≡ last_of q rest = rw (e) at h in cc
]
