-- ===== src/Common/Sort.antt =====
-- `sort_unstable` on numbers: equal numbers are the same, so the sorted list is the only result.
use turbo_supermemory.Common.Tests.{leb, if◌then◌else◌, Bool-cases}
use turbo_supermemory.Common.Lists.{length, drop, take}
use Prim.Native.Nat.{ℕ, zero, suc, ◌≤◌}
use mathlib.Core.Path.{◌≡◌, refl}
use mathlib.Core.List.{List, [], ◌∷◌, Perm}
use mathlib.Core.List.Perm
use mathlib.Core.Logic.{inl, inr}
use native.Mathlib.Omega.{arith}

unfoldable pub insert_sorted : ℕ → List ℕ → List ℕ
insert_sorted a [] = a ∷ []
insert_sorted a (x ∷ xs) = if leb a x then a ∷ x ∷ xs else x ∷ insert_sorted a xs

unfoldable pub sort : List ℕ → List ℕ
unfolding insert_sorted
sort [] = []
sort (x ∷ xs) = insert_sorted x (sort xs)

-- Every number of the list is at least `a`.
abbrev pub AllFrom : ℕ → List ℕ → Type 0
AllFrom a [] = Unit
AllFrom a (x ∷ xs) = (a ≤ x) × AllFrom a xs

abbrev pub IsSorted : List ℕ → Type 0
IsSorted [] = Unit
IsSorted (x ∷ xs) = AllFrom x xs × IsSorted xs

AllFrom-mono : (a b : ℕ) (xs : List ℕ) → a ≤ b → AllFrom b xs → AllFrom a xs
AllFrom-mono a b [] h p = tt
AllFrom-mono a b (x ∷ xs) h p = (omega arith, AllFrom-mono a b xs h p.1)

insert_sorted-AllFrom :
    (b a : ℕ) (xs : List ℕ) → b ≤ a → AllFrom b xs → AllFrom b (insert_sorted a xs)
unfolding insert_sorted
insert_sorted-AllFrom b a [] h p = (h, tt)
insert_sorted-AllFrom b a (x ∷ xs) h p = ground (arith, insert_sorted-AllFrom b a xs h p.1)

insert_sorted-IsSorted : (a : ℕ) (xs : List ℕ) → IsSorted xs → IsSorted (insert_sorted a xs)
unfolding insert_sorted
insert_sorted-IsSorted a [] s = (tt, tt)
insert_sorted-IsSorted a (x ∷ xs) s =
    ground
      (arith, insert_sorted-IsSorted a xs s.1, insert_sorted-AllFrom x a xs, AllFrom-mono a x xs)

pub sort-IsSorted : (xs : List ℕ) → IsSorted (sort xs)
unfolding sort
sort-IsSorted [] = tt
sort-IsSorted (x ∷ xs) = insert_sorted-IsSorted x (sort xs) (sort-IsSorted xs)

length-insert_sorted : (a : ℕ) (xs : List ℕ) → length (insert_sorted a xs) ≡ suc (length xs)
unfolding insert_sorted
length-insert_sorted a [] = refl
length-insert_sorted a (x ∷ xs) = ground (arith, length-insert_sorted a xs)

pub length-sort : (xs : List ℕ) → length (sort xs) ≡ length xs
unfolding sort
length-sort [] = refl
length-sort (x ∷ xs) = omega (arith, length-insert_sorted x (sort xs), length-sort xs)

drop-AllFrom : (n a : ℕ) (xs : List ℕ) → AllFrom a xs → AllFrom a (drop n xs)
drop-AllFrom zero a xs p = p
drop-AllFrom (suc n) a [] p = tt
drop-AllFrom (suc n) a (x ∷ xs) p = drop-AllFrom n a xs p.1

pub drop-IsSorted : (n : ℕ) (xs : List ℕ) → IsSorted xs → IsSorted (drop n xs)
drop-IsSorted zero xs s = s
drop-IsSorted (suc n) [] s = tt
drop-IsSorted (suc n) (x ∷ xs) s = drop-IsSorted n xs s.1

-- Each number of the first list is at most each of the second.
abbrev pub AllBelow : List ℕ → List ℕ → Type 0
AllBelow [] ys = Unit
AllBelow (x ∷ xs) ys = AllFrom x ys × AllBelow xs ys

-- Of a sorted list the front holds the least numbers.
pub take-AllBelow-drop : (n : ℕ) (xs : List ℕ) → IsSorted xs → AllBelow (take n xs) (drop n xs)
take-AllBelow-drop zero xs s = tt
take-AllBelow-drop (suc n) [] s = tt
take-AllBelow-drop (suc n) (x ∷ xs) s = (drop-AllFrom n x xs s.0, take-AllBelow-drop n xs s.1)

insert_sorted-perm : (a : ℕ) (xs : List ℕ) → Perm (insert_sorted a xs) (a ∷ xs)
unfolding insert_sorted
insert_sorted-perm a [] = Perm.refl (a ∷ [])
insert_sorted-perm a (x ∷ xs) = elim (Bool-cases (leb a x)) [
  | inl le ↦ rw le (Perm.refl (a ∷ x ∷ xs))
  | inr gt ↦ rw gt (Perm.trans (Perm.cons x (insert_sorted-perm a xs)) (Perm.swap a x xs))
]

pub sort-perm : (xs : List ℕ) → Perm (sort xs) xs
unfolding sort
sort-perm [] = Perm.refl []
sort-perm (x ∷ xs) = Perm.trans (insert_sorted-perm x (sort xs)) (Perm.cons x (sort-perm xs))
