-- ===== src/Common/Dict.antt =====
-- A hash map as an association list, and a hash set as a map to the unit type. Nothing that the
-- program computes depends on the order in which a map is walked unless a comment says so.
use turbo_supermemory.Common.Tests.{Key, Bool-cases, ◌==◌, if◌then◌else◌}
use turbo_supermemory.Common.Lists.{length}
use Prim.Native.Nat.{◌+◌}
use mathlib.Core.Path.{◌≡◌, refl}
use mathlib.Core.Logic.{◌≢◌, ◌⊎◌, inl, inr}
use mathlib.Core.Bool.{Bool, true, false}
use mathlib.Core.Option.{Option, none, some}
use mathlib.Core.List.{List, [], ◌∷◌}
use native.Mathlib.Omega.{arith}

abbrev pub Dict {ℓ} : Type ℓ → Type ℓ → Type ℓ
Dict K V = List (K × V)

module _ {ℓ} {K V : Type ℓ} ⦃key : Key K⦄ where
  unfoldable pub lookup : K → Dict K V → Option V
  lookup k [] = none
  lookup k ((j, v) ∷ m) = if j == k then some v else lookup k m

  unfoldable pub remove : K → Dict K V → Dict K V
  remove k [] = []
  remove k ((j, v) ∷ m) = let rest = remove k m in if j == k then rest else (j, v) ∷ rest

  -- A new key goes to the front, and the old entry of the key goes away.
  unfoldable pub insert : K → V → Dict K V → Dict K V
  unfolding remove
  insert k v m = (k, v) ∷ remove k m

  abbrev pub has_key : K → Dict K V → Bool
  has_key k m = elim (lookup k m) [ none ↦ false | some _ ↦ true ]

module _ {ℓ} {K V : Type ℓ} ⦃key : Key K⦄ where
  pub lookup-remove :
      (k j : K) (m : Dict K V) → lookup j (remove k m) ≡ (if k == j then none else lookup j m)
  unfolding lookup remove
  lookup-remove k j [] = ground arith
  lookup-remove k j ((i, v) ∷ m) =
      ground
        (arith, lookup-remove k j m, key.matches_iff i k, key.matches_iff i j, key.matches_iff k j)

  pub lookup-insert :
      (k j : K) (v : V) (m : Dict K V)
      → lookup j (insert k v m) ≡ (if k == j then some v else lookup j m)
  unfolding lookup insert
  lookup-insert k j v m = simp lookup-remove (ground arith)

  pub lookup-remove_self : (k : K) (m : Dict K V) → lookup k (remove k m) ≡ none
  lookup-remove_self k m = simp lookup-remove (ground (arith, key.matches_iff k k))

  -- What is found behind a removal was there, under another key.
  pub lookup-remove_some :
      (k j : K) (w : V) (m : Dict K V)
      → lookup j (remove k m) ≡ some w
      → (k ≢ j) × (lookup j m ≡ some w)
  lookup-remove_some k j w m h = (
    λ q. ground (arith, lookup-remove k j m, (key.matches_iff k j).1 q, h),
    ground (arith, lookup-remove k j m, h),
  )

  -- What is found behind an insertion is the new entry, or was there under another key.
  pub lookup-insert_some :
      (k j : K) (v w : V) (m : Dict K V)
      → lookup j (insert k v m) ≡ some w
      → ((k ≡ j) × (v ≡ w)) ⊎ ((k ≢ j) × (lookup j m ≡ some w))
  lookup-insert_some k j v w m h = elim (Bool-cases (k == j)) [
    | inl same ↦ inl ((key.matches_iff k j).0 same, ground (arith, lookup-insert k j v m, same, h))
    | inr other ↦ inr (
      λ q. ground (arith, other, (key.matches_iff k j).1 q),
      ground (arith, lookup-insert k j v m, other, h),
    )
  ]

  pub lookup-insert_self : (k : K) (v : V) (m : Dict K V) → lookup k (insert k v m) ≡ some v
  lookup-insert_self k v m = simp lookup-insert (ground (arith, key.matches_iff k k))

  pub lookup-remove_ne : (k j : K) (m : Dict K V) → k ≢ j → lookup j (remove k m) ≡ lookup j m
  lookup-remove_ne k j m h = simp lookup-remove (ground (arith, key.matches_iff k j))

  pub lookup-insert_ne :
      (k j : K) (v : V) (m : Dict K V) → k ≢ j → lookup j (insert k v m) ≡ lookup j m
  lookup-insert_ne k j v m h = simp lookup-insert (ground (arith, key.matches_iff k j))

  pub has_key_of_some : (k : K) (m : Dict K V) (v : V) → lookup k m ≡ some v → has_key k m ≡ true
  has_key_of_some k m v h = rw (h, has_key)

  -- Every key has one entry.
  abbrev pub Distinct : Dict K V → Type ℓ
  Distinct [] = Unit
  Distinct ((k, v) ∷ m) = (lookup k m ≡ none) × Distinct m

  pub remove_absent : (k : K) (m : Dict K V) → lookup k m ≡ none → remove k m ≡ m
  unfolding lookup remove
  remove_absent k [] h = refl
  remove_absent k ((j, v) ∷ m) h = ground (arith, remove_absent k m)

  pub remove-Distinct : (k : K) (m : Dict K V) → Distinct m → Distinct (remove k m)
  unfolding remove
  remove-Distinct k [] d = d
  remove-Distinct k ((j, v) ∷ m) d = ground (arith, remove-Distinct k m d.1, lookup-remove k j m)

  pub insert-Distinct : (k : K) (v : V) (m : Dict K V) → Distinct m → Distinct (insert k v m)
  unfolding insert
  insert-Distinct k v m d = (lookup-remove_self k m, remove-Distinct k m d)

  pub length-remove :
      (k : K) (m : Dict K V)
      → Distinct m
      → length (remove k m) + (if has_key k m then 1 else 0) ≡ length m
  unfolding lookup remove
  length-remove k [] d = omega arith
  length-remove k ((j, v) ∷ m) d =
      ground (arith, length-remove k m d.1, remove_absent k m, key.matches_iff j k)

  pub length-insert :
      (k : K) (v : V) (m : Dict K V)
      → Distinct m
      → length (insert k v m) ≡ length m + (if has_key k m then 0 else 1)
  unfolding insert
  length-insert k v m d = ground (arith, length-remove k m d)

pub ruleset dict_laws = (lookup-remove, lookup-insert)
