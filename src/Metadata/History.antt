-- ===== src/Metadata/History.antt =====
-- The access history of a record: the latest `max_len` timestamps, in ascending order.
use mathlib.Core.List.{Perm}
use turbo_supermemory.Common.{
  sym, take-append-drop, ℕ, ◌-◌, ◌≤◌, ◌≡◌, List, ◌∷◌, ◌++◌, length, take, drop, arith, ltb, inl,
  inr, Bool-cases, length-drop, min, ltb→le,
}
use turbo_supermemory.Common.Dict.{lookup-insert_self}
use turbo_supermemory.Common.Sort.{
  sort, sort-perm, sort-IsSorted, length-sort, drop-IsSorted, IsSorted, AllBelow,
  take-AllBelow-drop,
}
use turbo_supermemory.Metadata.{MetadataStore, access_history_of, append_access_history, merge_ring}

drop_nothing : (n k : ℕ) (xs : List ℕ) → n ≤ k → drop (n - k) xs ≡ xs
drop_nothing n k xs h = let e : n - k ≡ 0 = omega arith in rw e

merge_ring-drop :
    (old new : List ℕ) (max_len : ℕ)
    → merge_ring old new max_len ≡ drop (length (sort (old ++ new)) - max_len) (sort (old ++ new))
unfolding merge_ring
merge_ring-drop old new max_len = elim (Bool-cases (ltb max_len (length (sort (old ++ new))))) [
  | inl long ↦ rw long
  | inr short ↦ rw short (sym (drop_nothing _ max_len (sort (old ++ new)) (ltb→le _ _ short)))
]

pub record IsLatest (stamps ring : List ℕ) (max_len : ℕ) : Type 0 where
  pub sorted : IsSorted ring
  pub size : length ring ≡ min max_len (length stamps)
  pub evicted : List ℕ
  pub same : Perm (evicted ++ ring) stamps
  pub older : AllBelow evicted ring

merge_ring-IsLatest :
    (old new : List ℕ) (max_len : ℕ) → IsLatest (old ++ new) (merge_ring old new max_len) max_len
merge_ring-IsLatest old new max_len =
    let all = sort (old ++ new) in
    let n = length all - max_len in
    rw merge_ring-drop (record {
      sorted = drop-IsSorted n all (sort-IsSorted (old ++ new));
      size = omega (arith, length-drop n all, length-sort (old ++ new));
      evicted = take n all;
      same = rw (take-append-drop n all) (sort-perm (old ++ new));
      older = take-AllBelow-drop n all (sort-IsSorted (old ++ new));
    })

-- After at least one timestamp is appended, the access history is in ascending order and as long
-- as the limit and the number of timestamps allow; with what it leaves out it is a permutation
-- of the old and the new timestamps, and nothing left out is later than what is kept.
pub append_access_history-IsLatest :
    (o t : ℕ) (ts : List ℕ) (max_len : ℕ) (m : MetadataStore)
    → IsLatest
        (access_history_of m o ++ t ∷ ts)
        (access_history_of (append_access_history o (t ∷ ts) max_len m) o)
        max_len
unfolding append_access_history
append_access_history-IsLatest o t ts max_len m =
    rw lookup-insert_self (merge_ring-IsLatest (access_history_of m o) (t ∷ ts) max_len)
