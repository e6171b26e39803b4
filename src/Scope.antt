-- ===== src/Scope.antt =====
-- The scope index of crates/turbomemory_storage/src/scope_index.rs. The Roaring bitmap is a parameter,
-- with the laws of a set of 32-bit numbers.
pub mod Runs
use turbo_supermemory.Common.{
  ℕ, ◌%◌, ◌^◌, ◌≡◌, String, List, [], ◌∷◌, ◌++◌, Option, none, some, Bool, true, false, not, ◌&&◌,
  ◌||◌, ◌==◌, nat_eq, string_eq, if◌then◌else◌,
}
use turbo_supermemory.Common.Dict.{Dict, lookup, insert as insert_key, remove as remove_key}
use turbo_supermemory.Record.{PointOffset}

pub record RoaringBitmap (B : Type 0) : Type 0 where
  pub new_bitmap : B
  pub insert : ℕ → B → B
  pub remove : ℕ → B → B
  pub union : B → B → B
  pub is_empty : B → Bool
  pub contains : ℕ → B → Bool

pub record IsBitmap {B : Type 0} (r : RoaringBitmap B) : Type 0 where
  pub contains_new : (j : ℕ) → r.contains j r.new_bitmap ≡ false
  pub contains_insert : (i j : ℕ) (b : B) → r.contains j (r.insert i b) ≡ (i == j || r.contains j b)
  pub contains_remove :
      (i j : ℕ) (b : B) → r.contains j (r.remove i b) ≡ (not (i == j) && r.contains j b)
  pub contains_union :
      (j : ℕ) (a b : B) → r.contains j (r.union a b) ≡ (r.contains j a || r.contains j b)
  pub empty_has : (j : ℕ) (b : B) → r.is_empty b ≡ true → r.contains j b ≡ false
  pub other_has : (b : B) → r.is_empty b ≡ false → (j : ℕ) × (r.contains j b ≡ true)

pub record ScopeIndex (B : Type 0) : Type 0 where
  pub by_scope : Dict String B
  pub global : B

-- `offset as u32`
abbrev pub bit : PointOffset → ℕ
bit offset = offset % 2 ^ 32

module _ {B : Type 0} (r : RoaringBitmap B) where
  abbrev pub or_new : Option B → B
  or_new none = r.new_bitmap
  or_new (some b) = b

  unfoldable pub new_index : ScopeIndex B
  new_index = record { by_scope = []; global = r.new_bitmap }

  unfoldable pub add : PointOffset → Option String → ScopeIndex B → ScopeIndex B
  add offset (some s) idx = record idx {
    by_scope = insert_key s (r.insert (bit offset) (or_new (lookup s idx.by_scope))) idx.by_scope;
  }
  add offset none idx = record idx { global = r.insert (bit offset) idx.global }

  -- A scope whose last offset goes is dropped.
  unfoldable pub remove_in : PointOffset → String → Option B → Dict String B → Dict String B
  remove_in offset s none m = m
  remove_in offset s (some b) m =
      let left = r.remove (bit offset) b in
      if r.is_empty left then remove_key s m else insert_key s left m

  unfoldable pub remove : PointOffset → Option String → ScopeIndex B → ScopeIndex B
  remove offset (some s) idx = record idx {
    by_scope = remove_in offset s (lookup s idx.by_scope) idx.by_scope;
  }
  remove offset none idx = record idx { global = r.remove (bit offset) idx.global }

  unfoldable pub query : Option String → ScopeIndex B → B
  query none idx = r.new_bitmap
  query (some s) idx = elim (lookup s idx.by_scope) [
    | none ↦ idx.global
    | some b ↦ r.union idx.global b
  ]

  unfoldable pub exact : String → ScopeIndex B → B
  exact s idx = or_new (lookup s idx.by_scope)

  unfoldable pub union_all : B → Dict String B → B
  union_all b [] = b
  union_all b ((s, bm) ∷ m) = union_all (r.union b bm) m

  unfoldable pub all_offsets : ScopeIndex B → B
  all_offsets idx = union_all idx.global idx.by_scope
