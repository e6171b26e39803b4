-- ===== src/Scope/Runs.antt =====
-- What crates/turbomemory_storage/src/scope_index.rs answers after any adds and removals.
use turbo_supermemory.Common.{
  ℕ, ◌≡◌, refl, ap, ◌∙◌, sym, subst, String, List, [], ◌∷◌, Option, none, some, Bool, true, false,
  ◌&&◌, ◌||◌, ◌==◌, nat_eq, string_eq, if◌then◌else◌, arith, Option-cases, Bool-cases, inl, inr,
}
use turbo_supermemory.Common.Dict.{
  Dict, lookup, insert as insert_key, lookup-insert, lookup-remove, lookup-remove_some,
  lookup-insert_some,
}
use turbo_supermemory.Record.{PointOffset}
use turbo_supermemory.Scope.{
  RoaringBitmap, IsBitmap, ScopeIndex, bit, or_new, new_index, add, remove_in, remove, query, exact,
}

pub data ScopeOp : Type 0 where
  added : PointOffset → Option String → ScopeOp
  removed : PointOffset → Option String → ScopeOp

abbrev same_scope : Option String → Option String → Bool
same_scope none none = true
same_scope (some s) (some t) = s == t
same_scope _ _ = false

-- Whether an operation is about this bit of this scope.
abbrev about : PointOffset → Option String → ℕ → Option String → Bool
about offset scope j sc = same_scope scope sc && bit offset == j

-- The last operation about the bit decides.
abbrev pub is_in : List ScopeOp → Option String → ℕ → (before : Bool) → Bool
is_in [] sc j before = before
is_in (added offset scope ∷ ops) sc j before =
    is_in ops sc j (if about offset scope j sc then true else before)
is_in (removed offset scope ∷ ops) sc j before =
    is_in ops sc j (if about offset scope j sc then false else before)

module _ {B : Type 0} (r : RoaringBitmap B) (laws : IsBitmap r) where
  unfoldable pub apply_op : ScopeOp → ScopeIndex B → ScopeIndex B
  apply_op (added offset scope) idx = add r offset scope idx
  apply_op (removed offset scope) idx = remove r offset scope idx

  unfoldable pub run_ops : List ScopeOp → ScopeIndex B → ScopeIndex B
  run_ops [] idx = idx
  run_ops (op ∷ ops) idx = run_ops ops (apply_op op idx)

  -- The bits under one scope.
  unfoldable pub under : Option String → ScopeIndex B → ℕ → Bool
  under none idx j = r.contains j idx.global
  under (some s) idx j = r.contains j (exact r s idx)

  under-add :
      (offset : PointOffset) (scope sc : Option String) (idx : ScopeIndex B) (j : ℕ)
      → under sc (add r offset scope idx) j
        ≡ (if about offset scope j sc then true else under sc idx j)
  unfolding under add exact
  under-add offset none none idx j = ground (arith, laws.contains_insert (bit offset) j idx.global)
  under-add offset none (some t) idx j = ground arith
  under-add offset (some s) none idx j = ground arith
  under-add offset (some s) (some t) idx j =
      let b : B = or_new r (lookup s idx.by_scope) in
      let at =
        ap (λ q. r.contains j (or_new r q))
          (lookup-insert s t (r.insert (bit offset) b) idx.by_scope) in
      elim (Bool-cases (s == t)) [
        | inl same ↦
            let e : s ≡ t = (string_eq.matches_iff s t).0 same in
            ground (
              arith,
              at,
              same,
              laws.contains_insert (bit offset) j b,
              ap (λ u. r.contains j (or_new r (lookup u idx.by_scope))) e,
            )
        | inr other ↦ ground (arith, at, other)
      ]

  -- What a lookup finds where a scope loses a bit.
  lookup-remove_in :
      (offset : PointOffset) (s t : String) (m : Dict String B) (j : ℕ)
      → r.contains j (or_new r (lookup t (remove_in r offset s (lookup s m) m)))
        ≡ (if s == t && bit offset == j then false else r.contains j (or_new r (lookup t m)))
  unfolding remove_in
  lookup-remove_in offset s t m j = elim (Option-cases (lookup s m)) [
    | inl q ↦ rw (q) (elim (Bool-cases (s == t)) [
      | inl same ↦
          let e : s ≡ t = (string_eq.matches_iff s t).0 same in
          let none_at : r.contains j (or_new r (lookup t m)) ≡ false =
            ap (λ u. r.contains j (or_new r (lookup u m))) (sym e)
            ∙ ap (λ u. r.contains j (or_new r u)) q
            ∙ laws.contains_new j in
          ground (arith, none_at)
      | inr other ↦ ground (arith, other)
    ])
    | inr (b, q) ↦ rw (q) (
        let left : B = r.remove (bit offset) b in
        let has : r.contains j (or_new r (lookup s m)) ≡ r.contains j b =
          ap (λ u. r.contains j (or_new r u)) q in
        let gone = ap (λ u. r.contains j (or_new r u)) (lookup-remove s t m) in
        let kept = ap (λ u. r.contains j (or_new r u)) (lookup-insert s t left m) in
        elim (Bool-cases (s == t)) [
          | inl same ↦
              let e : s ≡ t = (string_eq.matches_iff s t).0 same in
              let here = ap (λ u. r.contains j (or_new r (lookup u m))) e in
              ground (
                arith,
                same,
                has,
                here,
                gone,
                kept,
                laws.contains_remove (bit offset) j b,
                laws.empty_has j left,
                laws.contains_new j,
              )
          | inr other ↦ ground (arith, other, gone, kept)
        ])
  ]

  under-remove :
      (offset : PointOffset) (scope sc : Option String) (idx : ScopeIndex B) (j : ℕ)
      → under sc (remove r offset scope idx) j
        ≡ (if about offset scope j sc then false else under sc idx j)
  unfolding under remove exact
  under-remove offset none none idx j =
      ground (arith, laws.contains_remove (bit offset) j idx.global)
  under-remove offset none (some t) idx j = ground arith
  under-remove offset (some s) none idx j = ground arith
  under-remove offset (some s) (some t) idx j =
      ground (arith, lookup-remove_in offset s t idx.by_scope j)

  run_ops-under :
      (ops : List ScopeOp) (idx : ScopeIndex B) (sc : Option String) (j : ℕ)
      → under sc (run_ops ops idx) j ≡ is_in ops sc j (under sc idx j)
  unfolding run_ops apply_op
  run_ops-under [] idx sc j = refl
  run_ops-under (added offset scope ∷ ops) idx sc j =
      run_ops-under ops (add r offset scope idx) sc j
      ∙ ap (is_in ops sc j) (under-add offset scope sc idx j)
  run_ops-under (removed offset scope ∷ ops) idx sc j =
      run_ops-under ops (remove r offset scope idx) sc j
      ∙ ap (is_in ops sc j) (under-remove offset scope sc idx j)

  query-under :
      (s : String) (idx : ScopeIndex B) (j : ℕ)
      → r.contains j (query r (some s) idx) ≡ (under none idx j || under (some s) idx j)
  unfolding query under exact
  query-under s idx j =
      let at =
        λ (o : Option B) (q : lookup s idx.by_scope ≡ o). ap (λ u. r.contains j (or_new r u)) q in
      elim (Option-cases (lookup s idx.by_scope)) [
        | inl q ↦ rw (q, query) (ground (arith, laws.contains_new j, at _ q))
        | inr (b, q) ↦ rw (q, query) (ground (arith, laws.contains_union j idx.global b, at _ q))
      ]

  empty_under : (sc : Option String) (j : ℕ) → under sc (new_index r) j ≡ false
  unfolding new_index under exact lookup
  empty_under none j = laws.contains_new j
  empty_under (some s) j = laws.contains_new j

  -- After any adds and removals on an empty index, the bitmap of a query for a scope has a bit
  -- exactly if the last operation on this bit without a scope, or the last one on it in that
  -- scope, is an add; the bit of an offset is its lower 32 bits. The bitmap is assumed to be a
  -- set of numbers.
  pub query-run_ops :
      (ops : List ScopeOp) (s : String) (j : ℕ)
      → r.contains j (query r (some s) (run_ops ops (new_index r)))
        ≡ (is_in ops none j false || is_in ops (some s) j false)
  query-run_ops ops s j =
      query-under s (run_ops ops (new_index r)) j
      ∙ ground (
        arith,
        run_ops-under ops (new_index r) none j,
        run_ops-under ops (new_index r) (some s) j,
        empty_under none j,
        empty_under (some s) j,
      )

  -- No scope is kept without an offset.
  unfoldable pub AllHeld : ScopeIndex B → Type 0
  AllHeld idx = (s : String) (b : B) → lookup s idx.by_scope ≡ some b → r.is_empty b ≡ false

  inserted_held : (j : ℕ) (b : B) → r.is_empty (r.insert j b) ≡ false
  inserted_held j b = elim (Bool-cases (r.is_empty (r.insert j b))) [
    | inl empty ↦ absurd (
        ground (
          arith,
          laws.empty_has j (r.insert j b) empty,
          laws.contains_insert j j b,
          (nat_eq.matches_iff j j).1 refl,
        ))
    | inr held ↦ held
  ]

  abbrev Held : Dict String B → Type 0
  Held m = (t : String) (b : B) → lookup t m ≡ some b → r.is_empty b ≡ false

  insert_key-Held :
      (s : String) (c : B) (m : Dict String B)
      → r.is_empty c ≡ false
      → Held m
      → Held (insert_key s c m)
  insert_key-Held s c m held h t b q = elim (lookup-insert_some s t c b m q) [
    | inl (e, same) ↦ subst (λ d. r.is_empty d ≡ false) same held
    | inr (e, before) ↦ h t b before
  ]

  remove_in-Held :
      (offset : PointOffset) (s : String) (found : Option B) (m : Dict String B)
      → Held m
      → Held (remove_in r offset s found m)
  unfolding remove_in
  remove_in-Held offset s none m h = h
  remove_in-Held offset s (some c) m h = elim (Bool-cases (r.is_empty (r.remove (bit offset) c))) [
    | inl gone ↦ rw (gone) (λ t b q. h t b (lookup-remove_some s t b m q).1)
    | inr left ↦ rw (left) (insert_key-Held s _ m left h)
  ]

  apply_op-AllHeld : (op : ScopeOp) (idx : ScopeIndex B) → AllHeld idx → AllHeld (apply_op op idx)
  unfolding apply_op add remove AllHeld
  apply_op-AllHeld (added offset none) idx h = h
  apply_op-AllHeld (removed offset none) idx h = h
  apply_op-AllHeld (added offset (some s)) idx h =
      insert_key-Held s _ idx.by_scope (inserted_held (bit offset) _) h
  apply_op-AllHeld (removed offset (some s)) idx h =
      remove_in-Held offset s (lookup s idx.by_scope) idx.by_scope h

  -- If no scope is kept with an empty bitmap, none is after any adds and removals. The bitmap is
  -- assumed to be a set of numbers.
  pub run_ops-AllHeld :
      (ops : List ScopeOp) (idx : ScopeIndex B) → AllHeld idx → AllHeld (run_ops ops idx)
  unfolding run_ops
  run_ops-AllHeld [] idx h = h
  run_ops-AllHeld (op ∷ ops) idx h =
      run_ops-AllHeld ops (apply_op op idx) (apply_op-AllHeld op idx h)
