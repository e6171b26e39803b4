-- ===== src/Vectors/Slots.antt =====
-- The file stays well formed, and a write touches its own row only.
use turbo_supermemory.Common.{
  ℕ, zero, suc, ◌+◌, ◌-◌, ◌≤◌, ◌<◌, ◌≡◌, refl, ◌∙◌, ap, List, [], ◌∷◌, ◌++◌, length, get_elem?,
  take, replicate, some, Bool, true, false, arith, length-append, length-take, length-replicate,
  length-set, max, inl, inr, Bool-cases, ltb→lt, ◌*◌, ◌^◌, ◌⊎◌,
}
use turbo_supermemory.Record.{Result, ok, err, invalid_argument}
use turbo_supermemory.Vectors.{
  Checks, VectorStore, validate_header, stamp, new_with_capacity, Resize, resized, refused,
  unmapped, resize_rows, grown_slots, fits, grow_inner, write_row, flush,
}

abbrev pub succeeded : Result (Unit {0}) → Bool
succeeded (ok _) = true
succeeded (err _) = false

module _ (k : Checks) where
  -- The header is valid for the dimension, every slot is a row of the file, and every counted vector
  -- has a slot.
  pub record IsSound (s : VectorStore) : Type 0 where
    pub dim_pos : 0 < s.dim
    pub dim_fits : s.dim < 2 ^ 32
    pub small : s.slots < 2 ^ 64
    pub valid : validate_header k s.header s.dim ≡ ok tt
    pub slots : s.slots ≤ length s.rows
    pub count : s.count ≤ s.slots
    pub stamped : s.header.count ≤ s.count

  stamp-valid : (dim count : ℕ) → dim < 2 ^ 32 → validate_header k (stamp k dim count) dim ≡ ok tt
  unfolding validate_header stamp
  stamp-valid dim count lt = ground arith

  count-stamp : (dim count : ℕ) → (stamp k dim count).count ≡ count
  unfolding stamp
  count-stamp dim count = refl

  length-resize_rows : (n dim : ℕ) (rows : List (List ℕ)) → length (resize_rows n dim rows) ≡ n
  unfolding resize_rows
  length-resize_rows n dim rows = omega (
    arith,
    length-take n (rows ++ replicate (n - length rows) (replicate {A = ℕ} dim 0)),
    length-append rows (replicate (n - length rows) (replicate {A = ℕ} dim 0)),
    length-replicate (n - length rows) (replicate {A = ℕ} dim 0),
  )

  fits_small : (slots dim : ℕ) → fits slots dim ≡ true → 0 < dim → slots < 2 ^ 64
  fits_small slots dim h pos =
      let bound : 40 + slots * dim * 4 < 2 ^ 64 = ltb→lt (40 + slots * dim * 4) (2 ^ 64) h in
      let step : slots * 1 ≤ slots * dim = grind arith in omega arith

  get_elem?-take :
      (n o : ℕ) (rows : List (List ℕ)) → o < n → get_elem? (take n rows) o ≡ get_elem? rows o
  get_elem?-take zero o rows h = elim h [ ]
  get_elem?-take (suc n) o [] h = refl
  get_elem?-take (suc n) zero (x ∷ rows) h = refl
  get_elem?-take (suc n) (suc o) (x ∷ rows) h = get_elem?-take n o rows (omega arith)

  get_elem?-append :
      (rows more : List (List ℕ)) (o : ℕ) (row : List ℕ)
      → get_elem? rows o ≡ some row
      → get_elem? (rows ++ more) o ≡ some row
  get_elem?-append [] more o row h = cc
  get_elem?-append (x ∷ rows) more zero row h = h
  get_elem?-append (x ∷ rows) more (suc o) row h = get_elem?-append rows more o row h

  get_elem?-resize_rows :
      (n dim o : ℕ) (rows : List (List ℕ)) (row : List ℕ)
      → o < n
      → get_elem? rows o ≡ some row
      → get_elem? (resize_rows n dim rows) o ≡ some row
  unfolding resize_rows
  get_elem?-resize_rows n dim o rows row h e =
      get_elem?-take n o (rows ++ replicate (n - length rows) (replicate {A = ℕ} dim 0)) h
      ∙ get_elem?-append rows _ o row e

  pub new_with_capacity-IsSound :
      (dim initial_slots : ℕ) (s : VectorStore)
      → dim < 2 ^ 32
      → new_with_capacity k dim initial_slots ≡ ok s
      → IsSound s
  unfolding new_with_capacity
  new_with_capacity-IsSound dim initial_slots s lt h = record {
    dim_pos = ground arith;
    dim_fits = ground (arith, lt);
    small = ground (arith, fits_small (max initial_slots 1024) dim);
    valid = ground (arith, stamp-valid dim 0 lt);
    slots = ground (arith, length-replicate (max initial_slots 1024) (replicate {A = ℕ} dim 0));
    count = ground arith;
    stamped = ground (arith, count-stamp dim 0);
  }

  pub grown_slots_bounds :
      (slots i : ℕ) → slots < 2 ^ 64 → (slots ≤ grown_slots slots i) × (i < grown_slots slots i)
  unfolding grown_slots
  grown_slots_bounds slots i h = omega arith

  -- What a resize leaves: the file as it was, or longer.
  pub record Grown (i : ℕ) (s t : VectorStore) (ok? : Bool) : Type 0 where
    pub sound : IsSound t
    pub dim : t.dim ≡ s.dim
    pub rows : (t.rows ≡ s.rows) ⊎ (t.rows ≡ resize_rows (grown_slots s.slots i) s.dim s.rows)
    pub slots : s.slots ≤ t.slots
    pub count : t.count ≡ s.count
    pub header : s.header.count ≤ t.header.count
    pub room : ok? ≡ true → (i < t.slots) × (t.mapped ≡ true)

  grow_inner_refused :
      (r : Resize) (i : ℕ) (s : VectorStore)
      → fits (grown_slots s.slots i) s.dim ≡ false
      → grow_inner k r i s ≡ (err invalid_argument, s)
  unfolding grow_inner
  grow_inner_refused r i s h = rw h

  grow_inner-fits :
      (r : Resize) (i : ℕ) (s : VectorStore)
      → fits (grown_slots s.slots i) s.dim ≡ true
      → IsSound s
      → Grown i s (grow_inner k r i s).1 (succeeded (grow_inner k r i s).0)
  unfolding grow_inner
  grow_inner-fits (refused b) i s fit h = rw fit (record {
    sound = record {
      dim_pos = h.dim_pos;
      dim_fits = h.dim_fits;
      small = h.small;
      valid = h.valid;
      slots = h.slots;
      count = h.count;
      stamped = h.stamped;
    };
    dim = refl;
    rows = inl refl;
    slots = omega arith;
    count = refl;
    header = omega arith;
    room = λ e. cc;
  })
  grow_inner-fits unmapped i s fit h = rw fit (record {
    sound = record {
      dim_pos = h.dim_pos;
      dim_fits = h.dim_fits;
      small = h.small;
      valid = h.valid;
      slots = omega (
        arith,
        length-resize_rows (grown_slots s.slots i) s.dim s.rows,
        grown_slots_bounds s.slots i h.small,
      );
      count = h.count;
      stamped = h.stamped;
    };
    dim = refl;
    rows = inr refl;
    slots = omega arith;
    count = refl;
    header = omega arith;
    room = λ e. cc;
  })
  grow_inner-fits resized i s fit h =
      let bounds = grown_slots_bounds s.slots i h.small in
      rw fit (record {
        sound = record {
          dim_pos = h.dim_pos;
          dim_fits = h.dim_fits;
          small = fits_small (grown_slots s.slots i) s.dim fit h.dim_pos;
          valid = stamp-valid s.dim s.count h.dim_fits;
          slots = omega (arith, length-resize_rows (grown_slots s.slots i) s.dim s.rows);
          count = omega arith;
          stamped = omega (arith, count-stamp s.dim s.count);
        };
        dim = refl;
        rows = inr refl;
        slots = bounds.0;
        count = refl;
        header = omega (arith, count-stamp s.dim s.count, h.stamped);
        room = λ e. (bounds.1, refl);
      })

  pub grow_inner-Grown :
      (r : Resize) (i : ℕ) (s : VectorStore)
      → IsSound s
      → Grown i s (grow_inner k r i s).1 (succeeded (grow_inner k r i s).0)
  grow_inner-Grown r i s h = elim (Bool-cases (fits (grown_slots s.slots i) s.dim)) [
    | inl fit ↦ grow_inner-fits r i s fit h
    | inr full ↦ rw (grow_inner_refused r i s full) (record {
      sound = h;
      dim = refl;
      rows = inl refl;
      slots = omega arith;
      count = refl;
      header = omega arith;
      room = λ e. cc;
    })
  ]

  -- Rows that had a slot before a resize are still there.
  pub Grown-row :
      (i o : ℕ) (s t : VectorStore) (b : Bool) (row : List ℕ)
      → IsSound s
      → Grown i s t b
      → o < s.slots
      → get_elem? s.rows o ≡ some row
      → get_elem? t.rows o ≡ some row
  Grown-row i o s t b row h g lt e = elim g.rows [
    | inl same ↦ ap (λ (x : List (List ℕ)). get_elem? x o) same ∙ e
    | inr longer ↦
        ap (λ (x : List (List ℕ)). get_elem? x o) longer
        ∙ get_elem?-resize_rows (grown_slots s.slots i) s.dim o s.rows row
            (omega (arith, grown_slots_bounds s.slots i h.small)) e
  ]

  pub write_row-IsSound :
      (o : ℕ) (v : List ℕ) (s : VectorStore) → o < s.slots → IsSound s → IsSound (write_row o v s).1
  unfolding write_row
  write_row-IsSound o v s lt h = record {
    dim_pos = ground (arith, h.dim_pos);
    dim_fits = ground (arith, h.dim_fits);
    small = ground (arith, h.small);
    valid = ground (arith, h.valid);
    slots = ground (arith, h.slots, length-set s.rows o v);
    count = ground (arith, h.count);
    stamped = ground (arith, h.stamped);
  }

  -- A flush stamps the count, whole header and all.
  pub flush-IsSound :
      (b : Bool) (s : VectorStore)
      → IsSound s
      → IsSound (flush k b s).1
        × ((flush k b s).1.rows ≡ s.rows)
        × ((flush k b s).1.slots ≡ s.slots)
        × ((flush k b s).1.dim ≡ s.dim)
        × ((flush k b s).1.count ≡ s.count)
        × (s.header.count ≤ (flush k b s).1.header.count)
        × ((flush k b s).0 ≡ ok tt → (flush k b s).1.header.count ≡ s.count)
  unfolding flush validate_header
  flush-IsSound b s h = elim (Bool-cases s.mapped) [
    | inr dead ↦ simp dead (h, refl, refl, refl, refl, omega arith, λ q. cc)
    | inl live ↦ simp live (
      record {
        dim_pos = h.dim_pos;
        dim_fits = h.dim_fits;
        small = h.small;
        valid = ground (arith, h.valid);
        slots = h.slots;
        count = h.count;
        stamped = omega arith;
      },
      refl,
      refl,
      refl,
      refl,
      h.stamped,
      λ q. refl,
    )
  ]
