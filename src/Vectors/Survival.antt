-- ===== src/Vectors/Survival.antt =====
-- What `put` and `open` do to the rows and counts of a vector file, and what `recover` reads.
use turbo_supermemory.Common.{
  ℕ, ◌≤◌, ◌<◌, ◌^◌, ◌≡◌, ◌≢◌, refl, sym, ◌∙◌, List, length, get_elem?, Option, none, some, Bool,
  true, false, arith, get_elem?-set_self, get_elem?-set_ne, min, inl, inr, Bool-cases, leb, ◌==◌,
  nat_eq, if◌then◌else◌,
}
use turbo_supermemory.Record.{Result, ok, err}
use turbo_supermemory.Vectors.{
  Checks, VectorStore, Resize, grow_inner, write_row, write_grown, put, recover, accepts,
  open_vectors,
}
use turbo_supermemory.Vectors.Slots.{
  IsSound, Grown, grow_inner-Grown, Grown-row, succeeded, write_row-IsSound,
}

module _ (k : Checks) where
  -- The vectors of the slots below `s.slots` other than `o` are those of `s`.
  abbrev pub KeepsOthers : ℕ → VectorStore → VectorStore → Type 0
  KeepsOthers o s t =
      (j : ℕ) (row : List ℕ)
      → j ≢ o
      → j < s.slots
      → get_elem? s.rows j ≡ some row
      → get_elem? t.rows j ≡ some row

  pub record HasVector (o : ℕ) (v : List ℕ) (s : VectorStore) : Type 0 where
    pub slot : o < s.slots
    pub row : get_elem? s.rows o ≡ some v
    pub size : length v ≡ s.dim

  pub record Stored (o : ℕ) (v : List ℕ) (s t : VectorStore) (ok? : Bool) : Type 0 where
    pub sound : IsSound k t
    pub dim : t.dim ≡ s.dim
    pub slots : s.slots ≤ t.slots
    pub count : s.count ≤ t.count
    pub header : s.header.count ≤ t.header.count
    pub others : KeepsOthers o s t
    pub written : ok? ≡ true → HasVector o v t
    pub counted : ok? ≡ true → (o < t.count) × (t.mapped ≡ true)

  write_row-Stored :
      (o : ℕ) (v : List ℕ) (s : VectorStore)
      → IsSound k s
      → o < s.slots
      → length v ≡ s.dim
      → Stored o v s (write_row o v s).1 (succeeded (write_row o v s).0)
  unfolding write_row
  write_row-Stored o v s h lt size = elim (Bool-cases s.mapped) [
    | inl live ↦ record {
      sound = write_row-IsSound k o v s lt h;
      dim = ground arith;
      slots = ground arith;
      count = ground arith;
      header = ground arith;
      others = λ j row ne below e. ground (arith, live, get_elem?-set_ne s.rows o j v, e);
      written = λ e. record {
        slot = ground (arith, lt);
        row = ground (arith, live, get_elem?-set_self s.rows o v, h.slots, lt);
        size = ground (arith, size);
      };
      counted = λ e. (ground (arith, live), ground (arith, live));
    }
    | inr dead ↦ simp dead (record {
      sound = h;
      dim = refl;
      slots = omega arith;
      count = omega arith;
      header = omega arith;
      others = λ j row ne below e. e;
      written = λ e. cc;
      counted = λ e. cc;
    })
  ]

  Stored-refused : (o : ℕ) (v : List ℕ) (s : VectorStore) → IsSound k s → Stored o v s s false
  Stored-refused o v s h = record {
    sound = h;
    dim = refl;
    slots = omega arith;
    count = omega arith;
    header = omega arith;
    others = λ j row ne below e. e;
    written = λ e. cc;
    counted = λ e. cc;
  }

  Grown-Stored-failed :
      (o : ℕ) (v : List ℕ) (s t : VectorStore) (b : Bool)
      → IsSound k s
      → Grown k o s t b
      → Stored o v s t false
  Grown-Stored-failed o v s t b h g = record {
    sound = g.sound;
    dim = g.dim;
    slots = g.slots;
    count = omega (arith, g.count);
    header = g.header;
    others = λ j row ne below e. Grown-row k o j s t b row h g below e;
    written = λ e. cc;
    counted = λ e. cc;
  }

  Grown-Stored :
      (o : ℕ) (v : List ℕ) (s t u : VectorStore) (a b : Bool)
      → IsSound k s
      → Grown k o s t a
      → Stored o v t u b
      → Stored o v s u b
  Grown-Stored o v s t u a b h g w = record {
    sound = w.sound;
    dim = w.dim ∙ g.dim;
    slots = omega (arith, g.slots, w.slots);
    count = omega (arith, g.count, w.count);
    header = omega (arith, g.header, w.header);
    others = λ j row ne below e.
        w.others j row ne (omega (arith, g.slots)) (Grown-row k o j s t a row h g below e);
    written = w.written;
    counted = w.counted;
  }

  write_grown-Stored :
      (r : Resize) (o : ℕ) (v : List ℕ) (s : VectorStore) (g : Result (Unit {0}) × VectorStore)
      → IsSound k s
      → length v ≡ s.dim
      → Grown k o s g.1 (succeeded g.0)
      → Stored o v s (write_grown o v g).1 (succeeded (write_grown o v g).0)
  write_grown-Stored r o v s (ok u, t) h size g =
      Grown-Stored o v s t _ true _ h g
        (write_row-Stored o v t g.sound (g.room refl).0 (size ∙ sym g.dim))
  write_grown-Stored r o v s (err e, t) h size g = Grown-Stored-failed o v s t false h g

  -- Storing a vector in a well-formed file, whether it succeeds or fails at any step of growing
  -- the file, keeps the file well formed, never lowers its counts and keeps the vectors of all
  -- other slots; if it succeeds, the vector is in its slot and counted.
  pub put-Stored :
      (r : Resize) (o : ℕ) (v : List ℕ) (s : VectorStore)
      → IsSound k s
      → Stored o v s (put k r o v s).1 (succeeded (put k r o v s).0)
  unfolding put
  put-Stored r o v s h = elim (Bool-cases (length v == s.dim)) [
    | inr wrong ↦ rw wrong (Stored-refused o v s h)
    | inl right ↦ rw right (elim (Bool-cases (leb s.slots o)) [
      | inl beyond ↦ rw beyond (
          write_grown-Stored r o v s (grow_inner k r o s) h (ground (arith, right))
            (grow_inner-Grown k r o s h))
      | inr inside ↦
          rw inside (write_row-Stored o v s h (ground (arith, inside)) (ground (arith, right)))
    ])
  ]

  -- A well-formed vector file whose number of rows fits 64 bits opens again after a crash: it is
  -- well formed, with the same contents, at least as many slots, and the count that its header
  -- has.
  pub reopen-IsSound :
      (s : VectorStore)
      → IsSound k s
      → length s.rows < 2 ^ 64
      → (t : VectorStore) × (open_vectors k s.dim s.file ≡ ok t)
        × IsSound k t
        × (t.file ≡ s.file)
        × (t.mapped ≡ true)
        × (s.slots ≤ t.slots)
        × (t.count ≡ s.header.count)
        × (t.dim ≡ s.dim)
  unfolding open_vectors
  reopen-IsSound s h small = (
    record {
      file = s.file;
      mapped = true;
      dim = s.dim;
      count = min s.header.count (length s.rows);
      slots = length s.rows;
    },
    rw h.valid,
    record {
      dim_pos = h.dim_pos;
      dim_fits = h.dim_fits;
      small = small;
      valid = h.valid;
      slots = omega arith;
      count = omega arith;
      stamped = omega (arith, h.stamped, h.count, h.slots);
    },
    refl,
    refl,
    h.slots,
    omega (arith, h.stamped, h.count, h.slots),
    refl,
  )

  -- In a mapped store a vector that stands in its slot is recovered exactly if it passes the
  -- check against its logged checksum.
  pub recover-row :
      (o : ℕ) (crc : Option ℕ) (v : List ℕ) (s : VectorStore)
      → HasVector o v s
      → s.mapped ≡ true
      → (recover k o crc s).0 ≡ (if accepts k crc v then some v else none)
  unfolding recover
  recover-row o crc v s h m = ground (arith, h.slot, h.row, m)
