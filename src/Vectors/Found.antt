-- ===== src/Vectors/Found.antt =====
-- `get` after a put, and `recover` after a put whose process has died before the next flush: the
-- file is opened again and the log's checksum is compared with the row.
use turbo_supermemory.Common.{
  ℕ, ◌<◌, ◌≤◌, ◌^◌, ◌≡◌, ◌≢◌, ◌∙◌, ◌⊎◌, ap, subst, List, length, get_elem?, some, none, true, arith,
  inl, inr, Bool-cases, ◌==◌, nat_eq,
}
use turbo_supermemory.Record.{ok}
use turbo_supermemory.Vectors.{
  Checks, VectorFile, VectorStore, Resize, put, get, recover, accepts, open_vectors,
}
use turbo_supermemory.Vectors.Slots.{IsSound, succeeded}
use turbo_supermemory.Vectors.Survival.{put-Stored, reopen-IsSound}

module _ (k : Checks) where
  -- What `recover` makes of the row `v` in a reopened store: with the checksum of `v` it is
  -- returned and found by `get` from then on, with another one the store stays as it is.
  abbrev pub Compared : ℕ → ℕ → List ℕ → VectorStore → Type 0
  Compared o crc v t =
      ((crc ≡ k.hash_row v)
        × ((recover k o (some crc) t).0 ≡ some v)
        × (get o (recover k o (some crc) t).1 ≡ some v)
        × (t.count ≤ (recover k o (some crc) t).1.count)
        × ((recover k o (some crc) t).1.file ≡ t.file))
      ⊎ ((crc ≢ k.hash_row v) × (recover k o (some crc) t ≡ (none, t)))

  get-row :
      (o : ℕ) (v : List ℕ) (s : VectorStore)
      → o < s.count
      → s.mapped ≡ true
      → get_elem? s.rows o ≡ some v
      → get o s ≡ some v
  unfolding get
  get-row o v s lt live row = ground (arith, lt, live, row)

  recover-Compared :
      (o crc : ℕ) (v : List ℕ) (t : VectorStore)
      → o < t.slots
      → t.mapped ≡ true
      → get_elem? t.rows o ≡ some v
      → Compared o crc v t
  unfolding recover accepts get
  recover-Compared o crc v t lt live row = elim (Bool-cases (k.hash_row v == crc)) [
    | inl same ↦ inl (
      ground (arith, same),
      ground (arith, same, lt, live, row),
      ground (arith, same, lt, live, row),
      ground (arith, same, lt, live, row),
      ground (arith, same, lt, live, row),
    )
    | inr other ↦ inr (ground (arith, other), ground (arith, other, lt, live, row))
  ]

  -- After a vector is stored in a well-formed file, `get` returns it. If the process then dies,
  -- and the number of rows fits 64 bits, the file opens again; `recover` with the checksum of
  -- the vector returns it, leaves the file as it is, lowers no count, and from then on `get`
  -- returns it too, and `recover` with another checksum returns nothing and changes nothing.
  pub recover-put :
      (r : Resize) (o crc : ℕ) (v : List ℕ) (s : VectorStore)
      → IsSound k s
      → (put k r o v s).0 ≡ ok tt
      → length (put k r o v s).1.rows < 2 ^ 64
      → (get o (put k r o v s).1 ≡ some v)
        × ((t : VectorStore) × (open_vectors k s.dim (put k r o v s).1.file ≡ ok t)
            × Compared o crc v t)
  recover-put r o crc v s h done small =
      let p = put-Stored k r o v s h in
      let won = ap succeeded done in
      let w = p.written won in
      let (lt, live) = p.counted won in
      let (t, opened, _, file, mapped, slots, _, _) =
        reopen-IsSound k (put k r o v s).1 p.sound small in
      (
        get-row o v (put k r o v s).1 lt live w.row,
        (
          t,
          subst (λ d. open_vectors k d (put k r o v s).1.file ≡ ok t) p.dim opened,
          recover-Compared o crc v t (omega (arith, w.slot, slots)) mapped
              (ap (λ (f : VectorFile). get_elem? f.rows o) file ∙ w.row),
        ),
      )
