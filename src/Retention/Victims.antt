-- ===== src/Retention/Victims.antt =====
-- How many records the eviction of crates/turbomemory_storage/src/engine/retention.rs takes, and which.
use turbo_supermemory.Common.{
  ℕ, zero, suc, ◌+◌, ◌-◌, ◌≤◌, ◌≡◌, ◌⊎◌, refl, ap, max, List, [], ◌∷◌, ◌++◌, length, length-append,
  Option, some, Bool, true, false, ◌||◌, ◌==◌, nat_eq, arith, Bool-cases, inl, inr,
}
use turbo_supermemory.Record.{PointOffset}
use turbo_supermemory.Segments.{covers}
use turbo_supermemory.Retention.{
  Scored, offsets_of, survivors, insert_ranked, sort_ranked, cap_pass, floor_victims,
  choose_victims,
}

module _ (rank : ℕ → ℕ) where
  covers-insert_ranked :
      (o : PointOffset) (a : Scored) (ss : List Scored)
      → covers o (offsets_of (insert_ranked rank a ss))
        ≡ (a.offset == o || covers o (offsets_of ss))
  unfolding insert_ranked covers
  covers-insert_ranked o a [] = refl
  covers-insert_ranked o a (s ∷ ss) = ground (arith, covers-insert_ranked o a ss)

  covers-sort_ranked :
      (o : PointOffset) (ss : List Scored)
      → covers o (offsets_of (sort_ranked rank ss)) ≡ covers o (offsets_of ss)
  unfolding sort_ranked covers
  covers-sort_ranked o [] = refl
  covers-sort_ranked o (s ∷ ss) =
      ground (arith, covers-insert_ranked o s (sort_ranked rank ss), covers-sort_ranked o ss)

covers-survivors :
    (o : PointOffset) (taken : List PointOffset) (ss : List Scored)
    → covers o (offsets_of ss) ≡ true
    → covers o taken ≡ false
    → covers o (offsets_of (survivors taken ss)) ≡ true
unfolding survivors covers
covers-survivors o taken [] h n = h
covers-survivors o taken (s ∷ ss) h n = elim (Bool-cases (s.offset == o)) [
  | inl e ↦
      let same = ap (λ p. covers p taken) ((nat_eq.matches_iff s.offset o).0 e) in
      ground (arith, same, n, e)
  | inr e ↦ ground (arith, e, h, n, covers-survivors o taken ss)
]

length-cap_pass :
    (over : ℕ) (taken : List PointOffset) (ss : List Scored)
    → length (cap_pass over taken ss) ≤ over
unfolding cap_pass
length-cap_pass over taken [] = omega arith
length-cap_pass zero taken (s ∷ ss) = omega arith
length-cap_pass (suc over) taken (s ∷ ss) = elim (Bool-cases (covers s.offset taken)) [
  | inl e ↦ rw (e) (length-cap_pass (suc over) taken ss)
  | inr e ↦ rw (e) (omega (arith, length-cap_pass over (s.offset ∷ taken) ss))
]

-- The pass takes as many as it is asked for, or everything.
cap_pass-full :
    (over : ℕ) (taken : List PointOffset) (ss : List Scored)
    → (length (cap_pass over taken ss) ≡ over)
      ⊎ ((o : PointOffset)
          → covers o (offsets_of ss) ≡ true
          → (covers o taken || covers o (offsets_of (cap_pass over taken ss))) ≡ true)
unfolding cap_pass covers
cap_pass-full over taken [] = inr (λ o h. absurd (ground (arith, h)))
cap_pass-full zero taken (s ∷ ss) = inl refl
cap_pass-full (suc over) taken (s ∷ ss) = elim (Bool-cases (covers s.offset taken)) [
  | inl e ↦ rw (e) (elim (cap_pass-full (suc over) taken ss) [
    | inl done ↦ inl done
    | inr all ↦ inr λ o h. elim (Bool-cases (s.offset == o)) [
      | inl q ↦
          let same = ap (λ p. covers p taken) ((nat_eq.matches_iff s.offset o).0 q) in
          ground (arith, same, e)
      | inr q ↦ ground (arith, all o, q, h)
    ]
  ])
  | inr e ↦ rw (e) (elim (cap_pass-full over (s.offset ∷ taken) ss) [
    | inl done ↦ inl (ap suc done)
    | inr all ↦ inr λ o h. ground (arith, all o, h)
  ])
]

offsets_of-append :
    (o : PointOffset) (xs ys : List Scored)
    → covers o (offsets_of (xs ++ ys)) ≡ (covers o (offsets_of xs) || covers o (offsets_of ys))
unfolding covers
offsets_of-append o [] ys = refl
offsets_of-append o (x ∷ xs) ys = ground (arith, offsets_of-append o xs ys)

-- An eviction with a cap takes no more records than the floor asks for or than lie above the
-- cap, whichever is more; and with them gone the cap is met, or every record with a score is
-- taken.
pub choose_victims-cap :
    (rank : ℕ → ℕ) (floor : Option (ℕ → Bool)) (max_records live : ℕ) (scored : List Scored)
    → (length (choose_victims rank floor (some max_records) live scored)
        ≤ max (length (floor_victims floor scored)) (live - max_records))
      × ((live ≤ length (choose_victims rank floor (some max_records) live scored) + max_records)
          ⊎ ((o : PointOffset)
              → covers o (offsets_of scored) ≡ true
              → covers o (offsets_of (choose_victims rank floor (some max_records) live scored))
                ≡ true))
unfolding choose_victims
choose_victims-cap rank floor m live scored =
    let f : List Scored = floor_victims floor scored in
    let over : ℕ = live - length f - m in
    let ranked : List Scored = sort_ranked rank (survivors (offsets_of f) scored) in
    let taken : List Scored = cap_pass over (offsets_of f) ranked in
    let both = length-append f taken in
    (
      omega (arith, both, length-cap_pass over (offsets_of f) ranked),
      elim (cap_pass-full over (offsets_of f) ranked) [
        | inl done ↦ inl (omega (arith, both, done))
        | inr all ↦ inr λ o h. ground (
          arith,
          offsets_of-append o f taken,
          all o,
          h,
          covers-sort_ranked rank o (survivors (offsets_of f) scored),
          covers-survivors o (offsets_of f) scored h,
        )
      ],
    )
