-- ===== src/Retention/Ranking.antt =====
-- The order in which the eviction of crates/turbomemory_storage/src/engine/retention.rs takes records.
use turbo_supermemory.Common.{
  ℕ, zero, suc, ◌-◌, ◌≡◌, ◌⊎◌, ap, subst, List, [], ◌∷◌, length, some, true, false, ◌||◌, nat_eq,
  arith, Bool-cases, inl, inr,
}
use turbo_supermemory.Record.{PointOffset}
use turbo_supermemory.Segments.{covers}
use turbo_supermemory.Retention.{
  Scored, offsets_of, survivors, not_after, insert_ranked, sort_ranked, cap_pass, cap_victims,
}

abbrev pub Among : Scored → List Scored → Type 0
Among a [] = ⊥
Among a (x ∷ xs) = (x ≡ a) ⊎ Among a xs

module _ (rank : ℕ → ℕ) where
  unfoldable Ranked : List Scored → Type 0
  Ranked [] = Unit
  Ranked (x ∷ xs) = ((s : Scored) → Among s xs → not_after rank x s ≡ true) × Ranked xs

  not_after_trans :
      (a b c : Scored)
      → not_after rank a b ≡ true
      → not_after rank b c ≡ true
      → not_after rank a c ≡ true
  unfolding not_after
  not_after_trans a b c h k = ground (arith, h, k)

  not_after_total : (a b : Scored) → not_after rank a b ≡ false → not_after rank b a ≡ true
  unfolding not_after
  not_after_total a b h = ground (arith, h)

  Among-insert_ranked :
      (s a : Scored) (xs : List Scored) → Among s (insert_ranked rank a xs) → (a ≡ s) ⊎ Among s xs
  unfolding insert_ranked
  Among-insert_ranked s a [] m = m
  Among-insert_ranked s a (x ∷ xs) m = elim (Bool-cases (not_after rank a x)) [
    | inl e ↦ rw (e) at m
    | inr e ↦
        let m1 : (x ≡ s) ⊎ Among s (insert_ranked rank a xs) = rw (e) at m in
        elim m1 [
          | inl q ↦ inr (inl q)
          | inr q ↦ elim (Among-insert_ranked s a xs q) [ inl r ↦ inl r | inr r ↦ inr (inr r) ]
        ]
  ]

  insert_ranked-Ranked :
      (a : Scored) (xs : List Scored) → Ranked xs → Ranked (insert_ranked rank a xs)
  unfolding insert_ranked Ranked
  insert_ranked-Ranked a [] r = ((λ s m. absurd m), tt)
  insert_ranked-Ranked a (x ∷ xs) r = elim (Bool-cases (not_after rank a x)) [
    | inl e ↦ rw (e) (
      (λ s m. elim m [
        | inl q ↦ subst (λ y. not_after rank a y ≡ true) q e
        | inr q ↦ not_after_trans a x s e (r.0 s q)
      ]),
      r,
    )
    | inr e ↦ rw (e) (
      (λ s m. elim (Among-insert_ranked s a xs m) [
        | inl q ↦ subst (λ y. not_after rank x y ≡ true) q (not_after_total a x e)
        | inr q ↦ r.0 s q
      ]),
      insert_ranked-Ranked a xs r.1,
    )
  ]

  sort_ranked-Ranked : (xs : List Scored) → Ranked (sort_ranked rank xs)
  unfolding sort_ranked Ranked
  sort_ranked-Ranked [] = tt
  sort_ranked-Ranked (x ∷ xs) = insert_ranked-Ranked x (sort_ranked rank xs) (sort_ranked-Ranked xs)

  Among-cap_pass :
      (over : ℕ) (taken : List PointOffset) (xs : List Scored) (c : Scored)
      → Among c (cap_pass over taken xs)
      → Among c xs
  unfolding cap_pass
  Among-cap_pass over taken [] c m = m
  Among-cap_pass zero taken (x ∷ xs) c m = absurd m
  Among-cap_pass (suc over) taken (x ∷ xs) c m = elim (Bool-cases (covers x.offset taken)) [
    | inl e ↦ inr (
        let m1 : Among c (cap_pass (suc over) taken xs) = rw (e) at m in
        Among-cap_pass (suc over) taken xs c m1)
    | inr e ↦
        let m1 : (x ≡ c) ⊎ Among c (cap_pass over (x.offset ∷ taken) xs) = rw (e) at m in
        elim m1 [ inl q ↦ inl q | inr q ↦ inr (Among-cap_pass over (x.offset ∷ taken) xs c q) ]
  ]

  cap_pass_order :
      (over : ℕ) (taken : List PointOffset) (xs : List Scored) (c s : Scored)
      → Ranked xs
      → Among c (cap_pass over taken xs)
      → Among s xs
      → (covers s.offset taken || covers s.offset (offsets_of (cap_pass over taken xs))) ≡ false
      → not_after rank c s ≡ true
  unfolding cap_pass covers Ranked
  cap_pass_order over taken [] c s r m n out = absurd n
  cap_pass_order zero taken (x ∷ xs) c s r m n out = absurd m
  cap_pass_order (suc over) taken (x ∷ xs) c s r m n out =
      elim (Bool-cases (covers x.offset taken)) [
        | inl e ↦
            let m1 : Among c (cap_pass (suc over) taken xs) = rw (e) at m in
            elim n [
              | inl q ↦ absurd (ground (arith, out, e, ap (λ y. covers y.offset taken) q))
              | inr q ↦ cap_pass_order (suc over) taken xs c s r.1 m1 q (ground (arith, out, e))
            ]
        | inr e ↦
            let m1 : (x ≡ c) ⊎ Among c (cap_pass over (x.offset ∷ taken) xs) = rw (e) at m in
            elim n [
              | inl q ↦ absurd (
                  ground (
                    arith,
                    out,
                    e,
                    ap Scored.offset q,
                    (nat_eq.matches_iff x.offset s.offset).1 (ap Scored.offset q),
                  ))
              | inr q ↦ elim m1 [
                | inl p ↦ subst (λ y. not_after rank y s ≡ true) p (r.0 s q)
                | inr p ↦
                    cap_pass_order over (x.offset ∷ taken) xs c s r.1 p q (ground (arith, out, e))
              ]
            ]
      ]

  into_insert_ranked :
      (s a : Scored) (xs : List Scored) → (a ≡ s) ⊎ Among s xs → Among s (insert_ranked rank a xs)
  unfolding insert_ranked
  into_insert_ranked s a [] m = m
  into_insert_ranked s a (x ∷ xs) m = elim (Bool-cases (not_after rank a x)) [
    | inl e ↦ rw (e) m
    | inr e ↦ rw (e) (elim m [
      | inl q ↦ inr (into_insert_ranked s a xs (inl q))
      | inr (inl q) ↦ inl q
      | inr (inr q) ↦ inr (into_insert_ranked s a xs (inr q))
    ])
  ]

  into_sort_ranked : (s : Scored) (xs : List Scored) → Among s xs → Among s (sort_ranked rank xs)
  unfolding sort_ranked
  into_sort_ranked s [] m = m
  into_sort_ranked s (x ∷ xs) m =
      into_insert_ranked s x (sort_ranked rank xs)
        (elim m [ inl q ↦ inl q | inr q ↦ inr (into_sort_ranked s xs q) ])

  into_survivors :
      (s : Scored) (taken : List PointOffset) (xs : List Scored)
      → Among s xs
      → covers s.offset taken ≡ false
      → Among s (survivors taken xs)
  unfolding survivors
  into_survivors s taken [] m out = m
  into_survivors s taken (x ∷ xs) m out = elim (Bool-cases (covers x.offset taken)) [
    | inl e ↦ rw (e) (elim m [
      | inl q ↦ absurd (ground (arith, out, e, ap (λ y. covers y.offset taken) q))
      | inr q ↦ into_survivors s taken xs q out
    ])
    | inr e ↦ rw (e) (elim m [ inl q ↦ inl q | inr q ↦ inr (into_survivors s taken xs q out) ])
  ]

  -- A record that the cap takes does not come after a record with a score that neither the floor
  -- nor the cap takes, in the order of scores and, where they are equal, of offsets.
  pub cap_victims-order :
      (max_records live : ℕ) (victims scored : List Scored) (c s : Scored)
      → Among c (cap_victims rank (some max_records) live victims scored)
      → Among s scored
      → covers s.offset (offsets_of victims) ≡ false
      → covers s.offset (offsets_of (cap_victims rank (some max_records) live victims scored))
        ≡ false
      → not_after rank c s ≡ true
  cap_victims-order m live victims scored c s among there old out =
      let ranked : List Scored = sort_ranked rank (survivors (offsets_of victims) scored) in
      cap_pass_order (live - length victims - m) (offsets_of victims) ranked c s
        (sort_ranked-Ranked (survivors (offsets_of victims) scored)) among
        (into_sort_ranked s (survivors (offsets_of victims) scored)
          (into_survivors s (offsets_of victims) scored there old))
        (ground (arith, old, out))
