-- ===== src/Retention.antt =====
-- Which records an eviction of crates/turbomemory_storage/src/engine/retention.rs takes: `evict` from
-- the scoring of the records to the list of its victims. The scores are given; their total order is
-- that of `rank`, as `f64::total_cmp` compares bit patterns by an integer key. Gists and the deletions
-- that follow are left out.
pub mod Victims
pub mod Ranking
use turbo_supermemory.Common.{
  ℕ, zero, suc, ◌+◌, ◌-◌, String, List, [], ◌∷◌, ◌++◌, length, map, Option, none, some, Bool, true,
  false, not, ◌&&◌, ◌||◌, ◌==◌, nat_eq, if◌then◌else◌, ltb, leb,
}
use turbo_supermemory.Record.{PointOffset, MetaRecord}
use turbo_supermemory.Segments.{covers}

pub record Scored : Type 0 where
  pub offset : PointOffset
  pub id : String
  pub score : ℕ

pub record Scoring : Type 0 where
  pub now : ℕ
  pub grace : ℕ
  pub access_aware : Bool
  pub access_score : PointOffset → MetaRecord → ℕ
  pub seq_score : ℕ → ℕ

-- A record of the grace window is protected, and has no score.
unfoldable pub is_protected : Scoring → MetaRecord → Bool
is_protected x m = x.access_aware && ltb (x.now - m.last_accessed) x.grace

unfoldable pub score_records : Scoring → List (PointOffset × MetaRecord) → List Scored
score_records x [] = []
score_records x ((offset, m) ∷ records) =
    let rest = score_records x records in
    let score = if x.access_aware then x.access_score offset m else x.seq_score m.insert_seq in
    if is_protected x m then rest else record { offset = offset; id = m.id; score = score } ∷ rest

abbrev pub offsets_of : List Scored → List PointOffset
offsets_of [] = []
offsets_of (s ∷ ss) = s.offset ∷ offsets_of ss

-- `victim_offsets.insert` is the test of both passes.
unfoldable pub floor_pass :
    (below : ℕ → Bool) → (taken : List PointOffset) → List Scored → List Scored
floor_pass below taken [] = []
floor_pass below taken (s ∷ ss) =
    let chosen = below s.score && not (covers s.offset taken) in
    let rest = floor_pass below (if chosen then s.offset ∷ taken else taken) ss in
    if chosen then s ∷ rest else rest

unfoldable pub survivors : (taken : List PointOffset) → List Scored → List Scored
survivors taken [] = []
survivors taken (s ∷ ss) =
    let rest = survivors taken ss in if covers s.offset taken then rest else s ∷ rest

-- By score, and by offset where the scores are equal.
unfoldable pub not_after : (rank : ℕ → ℕ) → Scored → Scored → Bool
not_after rank a b =
    ltb (rank a.score) (rank b.score) || (rank a.score == rank b.score && leb a.offset b.offset)

unfoldable pub insert_ranked : (rank : ℕ → ℕ) → Scored → List Scored → List Scored
insert_ranked rank a [] = a ∷ []
insert_ranked rank a (s ∷ ss) =
    if not_after rank a s then a ∷ s ∷ ss else s ∷ insert_ranked rank a ss

unfoldable pub sort_ranked : (rank : ℕ → ℕ) → List Scored → List Scored
sort_ranked rank [] = []
sort_ranked rank (s ∷ ss) = insert_ranked rank s (sort_ranked rank ss)

unfoldable pub cap_pass : (over : ℕ) → (taken : List PointOffset) → List Scored → List Scored
cap_pass over taken [] = []
cap_pass zero taken (s ∷ ss) = []
cap_pass (suc over) taken (s ∷ ss) =
    let is_new = not (covers s.offset taken) in
    let rest =
      cap_pass (if is_new then over else suc over) (if is_new then s.offset ∷ taken else taken)
        ss in
    if is_new then s ∷ rest else rest

abbrev pub floor_victims : Option (ℕ → Bool) → List Scored → List Scored
floor_victims none scored = []
floor_victims (some below) scored = floor_pass below [] scored

abbrev pub cap_victims :
    (rank : ℕ → ℕ)
    → (max_records : Option ℕ) → (live : ℕ) → (victims scored : List Scored) → List Scored
cap_victims rank none live victims scored = []
cap_victims rank (some max_records) live victims scored =
    cap_pass (live - length victims - max_records) (offsets_of victims)
      (sort_ranked rank (survivors (offsets_of victims) scored))

unfoldable pub choose_victims :
    (rank : ℕ → ℕ)
    → (floor : Option (ℕ → Bool)) → (max_records : Option ℕ) → (live : ℕ) → List Scored
    → List Scored
choose_victims rank floor max_records live scored =
    let victims = floor_victims floor scored in
    victims ++ cap_victims rank max_records live victims scored
