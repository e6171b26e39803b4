-- ===== src/Ccs/Sessions.antt =====
-- What a session of crates/turbomemory_graph/src/ccs.rs remembers after any number of turns.
use turbo_supermemory.Common.{
  ℕ, zero, suc, ◌+◌, ◌-◌, ◌≤◌, ◌≡◌, refl, ap, ◌∙◌, sym, String, List, [], ◌∷◌, ◌++◌, length,
  length-append, length-drop, drop, Option, none, some, false, ◌||◌, string_eq, ltb, arith,
  Bool-cases, inl, inr, append_assoc, append-nil, subst,
}
use turbo_supermemory.Ccs.{
  Text, max_facts, max_topics, CompressedCognitiveState, default_state, Formats, has_topic,
  add_topics, bound_topics, push_fact, fact_of, compress, parse_or_default,
  step_session_with_compressor, step_session,
}

-- The last `n` of a list.
abbrev pub last : {A : Type 0} → ℕ → List A → List A
last n xs = drop (length xs - n) xs

-- No topic is there twice.
abbrev pub NoRepeat : List String → Type 0
NoRepeat [] = Unit
NoRepeat (t ∷ ts) = (has_topic t ts ≡ false) × NoRepeat ts

drop-append_of_le :
    {A : Type 0} (n : ℕ) (xs ys : List A) → n ≤ length xs → drop n (xs ++ ys) ≡ drop n xs ++ ys
drop-append_of_le zero xs ys h = refl
drop-append_of_le (suc n) [] ys h = absurd (omega (arith, h))
drop-append_of_le (suc n) (x ∷ xs) ys h = drop-append_of_le n xs ys (omega (arith, h))

drop_one-drop : {A : Type 0} (n : ℕ) (xs : List A) → drop 1 (drop n xs) ≡ drop (suc n) xs
drop_one-drop zero xs = refl
drop_one-drop (suc n) [] = refl
drop_one-drop (suc n) (x ∷ xs) = drop_one-drop n xs

drop_at : {A : Type 0} (m n : ℕ) (xs : List A) → m ≡ n → drop m xs ≡ drop n xs
drop_at m n xs e = ap (λ i. drop i xs) e

-- Pushing on the last eight gives the last eight.
push_fact-last :
    (f : String) (all : List String)
    → push_fact f (last max_facts all) ≡ last max_facts (all ++ (f ∷ []))
unfolding push_fact
push_fact-last f all =
    let n : ℕ = length all - 8 in
    let size = length-drop n all in
    let longer = length-append all (f ∷ []) in
    let both = length-append (drop n all) (f ∷ []) in
    let front : drop n (all ++ (f ∷ [])) ≡ drop n all ++ (f ∷ []) =
      drop-append_of_le n all (f ∷ []) (omega arith) in
    elim (Bool-cases (ltb 8 (length (drop n all ++ (f ∷ []))))) [
      | inl e ↦ rw (e) (
          ap (drop 1) (sym front)
          ∙ drop_one-drop n (all ++ (f ∷ []))
          ∙ drop_at (suc n) (length (all ++ (f ∷ [])) - 8) (all ++ (f ∷ []))
              (ground (arith, e, both, size, longer)))
      | inr e ↦ rw (e) (
          sym front
          ∙ drop_at n (length (all ++ (f ∷ [])) - 8) (all ++ (f ∷ []))
              (ground (arith, e, both, size, longer)))
    ]

has_topic-append :
    (t : String) (xs ys : List String) → has_topic t (xs ++ ys) ≡ (has_topic t xs || has_topic t ys)
unfolding has_topic
has_topic-append t [] ys = refl
has_topic-append t (x ∷ xs) ys = ground (arith, has_topic-append t xs ys)

NoRepeat-append :
    (t : String) (xs : List String)
    → has_topic t xs ≡ false
    → NoRepeat xs
    → NoRepeat (xs ++ (t ∷ []))
unfolding has_topic
NoRepeat-append t [] h n = (refl, tt)
NoRepeat-append t (x ∷ xs) h n = (
  ground (
    arith,
    h,
    n.0,
    has_topic-append x xs (t ∷ []),
    string_eq.matches_iff x t,
    string_eq.matches_iff t x,
  ),
  NoRepeat-append t xs (ground (arith, h)) n.1,
)

add_topics-NoRepeat : (ts topics : List String) → NoRepeat topics → NoRepeat (add_topics ts topics)
unfolding add_topics
add_topics-NoRepeat [] topics n = n
add_topics-NoRepeat (t ∷ ts) topics n = elim (Bool-cases (has_topic t topics)) [
  | inl e ↦ rw (e) (add_topics-NoRepeat ts topics n)
  | inr e ↦ rw (e) (add_topics-NoRepeat ts (topics ++ (t ∷ [])) (NoRepeat-append t topics e n))
]

drop-NoRepeat : (n : ℕ) (ts : List String) → NoRepeat ts → NoRepeat (drop n ts)
drop-NoRepeat zero ts h = h
drop-NoRepeat (suc n) [] h = h
drop-NoRepeat (suc n) (t ∷ ts) h = drop-NoRepeat n ts h.1

bound_topics-NoRepeat : (ts : List String) → NoRepeat ts → NoRepeat (bound_topics ts)
unfolding bound_topics
bound_topics-NoRepeat ts n = elim (Bool-cases (ltb 6 (length ts))) [
  | inl e ↦ rw (e) (drop-NoRepeat (length ts - 6) ts n)
  | inr e ↦ rw (e) n
]

length-bound_topics : (ts : List String) → length (bound_topics ts) ≤ max_topics
unfolding bound_topics
length-bound_topics ts = ground (arith, length-drop (length ts - 6) ts)

pub record Turn : Type 0 where
  pub user : Text
  pub assistant : Text

module _ {Json : Type 0} (x : Formats Json) where
  -- The state goes from turn to turn as its JSON.
  unfoldable pub run_session : List Turn → Option Json → Option Json
  run_session [] json = json
  run_session (t ∷ ts) json = run_session ts (some (step_session x json t.user t.assistant))

  -- The facts of all turns, the first of which has the given number.
  abbrev pub facts_of : ℕ → List Turn → List String
  facts_of n [] = []
  facts_of n (t ∷ ts) = fact_of x n t.user t.assistant ∷ facts_of (n + 1) ts

  -- What the state is after turns with these facts.
  pub record Remembers (all : List String) (ccs : CompressedCognitiveState) : Type 0 where
    pub count : ccs.turn_count ≡ length all
    pub facts : ccs.facts ≡ last max_facts all
    pub topics : length ccs.topics ≤ max_topics
    pub distinct : NoRepeat ccs.topics

  compress-Remembers :
      (all : List String) (ccs : CompressedCognitiveState) (user assistant : Text)
      → Remembers all ccs
      → Remembers
          (all ++ (fact_of x (length all + 1) user assistant ∷ []))
          (compress x ccs user assistant)
  unfolding compress
  compress-Remembers all ccs user assistant r =
      let f : String = fact_of x (length all + 1) user assistant in
      record {
        count = omega (arith, r.count, length-append all (f ∷ []));
        facts =
            ap (λ n. push_fact (fact_of x (n + 1) user assistant) ccs.facts) r.count
            ∙ ap (push_fact f) r.facts
            ∙ push_fact-last f all;
        topics = length-bound_topics (add_topics (x.words user) ccs.topics);
        distinct =
            bound_topics-NoRepeat (add_topics (x.words user) ccs.topics)
              (add_topics-NoRepeat (x.words user) ccs.topics r.distinct);
      }

  default-Remembers : Remembers [] default_state
  default-Remembers = record { count = refl; facts = refl; topics = omega arith; distinct = tt }

  parsed :
      (json : Json) (ccs : CompressedCognitiveState)
      → x.from_json json ≡ some ccs
      → ccs ≡ parse_or_default x (some json)
  parsed json ccs e = rw (e, parse_or_default) refl

  module _ (reads : (ccs : CompressedCognitiveState) → x.from_json (x.to_json ccs) ≡ some ccs) where
    next_read :
        (json : Option Json) (t : Turn)
        → compress x (parse_or_default x json) t.user t.assistant
          ≡ parse_or_default x (some (step_session x json t.user t.assistant))
    unfolding step_session step_session_with_compressor
    next_read json t = parsed _ _ (reads (compress x (parse_or_default x json) t.user t.assistant))

    run_session-from :
        (ts : List Turn) (all : List String) (json : Option Json)
        → Remembers all (parse_or_default x json)
        → Remembers (all ++ facts_of (length all + 1) ts) (parse_or_default x (run_session ts json))
    unfolding run_session
    run_session-from [] all json r =
        subst (λ l. Remembers l (parse_or_default x json)) (sym (append-nil all)) r
    run_session-from (t ∷ ts) all json r =
        let f : String = fact_of x (length all + 1) t.user t.assistant in
        let read : compress x (parse_or_default x json) t.user t.assistant
            ≡ parse_or_default x (some (step_session x json t.user t.assistant)) =
          next_read json t in
        let first =
          subst (Remembers (all ++ (f ∷ []))) read
            (compress-Remembers all (parse_or_default x json) t.user t.assistant r) in
        let rest =
          run_session-from ts (all ++ (f ∷ [])) (some (step_session x json t.user t.assistant))
            first in
        let number : length (all ++ (f ∷ [])) + 1 ≡ length all + 1 + 1 =
          omega (arith, length-append all (f ∷ [])) in
        let same : (all ++ (f ∷ [])) ++ facts_of (length (all ++ (f ∷ [])) + 1) ts
            ≡ all ++ (f ∷ facts_of (length all + 1 + 1) ts) =
          append_assoc all (f ∷ []) (facts_of (length (all ++ (f ∷ [])) + 1) ts)
          ∙ ap (λ n. all ++ (f ∷ facts_of n ts)) number in
        subst
          (λ l.
            Remembers l
              (parse_or_default x (run_session ts (some (step_session x json t.user t.assistant)))))
          same rest

    -- After any number of turns of a new session, the state counts them, its facts are the last
    -- eight of the facts of all turns, and it has at most six topics, none of them twice, if a
    -- state is read back from the JSON that was written for it.
    pub run_session-Remembers :
        (ts : List Turn) → Remembers (facts_of 1 ts) (parse_or_default x (run_session ts none))
    run_session-Remembers ts = run_session-from ts [] none default-Remembers
