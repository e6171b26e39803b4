-- ===== src/Bm25/Counts.antt =====
-- The counts of crates/turbomemory_graph/src/bm25.rs are those of its documents, however they came.
use turbo_supermemory.Common.{
  ℕ, ◌+◌, ◌-◌, ◌≡◌, refl, ap, ◌∙◌, sym, String, List, [], ◌∷◌, length, Option, none, some, true,
  not, ◌&&◌, ◌==◌, nat_eq, string_eq, if◌then◌else◌, arith, Option-cases, Bool-cases, inl, inr,
}
use turbo_supermemory.Common.Dict.{
  Dict, lookup, insert as insert_key, remove as remove_key, lookup-insert, lookup-remove,
  lookup-remove_self, remove_absent, Distinct, insert-Distinct, remove-Distinct,
}
use turbo_supermemory.Bm25.{
  Bm25Index, new_bm25, seen_in, or_zero, add_terms, less_one, remove_terms, add_term_freqs,
  remove_term_freqs, forget, remove, add, recompute_loop, recompute,
}

-- How often a term is counted, as `unwrap_or(&0)` reads it.
abbrev pub freq : Dict String ℕ → String → ℕ
freq freqs t = or_zero (lookup t freqs)

-- The number of documents that have the term.
abbrev pub docs_with : String → Dict String (List String) → ℕ
docs_with t [] = 0
docs_with t ((id, tokens) ∷ docs) = (if seen_in t tokens then 1 else 0) + docs_with t docs

abbrev pub total_len : Dict String (List String) → ℕ
total_len [] = 0
total_len ((id, tokens) ∷ docs) = length tokens + total_len docs

freq-insert :
    (s t : String) (n : ℕ) (freqs : Dict String ℕ)
    → freq (insert_key s n freqs) t ≡ (if s == t then n else freq freqs t)
freq-insert s t n freqs = ground (arith, ap or_zero (lookup-insert s t n freqs))

freq-remove :
    (s t : String) (freqs : Dict String ℕ)
    → freq (remove_key s freqs) t ≡ (if s == t then 0 else freq freqs t)
freq-remove s t freqs = ground (arith, ap or_zero (lookup-remove s t freqs))

same_freq : (s t : String) (freqs : Dict String ℕ) → (s == t) ≡ true → freq freqs s ≡ freq freqs t
same_freq s t freqs e = ap (freq freqs) ((string_eq.matches_iff s t).0 e)

same_seen : (s t : String) (seen : List String) → (s == t) ≡ true → seen_in s seen ≡ seen_in t seen
same_seen s t seen e = ap (λ u. seen_in u seen) ((string_eq.matches_iff s t).0 e)

freq-add_terms :
    (t : String) (seen tokens : List String) (freqs : Dict String ℕ)
    → freq (add_terms seen tokens freqs) t
      ≡ freq freqs t + (if seen_in t tokens && not (seen_in t seen) then 1 else 0)
unfolding add_terms seen_in
freq-add_terms t seen [] freqs = omega arith
freq-add_terms t seen (s ∷ ts) freqs = elim (Bool-cases (seen_in s seen)) [
  | inl e ↦
      let ih = freq-add_terms t (s ∷ seen) ts freqs in
      rw (e) (ground (arith, ih, same_seen s t seen, e))
  | inr e ↦
      let ih = freq-add_terms t (s ∷ seen) ts (insert_key s (freq freqs s + 1) freqs) in
      rw (e) (
        ground (
          arith,
          ih,
          same_seen s t seen,
          e,
          same_freq s t freqs,
          freq-insert s t (freq freqs s + 1) freqs,
        ))
]

freq-less_one :
    (s t : String) (freqs : Dict String ℕ)
    → freq (less_one s (lookup s freqs) freqs) t
      ≡ (if s == t then freq freqs t - 1 else freq freqs t)
unfolding less_one
freq-less_one s t freqs = elim (Option-cases (lookup s freqs)) [
  | inl e ↦ rw (e) (ground (arith, same_freq s t freqs, ap or_zero e))
  | inr (n, e) ↦ rw (e) (
      ground (
        arith,
        same_freq s t freqs,
        ap or_zero e,
        freq-insert s t (n - 1) freqs,
        freq-remove s t freqs,
      ))
]

freq-remove_terms :
    (t : String) (seen tokens : List String) (freqs : Dict String ℕ)
    → freq (remove_terms seen tokens freqs) t
      ≡ freq freqs t - (if seen_in t tokens && not (seen_in t seen) then 1 else 0)
unfolding remove_terms seen_in
freq-remove_terms t seen [] freqs = omega arith
freq-remove_terms t seen (s ∷ ts) freqs = elim (Bool-cases (seen_in s seen)) [
  | inl e ↦
      let ih = freq-remove_terms t (s ∷ seen) ts freqs in
      rw (e) (ground (arith, ih, same_seen s t seen, e))
  | inr e ↦
      let ih = freq-remove_terms t (s ∷ seen) ts (less_one s (lookup s freqs) freqs) in
      rw (e) (ground (arith, ih, same_seen s t seen, e, freq-less_one s t freqs))
]

-- What one document adds to the counts.
abbrev one_with : String → Option (List String) → ℕ
one_with t none = 0
one_with t (some tokens) = if seen_in t tokens then 1 else 0

abbrev len_of : Option (List String) → ℕ
len_of none = 0
len_of (some tokens) = length tokens

docs_with-remove :
    (t id : String) (docs : Dict String (List String))
    → Distinct docs
    → docs_with t (remove_key id docs) + one_with t (lookup id docs) ≡ docs_with t docs
unfolding lookup remove_key
docs_with-remove t id [] d = omega arith
docs_with-remove t id ((j, tokens) ∷ docs) d = elim (Bool-cases (j == id)) [
  | inl e ↦
      let absent : lookup id docs ≡ none =
        ap (λ u. lookup u docs) (sym ((string_eq.matches_iff j id).0 e)) ∙ d.0 in
      rw (e) (ground (arith, ap (docs_with t) (remove_absent id docs absent)))
  | inr e ↦ rw (e) (ground (arith, docs_with-remove t id docs d.1))
]

total_len-remove :
    (id : String) (docs : Dict String (List String))
    → Distinct docs
    → total_len (remove_key id docs) + len_of (lookup id docs) ≡ total_len docs
unfolding lookup remove_key
total_len-remove id [] d = omega arith
total_len-remove id ((j, tokens) ∷ docs) d = elim (Bool-cases (j == id)) [
  | inl e ↦
      let absent : lookup id docs ≡ none =
        ap (λ u. lookup u docs) (sym ((string_eq.matches_iff j id).0 e)) ∙ d.0 in
      rw (e) (ground (arith, ap total_len (remove_absent id docs absent)))
  | inr e ↦ rw (e) (ground (arith, total_len-remove id docs d.1))
]

-- The counts are those of the documents.
pub record IsCounted (i : Bm25Index) : Type 0 where
  pub distinct : Distinct i.docs
  pub freqs : (t : String) → freq i.term_doc_freq t ≡ docs_with t i.docs
  pub total : i.total_doc_len ≡ total_len i.docs

forget-IsCounted :
    (id : String) (o : Option (List String)) (i : Bm25Index)
    → lookup id i.docs ≡ o
    → IsCounted i
    → IsCounted (forget id o i) × (lookup id (forget id o i).docs ≡ none)
unfolding forget remove_term_freqs seen_in
forget-IsCounted id none i e c = (c, e)
forget-IsCounted id (some old) i e c = (
  record {
    distinct = remove-Distinct id i.docs c.distinct;
    freqs = λ t. ground (
      arith,
      freq-remove_terms t [] old i.term_doc_freq,
      c.freqs t,
      docs_with-remove t id i.docs c.distinct,
      ap (one_with t) e,
    );
    total = ground (arith, c.total, total_len-remove id i.docs c.distinct, ap len_of e);
  },
  lookup-remove_self id i.docs,
)

remove-IsCounted : (id : String) (i : Bm25Index) → IsCounted i → IsCounted (remove id i)
unfolding remove
remove-IsCounted id i c = (forget-IsCounted id (lookup id i.docs) i refl c).0

add-IsCounted :
    (tokenize : String → List String) (id text : String) (i : Bm25Index)
    → IsCounted i
    → IsCounted (add tokenize id text i)
unfolding add add_term_freqs insert_key seen_in
add-IsCounted tokenize id text i c =
    let old = forget-IsCounted id (lookup id i.docs) i refl c in
    let j : Bm25Index = forget id (lookup id i.docs) i in
    let same = remove_absent id j.docs old.1 in
    record {
      distinct = insert-Distinct id (tokenize text) j.docs old.0.distinct;
      freqs = λ t. ground (
        arith,
        freq-add_terms t [] (tokenize text) j.term_doc_freq,
        old.0.freqs t,
        ap (docs_with t) same,
      );
      total = ground (arith, old.0.total, ap total_len same);
    }

recompute_loop-counts :
    (docs : Dict String (List String)) (i : Bm25Index) (t : String)
    → ((recompute_loop docs i).docs ≡ i.docs)
      × ((freq (recompute_loop docs i).term_doc_freq t ≡ freq i.term_doc_freq t + docs_with t docs)
          × ((recompute_loop docs i).total_doc_len ≡ i.total_doc_len + total_len docs))
unfolding recompute_loop add_term_freqs seen_in
recompute_loop-counts [] i t = (refl, (omega arith, omega arith))
recompute_loop-counts ((id, tokens) ∷ docs) i0 t =
    let i : Bm25Index = add_term_freqs tokens i0 in
    let rest =
      recompute_loop-counts docs (record i { total_doc_len = i.total_doc_len + length tokens }) t in
    (
      rest.0,
      (
        ground (arith, rest.1.0, freq-add_terms t [] tokens i0.term_doc_freq),
        omega (arith, rest.1.1),
      ),
    )

pub new_bm25-IsCounted : IsCounted new_bm25
unfolding new_bm25 lookup
new_bm25-IsCounted = record { distinct = tt; freqs = λ t. refl; total = refl }

-- The calls that change the index.
pub data Bm25Op : Type 0 where
  added : (id text : String) → Bm25Op
  removed : (id : String) → Bm25Op

unfoldable pub run_bm25 : (tokenize : String → List String) → List Bm25Op → Bm25Index → Bm25Index
run_bm25 tokenize [] i = i
run_bm25 tokenize (added id text ∷ ops) i = run_bm25 tokenize ops (add tokenize id text i)
run_bm25 tokenize (removed id ∷ ops) i = run_bm25 tokenize ops (remove id i)

-- Adds and removals keep the counts those of the documents.
pub run_bm25-IsCounted :
    (tokenize : String → List String) (ops : List Bm25Op) (i : Bm25Index)
    → IsCounted i
    → IsCounted (run_bm25 tokenize ops i)
unfolding run_bm25
run_bm25-IsCounted tokenize [] i c = c
run_bm25-IsCounted tokenize (added id text ∷ ops) i c =
    run_bm25-IsCounted tokenize ops (add tokenize id text i) (add-IsCounted tokenize id text i c)
run_bm25-IsCounted tokenize (removed id ∷ ops) i c =
    run_bm25-IsCounted tokenize ops (remove id i) (remove-IsCounted id i c)

-- After any sequence of added, replaced and removed documents, the full recomputation finds for
-- each term the document frequency that the index has already, and the same total length.
pub recompute-run_bm25 :
    (tokenize : String → List String) (ops : List Bm25Op) (t : String)
    → (freq (recompute (run_bm25 tokenize ops new_bm25)).term_doc_freq t
        ≡ freq (run_bm25 tokenize ops new_bm25).term_doc_freq t)
      × ((recompute (run_bm25 tokenize ops new_bm25)).total_doc_len
          ≡ (run_bm25 tokenize ops new_bm25).total_doc_len)
unfolding recompute new_bm25 lookup
recompute-run_bm25 tokenize ops t =
    let i : Bm25Index = run_bm25 tokenize ops new_bm25 in
    let c : IsCounted i = run_bm25-IsCounted tokenize ops new_bm25 new_bm25-IsCounted in
    let again =
      recompute_loop-counts i.docs (record i { term_doc_freq = []; total_doc_len = 0 }) t in
    (omega (arith, again.1.0, c.freqs t), omega (arith, again.1.1, c.total))
