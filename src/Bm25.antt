-- ===== src/Bm25.antt =====
-- The lexical index of crates/turbomemory_graph/src/bm25.rs: its documents, the number of documents of
-- each term, and the total length. The tokenizer is a parameter; the f32 scores are left out. A count
-- of documents or tokens is taken to fit a usize.
pub mod Counts
use turbo_supermemory.Common.{
  ℕ, ◌+◌, ◌-◌, ◌≡◌, String, List, [], ◌∷◌, length, Option, none, some, Bool, true, false, ◌||◌,
  ◌==◌, nat_eq, string_eq, if◌then◌else◌,
}
use turbo_supermemory.Common.Dict.{Dict, lookup, insert as insert_key, remove as remove_key}

pub record Bm25Index : Type 0 where
  pub docs : Dict String (List String)
  pub term_doc_freq : Dict String ℕ
  pub total_doc_len : ℕ

unfoldable pub new_bm25 : Bm25Index
new_bm25 = record { docs = []; term_doc_freq = []; total_doc_len = 0 }

unfoldable pub seen_in : String → List String → Bool
seen_in t [] = false
seen_in t (s ∷ ss) = s == t || seen_in t ss

abbrev pub or_zero : Option ℕ → ℕ
or_zero none = 0
or_zero (some n) = n

-- `*entry(t).or_insert(0) += 1` at the first occurrence of each term
unfoldable pub add_terms : (seen tokens : List String) → Dict String ℕ → Dict String ℕ
add_terms seen [] freqs = freqs
add_terms seen (t ∷ ts) freqs =
    add_terms (t ∷ seen) ts
      (if seen_in t seen then freqs else insert_key t (or_zero (lookup t freqs) + 1) freqs)

unfoldable pub less_one : String → Option ℕ → Dict String ℕ → Dict String ℕ
less_one t none freqs = freqs
less_one t (some count) freqs =
    if count - 1 == 0 then remove_key t freqs else insert_key t (count - 1) freqs

unfoldable pub remove_terms : (seen tokens : List String) → Dict String ℕ → Dict String ℕ
remove_terms seen [] freqs = freqs
remove_terms seen (t ∷ ts) freqs =
    remove_terms (t ∷ seen) ts (if seen_in t seen then freqs else less_one t (lookup t freqs) freqs)

unfoldable pub add_term_freqs : List String → Bm25Index → Bm25Index
add_term_freqs tokens i = record i { term_doc_freq = add_terms [] tokens i.term_doc_freq }

unfoldable pub remove_term_freqs : List String → Bm25Index → Bm25Index
remove_term_freqs tokens i = record i { term_doc_freq = remove_terms [] tokens i.term_doc_freq }

-- The old contribution of a document goes.
unfoldable pub forget : String → Option (List String) → Bm25Index → Bm25Index
forget id none i = i
forget id (some old) i =
    let rest = remove_term_freqs old (record i { docs = remove_key id i.docs }) in
    record rest { total_doc_len = rest.total_doc_len - length old }

unfoldable pub remove : String → Bm25Index → Bm25Index
remove id i = forget id (lookup id i.docs) i

unfoldable pub add : (tokenize : String → List String) → (id text : String) → Bm25Index → Bm25Index
add tokenize id text i0 =
    let tokens = tokenize text in
    let i = add_term_freqs tokens (forget id (lookup id i0.docs) i0) in
    record i { total_doc_len = i.total_doc_len + length tokens; docs = insert_key id tokens i.docs }

unfoldable pub recompute_loop : List (String × List String) → Bm25Index → Bm25Index
recompute_loop [] i = i
recompute_loop ((id, tokens) ∷ rest) i0 =
    let i = add_term_freqs tokens i0 in
    recompute_loop rest (record i { total_doc_len = i.total_doc_len + length tokens })

unfoldable pub recompute : Bm25Index → Bm25Index
recompute i = recompute_loop i.docs (record i { term_doc_freq = []; total_doc_len = 0 })
