-- ===== src/Optimizer/Passes.antt =====
-- What a search finds after a seal pass of crates/turbomemory_storage/src/optimizer.rs.
use turbo_supermemory.Common.{
  ◌<◌, ◌≡◌, ◌≢◌, refl, ◌∙◌, List, [], ◌∷◌, length, is_empty, Bool, true, false, ◌||◌, nat_eq,
  if◌then◌else◌, arith, Bool-cases, inl, inr, Option-cases,
}
use turbo_supermemory.Record.{PointOffset, StorageError, Result, ok, err}
use turbo_supermemory.Segments.{
  Arc, SegmentHolder, TierConfig, covers, publish_snapshot, next_path, pop_last, pop_sealing_plain,
  remove_sealing_plain, push_sealed_hot, push_warm, read_vectors_for_offsets,
}
use turbo_supermemory.Segments.Found.{covers-read_vectors}
use turbo_supermemory.Segments.Visible.{
  found, IsOwned, Published, publish-Published, shrunk-IsOwned,
}
use turbo_supermemory.Segments.Moves.{
  Popped, pop_sealing_plain-Popped, remove_sealing_plain-IsOwned, found-remove_sealing_plain,
  push_sealing_plain-IsOwned, found-push_sealing_plain, push_sealing_plain-Published,
}
use turbo_supermemory.Segments.Installs.{
  push_sealed_hot-IsOwned, found-push_sealed_hot, push_warm-IsOwned, found-push_warm,
  compact_warm-IsOwned, found-compact_warm, compact_warm-Published,
}
use turbo_supermemory.Optimizer.{
  ResourceBudget, BuiltSegment, sealed, warm, Builds, use_hnsw, build_segment, install, seal_popped,
  process_one_seal,
}

pub not_covered :
    (j : PointOffset) (xs : List PointOffset) → is_empty xs ≡ true → covers j xs ≡ false
unfolding covers
not_covered j [] e = refl
not_covered j (x ∷ xs) e = absurd (ground (arith, e))

-- Owned lists and a snapshot of what they hold.
pub record IsSearchable (h : SegmentHolder) : Type 0 where
  pub owned : IsOwned h
  pub published : Published h

-- The offsets that have a vector are found before and after.
pub record Keeps (stored : PointOffset → Bool) (h h' : SegmentHolder) : Type 0 where
  pub searchable : IsSearchable h'
  pub same : (o : PointOffset) → stored o ≡ true → found h' o ≡ found h o

pub push_sealed_hot-Published :
    (v : List PointOffset) (h : SegmentHolder) → Published (push_sealed_hot v h)
unfolding push_sealed_hot
push_sealed_hot-Published v h = publish-Published _

push_warm-Published : (v : List PointOffset) (h : SegmentHolder) → Published (push_warm v h)
unfolding push_warm
push_warm-Published v h = publish-Published _

pub next_path-IsOwned : (h : SegmentHolder) → IsOwned h → IsOwned (next_path h)
unfolding next_path
next_path-IsOwned h w = shrunk-IsOwned h _ w refl refl (λ q e. e)

module _ (c : TierConfig) (stored : PointOffset → Bool) (o : Builds) where
  module _ (plain : Arc) (h : SegmentHolder) (w : IsOwned h) (old : plain < h.next_arc)
      (other : plain ≢ h.hot)
      (inside : (j : PointOffset) → covers j (h.heap plain) ≡ true → found h j ≡ true) where
    removed-IsOwned : IsOwned (remove_sealing_plain plain h)
    removed-IsOwned = remove_sealing_plain-IsOwned plain h w

    -- What the replacement has is back.
    restored :
        (j : PointOffset)
        → (found (remove_sealing_plain plain h) j || covers j (h.heap plain)) ≡ found h j
    restored j = ground (arith, found-remove_sealing_plain plain h j, inside j)

    failed-Keeps : (x : StorageError) → Keeps stored h (install c stored o plain (err x) h).1
    unfolding install remove_sealing_plain
    failed-Keeps x = record {
      searchable = record {
        owned = push_sealing_plain-IsOwned plain _ removed-IsOwned old other;
        published = push_sealing_plain-Published plain (remove_sealing_plain plain h);
      };
      same = λ j s. found-push_sealing_plain plain (remove_sealing_plain plain h) j ∙ restored j;
    }

    module _ (v : List PointOffset)
        (held : (j : PointOffset) → stored j ≡ true → covers j v ≡ covers j (h.heap plain)) where
      sealed-Keeps : Keeps stored h (install c stored o plain (ok (sealed v)) h).1
      unfolding install
      sealed-Keeps = record {
        searchable = record {
          owned = push_sealed_hot-IsOwned v _ removed-IsOwned;
          published = push_sealed_hot-Published v _;
        };
        same = λ j s. ground (
          arith,
          found-push_sealed_hot v (remove_sealing_plain plain h) j removed-IsOwned,
          restored j,
          held j s,
        );
      }

      warm-Keeps : Keeps stored h (install c stored o plain (ok (warm v)) h).1
      unfolding install
      warm-Keeps =
          let pushed : SegmentHolder = push_warm v (remove_sealing_plain plain h) in
          let pw : IsOwned pushed =
            push_warm-IsOwned v (remove_sealing_plain plain h) removed-IsOwned in
          record {
            searchable = record {
              owned = compact_warm-IsOwned c stored o.cold_built pushed pw;
              published =
                  compact_warm-Published c stored o.cold_built pushed (push_warm-Published v _);
            };
            same = λ j s. ground (
              arith,
              found-compact_warm c stored o.cold_built pushed j pw s,
              found-push_warm v (remove_sealing_plain plain h) j removed-IsOwned,
              restored j,
              held j s,
            );
          }

  data Built (offsets : List PointOffset) : Result BuiltSegment → Type 0 where
    is_sealed : Built offsets (ok (sealed (read_vectors_for_offsets stored offsets)))
    is_warm : Built offsets (ok (warm (read_vectors_for_offsets stored offsets)))
    is_failed : (x : StorageError) → Built offsets (err x)

  Built-by :
      (offsets : List PointOffset) (none_found hnsw sealed_built warm_built : Bool)
      (x y z : StorageError)
      → Built offsets (
          let vectors = read_vectors_for_offsets stored offsets in
          if none_found
          then err x
          else if hnsw
          then (if sealed_built then ok (sealed vectors) else err y)
          else (if warm_built then ok (warm vectors) else err z))
  Built-by offsets true hnsw s w x y z = is_failed x
  Built-by offsets false true true w x y z = is_sealed
  Built-by offsets false true false w x y z = is_failed y
  Built-by offsets false false s true x y z = is_warm
  Built-by offsets false false s false x y z = is_failed z

  build_segment-Built :
      (hnsw : Bool) (offsets : List PointOffset)
      → Built offsets (build_segment c stored o hnsw offsets)
  unfolding build_segment
  build_segment-Built hnsw offsets =
      Built-by offsets (is_empty (read_vectors_for_offsets stored offsets)) hnsw o.sealed_built
        o.warm_built _ _ _

  install-Keeps :
      (plain : Arc) (h : SegmentHolder) (r : Result BuiltSegment)
      → IsOwned h
      → plain < h.next_arc
      → plain ≢ h.hot
      → ((j : PointOffset) → covers j (h.heap plain) ≡ true → found h j ≡ true)
      → Built (h.heap plain) r
      → Keeps stored h (install c stored o plain r h).1
  install-Keeps plain h _ w old other inside is_sealed =
      sealed-Keeps plain h w old other inside _
        λ j s. ground (arith, covers-read_vectors stored j (h.heap plain), s)
  install-Keeps plain h _ w old other inside is_warm =
      warm-Keeps plain h w old other inside _
        λ j s. ground (arith, covers-read_vectors stored j (h.heap plain), s)
  install-Keeps plain h _ w old other inside (is_failed x) =
      failed-Keeps plain h w old other inside x

  emptied-Keeps :
      (plain : Arc) (h : SegmentHolder)
      → IsOwned h
      → is_empty (h.heap plain) ≡ true
      → Keeps stored h (publish_snapshot (remove_sealing_plain plain h))
  unfolding publish_snapshot remove_sealing_plain covers
  emptied-Keeps plain h w e = record {
    searchable = record {
      owned =
          shrunk-IsOwned (remove_sealing_plain plain h) _ (remove_sealing_plain-IsOwned plain h w)
            refl refl (λ q d. d);
      published = publish-Published (remove_sealing_plain plain h);
    };
    same = λ j s.
        let nothing : covers j (h.heap plain) ≡ false = not_covered j (h.heap plain) e in
        ground (arith, found-remove_sealing_plain plain h j, nothing);
  }

  seal_popped-Keeps :
      (plain : Arc) (h0 h : SegmentHolder) (b : ResourceBudget)
      → Popped h0 h plain
      → Keeps stored h (seal_popped c stored o plain h b).1.0
  unfolding next_path seal_popped
  seal_popped-Keeps plain h0 h b p = elim (Bool-cases (is_empty (h.heap plain))) [
    | inl e ↦ rw (e) (emptied-Keeps plain h p.owned e)
    | inr e ↦ rw (e) (
        let kept =
          install-Keeps plain (next_path h) _ (next_path-IsOwned h p.owned) p.old p.other p.inside
            (build_segment-Built (use_hnsw c (length (h.heap plain)) b).0 (h.heap plain)) in
        record { searchable = kept.searchable; same = kept.same })
  ]

  pub process_one_seal-Keeps :
      (h : SegmentHolder) (b : ResourceBudget)
      → IsSearchable h
      → Keeps stored h (process_one_seal c stored o h b).1.0
  unfolding process_one_seal pop_sealing_plain
  process_one_seal-Keeps h b w = elim (Option-cases (pop_last h.lists.sealing_plain)) [
    | inl e ↦ rw (e, process_one_seal) (record { searchable = w; same = λ j s. refl })
    | inr ((plain, rest), e) ↦
        let popped = pop_sealing_plain-Popped h plain rest e w.owned in
        let kept = seal_popped-Keeps plain h _ b popped in
        rw (e, process_one_seal)
          (record { searchable = kept.searchable; same = λ j s. kept.same j s ∙ popped.same j })
  ]
