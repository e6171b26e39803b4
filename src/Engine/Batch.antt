-- ===== src/Engine/Batch.antt =====
-- The batch insert of crates/turbomemory_storage/src/engine/write.rs. The slices of the call are
-- lists; where the source indexes them behind its length check, they are walked together.
use turbo_supermemory.Common.{
  ℕ, String, List, [], ◌∷◌, length, Option, none, Bool, false, not, ◌&&◌, ◌||◌, ◌==◌, nat_eq,
  string_eq, if◌then◌else◌, is_empty,
}
use turbo_supermemory.Common.Dict.{has_key}
use turbo_supermemory.Record.{invalid_argument, Record, PointOffset, Result, ok, err, ◌>>=◌}
use turbo_supermemory.Wal.Codec.{WalOp}
use turbo_supermemory.Vectors.{Checks, Resize}
use turbo_supermemory.Engine.{
  Engine, Outcome, Action, continue, put_vector, sync_vectors_if_configured, log, submit_and_wait,
}
use turbo_supermemory.Engine.Write.{
  WriteInput, PreparedRecord, Inputs, prepare, allocate, insert_op,
}

pub record BatchInput : Type 0 where
  pub ids : List String
  pub texts : List String
  pub embeddings : List (List ℕ)
  pub importances : List ℕ
  pub concepts : List (List String)
  pub payloads : List (Option String)
  pub scopes : List (Option String)
  pub source_roles : List (Option String)

-- `!xs.is_empty() && xs.len() != n`
abbrev wrong_length {ℓ} : {A : Type ℓ} → ℕ → List A → Bool
wrong_length n xs = not (is_empty xs) && not (length xs == n)

unfoldable pub mismatched : BatchInput → Bool
mismatched b =
    let n = length b.ids in
    not (length b.texts == n)
    || (not (length b.embeddings == n)
        || (not (length b.importances == n)
            || (not (length b.concepts == n)
                || (wrong_length n b.payloads
                    || (wrong_length n b.scopes || wrong_length n b.source_roles)))))

-- `xs.get(i).cloned().flatten()` at the front, and the rest
abbrev first : List (Option String) → Option String
first [] = none
first (x ∷ xs) = x

abbrev others : List (Option String) → List (Option String)
others [] = []
others (x ∷ xs) = xs

unfoldable pub inputs_of :
    List String
    → List String
    → List (List ℕ)
    → List ℕ
    → List (List String)
    → List (Option String)
    → List (Option String)
    → List (Option String)
    → List WriteInput
inputs_of (id ∷ ids) (text ∷ texts) (emb ∷ embs) (imp ∷ imps) (cs ∷ css) ps ss rs =
    record {
      id = id;
      text = text;
      embedding = emb;
      importance = imp;
      concepts = cs;
      payload = first ps;
      scope = first ss;
      source_role = first rs;
    }
    ∷ inputs_of ids texts embs imps css (others ps) (others ss) (others rs)
inputs_of _ _ _ _ _ ps ss rs = []

unfoldable pub contains : String → List String → Bool
contains id [] = false
contains id (s ∷ seen) = s == id || contains id seen

-- Every record is validated; the first of each id is kept.
unfoldable pub prepare_batch :
    Inputs → ℕ → List WriteInput → List String → Result (List PreparedRecord)
unfolding contains
prepare_batch x dimension [] seen = ok []
prepare_batch x dimension (w ∷ ws) seen =
    let fresh = not (contains w.id seen) in
    let rest = prepare_batch x dimension ws (if fresh then w.id ∷ seen else seen) in
    prepare x dimension w >>= λ p. rest >>= λ ps. ok (if fresh then p ∷ ps else ps)

-- `prepared.retain(…)`
unfoldable pub retain_new : List PreparedRecord → Engine → List PreparedRecord
retain_new [] e = []
retain_new (p ∷ ps) e =
    let rest = retain_new ps e in if has_key p.id e.id_index then rest else p ∷ rest

unfoldable pub allocate_all :
    ℕ → List PreparedRecord → Engine → List (PointOffset × Record) × Engine
unfolding allocate
allocate_all now [] e = ([], e)
allocate_all now (p ∷ ps) e =
    let (placed, e1) = allocate now p e in
    let (rest, e2) = allocate_all now ps e1 in (placed ∷ rest, e2)

module _ (k : Checks) where
  unfoldable pub put_vectors :
      Outcome → (PointOffset → Resize) → List (PointOffset × Record) → Action (Unit {0})
  put_vectors o resizes [] e = (ok tt, e)
  put_vectors o resizes ((offset, r) ∷ rest) e =
      continue (put_vector k (record o { resize = resizes offset }) offset r.embedding e)
        λ _ e1. put_vectors o resizes rest e1

  abbrev pub insert_ops : List (PointOffset × Record) → List WalOp
  insert_ops [] = []
  insert_ops ((offset, r) ∷ rest) = insert_op k offset r ∷ insert_ops rest

  module _ (x : Inputs) (o : Outcome) (resizes : PointOffset → Resize) (now : ℕ) where
    -- all vectors, one write to the log, the indexes
    unfoldable pub commit_batch : List (PointOffset × Record) → Action ℕ
    commit_batch records e = continue (put_vectors o resizes records e) λ _ e1.
        continue (sync_vectors_if_configured o e1) λ _ e2.
          continue (log o (insert_ops records) e2)
            λ _ e3. continue (submit_and_wait o records e3) λ _ e4. (ok (length records), e4)

    unfoldable pub insert_prepared : List PreparedRecord → Action ℕ
    insert_prepared [] e = (ok 0, e)
    insert_prepared (p ∷ ps) e =
        let (records, e') = allocate_all now (p ∷ ps) e in commit_batch records e'

    unfoldable pub insert_batch_with_payload_role : BatchInput → Action ℕ
    unfolding inputs_of retain_new
    insert_batch_with_payload_role b e =
        if is_empty b.ids
        then (ok 0, e)
        else if mismatched b
        then (err invalid_argument, e)
        else elim (prepare_batch x e.dimension
            (inputs_of b.ids b.texts b.embeddings b.importances b.concepts b.payloads b.scopes
              b.source_roles)
            []) [ err s ↦ (err s, e) | ok prepared ↦ insert_prepared (retain_new prepared e) e ]
