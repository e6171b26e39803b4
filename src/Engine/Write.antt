-- ===== src/Engine/Write.antt =====
-- crates/turbomemory_storage/src/engine/write.rs. A call holds the write lock from its id check to
-- its last step, so it runs alone from there; the flush barrier keeps a flush out as well. What is
-- read before the lock (`id_index` in `update`, the vocabulary) is read in the same state here.
use turbo_supermemory.Common.{
  ℕ, String, List, [], ◌∷◌, length, Option, none, some, Bool, true, false, not, ◌==◌, nat_eq,
  string_eq, if◌then◌else◌,
}
use turbo_supermemory.Common.Dict.{lookup, has_key}
use turbo_supermemory.Record.{
  invalid_argument, core, duplicate_id, Record, meta_of, PointOffset, Result, ok, err, ◌>>=◌, hot,
}
use turbo_supermemory.Wal.Codec.{WalOp}
use turbo_supermemory.Metadata.{allocate_offset, allocate_seq}
use turbo_supermemory.Vectors.{Checks}
use turbo_supermemory.Engine.{
  Engine, Outcome, continue, put_vector, sync_vectors_if_configured, log, submit_and_wait,
  remove_from_indexes,
}

pub record WriteInput : Type 0 where
  pub id : String
  pub text : String
  pub embedding : List ℕ
  pub importance : ℕ
  pub concepts : List String
  pub payload : Option String
  pub scope : Option String
  pub source_role : Option String

pub record PreparedRecord : Type 0 where
  pub id : String
  pub text : String
  pub embedding : List ℕ
  pub importance : ℕ
  pub concepts : List String
  pub payload : Option String
  pub scope : Option String
  pub source_role : Option String

-- The floating-point `normalize`, `is_finite`, the JSON parser, and the concept extractor with its
-- configuration and the vocabulary of the moment.
pub record Inputs : Type 0 where
  pub normalize : List ℕ → Result (List ℕ)
  pub is_finite : ℕ → Bool
  pub valid_json : String → Bool
  pub merge_concepts : List String → String → List String

abbrev pub into_record : PreparedRecord → ℕ → ℕ → Record
into_record p now seq = record {
  id = p.id;
  text = p.text;
  embedding = p.embedding;
  importance = p.importance;
  concepts = p.concepts;
  created_at = now;
  insert_seq = seq;
  access_count = 0;
  last_accessed = 0;
  tier = hot;
  payload = p.payload;
  scope = p.scope;
  source_role = p.source_role;
}

abbrev payload_ok : Inputs → Option String → Bool
payload_ok x none = true
payload_ok x (some p) = x.valid_json p

unfoldable pub prepare : Inputs → ℕ → WriteInput → Result PreparedRecord
prepare x dimension input =
    if input.id == ""
    then err invalid_argument
    else if not (length input.embedding == dimension)
    then err core
    else if not (x.is_finite input.importance)
    then err invalid_argument
    else if not (payload_ok x input.payload)
    then err invalid_argument
    else x.normalize input.embedding >>= λ emb. ok (record {
      id = input.id;
      text = input.text;
      embedding = emb;
      importance = input.importance;
      concepts = x.merge_concepts input.concepts input.text;
      payload = input.payload;
      scope = input.scope;
      source_role = input.source_role;
    })

-- `(allocate_offset(), into_record(allocate_seq()))`
unfoldable pub allocate : ℕ → PreparedRecord → Engine → (PointOffset × Record) × Engine
allocate now p e =
    let (offset, m) = allocate_offset e.meta in
    let (seq, m') = allocate_seq m in ((offset, into_record p now seq), record e { meta = m' })

module _ (k : Checks) where
  abbrev pub insert_op : PointOffset → Record → WalOp
  insert_op offset r = WalOp.insert offset r.insert_seq (meta_of r) (some (k.hash_row r.embedding))

  abbrev pub replace_op : PointOffset → PointOffset → Record → WalOp
  replace_op old_offset offset r =
      WalOp.replace old_offset offset r.insert_seq (meta_of r) (k.hash_row r.embedding)

  module _ (x : Inputs) (o : Outcome) (now : ℕ) where
    -- vector, log, indexes: the order of every insert
    unfoldable pub commit_insert : (PointOffset × Record) → Engine → Result Bool × Engine
    commit_insert (offset, r) e = continue (put_vector k o offset r.embedding e) λ _ e1.
        continue (sync_vectors_if_configured o e1) λ _ e2.
          continue (log o (insert_op offset r ∷ []) e2)
            λ _ e3. continue (submit_and_wait o ((offset, r) ∷ []) e3) λ _ e4. (ok true, e4)

    unfoldable pub insert_with_payload_role : WriteInput → Engine → Result Bool × Engine
    unfolding allocate
    insert_with_payload_role input e = elim (prepare x e.dimension input) [
      | err s ↦ (err s, e)
      | ok p ↦
          if has_key input.id e.id_index
          then (err duplicate_id, e)
          else (let (placed, e') = allocate now p e in commit_insert placed e')
    ]

    unfoldable pub delete_where : String → (PointOffset → Bool) → Engine → Result Bool × Engine
    delete_where id matches e = elim (lookup id e.id_index) [
      | none ↦ (ok false, e)
      | some offset ↦
          if matches offset
          then (continue (log o (WalOp.delete offset ∷ []) e)
              λ _ e1. continue (remove_from_indexes o id offset e1) λ _ e2. (ok true, e2))
          else (ok false, e)
    ]

    unfoldable pub delete_by_id : String → Engine → Result Bool × Engine
    unfolding delete_where
    delete_by_id id = delete_where id (λ _. true)

    unfoldable pub delete_by_id_at : String → PointOffset → Engine → Result Bool × Engine
    unfolding delete_where
    delete_by_id_at id offset = delete_where id (λ current. current == offset)

    -- vector, one log record for the swap, indexes
    unfoldable pub commit_replace :
        String → PointOffset → (PointOffset × Record) → Engine → Result Bool × Engine
    commit_replace id old_offset (offset, r) e =
        continue (put_vector k o offset r.embedding e) λ _ e1.
          continue (sync_vectors_if_configured o e1) λ _ e2.
            continue (log o (replace_op old_offset offset r ∷ []) e2) λ _ e3.
              continue (remove_from_indexes o id old_offset e3)
                λ _ e4. continue (submit_and_wait o ((offset, r) ∷ []) e4) λ _ e5. (ok true, e5)

    unfoldable pub update_with_payload_role : WriteInput → Engine → Result Bool × Engine
    unfolding allocate
    update_with_payload_role input e = elim (lookup input.id e.id_index) [
      | none ↦ (ok false, e)
      | some old_offset ↦ elim (prepare x e.dimension input) [
        | err s ↦ (err s, e)
        | ok p ↦ let (placed, e') = allocate now p e in commit_replace input.id old_offset placed e'
      ]
    ]
