-- ===== src/Record.antt =====
-- crates/turbomemory_storage/src/record.rs, the errors of lib.rs and the tiers of config.rs.
-- An f32 that is only stored, copied or compared bit by bit is its 32-bit pattern, a number.
use turbo_supermemory.Common.{ℕ, String, List, Option, ◌≡◌, refl}

-- The text of an error is dropped.
pub data StorageError : Type 0 where
  core redb redb_storage redb_commit io serialize : StorageError
  duplicate_id not_found dimension_mismatch invalid_argument index_error corrupted : StorageError

pub data Result {ℓ} (A : Type ℓ) : Type ℓ where
  ok : A → Result A
  err : StorageError → Result A

infixl 10 ◌>>=◌
abbrev pub ◌>>=◌ {ℓ κ} : {V : Type ℓ} {W : Type κ} → Result V → (V → Result W) → Result W
err failure >>= next = err failure
ok value >>= next = next value

infixl 10 ◌>>◌
abbrev pub ◌>>◌ {ℓ} : {W : Type ℓ} → Result (Unit {0}) → Result W → Result W
first >> second = first >>= λ _. second

pub data Tier : Type 0 where
  hot warm cold : Tier

abbrev pub PointOffset : Type 0
PointOffset = ℕ

pub record MetaRecord : Type 0 where
  pub id : String
  pub text : String
  pub importance : ℕ
  pub concepts : List String
  pub created_at : ℕ
  pub insert_seq : ℕ
  pub access_count : ℕ
  pub last_accessed : ℕ
  pub tier : Tier
  pub payload : Option String
  pub scope : Option String
  pub source_role : Option String

pub record Record : Type 0 where
  pub id : String
  pub text : String
  pub embedding : List ℕ
  pub importance : ℕ
  pub concepts : List String
  pub created_at : ℕ
  pub insert_seq : ℕ
  pub access_count : ℕ
  pub last_accessed : ℕ
  pub tier : Tier
  pub payload : Option String
  pub scope : Option String
  pub source_role : Option String

abbrev pub with_tier : Record → Tier → Record
with_tier r t = record r { tier = t }

abbrev pub with_embedding : MetaRecord → List ℕ → Record
with_embedding m embedding = record {
  id = m.id;
  text = m.text;
  embedding = embedding;
  importance = m.importance;
  concepts = m.concepts;
  created_at = m.created_at;
  insert_seq = m.insert_seq;
  access_count = m.access_count;
  last_accessed = m.last_accessed;
  tier = m.tier;
  payload = m.payload;
  scope = m.scope;
  source_role = m.source_role;
}

-- `MetaRecord::from(&record)`
abbrev pub meta_of : Record → MetaRecord
meta_of r = record {
  id = r.id;
  text = r.text;
  importance = r.importance;
  concepts = r.concepts;
  created_at = r.created_at;
  insert_seq = r.insert_seq;
  access_count = r.access_count;
  last_accessed = r.last_accessed;
  tier = r.tier;
  payload = r.payload;
  scope = r.scope;
  source_role = r.source_role;
}

-- A record is its metadata with its embedding, and its metadata are what it was made from.
pub meta_of-with_embedding : (m : MetaRecord) (v : List ℕ) → meta_of (with_embedding m v) ≡ m
meta_of-with_embedding m v = refl
