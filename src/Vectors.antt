-- ===== src/Vectors.antt =====
-- crates/turbomemory_storage/src/vector_store.rs: the vectors of all offsets in one mapped file. The
-- file is its header and its rows; a row is the bit patterns of its f32 values, so the four bytes of
-- each are one number. A byte count that does not fit 64 bits is refused, as in the source.
pub mod Slots
pub mod Survival
pub mod Found
use turbo_supermemory.Common.{
  ℕ, zero, suc, ◌+◌, ◌-◌, ◌*◌, ◌%◌, ◌^◌, max, min, List, [], ◌∷◌, ◌++◌, length, get_elem?, set,
  take, replicate, Option, none, some, Bool, true, false, not, ◌&&◌, ◌||◌, ltb, leb, ◌==◌, nat_eq,
  if◌then◌else◌,
}
use turbo_supermemory.Record.{
  StorageError, invalid_argument, dimension_mismatch, io, PointOffset, Result, ok, err, ◌>>=◌, ◌>>◌,
}

-- `b"TMDV"` read as a number
abbrev pub magic : ℕ
magic = 0x544d4456

abbrev pub version : ℕ
version = 2

abbrev pub header_size : ℕ
header_size = 40

pub record Header : Type 0 where
  pub magic : ℕ
  pub version : ℕ
  pub dimension : ℕ
  pub count : ℕ
  pub header_crc : ℕ

-- `crc32fast::hash` of the bytes of a header and of a row; `is_finite` and `!= 0.0` on f32.
pub record Checks : Type 0 where
  pub hash_header : Header → ℕ
  pub hash_row : List ℕ → ℕ
  pub is_finite : ℕ → Bool
  pub is_nonzero : ℕ → Bool

-- What stays when the process dies: the mapped pages are the file.
pub record VectorFile : Type 0 where
  pub header : Header
  pub rows : List (List ℕ)

pub record VectorStore : Type 0 where
  pub file : VectorFile
  pub open file use *
  pub mapped : Bool
  pub dim : ℕ
  pub count : ℕ
  pub slots : ℕ

abbrev pub compute_header_crc : Checks → Header → ℕ
compute_header_crc k h = k.hash_header (record h { header_crc = 0 })

unfoldable pub validate_header : Checks → Header → ℕ → Result (Unit {0})
validate_header k h expected_dim =
    if not (h.magic == magic)
    then err invalid_argument
    else if not (h.version == version)
    then err invalid_argument
    else if not (h.dimension == expected_dim)
    then err dimension_mismatch
    else if not (compute_header_crc k h == h.header_crc)
    then err invalid_argument
    else ok tt

-- `dim as u32` keeps the lower 32 bits.
unfoldable pub stamp : Checks → ℕ → ℕ → Header
stamp k dim count =
    let h : Header = record {
      magic = magic;
      version = version;
      dimension = dim % 2 ^ 32;
      count = count;
      header_crc = 0;
    } in
    record h { header_crc = compute_header_crc k h }

abbrev pub fits : ℕ → ℕ → Bool
fits slots dim = ltb (header_size + slots * dim * 4) (2 ^ 64)

unfoldable pub new_with_capacity : Checks → ℕ → ℕ → Result VectorStore
unfolding stamp
new_with_capacity k dim initial_slots =
    if dim == 0
    then err invalid_argument
    else (let slots = max initial_slots 1024 in
        if fits slots dim
        then ok (record {
          file = record { header = stamp k dim 0; rows = replicate slots (replicate dim 0) };
          mapped = true;
          dim = dim;
          count = 0;
          slots = slots;
        })
        else err invalid_argument)

-- An existing file. Its slots are the rows that it has room for; one that is shorter than a header,
-- which the source refuses, is no `VectorFile`.
unfoldable pub open_vectors : Checks → ℕ → VectorFile → Result VectorStore
unfolding validate_header
open_vectors k dim f = do
  validate_header k f.header dim
  ok (record {
    file = f;
    mapped = true;
    dim = dim;
    count = min f.header.count (length f.rows);
    slots = length f.rows;
  })

-- How the resize of the file ends: done, or `set_len` failed and the old mapping is back or not, or
-- the new size could not be mapped.
pub data Resize : Type 0 where
  resized : Resize
  refused : (remapped : Bool) → Resize
  unmapped : Resize

-- `set_len` to room for `n` rows: cut, or filled up with zeros.
unfoldable pub resize_rows : ℕ → ℕ → List (List ℕ) → List (List ℕ)
resize_rows n dim rows = take n (rows ++ replicate (n - length rows) (replicate dim 0))

unfoldable pub grown_slots : ℕ → ℕ → ℕ
grown_slots slots min_idx = max (max (min_idx + 1) (min (slots * 2) (2 ^ 64 - 1))) 1024

unfoldable pub grow_inner : Checks → Resize → ℕ → VectorStore → Result (Unit {0}) × VectorStore
unfolding stamp resize_rows
grow_inner k outcome min_idx s =
    let new_slots = grown_slots s.slots min_idx in
    if not (fits new_slots s.dim) then (err invalid_argument, s) else elim outcome [
      | refused remapped ↦ (err io, record s { mapped = remapped })
      | unmapped ↦ (
        err io,
        record s {
          file = record { header = s.header; rows = resize_rows new_slots s.dim s.rows };
          mapped = false;
        },
      )
      | resized ↦ (
        ok tt,
        record s {
          file = record {
            header = stamp k s.dim s.count;
            rows = resize_rows new_slots s.dim s.rows;
          };
          mapped = true;
          slots = new_slots;
        },
      )
    ]

unfoldable pub write_row : PointOffset → List ℕ → VectorStore → Result (Unit {0}) × VectorStore
write_row idx vector s =
    if s.mapped
    then (
      ok tt,
      record s {
        file = record { header = s.header; rows = set s.rows idx vector };
        count = max s.count (idx + 1);
      },
    )
    else (err io, s)

-- `grow_inner(…)?`, then the write
abbrev pub write_grown :
    PointOffset → List ℕ → Result (Unit {0}) × VectorStore → Result (Unit {0}) × VectorStore
write_grown offset vector (ok _, s) = write_row offset vector s
write_grown offset vector (err e, s) = (err e, s)

unfoldable pub put :
    Checks → Resize → PointOffset → List ℕ → VectorStore → Result (Unit {0}) × VectorStore
put k outcome offset vector s =
    if not (length vector == s.dim)
    then (err dimension_mismatch, s)
    else if leb s.slots offset
    then write_grown offset vector (grow_inner k outcome offset s)
    else write_row offset vector s

unfoldable pub all_finite : Checks → List ℕ → Bool
all_finite k [] = true
all_finite k (x ∷ xs) = k.is_finite x && all_finite k xs

unfoldable pub any_nonzero : Checks → List ℕ → Bool
any_nonzero k [] = false
any_nonzero k (x ∷ xs) = k.is_nonzero x || any_nonzero k xs

-- The logged checksum, or for a log without one a finite vector that is not all zeros.
unfoldable pub accepts : Checks → Option ℕ → List ℕ → Bool
accepts k (some crc) row = k.hash_row row == crc
accepts k none row = all_finite k row && any_nonzero k row

unfoldable pub recover :
    Checks → PointOffset → Option ℕ → VectorStore → Option (List ℕ) × VectorStore
unfolding accepts
recover k offset expected_crc s =
    if leb s.slots offset || not s.mapped then (none, s) else elim (get_elem? s.rows offset) [
      | none ↦ (none, s)
      | some row ↦
          if accepts k expected_crc row
          then (some row, record s { count = max s.count (offset + 1) })
          else (none, s)
    ]

unfoldable pub get : PointOffset → VectorStore → Option (List ℕ)
get offset s =
    if leb s.count offset then none else if s.mapped then get_elem? s.rows offset else none

-- The header count is stamped, the rest of the header stays, and the pages are synced to the disk,
-- which may fail when the mapped header has the count already.
unfoldable pub flush : Checks → (synced : Bool) → VectorStore → Result (Unit {0}) × VectorStore
flush k synced s =
    if s.mapped
    then (let h = record s.header { count = s.count } in
        (
          if synced then ok tt else err io,
          record s {
            file = record {
              header = record h { header_crc = compute_header_crc k h };
              rows = s.rows;
            };
          },
        ))
    else (err io, s)
