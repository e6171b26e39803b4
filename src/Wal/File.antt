-- ===== src/Wal/File.antt =====
-- Opening, appending to, truncating and clearing the log. The file is its bytes and the cursor of
-- the one writer. Creating directories, `sync_data` and `sync_dir` do not change what is read.
use turbo_supermemory.Common.{
  ℕ, ◌+◌, ◌-◌, ◌^◌, max, List, [], ◌∷◌, ◌++◌, length, take, drop, replicate, none, some, Bool, true,
  false, not, ◌&&◌, ◌==◌, nat_eq, ltb, if◌then◌else◌,
}
use turbo_supermemory.Record.{invalid_argument, io, serialize, Result, ok, err}
use turbo_supermemory.Wal.Codec.{Bytes, WalOp, Codec}

abbrev pub wal_magic : Bytes
wal_magic = b'T' ∷ b'M' ∷ b'S' ∷ b'W' ∷ []

abbrev pub wal_version_1 : ℕ
wal_version_1 = 1

abbrev pub wal_version : ℕ
wal_version = 2

abbrev pub wal_header_size : ℕ
wal_header_size = 8

-- length prefix and checksum
abbrev pub frame_overhead : ℕ
frame_overhead = 8

pub record Wal : Type 0 where
  pub bytes : Bytes
  pub cursor : ℕ
  pub version : ℕ

-- How one `write_all` ends: whole, or after `written` bytes; then the `set_len` that rolls it back
-- may fail too.
pub data Write : Type 0 where
  whole : Write
  partial : (written : ℕ) (rolled_back : Bool) → Write

unfoldable pub eq_bytes : Bytes → Bytes → Bool
eq_bytes [] [] = true
eq_bytes (x ∷ xs) (y ∷ ys) = x == y && eq_bytes xs ys
eq_bytes _ _ = false

-- A write at the cursor, over what is there; a gap behind the end reads as zeros.
unfoldable pub write_at : ℕ → Bytes → Bytes → Bytes
write_at start buf file =
    take start (file ++ replicate (start - length file) 0)
    ++ (buf ++ drop (start + length buf) file)

-- `set_len`
unfoldable pub set_len : ℕ → Bytes → Bytes
set_len n file = take n (file ++ replicate (n - length file) 0)

-- the one `write_all` of a batch, with its roll-back
unfoldable pub write_all : Write → Bytes → Wal → Result (Unit {0}) × Wal
unfolding write_at set_len
write_all whole buf w =
    (ok tt, record w { bytes = write_at w.cursor buf w.bytes; cursor = w.cursor + length buf })
write_all (partial written true) buf w =
    (err io, record w { bytes = set_len w.cursor (write_at w.cursor (take written buf) w.bytes) })
write_all (partial written false) buf w =
    (err io, record w { bytes = write_at w.cursor (take written buf) w.bytes })

unfoldable pub truncate_to : ℕ → Wal → Wal
unfolding set_len
truncate_to valid_end w =
    let valid_end = max valid_end wal_header_size in
    record w { bytes = set_len valid_end w.bytes; cursor = valid_end }

abbrev pub needs_upgrade : Wal → Bool
needs_upgrade w = not (w.version == wal_version)

-- How `clear` ends: the file was not emptied, its new header was written up to some byte, or in whole
-- but not synced, or all is done.
pub data Clearing : Type 0 where
  not_emptied : Clearing
  half_written : (written : ℕ) → Clearing
  unsynced : Clearing
  cleared : Clearing

module _ (c : Codec) where
  abbrev pub header_bytes : ℕ → Bytes
  header_bytes version = wal_magic ++ c.to_ne_bytes version

  unfoldable pub open_wal : Bytes → Result Wal
  unfolding eq_bytes
  open_wal file =
      if ltb (length file) wal_header_size
      then ok (record {
        bytes = header_bytes wal_version;
        cursor = length (header_bytes wal_version);
        version = wal_version;
      })
      else if not (eq_bytes (take 4 file) wal_magic)
      then err invalid_argument
      else (let version = c.from_ne_bytes (take 4 (drop 4 file)) in
          if not (version == wal_version) && not (version == wal_version_1)
          then err invalid_argument
          else ok (record { bytes = file; cursor = length file; version = version }))

  -- the frame of one operation, behind what the buffer holds
  unfoldable pub write_op_to_buffer : Bytes → WalOp → Result Bytes
  write_op_to_buffer buf op = elim (c.serialize op) [
    | none ↦ err serialize
    | some payload ↦
        if ltb (length payload) (2 ^ 32)
        then ok (buf ++ (c.write_u32 (length payload) ++ (payload ++ c.write_u32 (c.hash payload))))
        else err invalid_argument
  ]

  unfoldable pub write_ops : Bytes → List WalOp → Result Bytes
  write_ops buf [] = ok buf
  write_ops buf (op ∷ ops) = elim (write_op_to_buffer buf op) [
    | ok buf' ↦ write_ops buf' ops
    | err e ↦ err e
  ]

  unfoldable pub append_batch : Write → List WalOp → Wal → Result (Unit {0}) × Wal
  append_batch outcome [] w = (ok tt, w)
  append_batch outcome (op ∷ ops) w =
      if needs_upgrade w
      then (err invalid_argument, w)
      else elim (write_ops [] (op ∷ ops)) [ err e ↦ (err e, w) | ok buf ↦ write_all outcome buf w ]

  unfoldable pub append : Write → WalOp → Wal → Result (Unit {0}) × Wal
  unfolding append_batch
  append outcome op w = append_batch outcome (op ∷ []) w

  unfoldable pub clear : Clearing → Wal → Result (Unit {0}) × Wal
  clear not_emptied w = (err io, w)
  clear (half_written n) w =
      let header = take n (header_bytes wal_version) in
      (err io, record w { bytes = header; cursor = length header })
  clear unsynced w =
      let header = header_bytes wal_version in
      (err io, record w { bytes = header; cursor = length header })
  clear cleared w =
      let header = header_bytes wal_version in
      (ok tt, record { bytes = header; cursor = length header; version = wal_version })
