-- ===== src/Tests/Log.antt =====
-- The theorems on crates/turbomemory_storage/src/wal.rs with a codec of two small operations.
use turbo_supermemory.Common.{
  ℕ, ◌+◌, ◌*◌, ◌/◌, ◌%◌, ◌^◌, ◌<◌, ◌≡◌, refl, List, [], ◌∷◌, ◌++◌, length, take, Option, none, some,
  true, arith, ◌==◌, nat_eq, ltb, if◌then◌else◌,
}
use turbo_supermemory.Record.{io, ok, err}
use turbo_supermemory.Wal.Codec.{Bytes, WalOp, Codec, IsCodec}
use turbo_supermemory.Wal.File.{
  Wal, whole, partial, wal_version, header_bytes, open_wal, append_batch, truncate_to, write_ops,
  write_op_to_buffer, write_all, write_at, set_len,
}
use turbo_supermemory.Wal.Iter.{discarded_bytes, read_all}
use turbo_supermemory.Wal.Frames.{frame_of}
use turbo_supermemory.Wal.Torn.{bad_checksum}
use turbo_supermemory.Wal.Recovery.{
  Holds, append_batch-Holds, append_batch_failed, read_all-Holds, read_damaged, Survives,
  reopen_cut, reopen_without_header,
}

abbrev word : ℕ → Bytes
word n = (n / 16777216 % 256) ∷ (n / 65536 % 256) ∷ (n / 256 % 256) ∷ (n % 256) ∷ []

abbrev value : Bytes → ℕ
value (a ∷ b ∷ c ∷ d ∷ []) = a * 16777216 + b * 65536 + c * 256 + d
value bytes = 0

abbrev write : WalOp → Option Bytes
write (WalOp.delete o) = if ltb o 256 then some (1 ∷ o ∷ []) else none
write (WalOp.flush o) = if ltb o 256 then some (2 ∷ o ∷ []) else none
write (WalOp.insert o seq m crc) = none
write (WalOp.replace old o seq m crc) = none

abbrev read : Bytes → Option WalOp
read (tag ∷ o ∷ []) =
    if tag == 1 then some (WalOp.delete o) else if tag == 2 then some (WalOp.flush o) else none
read bytes = none

abbrev codec : Codec
codec = record {
  serialize = write;
  deserialize = read;
  deserialize_v1 = λ p. none;
  hash = λ p. length p % 2 ^ 32;
  write_u32 = word;
  read_u32 = value;
  to_ne_bytes = word;
  from_ne_bytes = value;
}

read-write : (op : WalOp) (p : Bytes) → write op ≡ some p → read p ≡ some op
read-write (WalOp.delete o) p h = ground arith
read-write (WalOp.flush o) p h = ground arith
read-write (WalOp.insert o seq m crc) p h = cc
read-write (WalOp.replace old o seq m crc) p h = cc

write_nonempty : (op : WalOp) (p : Bytes) → write op ≡ some p → 0 < length p
write_nonempty (WalOp.delete o) p h = ground arith
write_nonempty (WalOp.flush o) p h = ground arith
write_nonempty (WalOp.insert o seq m crc) p h = cc
write_nonempty (WalOp.replace old o seq m crc) p h = cc

value-word : (n : ℕ) → n < 2 ^ 32 → value (word n) ≡ n
value-word n h = omega arith

codec-IsCodec : IsCodec codec
codec-IsCodec = record {
  deserialize-serialize = read-write;
  serialize_nonempty = write_nonempty;
  hash_lt = λ p. omega arith;
  length-write_u32 = λ n. refl;
  read_u32-write_u32 = value-word;
  length-to_ne_bytes = λ n. refl;
  from_ne_bytes-to_ne_bytes = value-word;
}

abbrev empty : Wal
empty = record { bytes = header_bytes codec wal_version; cursor = 8; version = wal_version }

empty-Holds : Holds codec codec-IsCodec empty []
empty-Holds = record { current = refl; at_end = refl; body = []; layout = refl; encodes = refl }

abbrev two_ops : List WalOp
two_ops = WalOp.delete 7 ∷ WalOp.flush 9 ∷ []

abbrev appended : Wal
appended = (append_batch codec whole two_ops empty).1

appended_ok : append_batch codec whole two_ops empty ≡ (ok tt, appended)
unfolding append_batch write_ops write_op_to_buffer write_all write_at
appended_ok = refl

appended-Holds : Holds codec codec-IsCodec appended two_ops
appended-Holds =
    append_batch-Holds codec codec-IsCodec empty appended [] two_ops empty-Holds appended_ok

append_batch-Holds_example : Holds codec codec-IsCodec appended ([] ++ two_ops)
append_batch-Holds_example =
    append_batch-Holds codec codec-IsCodec empty appended [] two_ops empty-Holds appended_ok

failed : append_batch codec (partial 5 true) two_ops empty ≡ (err io, empty)
unfolding append_batch write_ops write_op_to_buffer write_all write_at set_len
failed = refl

append_batch_failed_example : empty ≡ empty
append_batch_failed_example =
    append_batch_failed codec codec-IsCodec empty empty [] two_ops 5 io empty-Holds failed

read_all-Holds_example :
    ((read_all codec appended).0 ≡ two_ops) × (discarded_bytes (read_all codec appended).1 ≡ 0)
read_all-Holds_example = read_all-Holds codec codec-IsCodec appended two_ops appended-Holds

abbrev one_frame : Bytes
one_frame = frame_of codec codec-IsCodec (1 ∷ 7 ∷ [])

abbrev garbage : Bytes
garbage = 1 ∷ 2 ∷ 3 ∷ []

-- A frame with another checksum, and bytes behind it.
abbrev bad_frame : Bytes
bad_frame = word 2 ++ ((1 ∷ 7 ∷ []) ++ (word 9 ++ garbage))

abbrev damaged : Wal
damaged = record {
  bytes = header_bytes codec wal_version ++ (one_frame ++ bad_frame);
  cursor = 31;
  version = wal_version;
}

read_damaged_example :
    ((read_all codec damaged).0 ≡ WalOp.delete 7 ∷ [])
    × (discarded_bytes (read_all codec damaged).1 ≡ 13)
    × Holds codec codec-IsCodec
        (truncate_to (read_all codec damaged).1.valid_end damaged)
        (WalOp.delete 7 ∷ [])
read_damaged_example =
    read_damaged codec codec-IsCodec damaged (WalOp.delete 7 ∷ []) one_frame bad_frame refl refl
      (1 ∷ 7 ∷ [], [], refl, omega arith, refl, refl)
      (bad_checksum (1 ∷ 7 ∷ []) garbage 9 (omega arith) (omega arith) (λ e. omega arith))

reopen_cut_example : Survives codec codec-IsCodec two_ops 20 (take 20 appended.bytes)
reopen_cut_example = reopen_cut codec codec-IsCodec appended two_ops 20 appended-Holds (omega arith)

reopen_without_header_example :
    (w : Wal) × (open_wal codec garbage ≡ ok w) × Holds codec codec-IsCodec w []
reopen_without_header_example = reopen_without_header codec codec-IsCodec garbage (omega arith)
