-- ===== src/Wal/Codec.antt =====
-- The operations of the log, and the code of other packages that turns them into bytes.
use turbo_supermemory.Common.{ℕ, ◌^◌, ◌<◌, List, length, Option, none, some, ◌≡◌}
use turbo_supermemory.Record.{MetaRecord}

abbrev pub Bytes : Type 0
Bytes = List ℕ

pub data WalOp : Type 0 where
  insert : (offset seq : ℕ) (meta : MetaRecord) (vector_crc : Option ℕ) → WalOp
  delete : (offset : ℕ) → WalOp
  flush : (offset : ℕ) → WalOp
  replace : (old_offset offset seq : ℕ) (meta : MetaRecord) (vector_crc : ℕ) → WalOp

pub data WalOpV1 : Type 0 where
  insert : (offset seq : ℕ) (meta : MetaRecord) → WalOpV1
  delete : (offset : ℕ) → WalOpV1
  flush : (offset : ℕ) → WalOpV1

abbrev pub from_v1 : WalOpV1 → WalOp
from_v1 (WalOpV1.insert offset seq meta) = WalOp.insert offset seq meta none
from_v1 (WalOpV1.delete offset) = WalOp.delete offset
from_v1 (WalOpV1.flush offset) = WalOp.flush offset

-- `bincode` (a failure is `none`), `crc32fast`, the big-endian words of `byteorder`, and the
-- platform's `to_ne_bytes` and `from_ne_bytes`.
pub record Codec : Type 0 where
  pub serialize : WalOp → Option Bytes
  pub deserialize : Bytes → Option WalOp
  pub deserialize_v1 : Bytes → Option WalOpV1
  pub hash : Bytes → ℕ
  pub write_u32 : ℕ → Bytes
  pub read_u32 : Bytes → ℕ
  pub to_ne_bytes : ℕ → Bytes
  pub from_ne_bytes : Bytes → ℕ

-- What they promise: bincode reads back what it wrote, and writes at least the variant's tag; the
-- words take four bytes and read back; a checksum is a 32-bit word.
pub record IsCodec (c : Codec) : Type 0 where
  pub deserialize-serialize :
      (op : WalOp) (p : Bytes) → c.serialize op ≡ some p → c.deserialize p ≡ some op
  pub serialize_nonempty : (op : WalOp) (p : Bytes) → c.serialize op ≡ some p → 0 < length p
  pub hash_lt : (p : Bytes) → c.hash p < 2 ^ 32
  pub length-write_u32 : (n : ℕ) → length (c.write_u32 n) ≡ 4
  pub read_u32-write_u32 : (n : ℕ) → n < 2 ^ 32 → c.read_u32 (c.write_u32 n) ≡ n
  pub length-to_ne_bytes : (n : ℕ) → length (c.to_ne_bytes n) ≡ 4
  pub from_ne_bytes-to_ne_bytes : (n : ℕ) → n < 2 ^ 32 → c.from_ne_bytes (c.to_ne_bytes n) ≡ n
