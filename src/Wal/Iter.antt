-- ===== src/Wal/Iter.antt =====
-- Reading frames until the end of the log or the first unreadable frame. A read of the file fails
-- only by its end; other I/O errors, which `next` passes on, are not modelled.
use turbo_supermemory.Common.{
  ℕ, zero, suc, ◌+◌, ◌-◌, List, [], ◌∷◌, length, take, drop, Option, none, some, Bool, true, false,
  not, ◌||◌, ◌==◌, nat_eq, ltb, if◌then◌else◌,
}
use turbo_supermemory.Wal.Codec.{Bytes, WalOp, Codec, from_v1}
use turbo_supermemory.Wal.File.{Wal, wal_version_1, wal_header_size, frame_overhead}

pub record WalIter : Type 0 where
  pub reader : Bytes
  pub version : ℕ
  pub valid_end : ℕ
  pub file_len : ℕ
  pub done : Bool

-- What `read_frame` returns: `Ok(Some(op))`, `Ok(None)`, or the error `UnexpectedEof`.
pub data Frame : Type 0 where
  frame : WalOp → Frame
  unreadable : Frame
  eof : Frame

abbrev pub iter : Wal → WalIter
iter w = record {
  reader = drop wal_header_size w.bytes;
  version = w.version;
  valid_end = wal_header_size;
  file_len = length w.bytes;
  done = false;
}

abbrev pub discarded_bytes : WalIter → ℕ
discarded_bytes it = it.file_len - it.valid_end

-- `read_exact` of `n` bytes, and the reader behind them; `none` is `UnexpectedEof`.
unfoldable pub read_exact : ℕ → Bytes → Option (Bytes × Bytes)
read_exact n reader = if ltb (length reader) n then none else some (take n reader, drop n reader)

module _ (c : Codec) where
  abbrev pub decode : ℕ → Bytes → Option WalOp
  decode version payload =
      if version == wal_version_1
      then (elim (c.deserialize_v1 payload) [ none ↦ none | some op ↦ some (from_v1 op) ])
      else c.deserialize payload

  -- the part behind the length prefix
  unfoldable pub read_payload : ℕ → Bytes → WalIter → Frame × WalIter
  unfolding read_exact
  read_payload len reader it = elim (read_exact len reader) [
    | none ↦ (eof, it)
    | some (payload, r) ↦ elim (read_exact 4 r) [
      | none ↦ (eof, it)
      | some (crc, r') ↦
          if not (c.read_u32 crc == c.hash payload)
          then (unreadable, it)
          else elim (decode it.version payload) [
            | none ↦ (unreadable, it)
            | some op ↦ (
              frame op,
              record it { reader = r'; valid_end = it.valid_end + (frame_overhead + len) },
            )
          ]
    ]
  ]

  unfoldable pub read_frame : WalIter → Frame × WalIter
  unfolding read_exact
  read_frame it =
      let remaining = it.file_len - it.valid_end in
      if ltb remaining frame_overhead then (unreadable, it) else elim (read_exact 4 it.reader) [
        | none ↦ (eof, it)
        | some (word, r) ↦
            let len = c.read_u32 word in
            if len == 0 || ltb (remaining - frame_overhead) len
            then (unreadable, it)
            else read_payload len r it
      ]

  -- one item, or the end
  unfoldable pub next : WalIter → Option WalOp × WalIter
  next it =
      if it.done
      then (none, it)
      else (let (item, it') = read_frame it in
          elim item [
            | frame op ↦ (some op, it')
            | unreadable ↦ (none, record it' { done = true })
            | eof ↦ (none, record it' { done = true })
          ])

  -- `for op in wal_iter.by_ref()`, on fuel.
  unfoldable pub collect : ℕ → WalIter → List WalOp × WalIter
  collect zero it = ([], it)
  collect (suc fuel) it =
      let (item, it') = next it in
      let rest = collect fuel it' in
      elim item [ none ↦ ([], it') | some op ↦ (op ∷ rest.0, rest.1) ]

  -- Every frame takes a byte at least, so as many rounds as there are bytes, and one, are enough.
  unfoldable pub read_all : Wal → List WalOp × WalIter
  unfolding collect
  read_all w = collect (suc (length w.bytes)) (iter w)
