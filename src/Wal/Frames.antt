-- ===== src/Wal/Frames.antt =====
-- One frame: what is appended for an operation, and what `next` makes of it.
use turbo_supermemory.Common.{
  ℕ, ◌+◌, ◌^◌, ◌<◌, ◌≡◌, refl, ◌∙◌, ap, List, [], ◌∷◌, ◌++◌, length, none, some, false,
  append_assoc, append-nil, arith, length-append, take-append, drop-append, inl, inr, Option-cases,
}
use turbo_supermemory.Record.{ok}
use turbo_supermemory.Wal.Codec.{Bytes, WalOp, Codec, IsCodec}
use turbo_supermemory.Wal.File.{wal_version, write_op_to_buffer, write_ops}
use turbo_supermemory.Wal.Iter.{WalIter, frame, read_exact, read_payload, read_frame, next}

-- An iterator of the current version that stands before `reader`, at offset `start` of the file.
abbrev pub iter_at : Bytes → ℕ → WalIter
iter_at reader start = record {
  reader = reader;
  version = wal_version;
  valid_end = start;
  file_len = start + length reader;
  done = false;
}

pub read_exact-append :
    (n : ℕ) (xs ys : Bytes) → length xs ≡ n → read_exact n (xs ++ ys) ≡ some (xs, ys)
unfolding read_exact
read_exact-append n xs ys h =
    ground (arith, length-append xs ys, take-append n xs ys h, drop-append n xs ys h)

pub read_exact_short : (n : ℕ) (xs : Bytes) → length xs < n → read_exact n xs ≡ none
unfolding read_exact
read_exact_short n xs h = ground arith

module _ (c : Codec) (law : IsCodec c) where
  abbrev pub frame_of : Bytes → Bytes
  frame_of p = c.write_u32 (length p) ++ (p ++ c.write_u32 (c.hash p))

  pub length-frame_of : (p : Bytes) → length (frame_of p) ≡ 8 + length p
  length-frame_of p = omega (
    arith,
    length-append (c.write_u32 (length p)) (p ++ c.write_u32 (c.hash p)),
    length-append p (c.write_u32 (c.hash p)),
    law.length-write_u32 (length p),
    law.length-write_u32 (c.hash p),
  )

  -- The bytes are the frames of the operations, one behind the other.
  abbrev pub Encodes : List WalOp → Bytes → Type 0
  Encodes [] bytes = bytes ≡ []
  Encodes (op ∷ ops) bytes =
      (p : Bytes) × (rest : Bytes) × (c.serialize op ≡ some p)
      × (length p < 2 ^ 32)
      × (bytes ≡ frame_of p ++ rest)
      × Encodes ops rest

  pub Encodes-append :
      (ops ops' : List WalOp) (bs bs' : Bytes)
      → Encodes ops bs
      → Encodes ops' bs'
      → Encodes (ops ++ ops') (bs ++ bs')
  Encodes-append [] ops' bs bs' e e' = rw e e'
  Encodes-append (op ∷ ops) ops' bs bs' (p, rest, s, l, b, e) e' = (
    p,
    rest ++ bs',
    s,
    l,
    rw b (append_assoc (frame_of p) rest bs'),
    Encodes-append ops ops' rest bs' e e',
  )

  write_op-Encodes :
      (op : WalOp) (buf b : Bytes)
      → write_op_to_buffer c buf op ≡ ok b
      → (p : Bytes) × (c.serialize op ≡ some p) × (length p < 2 ^ 32) × (b ≡ buf ++ frame_of p)
  unfolding write_op_to_buffer
  write_op-Encodes op buf b h = elim (Option-cases (c.serialize op)) [
    | inl e ↦ cc (rw (e, write_op_to_buffer) at h)
    | inr (p, e) ↦ (p, e, ground arith, ground arith)
  ]

  write_ops-cons :
      (op : WalOp) (ops : List WalOp) (buf b : Bytes)
      → write_ops c buf (op ∷ ops) ≡ ok b
      → (b' : Bytes) × (write_op_to_buffer c buf op ≡ ok b') × (write_ops c b' ops ≡ ok b)
  unfolding write_ops
  write_ops-cons op ops buf b h = ground arith

  pub write_ops-Encodes :
      (ops : List WalOp) (buf b : Bytes)
      → write_ops c buf ops ≡ ok b
      → (bs : Bytes) × (b ≡ buf ++ bs) × Encodes ops bs
  write_ops-Encodes [] buf b h = ([], unfold write_ops in ground (arith, append-nil buf), refl)
  write_ops-Encodes (op ∷ ops) buf b h =
      let (b', w, r) = write_ops-cons op ops buf b h in
      let (p, s, l, q) = write_op-Encodes op buf b' w in
      let (bs, q', enc) = write_ops-Encodes ops b' b r in
      (
        frame_of p ++ bs,
        q' ∙ ap (λ x. x ++ bs) q ∙ append_assoc buf (frame_of p) bs,
        (p, bs, s, l, refl, enc),
      )

  read_payload-frame :
      (op : WalOp) (p rest : Bytes) (it : WalIter)
      → c.serialize op ≡ some p
      → it.version ≡ wal_version
      → read_payload c (length p) (p ++ (c.write_u32 (c.hash p) ++ rest)) it
        ≡ (frame op, record it { reader = rest; valid_end = it.valid_end + (8 + length p) })
  unfolding read_payload
  read_payload-frame op p rest it s v = ground (
    arith,
    read_exact-append (length p) p (c.write_u32 (c.hash p) ++ rest) refl,
    read_exact-append 4 (c.write_u32 (c.hash p)) rest (law.length-write_u32 (c.hash p)),
    law.read_u32-write_u32 (c.hash p) (law.hash_lt p),
    law.deserialize-serialize op p s,
  )

  -- A frame, bracketed as the reader goes through it.
  frame-append :
      (p rest : Bytes)
      → frame_of p ++ rest ≡ c.write_u32 (length p) ++ (p ++ (c.write_u32 (c.hash p) ++ rest))
  frame-append p rest = simp append_assoc

  read_frame-frame :
      (op : WalOp) (p rest : Bytes) (start : ℕ)
      → c.serialize op ≡ some p
      → length p < 2 ^ 32
      → read_frame c (iter_at (frame_of p ++ rest) start) ≡ (
        frame op,
        record (iter_at (frame_of p ++ rest) start) {
          reader = rest;
          valid_end = start + (8 + length p);
        },
      )
  unfolding read_frame
  read_frame-frame op p rest start s l = ground (
    arith,
    frame-append p rest,
    read_exact-append 4 (c.write_u32 (length p)) (p ++ (c.write_u32 (c.hash p) ++ rest))
        (law.length-write_u32 (length p)),
    law.read_u32-write_u32 (length p) l,
    law.serialize_nonempty op p s,
    length-append (frame_of p) rest,
    length-frame_of p,
    read_payload-frame op p rest (iter_at (frame_of p ++ rest) start) s refl,
  )

  -- A whole frame at the reader is read, and the iterator stands behind it.
  pub next-frame :
      (op : WalOp) (p rest : Bytes) (start : ℕ)
      → c.serialize op ≡ some p
      → length p < 2 ^ 32
      → next c (iter_at (frame_of p ++ rest) start)
        ≡ (some op, iter_at rest (start + (8 + length p)))
  unfolding next
  next-frame op p rest start s l = ground (
    arith,
    read_frame-frame op p rest start s l,
    length-append (frame_of p) rest,
    length-frame_of p,
  )
