-- ===== src/Wal/Torn.antt =====
-- Tails at which reading stops: what a crash, a partial write or damage leaves behind the last
-- whole frame.
use turbo_supermemory.Common.{
  ℕ, ◌+◌, ◌-◌, ◌^◌, ◌<◌, ◌≡◌, refl, sym, ◌++◌, length, take, none, true, arith, length-append,
  length-take, take-append_of_le, ◌≢◌, inl, inr, Bool-cases, ltb, ltb→lt, ltb→le, subst,
}
use turbo_supermemory.Wal.Codec.{Bytes, Codec, IsCodec}
use turbo_supermemory.Wal.Iter.{unreadable, read_payload, read_frame, next}
use turbo_supermemory.Wal.Frames.{iter_at, read_exact-append, frame_of}

module _ (c : Codec) (law : IsCodec c) where
  -- Reading stops before the tail, wherever in the file it stands.
  abbrev pub IsTorn : Bytes → Type 0
  IsTorn tail =
      (start : ℕ)
      → next c (iter_at tail start) ≡ (none, record (iter_at tail start) { done = true })

  unreadable-IsTorn :
      (tail : Bytes)
      → ((start : ℕ) → read_frame c (iter_at tail start) ≡ (unreadable, iter_at tail start))
      → IsTorn tail
  unfolding next
  unreadable-IsTorn tail h start = ground (arith, h start)

  pub short-IsTorn : (tail : Bytes) → length tail < 8 → IsTorn tail
  unfolding read_frame
  short-IsTorn tail h = unreadable-IsTorn tail (λ start. ground arith)

  -- The length prefix asks for more than is left.
  length-IsTorn :
      (n : ℕ) (tail : Bytes) → n < 2 ^ 32 → length tail < n + 4 → IsTorn (c.write_u32 n ++ tail)
  unfolding read_frame
  length-IsTorn n tail small h = unreadable-IsTorn _ λ start. ground (
    arith,
    read_exact-append 4 (c.write_u32 n) tail (law.length-write_u32 n),
    law.read_u32-write_u32 n small,
    law.length-write_u32 n,
    length-append (c.write_u32 n) tail,
  )

  -- Reading stops before a frame that is cut anywhere before its end, if its payload has fewer
  -- than 2 ^ 32 bytes and the codec keeps its laws.
  pub take-IsTorn :
      (p : Bytes) (k : ℕ)
      → length p < 2 ^ 32
      → k < 8 + length p
      → IsTorn (take k (frame_of c law p))
  take-IsTorn p k small h = elim (Bool-cases (ltb k 8)) [
    | inl short ↦ short-IsTorn _ (omega (arith, length-take k (frame_of c law p), ltb→lt k 8 short))
    | inr long ↦
        subst IsTorn
          (sym (
            take-append_of_le k (c.write_u32 (length p)) (p ++ c.write_u32 (c.hash p))
              (omega (arith, law.length-write_u32 (length p), ltb→le k 8 long))))
          (length-IsTorn (length p) _ small (
            omega (
              arith,
              length-take (k - length (c.write_u32 (length p))) (p ++ c.write_u32 (c.hash p)),
              law.length-write_u32 (length p),
              ltb→le k 8 long,
            )))
  ]

  -- Reading stops before a frame whose stored checksum is not the one of its payload, whatever
  -- follows it, if both words fit 32 bits and the codec keeps its laws.
  pub checksum-IsTorn :
      (q rest : Bytes) (crc : ℕ)
      → length q < 2 ^ 32
      → crc < 2 ^ 32
      → crc ≢ c.hash q
      → IsTorn (c.write_u32 (length q) ++ (q ++ (c.write_u32 crc ++ rest)))
  unfolding read_frame read_payload
  checksum-IsTorn q rest crc small word bad = unreadable-IsTorn _ λ start. ground (
    arith,
    read_exact-append 4 (c.write_u32 (length q)) (q ++ (c.write_u32 crc ++ rest))
        (law.length-write_u32 (length q)),
    read_exact-append (length q) q (c.write_u32 crc ++ rest) refl,
    read_exact-append 4 (c.write_u32 crc) rest (law.length-write_u32 crc),
    law.read_u32-write_u32 (length q) small,
    law.read_u32-write_u32 crc word,
    length-append (c.write_u32 (length q)) (q ++ (c.write_u32 crc ++ rest)),
    length-append q (c.write_u32 crc ++ rest),
    length-append (c.write_u32 crc) rest,
    law.length-write_u32 (length q),
    law.length-write_u32 crc,
  )

  -- The payload has its checksum and is no operation.
  undecodable-IsTorn :
      (q rest : Bytes)
      → length q < 2 ^ 32
      → c.deserialize q ≡ none
      → IsTorn (c.write_u32 (length q) ++ (q ++ (c.write_u32 (c.hash q) ++ rest)))
  unfolding read_frame read_payload
  undecodable-IsTorn q rest small bad = unreadable-IsTorn _ λ start. ground (
    arith,
    bad,
    read_exact-append 4 (c.write_u32 (length q)) (q ++ (c.write_u32 (c.hash q) ++ rest))
        (law.length-write_u32 (length q)),
    read_exact-append (length q) q (c.write_u32 (c.hash q) ++ rest) refl,
    read_exact-append 4 (c.write_u32 (c.hash q)) rest (law.length-write_u32 (c.hash q)),
    law.read_u32-write_u32 (length q) small,
    law.read_u32-write_u32 (c.hash q) (law.hash_lt q),
    length-append (c.write_u32 (length q)) (q ++ (c.write_u32 (c.hash q) ++ rest)),
    length-append q (c.write_u32 (c.hash q) ++ rest),
    length-append (c.write_u32 (c.hash q)) rest,
    law.length-write_u32 (length q),
    law.length-write_u32 (c.hash q),
  )

  -- What may stand behind the whole frames of a file: fewer bytes than a frame takes at least, a
  -- frame of which the end is missing, a length prefix that asks for more than is left, or a frame
  -- whose stored checksum is not the one of its payload or whose payload is no operation, whatever
  -- follows it.
  pub data BadTail : Bytes → Type 0 where
    too_short : (tail : Bytes) → length tail < 8 → BadTail tail
    cut_off :
        (p : Bytes) (k : ℕ)
        → length p < 2 ^ 32
        → k < 8 + length p
        → BadTail (take k (frame_of c law p))
    too_long :
        (n : ℕ) (tail : Bytes) → n < 2 ^ 32 → length tail < n + 4 → BadTail (c.write_u32 n ++ tail)
    bad_checksum :
        (p rest : Bytes) (crc : ℕ)
        → length p < 2 ^ 32
        → crc < 2 ^ 32
        → crc ≢ c.hash p
        → BadTail (c.write_u32 (length p) ++ (p ++ (c.write_u32 crc ++ rest)))
    no_operation :
        (p rest : Bytes)
        → length p < 2 ^ 32
        → c.deserialize p ≡ none
        → BadTail (c.write_u32 (length p) ++ (p ++ (c.write_u32 (c.hash p) ++ rest)))

  pub BadTail-IsTorn : (tail : Bytes) → BadTail tail → IsTorn tail
  BadTail-IsTorn _ (too_short tail h) = short-IsTorn tail h
  BadTail-IsTorn _ (cut_off p k small h) = take-IsTorn p k small h
  BadTail-IsTorn _ (too_long n tail small h) = length-IsTorn n tail small h
  BadTail-IsTorn _ (bad_checksum p rest crc small word bad) =
      checksum-IsTorn p rest crc small word bad
  BadTail-IsTorn _ (no_operation p rest small bad) = undecodable-IsTorn p rest small bad
