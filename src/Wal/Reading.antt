-- ===== src/Wal/Reading.antt =====
-- Reading a log back: the operations of its whole frames, up to a tail that cannot be read.
use turbo_supermemory.Common.{
  ℕ, zero, suc, ◌+◌, ◌-◌, ◌≤◌, ◌<◌, ◌≡◌, refl, sym, ◌∙◌, ap, List, [], ◌∷◌, ◌++◌, length, take,
  none, some, true, append_assoc, arith, length-append, length-take, take-append_of_le,
  take-append_of_ge, inl, inr, Bool-cases, ltb, ltb→lt, ltb→le,
}
use turbo_supermemory.Wal.Codec.{Bytes, WalOp, Codec, IsCodec}
use turbo_supermemory.Wal.Iter.{WalIter, next, collect}
use turbo_supermemory.Wal.Frames.{iter_at, frame_of, length-frame_of, Encodes, next-frame}
use turbo_supermemory.Wal.Torn.{IsTorn, short-IsTorn, take-IsTorn}

module _ (c : Codec) (law : IsCodec c) where
  pub Encodes-length-le :
      (ops : List WalOp) (bs : Bytes) → Encodes c law ops bs → length ops ≤ length bs
  Encodes-length-le [] bs e = omega arith
  Encodes-length-le (op ∷ ops) bs (p, rest, s, l, b, e) = omega (
    arith,
    Encodes-length-le ops rest e,
    ap length b,
    length-append (frame_of c law p) rest,
    length-frame_of c law p,
  )

  collect-cons :
      (fuel : ℕ) (it it' : WalIter) (op : WalOp)
      → next c it ≡ (some op, it')
      → collect c (suc fuel) it ≡ (op ∷ (collect c fuel it').0, (collect c fuel it').1)
  unfolding collect
  collect-cons fuel it it' op h = ground (arith, h)

  collect-nil :
      (fuel : ℕ) (it it' : WalIter) → next c it ≡ (none, it') → collect c (suc fuel) it ≡ ([], it')
  unfolding collect
  collect-nil fuel it it' h = ground (arith, h)

  -- With fuel for one item more than there are, all whole frames are read and nothing else.
  pub collect-Encodes :
      (ops : List WalOp) (bs tail : Bytes) (fuel start stop : ℕ)
      → Encodes c law ops bs
      → IsTorn c law tail
      → length ops < fuel
      → stop ≡ start + length bs
      → collect c fuel (iter_at (bs ++ tail) start)
        ≡ (ops, record (iter_at tail stop) { done = true })
  collect-Encodes ops bs tail zero start stop e t h q = elim h [ ]
  collect-Encodes [] bs tail (suc fuel) start stop e t h q =
      let here : stop ≡ start = omega (arith, ap length e) in
      rw (e, here) (collect-nil fuel (iter_at tail start) _ (t start))
  collect-Encodes (op ∷ ops) bs tail (suc fuel) start stop (p, rest, s, l, b, e) t h q =
      let behind : stop ≡ start + (8 + length p) + length rest =
        omega
          (arith, ap length b, length-append (frame_of c law p) rest, length-frame_of c law p) in
      let ih =
        collect-Encodes ops rest tail fuel (start + (8 + length p)) stop e t (omega arith) behind in
      ap (λ x. collect c (suc fuel) (iter_at x start))
        (ap (λ x. x ++ tail) b ∙ append_assoc (frame_of c law p) rest tail)
      ∙ collect-cons fuel _ _ op (next-frame c law op p (rest ++ tail) start s l)
      ∙ ap (λ (r : List WalOp × WalIter). (op ∷ r.0, r.1)) ih

  -- A prefix of a log of whole frames, cut at any byte.
  pub record Cut (ops : List WalOp) (k : ℕ) (bytes : Bytes) : Type 0 where
    pub kept : List WalOp
    pub lost : List WalOp
    pub front : Bytes
    pub tail : Bytes
    pub split : ops ≡ kept ++ lost
    pub cut : bytes ≡ front ++ tail
    pub encodes : Encodes c law kept front
    pub torn : IsTorn c law tail
    pub maximal :
        (op : WalOp) (rest : List WalOp) (p : Bytes)
        → lost ≡ op ∷ rest
        → c.serialize op ≡ some p
        → k < length front + (8 + length p)

  pub take-Cut :
      (ops : List WalOp) (bs : Bytes) (k : ℕ) → Encodes c law ops bs → Cut ops k (take k bs)
  take-Cut [] bs k e = record {
    kept = [];
    lost = [];
    front = [];
    tail = take k bs;
    split = refl;
    cut = refl;
    encodes = refl;
    torn = short-IsTorn c law _ (omega (arith, length-take k bs, ap length e));
    maximal = λ op rest p q s. cc;
  }
  take-Cut (op ∷ ops) bs k (p, rest, s, l, b, e) = elim (Bool-cases (ltb k (8 + length p))) [
    | inl early ↦ record {
      kept = [];
      lost = op ∷ ops;
      front = [];
      tail = take k (frame_of c law p);
      split = refl;
      cut =
          ap (take k) b
          ∙ take-append_of_ge k (frame_of c law p) rest
              (omega (arith, length-frame_of c law p, ltb→lt k (8 + length p) early));
      encodes = refl;
      torn = take-IsTorn c law p k l (ltb→lt k (8 + length p) early);
      maximal = λ op' rest' p' q s'. ground (arith, ltb→lt k (8 + length p) early);
    }
    | inr late ↦
        let front_le : 8 + length p ≤ k = ltb→le k (8 + length p) late in
        let inner = take-Cut ops rest (k - length (frame_of c law p)) e in
        record {
          kept = op ∷ inner.kept;
          lost = inner.lost;
          front = frame_of c law p ++ inner.front;
          tail = inner.tail;
          split = ap (◌∷◌ op) inner.split;
          cut =
              ap (take k) b
              ∙ take-append_of_le k (frame_of c law p) rest (omega (arith, length-frame_of c law p))
              ∙ ap (◌++◌ (frame_of c law p)) inner.cut
              ∙ sym (append_assoc (frame_of c law p) inner.front inner.tail);
          encodes = (p, inner.front, s, l, refl, inner.encodes);
          torn = inner.torn;
          maximal = λ op' rest' p' q s'. omega (
            arith,
            inner.maximal op' rest' p' q s',
            length-append (frame_of c law p) inner.front,
            length-frame_of c law p,
          );
        }
  ]
