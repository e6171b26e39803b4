-- ===== src/Wal/Recovery.antt =====
-- What the log holds: through appends, failed appends, crashes, reopening and truncation.
use turbo_supermemory.Common.{
  ℕ, suc, ◌+◌, ◌-◌, ◌≤◌, ◌<◌, ◌≡◌, refl, sym, ◌∙◌, ap, List, [], ◌∷◌, ◌++◌, length, take, max, drop,
  some, true, append_assoc, append-nil, arith, length-append, take-append, drop-append,
  take-append_of_le, drop_of_length-le, ◌⊎◌, inl, inr, subst,
}
use turbo_supermemory.Record.{StorageError, io, Result, ok, err}
use turbo_supermemory.Wal.Codec.{Bytes, WalOp, Codec, IsCodec}
use turbo_supermemory.Wal.File.{
  Wal, Write, whole, partial, wal_magic, wal_version, header_bytes, write_at, set_len, open_wal,
  write_ops, write_all, append_batch, truncate_to,
}
use turbo_supermemory.Wal.Iter.{WalIter, iter, discarded_bytes, collect, read_all}
use turbo_supermemory.Wal.Frames.{iter_at, Encodes, Encodes-append, write_ops-Encodes}
use turbo_supermemory.Wal.Torn.{IsTorn, short-IsTorn, BadTail, BadTail-IsTorn}
use turbo_supermemory.Wal.Reading.{Encodes-length-le, collect-Encodes, Cut, take-Cut}

write_at_end : (buf file : Bytes) → write_at (length file) buf file ≡ file ++ buf
unfolding write_at
write_at_end buf file =
    ap (λ x. x ++ (buf ++ drop (length file + length buf) file))
      (take-append (length file) file _ refl)
    ∙ ap (λ x. file ++ (buf ++ x)) (drop_of_length-le (length file + length buf) file (omega arith))
    ∙ ap (◌++◌ file) (append-nil buf)

set_len_front : (front back : Bytes) → set_len (length front) (front ++ back) ≡ front
unfolding set_len
set_len_front front back =
    ap (take (length front)) (append_assoc front back _) ∙ take-append (length front) front _ refl

write_all_whole :
    (buf : Bytes) (w : Wal)
    → w.cursor ≡ length w.bytes
    → write_all whole buf w
      ≡ (ok tt, record w { bytes = w.bytes ++ buf; cursor = length w.bytes + length buf })
unfolding write_all
write_all_whole buf w h = ground (arith, write_at_end buf w.bytes)

write_all_rolled_back :
    (written : ℕ) (buf : Bytes) (w : Wal)
    → w.cursor ≡ length w.bytes
    → write_all (partial written true) buf w ≡ (err io, w)
unfolding write_all
write_all_rolled_back written buf w h =
    ground
      (arith, write_at_end (take written buf) w.bytes, set_len_front w.bytes (take written buf))

write_ops-cases :
    (r : Result Bytes) → ((e : StorageError) × (r ≡ err e)) ⊎ ((b : Bytes) × (r ≡ ok b))
write_ops-cases (ok b) = inr (b, refl)
write_ops-cases (err e) = inl (e, refl)

module _ (c : Codec) (law : IsCodec c) where
  -- The log is open for appending in the current format, and its frames are `ops`.
  pub record Holds (w : Wal) (ops : List WalOp) : Type 0 where
    pub current : w.version ≡ wal_version
    pub at_end : w.cursor ≡ length w.bytes
    pub body : Bytes
    pub layout : w.bytes ≡ header_bytes c wal_version ++ body
    pub encodes : Encodes c law ops body

  length-header_bytes : (v : ℕ) → length (header_bytes c v) ≡ 8
  length-header_bytes v =
      omega (arith, length-append wal_magic (c.to_ne_bytes v), law.length-to_ne_bytes v)

  append_batch-cons :
      (outcome : Write) (op : WalOp) (ops : List WalOp) (w w' : Wal)
      → w.version ≡ wal_version
      → append_batch c outcome (op ∷ ops) w ≡ (ok tt, w')
      → (buf : Bytes) × (write_ops c [] (op ∷ ops) ≡ ok buf)
        × (write_all outcome buf w ≡ (ok tt, w'))
  unfolding append_batch
  append_batch-cons outcome op ops w w' v h = ground arith

  append_batch-nil : (outcome : Write) (w : Wal) → append_batch c outcome [] w ≡ (ok tt, w)
  unfolding append_batch
  append_batch-nil outcome w = refl

  -- If the write goes through and the append returns ok, the log holds the new operations behind
  -- those that it held, with a codec that keeps its laws.
  pub append_batch-Holds :
      (w w' : Wal) (ops new : List WalOp)
      → Holds w ops
      → append_batch c whole new w ≡ (ok tt, w')
      → Holds w' (ops ++ new)
  append_batch-Holds w w' ops [] h a =
      subst (λ l. Holds w' l) (sym (append-nil ops))
        (subst (λ x. Holds x ops)
          (ap (λ (r : Result Unit × Wal). r.1) (sym (append_batch-nil whole w) ∙ a)) h)
  append_batch-Holds w w' ops (op ∷ new) h a =
      let (buf, e, r) = append_batch-cons whole op new w w' h.current a in
      let (bs, q, enc) = write_ops-Encodes c law (op ∷ new) [] buf e in
      let written = sym r ∙ write_all_whole buf w h.at_end in
      let bytes : w'.bytes ≡ w.bytes ++ buf = ap (λ (x : Result Unit × Wal). x.1.bytes) written in
      let cursor : w'.cursor ≡ length w.bytes + length buf =
        ap (λ (x : Result Unit × Wal). x.1.cursor) written in
      record {
        current = ap (λ (x : Result Unit × Wal). x.1.version) written ∙ h.current;
        at_end = omega (arith, cursor, ap length bytes, length-append w.bytes buf);
        body = h.body ++ bs;
        layout =
            bytes
            ∙ ap (λ x. x ++ buf) h.layout
            ∙ append_assoc (header_bytes c wal_version) h.body buf
            ∙ ap (λ x. header_bytes c wal_version ++ (h.body ++ x)) q;
        encodes = Encodes-append c law ops (op ∷ new) h.body bs h.encodes enc;
      }

  -- If an append to a log writes any number of bytes, fails and is rolled back, the log, its
  -- bytes and its cursor are as before.
  pub append_batch_failed :
      (w w' : Wal) (ops new : List WalOp) (written : ℕ) (e : StorageError)
      → Holds w ops
      → append_batch c (partial written true) new w ≡ (err e, w')
      → w' ≡ w
  unfolding append_batch
  append_batch_failed w w' ops [] written e h a = cc
  append_batch_failed w w' ops (op ∷ new) written e h a =
      elim (write_ops-cases (write_ops c [] (op ∷ new))) [
        | inl (x, q) ↦ ground (arith, h.current)
        | inr (buf, q) ↦ ground (arith, h.current, write_all_rolled_back written buf w h.at_end)
      ]

  reads :
      (w : Wal) (ops : List WalOp) (front tail : Bytes)
      → w.version ≡ wal_version
      → w.bytes ≡ header_bytes c wal_version ++ (front ++ tail)
      → Encodes c law ops front
      → IsTorn c law tail
      → read_all c w ≡ (ops, record (iter_at tail (8 + length front)) { done = true })
  unfolding read_all
  reads w ops front tail v b e t =
      ap (collect c (suc (length w.bytes))) begin
      ∙ collect-Encodes c law ops front tail (suc (length w.bytes)) 8 (8 + length front) e t
          (omega (arith, Encodes-length-le c law ops front e, size, length-append front tail)) refl
    where
      size : length w.bytes ≡ 8 + length (front ++ tail)
      size = omega (
        arith,
        ap length b,
        length-append (header_bytes c wal_version) (front ++ tail),
        length-header_bytes wal_version,
      )

      rest : drop 8 w.bytes ≡ front ++ tail
      rest =
          ap (drop 8) b
          ∙ drop-append 8 (header_bytes c wal_version) (front ++ tail)
              (length-header_bytes wal_version)

      begin : iter w ≡ iter_at (front ++ tail) 8
      begin = ground (arith, size, rest, v)

  -- Reading a log returns just the operations that it holds, and nothing is left to discard,
  -- with a codec that keeps its laws.
  pub read_all-Holds :
      (w : Wal) (ops : List WalOp)
      → Holds w ops
      → ((read_all c w).0 ≡ ops) × (discarded_bytes (read_all c w).1 ≡ 0)
  read_all-Holds w ops h =
      let whole_log =
        reads w ops h.body [] h.current
          (h.layout ∙ ap (◌++◌ (header_bytes c wal_version)) (sym (append-nil h.body))) h.encodes
          (short-IsTorn c law [] (omega arith)) in
      (
        ap (λ (r : List WalOp × WalIter). r.0) whole_log,
        omega (
          arith,
          ap (λ (r : List WalOp × WalIter). r.1.file_len) whole_log,
          ap (λ (r : List WalOp × WalIter). r.1.valid_end) whole_log,
        ),
      )

  truncate-Holds :
      (w : Wal) (ops : List WalOp) (front tail : Bytes)
      → w.version ≡ wal_version
      → w.bytes ≡ header_bytes c wal_version ++ (front ++ tail)
      → Encodes c law ops front
      → Holds (truncate_to (8 + length front) w) ops
  unfolding truncate_to
  truncate-Holds w ops front tail v b e = record {
    current = v;
    at_end = omega (arith, ap length kept, size);
    body = front;
    layout = kept;
    encodes = e;
  }
    where
      size : length (header_bytes c wal_version ++ front) ≡ 8 + length front
      size =
          omega (
            arith,
            length-append (header_bytes c wal_version) front,
            length-header_bytes wal_version,
          )

      stop : max (8 + length front) 8 ≡ length (header_bytes c wal_version ++ front)
      stop = omega (arith, size)

      kept : set_len (max (8 + length front) 8) w.bytes ≡ header_bytes c wal_version ++ front
      kept =
          ap (λ n. set_len n w.bytes) stop
          ∙ ap (set_len (length (header_bytes c wal_version ++ front)))
              (b ∙ sym (append_assoc (header_bytes c wal_version) front tail))
          ∙ set_len_front (header_bytes c wal_version ++ front) tail

  read_torn :
      (w : Wal) (ops : List WalOp) (front tail : Bytes)
      → w.version ≡ wal_version
      → w.bytes ≡ header_bytes c wal_version ++ (front ++ tail)
      → Encodes c law ops front
      → IsTorn c law tail
      → ((read_all c w).0 ≡ ops)
        × (discarded_bytes (read_all c w).1 ≡ length tail)
        × Holds (truncate_to (read_all c w).1.valid_end w) ops
  read_torn w ops front tail v b e t = (
    ap (λ (r : List WalOp × WalIter). r.0) read,
    omega (arith, ap (λ (r : List WalOp × WalIter). r.1.file_len) read, stop),
    subst (λ n. Holds (truncate_to n w) ops) (sym stop) (truncate-Holds w ops front tail v b e),
  )
    where
      read : read_all c w ≡ (ops, record (iter_at tail (8 + length front)) { done = true })
      read = reads w ops front tail v b e t

      stop : (read_all c w).1.valid_end ≡ 8 + length front
      stop = ap (λ (r : List WalOp × WalIter). r.1.valid_end) read

  -- In a log of the current version with whole frames and behind them a tail that is shorter
  -- than the eight bytes in front of a payload, or has a length that goes beyond the end of the
  -- file, or a stored checksum that is not that of its payload, or a payload that is no
  -- operation, or is a cut frame, reading returns the operations of the frames and reports the
  -- tail's length as discarded, and truncating at the reported end leaves a log of these
  -- operations, with a codec that keeps its laws.
  pub read_damaged :
      (w : Wal) (ops : List WalOp) (front tail : Bytes)
      → w.version ≡ wal_version
      → w.bytes ≡ header_bytes c wal_version ++ (front ++ tail)
      → Encodes c law ops front
      → BadTail c law tail
      → ((read_all c w).0 ≡ ops)
        × (discarded_bytes (read_all c w).1 ≡ length tail)
        × Holds (truncate_to (read_all c w).1.valid_end w) ops
  read_damaged w ops front tail v b e d =
      read_torn w ops front tail v b e (BadTail-IsTorn c law tail d)

  -- The log, or what is left of it, after a crash that kept the first `k` bytes of the file: it
  -- opens, a prefix of its operations is read, cutting off the tail makes it a log of just these,
  -- and each operation whose frame lies whole within the `k` bytes is among them.
  pub record Survives (ops : List WalOp) (k : ℕ) (file : Bytes) : Type 0 where
    pub wal : Wal
    pub opened : open_wal c file ≡ ok wal
    pub kept : List WalOp
    pub lost : List WalOp
    pub split : ops ≡ kept ++ lost
    pub read : (read_all c wal).0 ≡ kept
    pub clean : Holds (truncate_to (read_all c wal).1.valid_end wal) kept
    pub complete :
        (op : WalOp) (rest : List WalOp) (p : Bytes)
        → lost ≡ op ∷ rest
        → c.serialize op ≡ some p
        → k < (read_all c wal).1.valid_end + (8 + length p)

  open_wal-header :
      (rest : Bytes)
      → open_wal c (header_bytes c wal_version ++ rest)
        ≡ ok (record {
          bytes = header_bytes c wal_version ++ rest;
          cursor = length (header_bytes c wal_version ++ rest);
          version = wal_version;
        })
  unfolding open_wal
  open_wal-header rest = ground (
    arith,
    length-append (c.to_ne_bytes wal_version) rest,
    law.length-to_ne_bytes wal_version,
    take-append 4 (c.to_ne_bytes wal_version) rest (law.length-to_ne_bytes wal_version),
    law.from_ne_bytes-to_ne_bytes wal_version (omega arith),
  )

  -- A crash that keeps the first `k` bytes of the log, with `k` at least the eight of the
  -- header, leaves a file that opens and from which a prefix of the operations is read; cutting
  -- off what lies behind makes it a log of just these, and the first operation that is lost had
  -- its frame reach beyond byte `k`. The codec is assumed to keep its laws.
  pub reopen_cut :
      (w : Wal) (ops : List WalOp) (k : ℕ) → Holds w ops → 8 ≤ k → Survives ops k (take k w.bytes)
  reopen_cut w ops k h le = record {
    wal = opened;
    opened = ap (open_wal c) layout ∙ open_wal-header (cut.front ++ cut.tail);
    kept = cut.kept;
    lost = cut.lost;
    split = cut.split;
    read = damaged.0;
    clean = damaged.2;
    complete = λ op rest p q s. omega (arith, cut.maximal op rest p q s, stop);
  }
    where
      cut : Cut c law ops (k - 8) (take (k - 8) h.body)
      cut = take-Cut c law ops h.body (k - 8) h.encodes

      opened : Wal
      opened = record {
        bytes = header_bytes c wal_version ++ (cut.front ++ cut.tail);
        cursor = length (header_bytes c wal_version ++ (cut.front ++ cut.tail));
        version = wal_version;
      }

      layout : take k w.bytes ≡ header_bytes c wal_version ++ (cut.front ++ cut.tail)
      layout =
          ap (take k) h.layout
          ∙ take-append_of_le k (header_bytes c wal_version) h.body
              (omega (arith, length-header_bytes wal_version))
          ∙ ap (λ n. header_bytes c wal_version ++ take (k - n) h.body)
              (length-header_bytes wal_version)
          ∙ ap (◌++◌ (header_bytes c wal_version)) cut.cut

      damaged :
          ((read_all c opened).0 ≡ cut.kept)
          × (discarded_bytes (read_all c opened).1 ≡ length cut.tail)
          × Holds (truncate_to (read_all c opened).1.valid_end opened) cut.kept
      damaged = read_torn opened cut.kept cut.front cut.tail refl refl cut.encodes cut.torn

      stop : (read_all c opened).1.valid_end ≡ 8 + length cut.front
      stop =
          ap (λ (r : List WalOp × WalIter). r.1.valid_end)
            (reads opened cut.kept cut.front cut.tail refl refl cut.encodes cut.torn)

  -- A file of fewer than the eight bytes of the header opens as an empty log, with a codec that
  -- keeps its laws.
  pub reopen_without_header :
      (file : Bytes) → length file < 8 → (w : Wal) × (open_wal c file ≡ ok w) × Holds w []
  unfolding open_wal
  reopen_without_header file h = (
    record {
      bytes = header_bytes c wal_version;
      cursor = length (header_bytes c wal_version);
      version = wal_version;
    },
    ground arith,
    record {
      current = refl;
      at_end = refl;
      body = [];
      layout = sym (append-nil _);
      encodes = refl;
    },
  )
