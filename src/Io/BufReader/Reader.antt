-- ===== src/Io/BufReader/Reader.antt =====
-- The `Read` implementation of src/async_std/io/buf_reader.rs: reads through the buffer keep the
-- contract that the reader below keeps.
use xx_core.Base.{
  ℕ, zero, suc, ◌+◌, ◌-◌, ◌≤◌, ◌<◌, ◌≡◌, refl, sym, ap, ◌∙◌, inl, inr, true, false, List, [], ◌++◌,
  min, append_assoc, arith, Bool-cases, leb, ◌==◌, length, length-take, take,
}
use mathlib.Core.Path.{ap₂}
use xx_core.Base.Slices.{slice, length-slice, slice_empty, slice-append, take-slice}
use xx_core.Base.Outcome.{Outcome, ok, err, panic, out_of_fuel, M}
use xx_core.Io.Contract.{Reads, IsReader}
use xx_core.Io.BufReader.{
  BufReader, capacity, buffer, is_empty, read_into, fill_buf, read_cold, read_buffered,
}
use xx_core.Io.BufReader.Fill.{
  stream, IsValidReader, Fills, nothing, bytes, failed, fill_buf_range-RangeFill, nothing-Fills,
  failed-Fills, bytes_front-Fills,
}

module _ {R : Type 0} (Valid : R → Type 0) (rest : R → List ℕ) where
  read_into-Reads :
      (b : BufReader R) (n : ℕ)
      → IsValidReader Valid rest b
      → 0 < length (buffer b)
      → Reads (IsValidReader Valid rest) (stream Valid rest) n (stream Valid rest b) (read_into n b)
  unfolding read_into
  read_into-Reads b n (v, p) pos = (
    (record { ordered = omega (arith, shorter, size); bounded = omega arith }, p),
    omega (arith, size),
    rw (← append_assoc) (ap (λ bs. bs ++ rest b.reader) (sym cut)),
    λ e t. absurd (omega (arith, size, ap length e)),
  )
    where
      m : ℕ
      m = min n (length (buffer b))

      k : ℕ
      k = length (take m (buffer b))

      shorter : length (buffer b) ≡ b.end - b.start
      shorter = length-slice b.store b.start b.end v.ordered v.bounded

      size : k ≡ m
      size = length-take (min n (length (buffer b))) (buffer b) ∙ omega arith

      cut : take m (buffer b) ++ slice b.store (b.start + k) b.end ≡ buffer b
      cut =
          ap (λ j. take m (buffer b) ++ slice b.store (b.start + j) b.end) size
          ∙ ap (λ bs. bs ++ slice b.store (b.start + m) b.end)
              (take-slice b.store b.start b.end m (omega (arith, shorter)))
          ∙ slice-append b.store b.start (b.start + m) b.end (omega arith) (omega (arith, shorter))

module _ {R : Type 0} (Valid : R → Type 0) (rest : R → List ℕ) (read : ℕ → M R (List ℕ))
    (contract : IsReader Valid rest read) where
  fill_buf-Fills :
      (b : BufReader R)
      → IsValidReader Valid rest b
      → b.end ≤ b.start
      → Fills Valid rest b (capacity b) (fill_buf read b)
  unfolding fill_buf
  fill_buf-Fills b (v, p) h =
      elim (fill_buf_range-RangeFill Valid rest read contract b 0 (capacity b) p (omega arith)
        (omega arith)) [
          | nothing r u m z q ↦
              rw (q, fill_buf) (nothing-Fills Valid rest read contract b (capacity b) r v u m z)
          | bytes bs r u pos l m q ↦
              let more : (length bs == 0) ≡ false = ground arith in
              rw (q, fill_buf, more)
                (bytes_front-Fills Valid rest read contract b (capacity b) bs r (v, u) h pos l
                  (omega arith) m)
          | failed x r u m q ↦
              rw (q, fill_buf) (failed-Fills Valid rest read contract b (capacity b) x r v u m)
        ]

  read_direct-Reads :
      (b : BufReader R) (n : ℕ)
      → IsValidReader Valid rest b
      → b.end ≤ b.start
      → leb (capacity b) n ≡ true
      → Reads
          (IsValidReader Valid rest)
          (stream Valid rest)
          n
          (stream Valid rest b)
          (read_cold read n b)
  unfolding read_cold
  read_direct-Reads b n (v, p) h large = go (read n b.reader) refl (contract n b.reader p)
    where
      gone : buffer b ≡ []
      gone = slice_empty b.store b.start b.end h

      go :
          (o : Outcome (List ℕ) × R)
          → read n b.reader ≡ o
          → Reads Valid rest n (rest b.reader) o
          → Reads
              (IsValidReader Valid rest)
              (stream Valid rest)
              n
              (stream Valid rest b)
              (read_cold read n b)
      go (ok bs, r) q (u, l, m, z) =
          rw (large, q, read_cold, gone)
            ((record { ordered = v.ordered; bounded = v.bounded }, u), l, m, z)
      go (err x, r) q (u, m) =
          rw (large, q, read_cold, gone)
            ((record { ordered = v.ordered; bounded = v.bounded }, u), m)
      go (panic, r) q c = absurd c
      go (out_of_fuel, r) q c = absurd c

  read_refill-Reads :
      (b : BufReader R) (n : ℕ)
      → IsValidReader Valid rest b
      → b.end ≤ b.start
      → leb (capacity b) n ≡ false
      → Reads
          (IsValidReader Valid rest)
          (stream Valid rest)
          n
          (stream Valid rest b)
          (read_cold read n b)
  unfolding read_cold
  read_refill-Reads b n (v, p) h small = go (fill_buf read b) refl (fill_buf-Fills b (v, p) h)
    where
      gone : buffer b ≡ []
      gone = slice_empty b.store b.start b.end h

      go :
          (o : Outcome ℕ × BufReader R)
          → fill_buf read b ≡ o
          → Fills Valid rest b (capacity b) o
          → Reads
              (IsValidReader Valid rest)
              (stream Valid rest)
              n
              (stream Valid rest b)
              (read_cold read n b)
      go (ok zero, c) q (u, size, same, more, fit, eof) =
          rw (small, q, read_cold)
            (u, omega arith, sym same, λ e t. ap₂ (◌++◌ {A = ℕ}) gone (eof refl (ground arith)))
      go (ok (suc k), c) q (u, size, same, more, fit, eof) =
          let got : (suc k == 0) ≡ false = ground arith in
          rw (small, q, read_cold, got, ← same) (read_into-Reads Valid rest c n u (omega arith))
      go (err x, c) q (u, size, same) = rw (small, q, read_cold) (u, sym same)
      go (panic, c) q z = absurd z
      go (out_of_fuel, c) q z = absurd z

  -- A `BufReader` keeps the contract of a reader over its stream, buffered bytes first, whatever the
  -- sizes of the reads, and also when the reader below fails.
  pub read_buffered-IsReader :
      IsReader (IsValidReader Valid rest) (stream Valid rest) (read_buffered read)
  unfolding read_buffered
  read_buffered-IsReader n b (v, p) = elim (Bool-cases (is_empty b)) [
    | inl e ↦
        let h : b.end ≤ b.start = ground arith in
        rw (e, read_buffered)
          (elim (Bool-cases (leb (capacity b) n)) [
            | inl large ↦ read_direct-Reads b n (v, p) h large
            | inr small ↦ read_refill-Reads b n (v, p) h small
          ])
    | inr e ↦
        rw (e, read_buffered)
          (read_into-Reads Valid rest b n (v, p)
            (ground (arith, length-slice b.store b.start b.end v.ordered v.bounded)))
  ]
