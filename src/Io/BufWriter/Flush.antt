-- ===== src/Io/BufWriter/Flush.antt =====
-- `flush_buf` of src/async_std/io/buf_writer.rs: what was accepted is sent down in order, and stays in
-- the buffer when the writer below fails.
use xx_core.Base.{
  ℕ, zero, suc, ◌+◌, ◌-◌, ◌<◌, ◌≡◌, refl, sym, ap, ◌∙◌, inl, inr, true, false, List, [], ◌++◌,
  append-nil, append_assoc, arith, Bool-cases, leb, ◌==◌, length,
}
use xx_core.Base.Slices.{slice, length-slice, slice_empty, take-slice-append}
use xx_core.Base.Outcome.{Outcome, ok, err, panic, out_of_fuel, M}
use xx_core.Io.Contract.{Writes, IsWriter}
use xx_core.Io.BufWriter.{
  BufWriter, IsValid, buffer, is_empty, discard, flush_round, flush_loop, flush_buf,
}

module _ {W : Type 0} (Valid : W → Type 0) (sent : W → List ℕ) where
  -- All that was accepted: sent down, or still buffered.
  abbrev pub accepted : BufWriter W → List ℕ
  accepted b = sent b.writer ++ buffer b

  abbrev pub IsValidWriter : BufWriter W → Type 0
  IsValidWriter b = IsValid b × Valid b.writer

  abbrev pub Kept : BufWriter W → BufWriter W → Type 0
  Kept b c = IsValidWriter c × (length c.store ≡ length b.store) × (accepted c ≡ accepted b)

  abbrev pub Flushes : BufWriter W → Outcome (Unit {0}) × BufWriter W → Type 0
  Flushes b (ok _, c) = Kept b c × (c.start ≡ 0) × (c.end ≡ 0) × (sent c.writer ≡ accepted b)
  Flushes b (err e, c) = Kept b c
  Flushes b (panic, c) = ⊥
  Flushes b (out_of_fuel, c) = ⊥

  -- A round sends some of the buffer, or fails.
  abbrev Rounds : BufWriter W → Outcome (Unit {0}) × BufWriter W → Type 0
  Rounds b (ok _, c) = Kept b c × (length (buffer c) < length (buffer b))
  Rounds b (err e, c) = Kept b c
  Rounds b (panic, c) = ⊥
  Rounds b (out_of_fuel, c) = ⊥

module _ {W : Type 0} (Valid : W → Type 0) (sent : W → List ℕ) (write : List ℕ → M W ℕ)
    (contract : IsWriter Valid sent write) where
  round : (b : BufWriter W) → IsValidWriter Valid sent b → Rounds Valid sent b (flush_round write b)
  unfolding flush_round
  round b (v, p) = go (write (buffer b) b.writer) refl (contract (buffer b) b.writer p)
    where
      shorter : length (buffer b) ≡ b.end - b.start
      shorter = length-slice b.store b.start b.end v.ordered v.bounded

      go :
          (o : Outcome ℕ × W)
          → write (buffer b) b.writer ≡ o
          → Writes Valid sent (buffer b) (sent b.writer) o
          → Rounds Valid sent b (flush_round write b)
      go (ok zero, w) q (u, l, m) =
          rw (q, flush_round)
            (
              (record { ordered = v.ordered; bounded = v.bounded }, u),
              refl,
              ap (λ bs. bs ++ buffer b) (m ∙ append-nil (sent b.writer)),
            )
      go (ok (suc n), w) q (u, l, m) =
          let more : (suc n == 0) ≡ false = ground arith in
          let fits : leb (suc n) (length (buffer b)) ≡ true = ground arith in
          rw (q, flush_round, more, fits)
            (
              (
                (record { ordered = omega (arith, shorter); bounded = v.bounded }, u),
                refl,
                rw
                    (
                      m,
                      append_assoc,
                      take-slice-append b.store b.start b.end (suc n) (omega (arith, shorter)),
                    )
                    refl,
              ),
              omega (
                arith,
                shorter,
                length-slice b.store (b.start + suc n) b.end (omega (arith, shorter)) v.bounded,
              ),
            )
      go (err x, w) q (u, m) =
          rw (q, flush_round)
            (
              (record { ordered = v.ordered; bounded = v.bounded }, u),
              refl,
              ap (λ bs. bs ++ buffer b) m,
            )
      go (panic, w) q z = absurd z
      go (out_of_fuel, w) q z = absurd z

  Kept-Flushes :
      (b c : BufWriter W)
      → Kept Valid sent b c
      → (o : Outcome (Unit {0}) × BufWriter W) → Flushes Valid sent c o
      → Flushes Valid sent b o
  Kept-Flushes b c (v, size, same) (ok _, d) ((u, size', same'), z, y, all) =
      ((u, size' ∙ size, same' ∙ same), z, y, all ∙ same)
  Kept-Flushes b c (v, size, same) (err e, d) (u, size', same') = (u, size' ∙ size, same' ∙ same)
  Kept-Flushes b c k (panic, d) h = absurd h
  Kept-Flushes b c k (out_of_fuel, d) h = absurd h

  loop :
      (f : ℕ) (b : BufWriter W)
      → IsValidWriter Valid sent b
      → length (buffer b) < f
      → Flushes Valid sent b (flush_loop write f b)
  unfolding flush_loop discard
  loop zero b v h = absurd (omega arith)
  loop (suc f) b v h = elim (Bool-cases (is_empty b)) [
    | inl e ↦
        let gone : buffer b ≡ [] = slice_empty b.store b.start b.end (ground arith) in
        let none_left : slice b.store 0 0 ≡ [] = slice_empty b.store 0 0 (omega arith) in
        rw (e, flush_loop, none_left, gone)
          (
            ((record { ordered = omega arith; bounded = omega arith }, v.1), refl, refl),
            refl,
            refl,
            sym (append-nil (sent b.writer)),
          )
    | inr e ↦ go e (flush_round write b) refl (round b v) (loop f)
  ]
    where
      go :
          is_empty b ≡ false
          → (o : Outcome (Unit {0}) × BufWriter W) → flush_round write b ≡ o
          → Rounds Valid sent b o
          → ((c : BufWriter W)
              → IsValidWriter Valid sent c
              → length (buffer c) < f
              → Flushes Valid sent c (flush_loop write f c))
          → Flushes Valid sent b (flush_loop write (suc f) b)
      go e (ok _, c) q (k, less) ih =
          rw (e, flush_loop, q) (Kept-Flushes b c k (flush_loop write f c) (ih c k.0 (omega arith)))
      go e (err x, c) q k ih = rw (e, flush_loop, q) k
      go e (panic, c) q z ih = absurd z
      go e (out_of_fuel, c) q z ih = absurd z

  -- `flush_buf` ends. On success the buffer is empty and all that was accepted is sent; if the
  -- writer below fails, or takes nothing, what is not sent is still in the buffer, in order.
  pub flush_buf-Flushes :
      (b : BufWriter W) → IsValidWriter Valid sent b → Flushes Valid sent b (flush_buf write b)
  unfolding flush_buf
  flush_buf-Flushes b v = loop (length (buffer b) + 1) b v (omega arith)
