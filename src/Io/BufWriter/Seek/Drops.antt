-- ===== src/Io/BufWriter/Seek/Drops.antt =====
-- src/async_std/io/buf_writer.rs: what a seek to the current position does to the buffered bytes.
use xx_core.Base.{
  ℕ, ◌+◌, ◌≤◌, ◌<◌, ◌≡◌, refl, inl, inr, true, false, List, [], ltb, length, Bool-cases, arith,
}
use xx_core.Base.Slices.{slice_empty}
use xx_core.Base.Int.{pos}
use xx_core.Base.Outcome.{Outcome, ok, err, panic, out_of_fuel, M}
use xx_core.Io.Seek.{current, Seeker}
use xx_core.Io.BufWriter.{BufWriter, IsValid, buffer}
use xx_core.Io.BufWriter.Seek.{stream_position, seek_relative, seek}

module _ {W : Type 0} (half : ℕ) (write : List ℕ → M W ℕ) (k : Seeker W) (sent : W → List ℕ)
    (asks : (w : W) → sent (Seeker.stream_position k w).1 ≡ sent w) where
  emptied :
      (b : BufWriter W) (n : ℕ) (o : Outcome ℕ × W)
      → n ≤ b.start
      → sent o.1 ≡ sent b.writer
      → Seeker.stream_position k b.writer ≡ o
      → (buffer (stream_position half write k (record b { end = n })).1 ≡ [])
        × (sent (BufWriter.writer (stream_position half write k (record b { end = n })).1)
            ≡ sent b.writer)
  unfolding stream_position
  emptied b n (ok q, w) h same e = elim (Bool-cases (ltb (q + length b.store) (half + half))) [
    | inl t ↦ rw (e, t) (slice_empty b.store b.start n h, same)
    | inr t ↦ rw (e, t) (slice_empty b.store b.start n h, same)
  ]
  emptied b n (err e', w) h same e = rw (e) (slice_empty b.store b.start n h, same)
  emptied b n (panic, w) h same e = rw (e) (slice_empty b.store b.start n h, same)
  emptied b n (out_of_fuel, w) h same e = rw (e) (slice_empty b.store b.start n h, same)

  -- For every valid buffered writer, a seek by nothing from the current position empties the buffer
  -- and sends nothing: the bytes that were buffered are lost.
  pub seek-buffer :
      (b : BufWriter W)
      → IsValid b
      → b.end < half
      → (buffer (seek half write k (current (pos 0)) b).1 ≡ [])
        × (sent (BufWriter.writer (seek half write k (current (pos 0)) b).1) ≡ sent b.writer)
  unfolding seek seek_relative
  seek-buffer b v h =
      let small : ltb (0 + b.start) half ≡ true = ground arith in
      let inside : ltb (0 + b.start) b.start ≡ false = ground arith in
      let below : ltb b.end (0 + b.start) ≡ false = ground arith in
      rw (small, inside, below, seek_relative)
        (emptied b (0 + b.start) (Seeker.stream_position k b.writer) (omega arith) (asks b.writer)
          refl)
