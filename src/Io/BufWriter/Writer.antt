-- ===== src/Io/BufWriter/Writer.antt =====
-- The `Write` implementation of src/async_std/io/buf_writer.rs: a `BufWriter` keeps the contract that the writer below keeps.
use xx_core.Base.{
  ℕ, ◌≡◌, refl, ◌∙◌, inl, inr, true, false, List, [], min, append-nil, append_assoc, arith,
  Bool-cases, ltb, leb, length, take, length-take,
}
use xx_core.Base.Slices.{slice_empty, slice-write_at, length-write_at}
use xx_core.Base.Outcome.{Outcome, ok, err, panic, out_of_fuel, M}
use xx_core.Io.Contract.{Writes, IsWriter}
use xx_core.Io.BufWriter.{
  BufWriter, buffer, spare_capacity, write_buffered, flush_buf, write_flushed, write_through,
}
use xx_core.Io.BufWriter.Flush.{accepted, IsValidWriter, Flushes, flush_buf-Flushes}

module _ {W : Type 0} (Valid : W → Type 0) (sent : W → List ℕ) where
  write_buffered-Writes :
      (b : BufWriter W) (buf : List ℕ)
      → IsValidWriter Valid sent b
      → Writes
          (IsValidWriter Valid sent)
          (accepted Valid sent)
          buf
          (accepted Valid sent b)
          (write_buffered buf b)
  unfolding write_buffered
  write_buffered-Writes b buf (v, p) = (
    (
      record {
        ordered = omega arith;
        bounded = omega (arith, size, length-write_at b.store b.end bs (omega (arith, size)));
      },
      p,
    ),
    omega (arith, size),
    rw (slice-write_at b.store b.start b.end bs v.ordered v.bounded, append_assoc, size) refl,
  )
    where
      room : ℕ
      room = min (spare_capacity b) (length buf)

      bs : List ℕ
      bs = take room buf

      size : length bs ≡ room
      size = length-take room buf ∙ omega arith

module _ {W : Type 0} (Valid : W → Type 0) (sent : W → List ℕ) (write : List ℕ → M W ℕ)
    (contract : IsWriter Valid sent write) where
  write_flushed-Writes :
      (b : BufWriter W) (buf : List ℕ)
      → IsValidWriter Valid sent b
      → buffer b ≡ []
      → Writes
          (IsValidWriter Valid sent)
          (accepted Valid sent)
          buf
          (accepted Valid sent b)
          (write_flushed write buf b)
  unfolding write_flushed
  write_flushed-Writes b buf (v, p) gone = elim (Bool-cases (leb (length b.store) (length buf))) [
    | inl large ↦ go large (write buf b.writer) refl (contract buf b.writer p)
    | inr small ↦ rw (small, write_flushed) (write_buffered-Writes Valid sent b buf (v, p))
  ]
    where
      go :
          leb (length b.store) (length buf) ≡ true
          → (o : Outcome ℕ × W) → write buf b.writer ≡ o
          → Writes Valid sent buf (sent b.writer) o
          → Writes
              (IsValidWriter Valid sent)
              (accepted Valid sent)
              buf
              (accepted Valid sent b)
              (write_flushed write buf b)
      go large (ok n, w) q (u, l, m) =
          rw (large, write_flushed, q, gone)
            (
              (record { ordered = v.ordered; bounded = v.bounded }, u),
              l,
              rw (append-nil, append-nil) m,
            )
      go large (err x, w) q (u, m) =
          rw (large, write_flushed, q, gone)
            (
              (record { ordered = v.ordered; bounded = v.bounded }, u),
              rw (append-nil, append-nil) m,
            )
      go large (panic, w) q z = absurd z
      go large (out_of_fuel, w) q z = absurd z

  -- A `BufWriter` keeps the contract of a writer, for what it accepted: sent down, or still buffered in order.
  pub write_through-IsWriter :
      IsWriter (IsValidWriter Valid sent) (accepted Valid sent) (write_through write)
  unfolding write_through
  write_through-IsWriter buf b v = elim (Bool-cases (ltb 0 (spare_capacity b))) [
    | inl space ↦ rw (space, write_through) (write_buffered-Writes Valid sent b buf v)
    | inr full ↦ go full (flush_buf write b) refl (flush_buf-Flushes Valid sent write contract b v)
  ]
    where
      go :
          ltb 0 (spare_capacity b) ≡ false
          → (o : Outcome (Unit {0}) × BufWriter W) → flush_buf write b ≡ o
          → Flushes Valid sent b o
          → Writes
              (IsValidWriter Valid sent)
              (accepted Valid sent)
              buf
              (accepted Valid sent b)
              (write_through write buf b)
      go full (ok _, c) q ((u, size, same), z, y, all) =
          rw (full, write_through, q, ← same)
            (write_flushed-Writes c buf u (slice_empty c.store c.start c.end (omega arith)))
      go full (err x, c) q (u, size, same) = rw (full, write_through, q) (u, same)
      go full (panic, c) q z = absurd z
      go full (out_of_fuel, c) q z = absurd z
