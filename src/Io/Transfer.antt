-- ===== src/Io/Transfer.antt =====
-- src/async_std/io/read.rs and src/async_std/io/write.rs: the loops that fill or send a whole
-- buffer. The state of the reader or the writer takes in what is around it, the interrupt flag of the
-- task too; `stops` reads that flag in a state, and is asked anew at each check. The loops take fuel.
pub mod Reading
pub mod Writing
mod Tests
use xx_core.Base.{
  ℕ, zero, suc, ◌+◌, ◌-◌, Bool, true, false, ◌&&◌, not, List, [], ◌++◌, ltb, ◌==◌, if◌then◌else◌,
  length, drop,
}
use xx_core.Base.Outcome.{
  Outcome, ok, err, panic, out_of_fuel, IoError, interrupted, unexpected_eof, is_interrupted, M,
  and_then, pure, throw,
}
use xx_core.Io.Slices.{length_check}

abbrev pub check_interrupt_if_zero : {S : Type 0} → Bool → ℕ → M S ℕ
check_interrupt_if_zero stop n = if (n == 0) && stop then throw interrupted else pure n

abbrev pub short_io_error_unless_interrupt : Bool → IoError
short_io_error_unless_interrupt stop = if stop then interrupted else unexpected_eof

-- The state is the reader and the bytes that were put into the buffer, whose size is `size`.
module _ {R : Type 0} (read : ℕ → M R (List ℕ)) (stops : R → Bool) where
  -- What the loop does with the result of a read.
  abbrev pub after_read :
      ℕ → List ℕ → M (R × List ℕ) ℕ → Outcome (List ℕ) × R → Outcome ℕ × (R × List ℕ)
  after_read size got next (ok bs, r) =
      if length bs == 0
      then (ok (length got), (r, got))
      else and_then (length_check (size - length got) (length bs) (r, got ++ bs)) (λ _. next)
  after_read size got next (err e, r) =
      if is_interrupted e then (ok (length got), (r, got)) else (err e, (r, got))
  after_read size got next (panic, r) = (panic, (r, got))
  after_read size got next (out_of_fuel, r) = (out_of_fuel, (r, got))

  unfoldable pub read_loop : ℕ → ℕ → M (R × List ℕ) ℕ
  read_loop zero size s = (out_of_fuel, s)
  read_loop (suc fuel) size (r, got) =
      let next = read_loop fuel size in
      if ltb (length got) size
      then after_read size got next (read (size - length got) r)
      else (ok (length got), (r, got))

  unfoldable pub try_read_fully : ℕ → ℕ → M (R × List ℕ) ℕ
  try_read_fully fuel size s =
      if size == 0
      then (ok 0, s)
      else and_then (read_loop fuel size s) (λ n. λ t. check_interrupt_if_zero (stops (t.0)) n t)

  pub read_fully : ℕ → ℕ → M (R × List ℕ) ℕ
  read_fully fuel size s =
      if size == 0
      then (ok 0, s)
      else and_then (try_read_fully fuel size s) (λ n. λ t. and_then (length_check size n t) (λ _.
        if not (n == size) then throw (short_io_error_unless_interrupt (stops (t.0))) else pure n))

module _ {W : Type 0} (write : List ℕ → M W ℕ) (stops : W → Bool) where
  -- What the loop does with the result of a write.
  abbrev pub after_write : List ℕ → ℕ → (ℕ → M W ℕ) → Outcome ℕ × W → Outcome ℕ × W
  after_write buf wrote next (ok n, w) =
      if n == 0
      then (ok wrote, w)
      else and_then (length_check (length buf - wrote) n w) (λ k. next (wrote + k))
  after_write buf wrote next (err e, w) = if is_interrupted e then (ok wrote, w) else (err e, w)
  after_write buf wrote next (panic, w) = (panic, w)
  after_write buf wrote next (out_of_fuel, w) = (out_of_fuel, w)

  unfoldable pub write_loop : ℕ → List ℕ → ℕ → M W ℕ
  write_loop zero buf wrote w = (out_of_fuel, w)
  write_loop (suc fuel) buf wrote w =
      let next = write_loop fuel buf in
      if ltb wrote (length buf)
      then after_write buf wrote next (write (drop wrote buf) w)
      else (ok wrote, w)

  unfoldable pub try_write_all : ℕ → List ℕ → M W ℕ
  try_write_all fuel buf w =
      if length buf == 0
      then (ok 0, w)
      else and_then (write_loop fuel buf 0 w) (λ n. λ v. check_interrupt_if_zero (stops v) n v)

  pub write_all : ℕ → List ℕ → M W ℕ
  write_all fuel buf w =
      if length buf == 0
      then (ok 0, w)
      else and_then (try_write_all fuel buf w) (λ n. λ v.
        and_then (length_check (length buf) n v) (λ _.
          if ltb n (length buf) then throw (short_io_error_unless_interrupt (stops v)) else pure n))
