-- ===== src/Io/Vectored.antt =====
-- src/async_std/io/mod.rs and src/async_std/io/write.rs: buffers in several slices, and the loop
-- that writes them all. The loop takes fuel. `write_vectored` of the writer is a parameter.
pub mod Advance
pub mod Loop
pub mod All
mod Tests
use xx_core.Base.{
  ℕ, zero, suc, ◌+◌, ◌-◌, Bool, true, false, not, List, [], ◌∷◌, ◌++◌, leb, ◌==◌, if◌then◌else◌,
  length, drop,
}
use xx_core.Base.Outcome.{
  Outcome, ok, err, panic, out_of_fuel, is_interrupted, M, and_then, pure, throw,
}
use xx_core.Io.Transfer.{short_io_error_unless_interrupt}

-- The bytes of all slices.
abbrev pub concat : List (List ℕ) → List ℕ
concat [] = []
concat (b ∷ bs) = b ++ concat bs

-- `advance_slices`: the slices that the amount covers are removed, and it ends inside the next one.
-- `advance_slices_mut` does the same on slices that can be written.
abbrev pub advance_slices : List (List ℕ) → ℕ → Outcome (List (List ℕ))
advance_slices [] amount = if amount == 0 then ok [] else panic
advance_slices (b ∷ bs) amount =
    let rest = advance_slices bs (amount - length b) in
    if leb (length b) amount then rest else ok (drop amount b ∷ bs)

abbrev pub is_empty : List (List ℕ) → Bool
is_empty [] = true
is_empty (b ∷ bs) = false

module _ {W : Type 0} (write_vectored : List (List ℕ) → M W ℕ) where
  -- What the loop does with the slices that are left.
  abbrev pub after_advance :
      (List (List ℕ) → M W (ℕ × Bool)) → W → Outcome (List (List ℕ)) → Outcome (ℕ × Bool) × W
  after_advance next w (ok rest) = next rest w
  after_advance next w (err e) = (err e, w)
  after_advance next w panic = (panic, w)
  after_advance next w out_of_fuel = (out_of_fuel, w)

  abbrev pub after_write :
      List (List ℕ)
      → ℕ
      → (ℕ → List (List ℕ) → M W (ℕ × Bool))
      → Outcome ℕ × W
      → Outcome (ℕ × Bool) × W
  after_write bufs total next (ok n, w) =
      if n == 0
      then (ok (total, is_empty bufs), w)
      else after_advance (next (total + n)) w (advance_slices bufs n)
  after_write bufs total next (err e, w) =
      if is_interrupted e then (ok (total, is_empty bufs), w) else (err e, w)
  after_write bufs total next (panic, w) = (panic, w)
  after_write bufs total next (out_of_fuel, w) = (out_of_fuel, w)

  -- `default_write_vectored` from a total on: the bytes written, and whether all were.
  pub default_write_vectored : ℕ → ℕ → List (List ℕ) → M W (ℕ × Bool)
  default_write_vectored zero total bufs w = (out_of_fuel, w)
  default_write_vectored (suc fuel) total bufs w =
      let next = default_write_vectored fuel in
      if is_empty bufs
      then (ok (total, true), w)
      else after_write bufs total next (write_vectored bufs w)

  pub try_write_all_vectored : ℕ → List (List ℕ) → M W ℕ
  try_write_all_vectored fuel bufs w =
      and_then (default_write_vectored fuel 0 bufs w) (λ r. pure (r.0))

  abbrev pub all_or_short : (W → Bool) → ℕ × Bool → M W ℕ
  all_or_short stops (wrote, exhausted) w =
      if not exhausted then throw (short_io_error_unless_interrupt (stops w)) w else pure wrote w

  pub write_all_vectored : (W → Bool) → ℕ → List (List ℕ) → M W ℕ
  write_all_vectored stops fuel bufs w =
      and_then (default_write_vectored fuel 0 bufs w) (all_or_short stops)

-- `write_vectored` of a writer that has none of its own: the first slice that is not empty.
abbrev pub write_vectored : {W : Type 0} → (List ℕ → M W ℕ) → List (List ℕ) → M W ℕ
write_vectored write [] w = (ok 0, w)
write_vectored write ([] ∷ bs) w = write_vectored write bs w
write_vectored write ((x ∷ xs) ∷ bs) w = write (x ∷ xs) w
