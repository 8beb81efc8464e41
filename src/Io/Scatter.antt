-- ===== src/Io/Scatter.antt =====
-- src/async_std/io/read.rs: the loop that reads into several slices. The state is the reader with the bytes that
-- were put into the slices, in their order; of a slice only the length counts. The loop takes fuel.
-- `read_vectored` of the reader is a parameter.
pub mod Full
mod Tests
use xx_core.Base.{
  ℕ, zero, suc, ◌+◌, Bool, true, false, not, List, [], ◌∷◌, ◌++◌, ◌==◌, if◌then◌else◌, length,
}
use xx_core.Base.Outcome.{
  Outcome, ok, err, panic, out_of_fuel, is_interrupted, M, and_then, pure, throw,
}
use xx_core.Io.Transfer.{short_io_error_unless_interrupt}
use xx_core.Io.Vectored.{advance_slices, is_empty}

module _ {R : Type 0} (read_vectored : List (List ℕ) → M R (List ℕ)) where
  abbrev pub with_rest :
      (List (List ℕ) → M (R × List ℕ) (ℕ × Bool))
      → R × List ℕ
      → Outcome (List (List ℕ))
      → Outcome (ℕ × Bool) × (R × List ℕ)
  with_rest next s (ok rest) = next rest s
  with_rest next s (err e) = (err e, s)
  with_rest next s panic = (panic, s)
  with_rest next s out_of_fuel = (out_of_fuel, s)

  abbrev pub scattered :
      List (List ℕ)
      → ℕ
      → List ℕ
      → (ℕ → List (List ℕ) → M (R × List ℕ) (ℕ × Bool))
      → Outcome (List ℕ) × R
      → Outcome (ℕ × Bool) × (R × List ℕ)
  scattered bufs total got next (ok bs, r) =
      if length bs == 0
      then (ok (total, is_empty bufs), (r, got))
      else with_rest (next (total + length bs)) (r, got ++ bs) (advance_slices bufs (length bs))
  scattered bufs total got next (err e, r) =
      if is_interrupted e then (ok (total, is_empty bufs), (r, got)) else (err e, (r, got))
  scattered bufs total got next (panic, r) = (panic, (r, got))
  scattered bufs total got next (out_of_fuel, r) = (out_of_fuel, (r, got))

  -- `default_read_vectored` from a total on: the bytes read, and whether all slices are full.
  pub default_read_vectored : ℕ → ℕ → List (List ℕ) → M (R × List ℕ) (ℕ × Bool)
  default_read_vectored zero total bufs s = (out_of_fuel, s)
  default_read_vectored (suc fuel) total bufs (r, got) =
      let next = default_read_vectored fuel in
      if is_empty bufs
      then (ok (total, true), (r, got))
      else scattered bufs total got next (read_vectored bufs r)

  pub try_read_fully_vectored : ℕ → List (List ℕ) → M (R × List ℕ) ℕ
  try_read_fully_vectored fuel bufs s =
      and_then (default_read_vectored fuel 0 bufs s) (λ r. pure (r.0))

  abbrev pub full_or_short : (R → Bool) → ℕ × Bool → M (R × List ℕ) ℕ
  full_or_short stops (read, exhausted) s =
      if not exhausted then throw (short_io_error_unless_interrupt (stops (s.0))) s else pure read s

  pub read_fully_vectored : (R → Bool) → ℕ → List (List ℕ) → M (R × List ℕ) ℕ
  read_fully_vectored stops fuel bufs s =
      and_then (default_read_vectored fuel 0 bufs s) (full_or_short stops)

-- `read_vectored` of a reader that has none of its own: into the first slice that is not empty.
abbrev pub read_vectored : {R : Type 0} → (ℕ → M R (List ℕ)) → List (List ℕ) → M R (List ℕ)
read_vectored read [] r = (ok [], r)
read_vectored read ([] ∷ bs) r = read_vectored read bs r
read_vectored read ((x ∷ xs) ∷ bs) r = read (length (x ∷ xs)) r
