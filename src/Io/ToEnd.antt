-- ===== src/Io/ToEnd.antt =====
-- `read_to_end` of src/async_std/io/read.rs. The vector's growth is that of the standard library,
-- `grow len more`, at least `len + more`. The state of the reader takes in what is around it, the
-- interrupt flag of the task too, and `stops` reads that flag: `is_interrupted` is asked in each round, and
-- again at the end, on the state at that moment.
pub mod Zeros
pub mod Holds
pub mod Ends
mod Tests
use xx_core.Base.{
  ℕ, zero, suc, ◌+◌, ◌-◌, Bool, true, false, ◌&&◌, not, List, [], ◌++◌, ltb, leb, ◌==◌,
  if◌then◌else◌, length, take, replicate,
}
use xx_core.Base.Slices.{write_at}
use xx_core.Base.Outcome.{Outcome, ok, err, panic, out_of_fuel, is_interrupted, M, and_then}
use xx_core.Io.Slices.{length_check}
use xx_core.Io.Transfer.{check_interrupt_if_zero}

-- `Vec<u8>`
pub record Vec : Type 0 where
  pub bytes : List ℕ
  pub capacity : ℕ

module _ (grow : ℕ → ℕ → ℕ) where
  abbrev pub reserve : ℕ → Vec → Vec
  reserve more v =
      if leb (length (Vec.bytes v) + more) (Vec.capacity v)
      then v
      else record v { capacity = grow (length (Vec.bytes v)) more }

  abbrev pub extend_from_slice : List ℕ → Vec → Vec
  extend_from_slice bs v = record (reserve (length bs) v) { bytes = Vec.bytes v ++ bs }

-- `buf.resize(capacity, 0)`, where the vector is shorter.
abbrev pub fill_capacity : Vec → Vec
fill_capacity v =
    if ltb (length (Vec.bytes v)) (Vec.capacity v)
    then record v { bytes = Vec.bytes v ++ replicate (Vec.capacity v - length (Vec.bytes v)) 0 }
    else v

abbrev pub truncate : ℕ → Vec → Vec
truncate len v = record v { bytes = take len (Vec.bytes v) }

module _ {R : Type 0} (read : ℕ → M R (List ℕ)) (grow : ℕ → ℕ → ℕ) (stops : R → Bool) where
  -- The vector with which a round reads.
  abbrev pub prepared : ℕ → Vec → Vec
  prepared len v = fill_capacity (if len == Vec.capacity v then reserve grow 32 v else v)

  abbrev pub after_probe :
      ℕ → Vec → (ℕ → M (R × Vec) ℕ) → Outcome (List ℕ) × R → Outcome ℕ × (R × Vec)
  after_probe len v next (ok bs, r) =
      if length bs == 0
      then (ok len, (r, v))
      else if leb (length bs) 32
      then next (length (Vec.bytes v ++ bs)) (r, extend_from_slice grow bs v)
      else (panic, (r, v))
  after_probe len v next (err e, r) = if is_interrupted e then (ok len, (r, v)) else (err e, (r, v))
  after_probe len v next (panic, r) = (panic, (r, v))
  after_probe len v next (out_of_fuel, r) = (out_of_fuel, (r, v))

  abbrev pub after_read_in :
      ℕ → Vec → (ℕ → M (R × Vec) ℕ) → Outcome (List ℕ) × R → Outcome ℕ × (R × Vec)
  after_read_in len v next (ok bs, r) =
      if length bs == 0
      then (ok len, (r, v))
      else and_then
          (length_check (length (Vec.bytes v) - len) (length bs)
            (r, record v { bytes = write_at (Vec.bytes v) len bs }))
          (λ n. λ s.
            if ltb (len + n) (Vec.capacity v)
            then next (len + n) s
            else after_probe (len + n) (s.1) next (read 32 (s.0)))
  after_read_in len v next (err e, r) =
      if is_interrupted e then (ok len, (r, v)) else (err e, (r, v))
  after_read_in len v next (panic, r) = (panic, (r, v))
  after_read_in len v next (out_of_fuel, r) = (out_of_fuel, (r, v))

  pub read_to_end_loop : ℕ → ℕ → M (R × Vec) ℕ
  read_to_end_loop zero len s = (out_of_fuel, s)
  read_to_end_loop (suc fuel) len (r, v) =
      let next = read_to_end_loop fuel in
      if stops r
      then (ok len, (r, v))
      else after_read_in len (prepared len v) next
          (read (length (Vec.bytes (prepared len v)) - len) r)

  abbrev pub finish : ℕ → ℕ → M (R × Vec) ℕ
  finish start len (r, v) = check_interrupt_if_zero (stops r) (len - start) (r, truncate len v)

  pub read_to_end : ℕ → M (R × Vec) ℕ
  read_to_end fuel (r, v) =
      and_then (read_to_end_loop fuel (length (Vec.bytes v)) (r, v)) (finish (length (Vec.bytes v)))
