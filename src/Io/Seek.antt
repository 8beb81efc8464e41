-- ===== src/Io/Seek.antt =====
-- src/async_std/io/seek.rs: the operations of a stream that can seek, and what they promise.
pub mod Amounts
mod Tests
use xx_core.Base.{
  ℕ, zero, suc, ◌+◌, ◌-◌, ◌≡◌, ◌<◌, Bool, true, false, max, ltb, ◌==◌, if◌then◌else◌,
}
use xx_core.Base.Int.{ℤ, pos, negsuc, IsMoved, from_pattern, minus}
use xx_core.Base.Outcome.{Outcome, ok, err, panic, out_of_fuel, M, and_then}

-- `SeekFrom`
pub data SeekFrom : Type 0 where
  from_start : ℕ → SeekFrom
  current from_end : ℤ → SeekFrom

pub record Seeker (R : Type 0) : Type 0 where
  pub seek : SeekFrom → M R ℕ
  pub stream_position : M R ℕ
  pub stream_len : M R ℕ
  pub stream_position_fast : Bool
  pub stream_len_fast : Bool

-- The position that a seek asks for, from the position and the length of the stream.
abbrev pub Target : ℕ → ℕ → SeekFrom → ℕ → Type 0
Target at len (from_start p) q = q ≡ p
Target at len (current z) q = IsMoved at z q
Target at len (from_end z) q = IsMoved len z q

module _ {R : Type 0} (half : ℕ) (position_of length_of : R → ℕ) where
  -- A seek goes to its target and gives it; one that fails does not move.
  abbrev pub Sought : R → SeekFrom → Outcome ℕ × R → Type 0
  Sought r to (ok q, s) =
      Target (position_of r) (length_of r) to q × (position_of s ≡ q) × (length_of s ≡ length_of r)
  Sought r to (err e, s) = (position_of s ≡ position_of r) × (length_of s ≡ length_of r)
  Sought r to (panic, s) = ⊥
  Sought r to (out_of_fuel, s) = ⊥

  -- A question gives its answer, which an `u64` holds, and changes nothing.
  abbrev pub Answers : R → ℕ → Outcome ℕ × R → Type 0
  Answers r answer (ok q, s) =
      (q ≡ answer)
      × (q < half + half)
      × (position_of s ≡ position_of r)
      × (length_of s ≡ length_of r)
  Answers r answer (err e, s) = (position_of s ≡ position_of r) × (length_of s ≡ length_of r)
  Answers r answer (panic, s) = ⊥
  Answers r answer (out_of_fuel, s) = ⊥

  pub record IsSeeker (k : Seeker R) : Type 0 where
    pub seeks : (to : SeekFrom) (r : R) → Sought r to (Seeker.seek k to r)
    pub positions : (r : R) → Answers r (position_of r) (Seeker.stream_position k r)
    pub lengths : (r : R) → Answers r (length_of r) (Seeker.stream_len k r)

-- The amounts are `u64`; `half` is 2 ^ 63, and the most negative `i64` is minus half.
module _ {R : Type 0} (half : ℕ) (k : Seeker R) where
  pub rewind_amount : ℕ → M R ℕ
  rewind_amount amount r =
      if ltb amount half
      then Seeker.seek k (current (minus amount)) r
      else and_then (Seeker.seek k (current (minus half)) r)
          (λ _ s. Seeker.seek k (current (minus (amount - half))) s)

  -- The loop of `skip_amount`. The amount of a step is cast to an `i64`; `left -= amount` on `u64`.
  pub skip_loop : ℕ → ℕ → M R ℕ
  skip_loop zero left r = (out_of_fuel, r)
  skip_loop (suc fuel) left r =
      let amount = max left (half - 1) in
      and_then (Seeker.seek k (current (from_pattern half amount)) r) (λ q s.
        let rest = skip_loop fuel (left - amount) s in
        if left - amount == 0 then (ok q, s) else rest)

  pub skip_amount : ℕ → M R ℕ
  skip_amount amount r =
      if ltb amount half then Seeker.seek k (current (pos amount)) r else skip_loop 3 amount r
