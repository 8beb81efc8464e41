-- ===== src/Uint.antt =====
-- src/impls/uint.rs: operations between an unsigned number and a signed one of the same width. The width is given by
-- `half`, 2 ^ (bits - 1). A number of either type is its bit pattern, below `half + half`; a
-- pattern from `half` on stands for a negative signed number.
pub mod Laws
mod Tests
use xx_core.Base.{
  ℕ, ◌+◌, ◌-◌, ◌%◌, Bool, true, false, not, Option, none, some, ltb, leb, if◌then◌else◌,
}

-- `a == b` and `a ^ b` on Booleans.
abbrev same : Bool → Bool → Bool
same true b = b
same false b = not b

abbrev differ : Bool → Bool → Bool
differ true b = not b
differ false b = b

module _ (half : ℕ) where
  abbrev pub modulus : ℕ
  modulus = half + half

  -- The number that a signed pattern stands for is `gain p` less `loss p`.
  abbrev pub gain : ℕ → ℕ
  gain p = if ltb p half then p else 0

  abbrev pub loss : ℕ → ℕ
  loss p = if ltb p half then 0 else modulus - p

  -- `MAX` and `MIN` of the signed type, and `MAX` of the unsigned one.
  abbrev pub signed_max : ℕ
  signed_max = half - 1

  abbrev pub signed_min : ℕ
  signed_min = half

  abbrev pub unsigned_max : ℕ
  unsigned_max = modulus - 1

  abbrev pub is_negative : ℕ → Bool
  is_negative p = leb half p

  abbrev pub wrapping_sub : ℕ → ℕ → ℕ
  wrapping_sub a b = (a + modulus - b) % modulus

  pub overflowing_signed_diff : ℕ → ℕ → ℕ × Bool
  overflowing_signed_diff a b =
      let res = wrapping_sub a b in (res, same (leb b a) (is_negative res))

  pub saturating_signed_diff : ℕ → ℕ → ℕ
  saturating_signed_diff a b =
      let (res, overflow) = overflowing_signed_diff a b in
      if not overflow then res else if is_negative res then signed_max else signed_min

  pub checked_signed_diff : ℕ → ℕ → Option ℕ
  checked_signed_diff a b =
      let (res, overflow) = overflowing_signed_diff a b in if not overflow then some res else none

  pub overflowing_sub_signed : ℕ → ℕ → ℕ × Bool
  overflowing_sub_signed a b = (wrapping_sub a b, differ (ltb a b) (is_negative b))

  pub saturating_sub_signed : ℕ → ℕ → ℕ
  saturating_sub_signed a b =
      let (res, overflow) = overflowing_sub_signed a b in
      if not overflow then res else if is_negative b then unsigned_max else 0

  pub checked_sub_signed : ℕ → ℕ → Option ℕ
  checked_sub_signed a b =
      let (res, overflow) = overflowing_sub_signed a b in if not overflow then some res else none

  pub wrapping_sub_signed : ℕ → ℕ → ℕ
  wrapping_sub_signed a b = wrapping_sub a b
