-- ===== src/Uint/Laws.antt =====
-- src/impls/uint.rs: what the operations compute, over the numbers that the patterns stand for.
use xx_core.Base.{
  ℕ, ◌+◌, ◌-◌, ◌%◌, ◌≤◌, ◌<◌, ◌≡◌, ◌∙◌, ap, refl, ◌⊎◌, inl, inr, true, false, Option, none, some,
  ltb, leb, ◌==◌, Bool-cases, arith,
}
use native.Mathlib.Nat.{mod-eq_of_lt, add-mod_right}
use xx_core.Uint

module _ (half : ℕ) (a b : ℕ) (a_fits : a < half + half) (b_fits : b < half + half) where
  -- The wrapped difference is the difference or, below zero, that and the modulus.
  pub wrapping_sub-cases :
      ((b ≤ a) × (Uint.wrapping_sub half a b ≡ a - b))
      ⊎ ((a < b) × (Uint.wrapping_sub half a b ≡ a + (half + half) - b))
  wrapping_sub-cases = elim (Bool-cases (leb b a)) [
    | inl h ↦
        let above : b ≤ a = ground arith in
        let shape : a + (half + half) - b ≡ (a - b) + (half + half) = omega arith in
        inl (
          above,
          ap (λ n. n % (half + half)) shape
              ∙ add-mod_right (a - b) (half + half)
              ∙ mod-eq_of_lt (omega arith),
        )
    | inr h ↦ let below : a < b = ground arith in inr (below, mod-eq_of_lt (omega arith))
  ]

-- A difference that is not negative does not wrap.
pub wrapping_sub_above :
    (half a b : ℕ) → a < half + half → b ≤ a → Uint.wrapping_sub half a b ≡ a - b
wrapping_sub_above half a b h k = elim (wrapping_sub-cases half a b h (omega arith)) [
  | inl (c, q) ↦ q
  | inr (c, q) ↦ absurd (omega arith)
]

-- The sign of a difference of numbers in the range of the signed type.
pub wrapping_sub_sign :
    (half a b : ℕ)
    → a < b
    → b ≤ half
    → ((Uint.wrapping_sub half a b == 0) ≡ false) × (leb half (Uint.wrapping_sub half a b) ≡ true)
wrapping_sub_sign half a b h k = elim (wrapping_sub-cases half a b (omega arith) (omega arith)) [
  | inl (c, q) ↦ absurd (omega arith)
  | inr (c, q) ↦ (ground arith, ground arith)
]

-- What is right for the signed difference of a and b: its pattern, or none when it is out of the
-- range of the signed type.
abbrev pub IsDifference : ℕ → ℕ → ℕ → Option ℕ → Type 0
IsDifference half a b (some p) = (p < half + half) × (b + Uint.gain half p ≡ a + Uint.loss half p)
IsDifference half a b none = (b + half ≤ a) ⊎ (a + half < b)

-- What is right for the difference of an unsigned a and a signed b, likewise.
pub IsSignedLess : ℕ → ℕ → ℕ → Option ℕ → Type 0
IsSignedLess half a b (some p) = (p < half + half) × (p + Uint.gain half b ≡ a + Uint.loss half b)
IsSignedLess half a b none = (a < Uint.gain half b) ⊎ ((half + half) ≤ a + Uint.loss half b)

-- The pattern of the difference where the signed type has it, and its bound on either side.
pub IsClamped : ℕ → ℕ → ℕ → ℕ → Type 0
IsClamped half a b p =
    ((b + half ≤ a) × (p ≡ Uint.signed_max half))
    ⊎ (((a + half < b) × (p ≡ Uint.signed_min half)) ⊎ IsDifference half a b (some p))

-- The difference where the unsigned type has it, and its bound on either side.
pub IsSignedClamped : ℕ → ℕ → ℕ → ℕ → Type 0
IsSignedClamped half a b p =
    ((a < Uint.gain half b) × (p ≡ 0))
    ⊎ ((((half + half) ≤ a + Uint.loss half b) × (p ≡ Uint.unsigned_max half))
        ⊎ IsSignedLess half a b (some p))

module _ (half : ℕ) (a b : ℕ) (a_fits : a < half + half) (b_fits : b < half + half) where
  Diff-cases :
      ((p : ℕ) × ((Uint.overflowing_signed_diff half a b ≡ (p, false))
          × IsDifference half a b (some p)))
      ⊎ ((p : ℕ) × ((Uint.overflowing_signed_diff half a b ≡ (p, true))
            × (((leb half p ≡ true) × (b + half ≤ a)) ⊎ ((leb half p ≡ false) × (a + half < b)))))
  unfolding Uint.overflowing_signed_diff
  Diff-cases = elim (wrapping_sub-cases half a b a_fits b_fits) [
    | inl (above, q) ↦
        let t : leb b a ≡ true = ground arith in
        elim (Bool-cases (leb half (a - b))) [
          | inl r ↦ inr (a - b, (rw (q, t, r) refl, inl (r, ground arith)))
          | inr r ↦ inl (a - b, (rw (q, t, r) refl, (omega arith, ground arith)))
        ]
    | inr (below, q) ↦
        let t : leb b a ≡ false = ground arith in
        elim (Bool-cases (leb half (a + (half + half) - b))) [
          | inl r ↦ inl (a + (half + half) - b, (rw (q, t, r) refl, (omega arith, ground arith)))
          | inr r ↦ inr (a + (half + half) - b, (rw (q, t, r) refl, inr (r, ground arith)))
        ]
  ]

  Less-cases :
      ((p : ℕ) × ((Uint.overflowing_sub_signed half a b ≡ (p, false))
          × IsSignedLess half a b (some p)))
      ⊎ ((p : ℕ) × ((Uint.overflowing_sub_signed half a b ≡ (p, true))
            × (((leb half b ≡ true) × ((half + half) ≤ a + Uint.loss half b))
                ⊎ ((leb half b ≡ false) × (a < Uint.gain half b)))))
  unfolding IsSignedLess Uint.overflowing_sub_signed
  Less-cases = elim (wrapping_sub-cases half a b a_fits b_fits) [
    | inl (above, q) ↦
        let t : ltb a b ≡ false = ground arith in
        elim (Bool-cases (leb half b)) [
          | inl r ↦ inr (a - b, (rw (q, t, r) refl, inl (r, ground arith)))
          | inr r ↦ inl (a - b, (rw (q, t, r) refl, (omega arith, ground arith)))
        ]
    | inr (below, q) ↦
        let t : ltb a b ≡ true = ground arith in
        elim (Bool-cases (leb half b)) [
          | inl r ↦ inl (a + (half + half) - b, (rw (q, t, r) refl, (omega arith, ground arith)))
          | inr r ↦ inr (a + (half + half) - b, (rw (q, t, r) refl, inr (r, ground arith)))
        ]
  ]

  -- For two numbers of a width, checked_signed_diff gives the pattern of the signed number that is
  -- their difference, and none exactly when the signed type has no such number.
  pub checked_signed_diff-IsDifference : IsDifference half a b (Uint.checked_signed_diff half a b)
  unfolding Uint.checked_signed_diff
  checked_signed_diff-IsDifference = elim Diff-cases [
    | inl (p, (q, is)) ↦ rw (q) is
    | inr (p, (q, inl (n, far))) ↦ rw (q) (inl far)
    | inr (p, (q, inr (n, far))) ↦ rw (q) (inr far)
  ]

  -- For two numbers of a width, saturating_signed_diff gives the pattern of their difference, or
  -- of the greatest or least signed number where the difference is out of range above or below.
  pub saturating_signed_diff-IsClamped : IsClamped half a b (Uint.saturating_signed_diff half a b)
  unfolding IsClamped Uint.saturating_signed_diff
  saturating_signed_diff-IsClamped = elim Diff-cases [
    | inl (p, (q, is)) ↦ rw (q) (inr (inr is))
    | inr (p, (q, inl (n, far))) ↦ rw (q, n) (inl (far, refl))
    | inr (p, (q, inr (n, far))) ↦ rw (q, n) (inr (inl (far, refl)))
  ]

  -- For an unsigned and a signed number of a width, checked_sub_signed gives the first less the
  -- second, and none exactly when that is negative or too large for the unsigned type.
  pub checked_sub_signed-IsSignedLess : IsSignedLess half a b (Uint.checked_sub_signed half a b)
  unfolding IsSignedLess Uint.checked_sub_signed
  checked_sub_signed-IsSignedLess = elim Less-cases [
    | inl (p, (q, is)) ↦ rw (q) is
    | inr (p, (q, inl (n, far))) ↦ rw (q) (inr far)
    | inr (p, (q, inr (n, far))) ↦ rw (q) (inl far)
  ]

  -- For an unsigned and a signed number of a width, saturating_sub_signed gives the first less the
  -- second, or zero when that is negative and the greatest number when it is too large.
  pub saturating_sub_signed-IsSignedClamped :
      IsSignedClamped half a b (Uint.saturating_sub_signed half a b)
  unfolding IsSignedClamped Uint.saturating_sub_signed
  saturating_sub_signed-IsSignedClamped = elim Less-cases [
    | inl (p, (q, is)) ↦ rw (q) (inr (inr is))
    | inr (p, (q, inl (n, far))) ↦ rw (q, n) (inr (inl (far, refl)))
    | inr (p, (q, inr (n, far))) ↦ rw (q, n) (inl (far, refl))
  ]
