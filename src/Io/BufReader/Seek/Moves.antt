-- ===== src/Io/BufReader/Seek/Moves.antt =====
-- Moves by signed numbers: the arithmetic of the seeks of src/async_std/io/buf_reader.rs.
use xx_core.Base.{
  ℕ, suc, ◌+◌, ◌-◌, ◌≤◌, ◌<◌, ◌≡◌, ◌∙◌, sym, refl, inl, inr, none, some, leb, ltb, Bool-cases,
  arith,
}
use mathlib.Core.Option.{some-injective, none-ne-some}
use xx_core.Base.Int.{ℤ, pos, negsuc, IsMoved, from_pattern, checked_add_signed, minus}
use xx_core.Uint.Laws.{IsDifference}
use xx_core.Io.Seek.{SeekFrom, from_start, current, from_end}

-- Going back over l.
pub minus_lem : (a l q : ℕ) → IsMoved a (minus l) q → a ≡ q + l
minus_lem a l q t = elim (Bool-cases (leb 1 l)) [ inl u ↦ grind arith | inr u ↦ grind arith ]

-- A move inside the buffer is a move of the client.
pub within_buffer :
    (at start end n : ℕ) (z : ℤ)
    → start ≤ end
    → n ≤ end
    → end ≤ at
    → IsMoved start z n
    → IsMoved (at - (end - start)) z (at - (end - n))
within_buffer at start end n (pos m) a b c d = omega arith
within_buffer at start end n (negsuc m) a b c d = omega arith

-- A move by a difference ends where the difference was taken to.
pub by_difference :
    (half a b p q : ℕ) → IsDifference half a b (some p) → IsMoved b (from_pattern half p) q → q ≡ a
by_difference half a b p q d m = elim (Bool-cases (ltb p half)) [
  | inl t ↦ grind arith
  | inr t ↦ grind arith
]

pub checked_add_signed_lem :
    (half u a : ℕ) (z : ℤ)
    → u < half + half
    → checked_add_signed half u z ≡ some a
    → IsMoved u z a × (a < half + half)
checked_add_signed_lem half u a (pos n) h q = elim (Bool-cases (ltb (u + n) (half + half))) [
  | inl t ↦
      let e : checked_add_signed half u (pos n) ≡ some (u + n) = rw (t) refl in
      let same : u + n ≡ a = some-injective _ _ (sym e ∙ q) in (sym same, ground arith)
  | inr t ↦
      let e : checked_add_signed half u (pos n) ≡ none = rw (t) refl in
      absurd (none-ne-some _ (sym e ∙ q))
]
checked_add_signed_lem half u a (negsuc n) h q = elim (Bool-cases (leb (suc n) u)) [
  | inl t ↦
      let e : checked_add_signed half u (negsuc n) ≡ some (u - suc n) = rw (t) refl in
      let same : u - suc n ≡ a = some-injective _ _ (sym e ∙ q) in
      let below : suc n ≤ u = ground arith in (omega (arith, same, below), omega (arith, same, h))
  | inr t ↦
      let e : checked_add_signed half u (negsuc n) ≡ none = rw (t) refl in
      absurd (none-ne-some _ (sym e ∙ q))
]

-- The target is a position that an `u64` holds.
abbrev pub InRange : ℕ → ℕ → SeekFrom → Type 0
InRange half len (from_start p) = p < half + half
InRange half len (current z) = Unit
InRange half len (from_end z) = (q : ℕ) × (checked_add_signed half len z ≡ some q)
