-- ===== src/Base/Int.antt =====
-- Signed numbers over the native ones, and the tests that an `i64` operation makes.
use Prim.Native.Nat.{ℕ, suc, ◌+◌, ◌-◌}
use mathlib.Core.Path.{◌≡◌}
use mathlib.Core.Option.{Option, none, some}
use xx_core.Base.Tests.{ltb, leb, if◌then◌else◌}

pub data ℤ : Type 0 where
  pos negsuc : ℕ → ℤ

-- b is a and z.
abbrev pub IsMoved : ℕ → ℤ → ℕ → Type 0
IsMoved a (pos n) b = b ≡ a + n
IsMoved a (negsuc n) b = a ≡ b + suc n

-- The numbers from minus `half` on and below `half`.
module _ (half : ℕ) where
  -- `z.checked_add_unsigned(u)`
  abbrev pub checked_add_unsigned : ℤ → ℕ → Option ℤ
  checked_add_unsigned (pos n) u = if ltb (n + u) half then some (pos (n + u)) else none
  checked_add_unsigned (negsuc n) u =
      if leb (suc n) u
      then if ltb (u - suc n) half then some (pos (u - suc n)) else none
      else some (negsuc (n - u))

  -- `z.checked_sub(r)`, where r is not negative.
  abbrev pub checked_sub_pos : ℤ → ℕ → Option ℤ
  checked_sub_pos (pos n) r = if leb r n then some (pos (n - r)) else some (negsuc (r - n - 1))
  checked_sub_pos (negsuc n) r = if leb (suc n + r) half then some (negsuc (n + r)) else none

  -- The signed number of a pattern.
  abbrev pub from_pattern : ℕ → ℤ
  from_pattern p = if ltb p half then pos p else negsuc (half + half - p - 1)

  -- `u.checked_add_signed(z)` of an unsigned u.
  abbrev pub checked_add_signed : ℕ → ℤ → Option ℕ
  checked_add_signed u (pos n) = if ltb (u + n) (half + half) then some (u + n) else none
  checked_add_signed u (negsuc n) = if leb (suc n) u then some (u - suc n) else none

-- `-(r as i64)`
abbrev pub minus : ℕ → ℤ
minus r = if leb 1 r then negsuc (r - 1) else pos 0
