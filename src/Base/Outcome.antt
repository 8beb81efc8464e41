-- ===== src/Base/Outcome.antt =====
-- What a call of fallible code gives: a value, an error, or a panic. A method of an object that
-- is changed in place returns the object too, in every case: `M S A`.
use Prim.Native.Nat.{ℕ}
use mathlib.Core.Bool.{Bool, true, false}

-- `ErrorKind`, as far as the code branches on it; `raised` is any other error.
pub data IoError : Type 0 where
  interrupted unexpected_eof write_zero : IoError
  raised : ℕ → IoError

abbrev pub is_interrupted : IoError → Bool
is_interrupted interrupted = true
is_interrupted unexpected_eof = false
is_interrupted write_zero = false
is_interrupted (raised n) = false

pub data Outcome {ℓ} (A : Type ℓ) : Type ℓ where
  ok : A → Outcome A
  err : IoError → Outcome A
  panic : Outcome A
  out_of_fuel : Outcome A

abbrev pub M : Type 0 → Type 0 → Type 0
M S A = S → Outcome A × S

abbrev pub pure : {S A : Type 0} → A → M S A
pure a s = (ok a, s)

abbrev pub throw : {S A : Type 0} → IoError → M S A
throw e s = (err e, s)

abbrev pub panics : {S A : Type 0} → M S A
panics s = (panic, s)

abbrev pub and_then : {S A B : Type 0} → Outcome A × S → (A → M S B) → Outcome B × S
and_then (ok a, s) k = k a s
and_then (err e, s) k = (err e, s)
and_then (panic, s) k = (panic, s)
and_then (out_of_fuel, s) k = (out_of_fuel, s)

infixl 5 ◌>>=◌ ◌>>◌
abbrev pub ◌>>=◌ : {S A B : Type 0} → M S A → (A → M S B) → M S B
◌>>=◌ m k s = and_then (m s) k

abbrev pub ◌>>◌ : {S A B : Type 0} → M S A → M S B → M S B
m >> n = m >>= λ _. n

abbrev pub get : {S : Type 0} → M S S
get s = (ok s, s)

abbrev pub put : {S : Type 0} → S → M S (Unit {0})
put s _ = (ok tt, s)

-- `assert!(b)`
abbrev pub assert : {S : Type 0} → Bool → M S (Unit {0})
assert true s = (ok tt, s)
assert false s = (panic, s)
