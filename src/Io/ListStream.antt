-- ===== src/Io/ListStream.antt =====
-- A reader and a writer over lists that keep the contracts, and a search for a byte.
use mathlib.Core.Path.{refl}
use mathlib.Core.Option
use native.Mathlib.Numerals.{add-one}
use xx_core.Base.{
  ℕ, zero, suc, ◌+◌, ◌<◌, ◌≡◌, sym, ap, Bool, false, Option, none, some, min, List, [], ◌∷◌, ◌++◌,
  arith, inl, inr, Bool-cases, ◌==◌, if◌then◌else◌, length, take, drop, take-append-drop,
  length-take,
}
use xx_core.Base.Outcome.{ok, M}
use xx_core.Io.Contract.{IsReader, IsWriter}
use xx_core.Io.BufReader.Until
use xx_core.Io.BufWriter.Pipe

-- The stream is the state itself.
unfoldable pub list_read : ℕ → M (List ℕ) (List ℕ)
list_read n s = (ok (take n s), drop n s)

-- A writer that takes at most two bytes at a time.
unfoldable pub list_write : List ℕ → M (List ℕ) ℕ
list_write bs s = (ok (min 2 (length bs)), s ++ take (min 2 (length bs)) bs)

unfoldable pub list_flush : M (List ℕ) (Unit {0})
list_flush s = (ok tt, s)

-- A task that is not interrupted.
abbrev pub never : {S : Type 0} → S → Bool
never s = false

abbrev pub Any : List ℕ → Type 0
Any s = Unit {0}

abbrev pub whole : List ℕ → List ℕ
whole s = s

pub take_nil : (n : ℕ) (s : List ℕ) → take n s ≡ [] → 0 < n → s ≡ []
take_nil zero s e h = absurd (omega arith)
take_nil (suc n) [] e h = refl
take_nil (suc n) (x ∷ s) e h = absurd (omega (arith, ap length e))

pub list_read-IsReader : IsReader Any whole list_read
unfolding list_read
list_read-IsReader n s v =
    (tt, omega (arith, length-take n s), sym (take-append-drop n s), take_nil n s)

pub list_write-IsWriter : IsWriter Any whole list_write
unfolding list_write
list_write-IsWriter bs s v = (tt, omega arith, refl)

pub list_flush-IsFlush : Pipe.IsFlush Any whole list_flush
unfolding list_flush
list_flush-IsFlush s v = (tt, refl)

unfoldable pub find_byte : ℕ → List ℕ → Option ℕ
find_byte byte [] = none
find_byte byte (x ∷ xs) = if x == byte then some 0 else Option.map (λ i. i + 1) (find_byte byte xs)

-- The index, one later, of a byte found in the tail.
later :
    (byte x : ℕ) (xs : List ℕ) (o : Option ℕ)
    → (x == byte) ≡ false
    → Until.Finds byte xs o
    → Until.Finds byte (x ∷ xs) (Option.map (λ i. i + 1) o)
later byte x xs none h f = (h, f)
later byte x xs (some i) h (lt, (pre, cut, lacks)) =
    (omega arith, (x ∷ pre, simp add-one (ap (◌∷◌ x) (rw add-one at cut)), (h, lacks)))

pub find_byte-Finds : (byte : ℕ) (xs : List ℕ) → Until.Finds byte xs (find_byte byte xs)
unfolding find_byte
find_byte-Finds byte [] = tt
find_byte-Finds byte (x ∷ xs) = elim (Bool-cases (x == byte)) [
  | inl e ↦ rw (e, find_byte) (omega arith, ([], ground arith, tt))
  | inr e ↦ rw (e, find_byte) (later byte x xs (find_byte byte xs) e (find_byte-Finds byte xs))
]
