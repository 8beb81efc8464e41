-- ===== src/Backoff.antt =====
-- src/sync/backoff.rs: the step of a loop that waits, and how often each step spins.
pub mod Bounds
mod Tests
use xx_core.Base.{
  ℕ, zero, suc, ◌+◌, ◌^◌, Bool, true, false, List, [], ◌∷◌, min, leb, ltb, if◌then◌else◌,
}

abbrev pub spin_limit : ℕ
spin_limit = 6

abbrev pub yield_limit : ℕ
yield_limit = 10

-- `spin_internal`: how often it spins, `1 << step.min(SPIN_LIMIT)`.
abbrev pub spins : ℕ → ℕ
spins step = 2 ^ min step spin_limit

-- Each operation gives how often it spun and the step after it. A yield does not spin.
pub spin : ℕ → ℕ × ℕ
spin step = (spins step, if leb step spin_limit then step + 1 else step)

unfoldable pub snooze : ℕ → ℕ × ℕ
snooze step =
    (if ltb step spin_limit then spins step else 0, if leb step yield_limit then step + 1 else step)

unfoldable pub reset : ℕ → ℕ × ℕ
reset step = (0, 0)

abbrev pub is_completed : ℕ → Bool
is_completed step = ltb yield_limit step

pub data Operation : Type 0 where
  spin_op snooze_op reset_op : Operation

abbrev pub perform : Operation → ℕ → ℕ × ℕ
perform spin_op = spin
perform snooze_op = snooze
perform reset_op = reset

-- The step after some operations, the last one first.
abbrev pub step_after : List Operation → ℕ
step_after [] = 0
step_after (o ∷ os) = (perform o (step_after os)).1

abbrev pub snoozes : ℕ → List Operation
snoozes zero = []
snoozes (suc n) = snooze_op ∷ snoozes n
