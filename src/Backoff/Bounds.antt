-- ===== src/Backoff/Bounds.antt =====
-- src/sync/backoff.rs: the steps are bounded, and a loop that only snoozes completes.
use xx_core.Base.{
  ℕ, zero, suc, ◌≤◌, ◌<◌, ◌≡◌, ◌∙◌, sym, ap, refl, inl, inr, true, false, List, [], ◌∷◌, min, leb,
  ltb, Bool-cases, arith,
}
use xx_core.Backoff.{
  spin, snooze, reset, is_completed, Operation, spin_op, snooze_op, reset_op, perform, step_after,
  snoozes,
}

perform_le : (o : Operation) (step : ℕ) → step ≤ 11 → (perform o step).1 ≤ 11
unfolding spin snooze reset
perform_le spin_op step h = elim (Bool-cases (leb step 6)) [
  | inl t ↦ rw (t) (ground arith)
  | inr t ↦ rw (t) h
]
perform_le snooze_op step h = elim (Bool-cases (leb step 10)) [
  | inl t ↦ rw (t) (ground arith)
  | inr t ↦ rw (t) h
]
perform_le reset_op step h = omega arith

-- After any operations in any order the step is at most 11, far from the end of its 16 bits.
pub step_after_le : (os : List Operation) → step_after os ≤ 11
step_after_le [] = omega arith
step_after_le (o ∷ os) = perform_le o (step_after os) (step_after_le os)

snooze-min : (n : ℕ) → (snooze (min n 11)).1 ≡ min (suc n) 11
unfolding snooze
snooze-min n = elim (Bool-cases (leb (min n 11) 10)) [
  | inl t ↦ let c : min n 11 ≤ 10 = ground arith in rw (t) (omega arith)
  | inr t ↦ let c : 10 < min n 11 = ground arith in rw (t) (omega arith)
]

step-snoozes : (n : ℕ) → step_after (snoozes n) ≡ min n 11
step-snoozes zero = refl
step-snoozes (suc n) = ap (λ k. (snooze k).1) (step-snoozes n) ∙ snooze-min n

-- A loop that snoozes n times from a new or reset backoff is completed exactly when n is 11 or more,
-- so that it blocks after a fixed number of rounds.
pub is_completed-snoozes : (n : ℕ) → is_completed (step_after (snoozes n)) ≡ leb 11 n
is_completed-snoozes n = rw (step-snoozes n) (elim (Bool-cases (leb 11 n)) [
  | inl t ↦ let c : ltb 10 (min n 11) ≡ true = ground arith in c ∙ sym t
  | inr t ↦ let c : ltb 10 (min n 11) ≡ false = ground arith in c ∙ sym t
])
