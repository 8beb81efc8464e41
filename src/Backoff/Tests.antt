-- ===== src/Backoff/Tests.antt =====
-- Runs of a backoff.
use xx_core.Base.{◌≡◌, refl, [], ◌∷◌}
use xx_core.Backoff.{spin, snooze, spin_op, snooze_op, step_after}

two_steps : step_after (snooze_op ∷ spin_op ∷ []) ≡ 2
unfolding spin snooze
two_steps = refl
