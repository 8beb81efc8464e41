-- ===== src/SpinMutex/Tests.antt =====
-- A run of two lockers of a spin mutex, of which one adds a number.
use xx_core.Base.{ℕ, ◌+◌, ◌≤◌, ◌≡◌, true, false, [], ◌∷◌}
use xx_core.SpinMutex.{
  outside, cas_lock, holds, has_read, has_written, Shared, System, goes, calls, Reachable, created,
  stepped, advance,
}
use xx_core.SpinMutex.Exclusion.{holders, one_if, replay, guarded_changes}

abbrev add_two : ℕ → ℕ
add_two n = n + 2

abbrev at_five : Shared ℕ
at_five = record { is_locked = false; value = 5 }

abbrev five_taken : Shared ℕ
five_taken = record { is_locked = true; value = 5 }

abbrev one_changed : System ℕ
one_changed = record {
  shared = record { is_locked = true; value = 7 };
  lockers = has_written ∷ outside ∷ [];
  changes = add_two ∷ [];
}

one_changed-Reachable : Reachable 5 one_changed
unfolding advance
one_changed-Reachable =
    stepped _ _
      (stepped _ _
        (stepped _ _ (stepped _ _ (created 2) (calls [] (outside ∷ []) at_five [] true))
          (goes add_two [] (outside ∷ []) cas_lock at_five []))
        (goes add_two [] (outside ∷ []) holds five_taken []))
      (goes add_two [] (outside ∷ []) (has_read add_two 5) five_taken [])

guarded_changes_example :
    (holders (System.lockers one_changed) ≡ one_if (Shared.is_locked (System.shared one_changed)))
    × (holders (System.lockers one_changed) ≤ 1)
    × (Shared.value (System.shared one_changed) ≡ replay (System.changes one_changed) 5)
guarded_changes_example = guarded_changes 5 one_changed one_changed-Reachable
