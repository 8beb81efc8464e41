-- ===== src/Mutex/Tests.antt =====
-- Runs of two lockers of a mutex.
use xx_core.Base.{◌≤◌, ◌<◌, ◌≡◌, refl, arith, true, false, [], ◌∷◌}
use xx_core.Mutex.{
  unlocked, locked, contended, outside, holds, cas_lock, spin, swap_contended, register, announces,
  entered, blocks, parked, wake_check, interrupt_check, Words, System, goes, calls, Reachable,
  created, stepped, advance,
}
use xx_core.Mutex.Exclusion.{counted, is_holder, is_active, held}
use xx_core.Mutex.Wakeup.{mutual_exclusion, no_lost_wakeup}

abbrev one_holds : System
one_holds = record {
  words = record { state = locked; empty = false; list_locked = false };
  lockers = holds ∷ outside ∷ [];
}

one_holds-Reachable : Reachable one_holds
unfolding advance
one_holds-Reachable =
    stepped _ _
      (stepped _ _ (created 2) (
        calls [] (outside ∷ []) (record { state = unlocked; empty = false; list_locked = false })
          true))
      (goes false [] (outside ∷ []) cas_lock
        (record { state = unlocked; empty = false; list_locked = false }))

mutual_exclusion_example :
    (counted is_holder (System.lockers one_holds) ≡ held (Words.state (System.words one_holds)))
    × (counted is_holder (System.lockers one_holds) ≤ 1)
mutual_exclusion_example = mutual_exclusion one_holds one_holds-Reachable

abbrev one_waits : System
one_waits = record {
  words = record { state = unlocked; empty = false; list_locked = false };
  lockers = wake_check ∷ parked ∷ [];
}

one_waits-Reachable : Reachable one_waits
unfolding advance
one_waits-Reachable =
    stepped _ _
      (stepped _ _
        (stepped _ _
          (stepped _ _
            (stepped _ _
              (stepped _ _
                (stepped _ _
                  (stepped _ _
                    (stepped _ _
                      (stepped _ _
                        (stepped _ _
                          (stepped _ _
                            (stepped _ _
                              (stepped _ _
                                (stepped _ _ (created 2) (
                                  calls [] (outside ∷ [])
                                    (record {
                                      state = unlocked;
                                      empty = false;
                                      list_locked = false;
                                    })
                                    true))
                                (goes false [] (outside ∷ []) cas_lock (record {
                                  state = unlocked;
                                  empty = false;
                                  list_locked = false;
                                })))
                              (calls (holds ∷ []) []
                                (record { state = locked; empty = false; list_locked = false })
                                true))
                            (goes false (holds ∷ []) [] cas_lock
                              (record { state = locked; empty = false; list_locked = false })))
                          (goes false [] (spin 97 ∷ []) holds
                            (record { state = locked; empty = false; list_locked = false })))
                        (goes false (outside ∷ []) [] (spin 97)
                          (record { state = unlocked; empty = false; list_locked = false })))
                      (calls [] (swap_contended ∷ [])
                        (record { state = unlocked; empty = false; list_locked = false }) true))
                    (goes false [] (swap_contended ∷ []) cas_lock
                      (record { state = unlocked; empty = false; list_locked = false })))
                  (goes false (holds ∷ []) [] swap_contended
                    (record { state = locked; empty = false; list_locked = false })))
                (goes false (holds ∷ []) [] interrupt_check
                  (record { state = contended; empty = false; list_locked = false })))
              (goes false (holds ∷ []) [] register
                (record { state = contended; empty = false; list_locked = false })))
            (goes false (holds ∷ []) [] announces
              (record { state = contended; empty = false; list_locked = true })))
          (goes false (holds ∷ []) [] entered
            (record { state = contended; empty = false; list_locked = true })))
        (goes false (holds ∷ []) [] blocks
          (record { state = contended; empty = false; list_locked = true })))
      (goes false [] (parked ∷ []) holds
        (record { state = contended; empty = false; list_locked = false }))

no_lost_wakeup_example : 0 < counted is_active (System.lockers one_waits)
no_lost_wakeup_example = no_lost_wakeup one_waits one_waits-Reachable refl (omega arith)
