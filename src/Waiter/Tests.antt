-- ===== src/Waiter/Tests.antt =====
-- A run of an `AtomicWaiter` with a thread that waits and a thread that wakes it.
use xx_core.Base.{ℕ, ◌+◌, ◌≤◌, ◌≡◌, refl, arith, List, [], ◌∷◌, false, true}
use xx_core.Waiter.{
  null, waiting, suspend_set, suspend_check, suspend_settle, wake_set, wake_complete, finished,
  Thread, woken, Waiters, Steps, none_more, one_more, goes, advance,
}
use xx_core.Waiter.Count.{in_threads, in_word, completed}
use xx_core.Waiter.Once.{once_completed}

abbrev two_threads : List Thread
two_threads = suspend_set 5 ∷ wake_set 9 ∷ []

abbrev at_start : Waiters
at_start = record { word = null; threads = two_threads; completions = [] }

abbrev at_end : Waiters
at_end = record { word = null; threads = finished ∷ finished ∷ []; completions = (5, woken 9) ∷ [] }

full_run : Steps at_start at_end
unfolding advance
full_run =
    one_more _ _ _
      (one_more _ _ _
        (one_more _ _ _
          (one_more _ _ _
            (one_more _ _ _ (none_more _) (goes true [] (wake_set 9 ∷ []) (suspend_set 5) null []))
            (goes true (suspend_check 5 null ∷ []) [] (wake_set 9) (waiting 5) []))
          (goes true [] (wake_complete 5 9 ∷ []) (suspend_check 5 null) null []))
        (goes true [] (wake_complete 5 9 ∷ []) (suspend_settle 5 null false) null []))
      (goes true (finished ∷ []) [] (wake_complete 5 9) null [])

two_threads_once : (q : ℕ) → in_threads q two_threads ≤ 1
two_threads_once q = grind arith

once_completed_example : in_word 5 null + completed 5 ((5, woken 9) ∷ []) ≡ 1
once_completed_example =
    once_completed two_threads null ((5, woken 9) ∷ []) 2 5 two_threads_once full_run refl
