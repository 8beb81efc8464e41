-- ===== src/Waiter/Count.antt =====
-- src/async_std/sync/wait_list.rs: who has to complete a request of an `AtomicWaiter`.
use xx_core.Base.{ℕ, ◌+◌, ◌≡◌, Bool, true, false, List, [], ◌∷◌, ◌++◌, ◌==◌, if◌then◌else◌, arith}
use xx_core.Waiter.{
  Word, null, closed, waiting, Thread, suspend_set, suspend_check, suspend_settle, cancel_try,
  cancel_complete, wake_set, close_set, wake_complete, finished, Completion, Waiters,
}

abbrev pub one_if : Bool → ℕ
one_if b = if b then 1 else 0

-- The word hands the request to whoever takes it out.
abbrev pub in_word : ℕ → Word → ℕ
in_word r null = 0
in_word r closed = 0
in_word r (waiting p) = one_if (r == p)

abbrev pub if_closed : Word → Bool
if_closed null = false
if_closed closed = true
if_closed (waiting p) = false

-- A thread has to complete the request that it took out, and its own when that is not in the word.
abbrev pub in_thread : ℕ → Thread → ℕ
in_thread r (suspend_set own) = one_if (r == own)
in_thread r (suspend_check own prev) =
    in_word r prev + (if if_closed prev then one_if (r == own) else 0)
in_thread r (suspend_settle own prev failed) =
    in_word r prev
    + (if if_closed prev then one_if (r == own) else if failed then one_if (r == own) else 0)
in_thread r (cancel_try own) = 0
in_thread r (cancel_complete own) = one_if (r == own)
in_thread r (wake_set value) = 0
in_thread r (close_set value) = 0
in_thread r (wake_complete p value) = one_if (r == p)
in_thread r finished = 0

abbrev pub in_threads : ℕ → List Thread → ℕ
in_threads r [] = 0
in_threads r (t ∷ ts) = in_thread r t + in_threads r ts

-- How often the request was completed.
abbrev pub completed : ℕ → List Completion → ℕ
completed r [] = 0
completed r ((p, result) ∷ cs) = one_if (r == p) + completed r cs

abbrev pub total : ℕ → Waiters → ℕ
total r s =
    in_word r (Waiters.word s)
    + (in_threads r (Waiters.threads s) + completed r (Waiters.completions s))

pub in_threads-append :
    (r : ℕ) (ts us : List Thread) → in_threads r (ts ++ us) ≡ in_threads r ts + in_threads r us
in_threads-append r [] us = omega arith
in_threads-append r (t ∷ ts) us = omega (arith, in_threads-append r ts us)

pub completed-append :
    (r : ℕ) (cs ds : List Completion) → completed r (cs ++ ds) ≡ completed r cs + completed r ds
completed-append r [] ds = omega arith
completed-append r ((p, result) ∷ cs) ds = omega (arith, completed-append r cs ds)
