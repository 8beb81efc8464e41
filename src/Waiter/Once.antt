-- ===== src/Waiter/Once.antt =====
-- src/async_std/sync/wait_list.rs: each request of an `AtomicWaiter` is completed once.
use xx_core.Base.{
  ℕ, zero, suc, ◌+◌, ◌≤◌, ◌≡◌, Bool, true, false, List, [], ◌∷◌, ◌==◌, arith, refl, ◌∙◌, Bool-cases,
  inl, inr,
}
use xx_core.Waiter.{
  Word, null, closed, waiting, Thread, suspend_set, suspend_check, suspend_settle, cancel_try,
  cancel_complete, wake_set, close_set, wake_complete, finished, Completion, Waiters, advance, Step,
  goes, Steps, none_more, one_more, settle,
}
use xx_core.Waiter.Count.{
  in_word, in_thread, in_threads, completed, total, in_threads-append, completed-append,
}

completed-settle :
    (r own : ℕ) (prev : Word) (failed : Bool)
    → completed r (settle own prev failed) ≡ in_thread r (suspend_settle own prev failed)
completed-settle r own null true = omega arith
completed-settle r own null false = refl
completed-settle r own closed failed = omega arith
completed-settle r own (waiting p) true = omega arith
completed-settle r own (waiting p) false = omega arith

-- An operation of one thread hands each request over, and drops and copies none.
total-advance :
    (block : Bool) (t : Thread) (w : Word) (r : ℕ)
    → ((q : ℕ) → in_word q w + in_thread q t ≤ 1)
    → in_word r (advance block t w).1.0
        + (in_thread r (advance block t w).0 + completed r (advance block t w).1.1)
      ≡ in_word r w + in_thread r t
unfolding advance
total-advance block (suspend_set own) null r h = omega arith
total-advance block (suspend_set own) closed r h = omega arith
total-advance block (suspend_set own) (waiting p) r h = omega arith
total-advance true (suspend_check own null) w r h = omega arith
total-advance true (suspend_check own closed) w r h = omega arith
total-advance true (suspend_check own (waiting p)) w r h = omega arith
total-advance false (suspend_check own null) null r h = omega arith
total-advance false (suspend_check own closed) null r h = omega arith
total-advance false (suspend_check own (waiting q)) null r h = omega arith
total-advance false (suspend_check own null) closed r h = omega arith
total-advance false (suspend_check own closed) closed r h = omega arith
total-advance false (suspend_check own (waiting q)) closed r h = omega arith
total-advance false (suspend_check own null) (waiting p) r h = elim (Bool-cases (own == p)) [
  | inl t ↦ let same : own ≡ p = ground arith in rw (t, same) (omega arith)
  | inr t ↦ rw (t) (omega arith)
]
total-advance false (suspend_check own closed) (waiting p) r h = elim (Bool-cases (own == p)) [
  | inl t ↦
      let self : (own == own) ≡ true = ground arith in
      let twice : in_word own (waiting p) + in_thread own (suspend_check own closed) ≡ 2 =
        rw (t, self) refl in
      absurd (omega (arith, h own, twice))
  | inr t ↦ rw (t) (omega arith)
]
total-advance false (suspend_check own (waiting q)) (waiting p) r h = elim (Bool-cases (own == p)) [
  | inl t ↦ let same : own ≡ p = ground arith in rw (t, same) (omega arith)
  | inr t ↦ rw (t) (omega arith)
]
total-advance block (suspend_settle own prev failed) w r h =
    omega (arith, completed-settle r own prev failed)
total-advance block (cancel_try own) null r h = omega arith
total-advance block (cancel_try own) closed r h = omega arith
total-advance block (cancel_try own) (waiting p) r h = elim (Bool-cases (own == p)) [
  | inl t ↦ let same : own ≡ p = ground arith in rw (t, same) (omega arith)
  | inr t ↦ rw (t) (omega arith)
]
total-advance block (cancel_complete own) w r h = omega arith
total-advance block (wake_set value) null r h = omega arith
total-advance block (wake_set value) closed r h = omega arith
total-advance block (wake_set value) (waiting p) r h = omega arith
total-advance block (close_set value) null r h = omega arith
total-advance block (close_set value) closed r h = omega arith
total-advance block (close_set value) (waiting p) r h = omega arith
total-advance block (wake_complete p value) w r h = omega arith
total-advance block finished w r h = omega arith

-- In every interleaving, an operation neither drops nor copies the duty to complete a request.
total-Step :
    (s t : Waiters) → Step s t → ((q : ℕ) → total q s ≤ 1) → (r : ℕ) → total r t ≡ total r s
total-Step s t (goes block front back u w done) h r = omega (
  arith,
  in_threads-append r front (u ∷ back),
  in_threads-append r front ((advance block u w).0 ∷ back),
  completed-append r (advance block u w).1.1 done,
  total-advance block u w r (λ q. omega (arith, h q, in_threads-append q front (u ∷ back))),
)

-- From any state in which each request is accounted for once at most, through every interleaving
-- of atomic operations of any threads, each request is accounted for just as often: it is in the
-- word, is to be completed by one thread, or was completed, and never two of these.
pub total-Steps :
    (s t : Waiters) → ((q : ℕ) → total q s ≤ 1) → Steps s t → (r : ℕ) → total r t ≡ total r s
total-Steps s t h (none_more _) r = refl
total-Steps s t h (one_more _ u _ before step) r =
    total-Step u t step (λ q. omega (arith, total-Steps s u h before q, h q)) r
    ∙ total-Steps s u h before r

-- All threads are at their end.
abbrev pub finished_all : ℕ → List Thread
finished_all zero = []
finished_all (suc n) = finished ∷ finished_all n

in_threads_finished : (r n : ℕ) → in_threads r (finished_all n) ≡ 0
in_threads_finished r zero = refl
in_threads_finished r (suc n) = omega (arith, in_threads_finished r n)

-- When no request was in the word or completed before, and threads that together hold each request
-- once at most have run to their ends in any interleaving, then a request that a thread was to
-- suspend was completed exactly once, or is still in the word and was not completed.
pub once_completed :
    (ts : List Thread) (w : Word) (cs : List Completion) (n : ℕ) (r : ℕ)
    → ((q : ℕ) → in_threads q ts ≤ 1)
    → Steps
        (record { word = null; threads = ts; completions = [] })
        (record { word = w; threads = finished_all n; completions = cs })
    → in_threads r ts ≡ 1
    → in_word r w + completed r cs ≡ 1
once_completed ts w cs n r h run own = omega (
  arith,
  total-Steps (record { word = null; threads = ts; completions = [] })
      (record { word = w; threads = finished_all n; completions = cs }) (λ q. omega (arith, h q))
      run r,
  in_threads_finished r n,
  own,
)
