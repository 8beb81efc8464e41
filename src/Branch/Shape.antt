-- ===== src/Branch/Shape.antt =====
-- src/coroutines/branch.rs: the branches that can be waiting, and what every call makes of them.
use xx_core.Base.{Bool, true, false, Option, none, some, ◌≡◌, ◌⊎◌, refl, inl, inr, Bool-cases}
use xx_core.Branch.{
  MaybePanic, returned, State, ready, pending, empty, done, Started, in_progress, at_once, Reply,
  BranchOutput, Branch, World, alive, completed, is_running, complete_first, complete_second,
  cancel_all, run, run_second, new_branch, ◌>>=◌, replied, after_cancel, second_cancel,
}

module _ {O1 O2 : Type 0} where
  -- A branch that waits: both futures run, and neither or both of them were cancelled; or one of them runs, and
  -- the other has completed.
  pub data IsWaiting : Branch O1 O2 → Type 0 where
    both_run : IsWaiting (record { first = pending; second = pending; interrupt_callback = false })
    both_cancelled : IsWaiting (record { first = empty; second = empty; interrupt_callback = true })
    first_runs :
        (s : State O1) (y : MaybePanic O2)
        → is_running s ≡ true
        → IsWaiting (record { first = s; second = done y; interrupt_callback = false })
    second_runs :
        (x : MaybePanic O1) (s : State O2)
        → is_running s ≡ true
        → IsWaiting (record { first = done x; second = s; interrupt_callback = false })

  -- A completed branch has both outputs, or only the first, with which the second was not even run.
  abbrev pub Told :
      (MaybePanic O1 → Bool) → Bool → Option (MaybePanic O1) → Option (MaybePanic O2) → Type 0
  Told cancels1 flag none y = ⊥
  Told cancels1 flag (some x) (some y) = Unit {0}
  Told cancels1 true (some x) none = cancels1 x ≡ true
  Told cancels1 false (some x) none = ⊥

  abbrev pub HasOutput : (MaybePanic O1 → Bool) → BranchOutput O1 O2 → Type 0
  HasOutput cancels1 out =
      Told cancels1 (BranchOutput.is_first out) (BranchOutput.first_output out)
        (BranchOutput.second_output out)

  -- The call has a result, and the branch waits or is completed.
  abbrev pub IsFine : (MaybePanic O1 → Bool) → Option (World O1 O2) → Type 0
  IsFine cancels1 none = ⊥
  IsFine cancels1 (some (alive b)) = IsWaiting b
  IsFine cancels1 (some (completed out)) = HasOutput cancels1 out

  module _ (cancels1 : MaybePanic O1 → Bool) (cancels2 : MaybePanic O2 → Bool) where
    module _ (reply1 : Reply O1) (reply2 : Reply O2) where
      -- The cancellation of the first future in `run`, by whether it completes within.
      run_cancel-IsFine :
          (y : MaybePanic O2) (m : Option O1)
          → IsFine cancels1 (
              replied m
                (complete_first cancels1 cancels2 reply1 reply2 2)
                (record { first = empty; second = done y; interrupt_callback = true })
              >>= after_cancel cancels1 cancels2 reply1 reply2)
      unfolding complete_first
      run_cancel-IsFine y none = first_runs empty y refl
      run_cancel-IsFine y (some v) = tt

      run_second-IsFine :
          (s1 : State O1) (s2 : Started O2)
          → (s1 ≡ pending) ⊎ ((x : MaybePanic O1) × (s1 ≡ done x))
          → IsFine cancels1 (
              run_second cancels1 cancels2 reply1 reply2 s2
                (record { first = s1; second = ready; interrupt_callback = false }))
      run_second-IsFine s1 in_progress (inl e) = rw (e) both_run
      run_second-IsFine s1 (at_once y) (inl e) = elim (Bool-cases (cancels2 y)) [
        | inl t ↦ rw (e, t) (run_cancel-IsFine y (Reply.completes reply1))
        | inr t ↦ rw (e, t) (first_runs pending y refl)
      ]
      run_second-IsFine s1 in_progress (inr (x, e)) = rw (e) (second_runs x pending refl)
      run_second-IsFine s1 (at_once y) (inr (x, e)) = rw (e) tt

      pub run-IsFine :
          (s1 : Started O1) (s2 : Started O2)
          → IsFine cancels1 (run cancels1 cancels2 reply1 reply2 s1 s2 new_branch)
      unfolding run
      run-IsFine in_progress s2 = run_second-IsFine pending s2 (inl refl)
      run-IsFine (at_once x) s2 = elim (Bool-cases (cancels1 x)) [
        | inl t ↦ rw (t) t
        | inr t ↦ rw (t) (run_second-IsFine (done x) s2 (inr (x, refl)))
      ]

      -- A completion of the first future that runs.
      second_reply-IsFine :
          (v : MaybePanic O1) (m : Option O2)
          → IsFine cancels1 (
              replied m
                (complete_second cancels1 cancels2 reply1 reply2 1)
                (record { first = done v; second = empty; interrupt_callback = false }))
      unfolding complete_second
      second_reply-IsFine v none = second_runs v empty refl
      second_reply-IsFine v (some y) = tt

      first_reply-IsFine :
          (y : MaybePanic O2) (m : Option O1)
          → IsFine cancels1 (
              replied m
                (complete_first cancels1 cancels2 reply1 reply2 1)
                (record { first = empty; second = done y; interrupt_callback = false }))
      unfolding complete_first
      first_reply-IsFine y none = first_runs empty y refl
      first_reply-IsFine y (some v) = tt

      pub complete_first-IsFine :
          (v : O1) (b : Branch O1 O2)
          → IsWaiting b
          → is_running (Branch.first b) ≡ true
          → IsFine cancels1 (complete_first cancels1 cancels2 reply1 reply2 2 v b)
      unfolding complete_first
      complete_first-IsFine v _ both_run h = elim (Bool-cases (cancels1 (returned v))) [
        | inl t ↦ rw (t) (second_reply-IsFine (returned v) (Reply.completes reply2))
        | inr t ↦ rw (t) (second_runs (returned v) pending refl)
      ]
      complete_first-IsFine v _ both_cancelled h = second_runs (returned v) empty refl
      complete_first-IsFine v _ (first_runs pending y r) h = tt
      complete_first-IsFine v _ (first_runs empty y r) h = tt
      complete_first-IsFine v _ (first_runs ready y r) h = absurd cc
      complete_first-IsFine v _ (first_runs (done x) y r) h = absurd cc
      complete_first-IsFine v _ (second_runs x s r) h = absurd cc

      pub complete_second-IsFine :
          (v : O2) (b : Branch O1 O2)
          → IsWaiting b
          → is_running (Branch.second b) ≡ true
          → IsFine cancels1 (complete_second cancels1 cancels2 reply1 reply2 2 v b)
      unfolding complete_second
      complete_second-IsFine v _ both_run h = elim (Bool-cases (cancels2 (returned v))) [
        | inl t ↦ rw (t) (first_reply-IsFine (returned v) (Reply.completes reply1))
        | inr t ↦ rw (t) (first_runs pending (returned v) refl)
      ]
      complete_second-IsFine v _ both_cancelled h = first_runs empty (returned v) refl
      complete_second-IsFine v _ (second_runs x pending r) h = tt
      complete_second-IsFine v _ (second_runs x empty r) h = tt
      complete_second-IsFine v _ (second_runs x ready r) h = absurd cc
      complete_second-IsFine v _ (second_runs x (done y) r) h = absurd cc
      complete_second-IsFine v _ (first_runs s y r) h = absurd cc

      -- Both futures are cancelled, by whether each completes within.
      both-IsFine :
          (m1 : Option O1) (m2 : Option O2)
          → Reply.completes reply2 ≡ m2
          → IsFine cancels1 (
              replied m1
                (complete_first cancels1 cancels2 reply1 reply2 2)
                (record { first = empty; second = empty; interrupt_callback = true })
              >>= second_cancel cancels1 cancels2 reply1 reply2 true)
      unfolding complete_first complete_second
      both-IsFine none none e = rw (e) both_cancelled
      both-IsFine none (some y) e = rw (e) (first_runs empty (returned y) refl)
      both-IsFine (some v) none e = rw (e) (second_runs (returned v) empty refl)
      both-IsFine (some v) (some y) e = rw (e) tt

      last_first-IsFine :
          (y : MaybePanic O2) (m : Option O1)
          → IsFine cancels1 (
              replied m
                (complete_first cancels1 cancels2 reply1 reply2 2)
                (record { first = empty; second = done y; interrupt_callback = false })
              >>= second_cancel cancels1 cancels2 reply1 reply2 false)
      unfolding complete_first
      last_first-IsFine y none = first_runs empty y refl
      last_first-IsFine y (some v) = tt

      last_second-IsFine :
          (x : MaybePanic O1) (m : Option O2)
          → IsFine cancels1 (
              replied m
                (complete_second cancels1 cancels2 reply1 reply2 2)
                (record { first = done x; second = empty; interrupt_callback = false }))
      unfolding complete_second
      last_second-IsFine x none = second_runs x empty refl
      last_second-IsFine x (some v) = tt

      pub cancel_all-IsFine :
          (b : Branch O1 O2)
          → IsWaiting b
          → IsFine cancels1 (cancel_all cancels1 cancels2 reply1 reply2 b)
      unfolding cancel_all
      cancel_all-IsFine _ both_run =
          both-IsFine (Reply.completes reply1) (Reply.completes reply2) refl
      cancel_all-IsFine _ both_cancelled = both_cancelled
      cancel_all-IsFine _ (first_runs pending y r) = last_first-IsFine y (Reply.completes reply1)
      cancel_all-IsFine _ (first_runs empty y r) = first_runs empty y refl
      cancel_all-IsFine _ (first_runs ready y r) = absurd cc
      cancel_all-IsFine _ (first_runs (done x) y r) = absurd cc
      cancel_all-IsFine _ (second_runs x pending r) = last_second-IsFine x (Reply.completes reply2)
      cancel_all-IsFine _ (second_runs x empty r) = second_runs x empty refl
      cancel_all-IsFine _ (second_runs x ready r) = absurd cc
      cancel_all-IsFine _ (second_runs x (done y) r) = absurd cc
