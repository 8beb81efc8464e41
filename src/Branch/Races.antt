-- ===== src/Branch/Races.antt =====
-- src/coroutines/branch.rs and src/coroutines/select.rs: a branch from its start to its completion, in
-- every order of the completions of its futures and of cancellations.
use xx_core.Base.{Bool, true, false, ◌&&◌, not, Option, none, some, ◌≡◌, ◌≢◌, refl}
use mathlib.Core.Path.{subst}
use xx_core.Base.Outcome.{Outcome}
use xx_core.Branch.{
  MaybePanic, returned, panicked, pending, empty, Started, in_progress, at_once, Reply,
  BranchOutput, Branch, World, alive, completed, is_running, handle_result, complete_first,
  complete_second, cancel_all, run, new_branch, call_depth,
}
use xx_core.Branch.Output.{first_of, select_from, join_from, is_panicked}
use xx_core.Branch.Shape.{
  IsWaiting, first_runs, second_runs, Told, IsFine, run-IsFine, complete_first-IsFine,
  complete_second-IsFine, cancel_all-IsFine,
}

-- What happens to a branch that waits.
pub data Event (O1 O2 : Type 0) : Type 0 where
  first_completes : O1 → Event O1 O2
  second_completes : O2 → Event O1 O2
  cancelled : Event O1 O2

module _ {O1 O2 : Type 0} where
  -- Only a future that runs completes.
  abbrev pub happens : Event O1 O2 → Branch O1 O2 → Bool
  happens (first_completes v) b = is_running (Branch.first b)
  happens (second_completes v) b = is_running (Branch.second b)
  happens cancelled b = true

  -- A completion of the last future that runs.
  abbrev pub is_last : Event O1 O2 → Branch O1 O2 → Bool
  is_last (first_completes v) b = is_running (Branch.first b) && not (is_running (Branch.second b))
  is_last (second_completes v) b = is_running (Branch.second b) && not (is_running (Branch.first b))
  is_last cancelled b = false

  -- The branch is completed with both outputs, and the flag tells the other future.
  abbrev pub CompletesWith : Event O1 O2 → Branch O1 O2 → Option (World O1 O2) → Type 0
  CompletesWith e b none = ⊥
  CompletesWith e b (some (alive c)) = ⊥
  CompletesWith (first_completes v) b (some (completed out)) =
      (BranchOutput.is_first out ≡ false)
      × (BranchOutput.first_output out ≡ some (returned v))
      × (BranchOutput.second_output out ≡ handle_result (Branch.second b))
  CompletesWith (second_completes v) b (some (completed out)) =
      (BranchOutput.is_first out ≡ true)
      × (BranchOutput.first_output out ≡ handle_result (Branch.first b))
      × (BranchOutput.second_output out ≡ some (returned v))
  CompletesWith cancelled b (some (completed out)) = ⊥

  select_from-Told :
      (cancels1 : MaybePanic O1 → Bool) (flag : Bool) (x : Option (MaybePanic O1))
      (y : Option (MaybePanic O2))
      → Told cancels1 flag x y
      → select_from (record { is_first = flag; first_output = x; second_output = y }) ≢ none
  unfolding select_from
  select_from-Told cancels1 flag none y t e = absurd t
  select_from-Told cancels1 flag (some panicked) y t e = absurd cc
  select_from-Told cancels1 true (some (returned a)) none t e = absurd cc
  select_from-Told cancels1 true (some (returned a)) (some (returned b)) t e = absurd cc
  select_from-Told cancels1 true (some (returned a)) (some panicked) t e = absurd cc
  select_from-Told cancels1 false (some (returned a)) (some (returned b)) t e = absurd cc
  select_from-Told cancels1 false (some (returned a)) (some panicked) t e = absurd cc
  select_from-Told cancels1 false (some (returned a)) none t e = absurd t

  join_from-Told :
      (flag : Bool) (x : Option (MaybePanic O1)) (y : Option (MaybePanic O2))
      → Told is_panicked flag x y
      → join_from (record { is_first = flag; first_output = x; second_output = y }) ≢ none
  unfolding join_from
  join_from-Told flag none y t e = absurd t
  join_from-Told flag (some panicked) y t e = absurd cc
  join_from-Told flag (some (returned a)) (some (returned b)) t e = absurd cc
  join_from-Told flag (some (returned a)) (some panicked) t e = absurd cc
  join_from-Told true (some (returned a)) none t e = absurd cc
  join_from-Told false (some (returned a)) none t e = absurd t

  defined :
      (cancels1 : MaybePanic O1 → Bool) (o : Option (World O1 O2)) → IsFine cancels1 o → o ≢ none
  defined cancels1 none f e = f
  defined cancels1 (some w) f e = absurd cc

  module _ (cancels1 : MaybePanic O1 → Bool) (cancels2 : MaybePanic O2 → Bool) where
    abbrev pub step : Event O1 O2 → Reply O1 → Reply O2 → Branch O1 O2 → Option (World O1 O2)
    step (first_completes v) reply1 reply2 b =
        complete_first cancels1 cancels2 reply1 reply2 call_depth v b
    step (second_completes v) reply1 reply2 b =
        complete_second cancels1 cancels2 reply1 reply2 call_depth v b
    step cancelled reply1 reply2 b = cancel_all cancels1 cancels2 reply1 reply2 b

    -- From a run on, for all that the futures do.
    pub data Reachable : World O1 O2 → Type 0 where
      started :
          (s1 : Started O1) (s2 : Started O2) (reply1 : Reply O1) (reply2 : Reply O2)
          (w : World O1 O2)
          → run cancels1 cancels2 reply1 reply2 s1 s2 new_branch ≡ some w
          → Reachable w
      stepped :
          (b : Branch O1 O2) (e : Event O1 O2) (reply1 : Reply O1) (reply2 : Reply O2)
          (w : World O1 O2)
          → Reachable (alive b)
          → happens e b ≡ true
          → step e reply1 reply2 b ≡ some w
          → Reachable w

    step-IsFine :
        (e : Event O1 O2) (reply1 : Reply O1) (reply2 : Reply O2) (b : Branch O1 O2)
        → IsWaiting b
        → happens e b ≡ true
        → IsFine cancels1 (step e reply1 reply2 b)
    step-IsFine (first_completes v) reply1 reply2 b w h =
        complete_first-IsFine cancels1 cancels2 reply1 reply2 v b w h
    step-IsFine (second_completes v) reply1 reply2 b w h =
        complete_second-IsFine cancels1 cancels2 reply1 reply2 v b w h
    step-IsFine cancelled reply1 reply2 b w h =
        cancel_all-IsFine cancels1 cancels2 reply1 reply2 b w

    Reachable-IsFine : (w : World O1 O2) → Reachable w → IsFine cancels1 (some w)
    Reachable-IsFine w (started s1 s2 reply1 reply2 _ e) =
        subst (IsFine cancels1) e (run-IsFine cancels1 cancels2 reply1 reply2 s1 s2)
    Reachable-IsFine w (stepped b e reply1 reply2 _ r h q) =
        subst (IsFine cancels1) q (step-IsFine e reply1 reply2 b (Reachable-IsFine (alive b) r) h)

    -- In a branch that was run and waits, no completion of a future that runs, and no cancellation,
    -- has undefined behaviour, whatever completes within a cancellation.
    pub step-defined :
        (b : Branch O1 O2) (e : Event O1 O2) (reply1 : Reply O1) (reply2 : Reply O2)
        → Reachable (alive b)
        → happens e b ≡ true
        → step e reply1 reply2 b ≢ none
    step-defined b e reply1 reply2 r h =
        defined cancels1 (step e reply1 reply2 b)
          (step-IsFine e reply1 reply2 b (Reachable-IsFine (alive b) r) h)

    -- The output of every branch that is completed has the output of the future that its flag tells, so
    -- that Select::from_branch never reaches its unreachable case.
    pub select_from-Reachable :
        (out : BranchOutput O1 O2) → Reachable (completed out) → select_from out ≢ none
    select_from-Reachable out r =
        select_from-Told cancels1 (BranchOutput.is_first out) (BranchOutput.first_output out)
          (BranchOutput.second_output out) (Reachable-IsFine (completed out) r)

    last-CompletesWith :
        (b : Branch O1 O2) (e : Event O1 O2) (reply1 : Reply O1) (reply2 : Reply O2)
        → IsWaiting b
        → is_last e b ≡ true
        → CompletesWith e b (step e reply1 reply2 b)
    unfolding complete_first complete_second
    last-CompletesWith _ (first_completes v) reply1 reply2 (first_runs pending y r) h =
        (refl, refl, refl)
    last-CompletesWith _ (first_completes v) reply1 reply2 (first_runs empty y r) h =
        (refl, refl, refl)
    last-CompletesWith _ (second_completes v) reply1 reply2 (second_runs x pending r) h =
        (refl, refl, refl)
    last-CompletesWith _ (second_completes v) reply1 reply2 (second_runs x empty r) h =
        (refl, refl, refl)
    last-CompletesWith b e reply1 reply2 w h = absurd cc

    -- When the last of the two futures that runs completes, after the run, the branch is completed with
    -- the outputs of both, and the flag tells that the other one was the first.
    pub step-CompletesWith :
        (b : Branch O1 O2) (e : Event O1 O2) (reply1 : Reply O1) (reply2 : Reply O2)
        → Reachable (alive b)
        → is_last e b ≡ true
        → CompletesWith e b (step e reply1 reply2 b)
    step-CompletesWith b e reply1 reply2 r h =
        last-CompletesWith b e reply1 reply2 (Reachable-IsFine (alive b) r) h

    -- When the second future completes at once in the run, and the first, which is cancelled for it,
    -- completes within its cancellation, the branch tells that the first was the first, and the select
    -- gives the output of the cancelled future as that of the winner.
    pub run-tells_first :
        (v : O1) (y : O2) (result : Outcome (Unit {0})) (reply2 : Reply O2)
        → cancels2 (returned y) ≡ true
        → (run cancels1 cancels2
              (record { completes = some v; result = result })
              reply2
              in_progress
              (at_once (returned y))
              new_branch
            ≡ some (
                completed (record {
                  is_first = true;
                  first_output = some (returned v);
                  second_output = some (returned y);
                })))
          × (select_from (record {
            is_first = true;
            first_output = some (returned v);
            second_output = some (returned y);
          })
              ≡ some (returned (first_of v (some y))))
    unfolding run complete_first select_from
    run-tells_first v y result reply2 h = (rw (h) refl, refl)

  -- When the futures of a branch cancel each other only when they panic, as those of a join do, every
  -- branch that is completed has both outputs or a panic that goes on, so that Join::from_branch
  -- never reaches its unreachable case.
  pub join_from-Reachable :
      (out : BranchOutput O1 O2)
      → Reachable is_panicked is_panicked (completed out)
      → join_from out ≢ none
  join_from-Reachable out r =
      join_from-Told (BranchOutput.is_first out) (BranchOutput.first_output out)
        (BranchOutput.second_output out)
        (Reachable-IsFine is_panicked is_panicked (completed out) r)
