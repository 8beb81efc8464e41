-- ===== src/Branch/Tests.antt =====
-- Races of two futures with numbers as outputs.
use xx_core.Base.{ℕ, Bool, true, false, none, some, ◌≡◌, ◌≢◌, refl}
use xx_core.Base.Outcome.{ok, err, interrupted}
use xx_core.Branch.{
  MaybePanic, returned, panicked, pending, empty, done, in_progress, at_once, Reply, BranchOutput,
  Branch, alive, completed, complete_first, complete_second, cancel_all_result, run, new_branch,
}
use xx_core.Branch.Output.{first_of, select_from, join_from, is_panicked}
use xx_core.Branch.Races.{
  first_completes, second_completes, cancelled, CompletesWith, step, Reachable, started, stepped,
  step-defined, select_from-Reachable, step-CompletesWith, run-tells_first, join_from-Reachable,
}

abbrev always : MaybePanic ℕ → Bool
always x = true

abbrev later : Reply ℕ
later = record { completes = none; result = ok tt }

-- A future that completes with 9 when it is cancelled.
abbrev nine : Reply ℕ
nine = record { completes = some 9; result = err interrupted }

abbrev waiting : Branch ℕ ℕ
waiting = record { first = pending; second = pending; interrupt_callback = false }

abbrev second_left : Branch ℕ ℕ
second_left = record { first = done (returned 5); second = empty; interrupt_callback = false }

waiting-Reachable : Reachable always always (alive waiting)
unfolding run
waiting-Reachable = started in_progress in_progress later later (alive waiting) refl

second_left-Reachable : Reachable always always (alive second_left)
unfolding complete_first
second_left-Reachable =
    stepped waiting (first_completes 5) later later (alive second_left) waiting-Reachable refl refl

abbrev raced : BranchOutput ℕ ℕ
raced = record {
  is_first = true;
  first_output = some (returned 5);
  second_output = some (returned 9);
}

raced-Reachable : Reachable always always (completed raced)
unfolding complete_first complete_second
raced-Reachable =
    stepped waiting (first_completes 5) later nine (completed raced) waiting-Reachable refl refl

selected : select_from raced ≡ some (returned (first_of 5 (some 9)))
unfolding select_from
selected = refl

results : cancel_all_result nine later waiting ≡ err interrupted
unfolding cancel_all_result
results = refl

step-defined_example : step always always cancelled nine nine waiting ≢ none
step-defined_example = step-defined always always waiting cancelled nine nine waiting-Reachable refl

step-CompletesWith_example :
    CompletesWith
      (second_completes 7)
      second_left
      (step always always (second_completes 7) later later second_left)
step-CompletesWith_example =
    step-CompletesWith always always second_left (second_completes 7) later later
      second_left-Reachable refl

select_from-Reachable_example : select_from raced ≢ none
select_from-Reachable_example = select_from-Reachable always always raced raced-Reachable

abbrev told_first : BranchOutput ℕ ℕ
told_first = record {
  is_first = true;
  first_output = some (returned 9);
  second_output = some (returned 7);
}

run-tells_first_example :
    (run always always nine later in_progress (at_once (returned 7)) new_branch
      ≡ some (completed told_first))
    × (select_from told_first ≡ some (returned (first_of 9 (some 7))))
run-tells_first_example = run-tells_first always always 9 7 (err interrupted) later refl

abbrev one_panicked : BranchOutput ℕ ℕ
one_panicked = record { is_first = true; first_output = some panicked; second_output = none }

one_panicked-Reachable : Reachable is_panicked is_panicked (completed one_panicked)
unfolding run
one_panicked-Reachable =
    started (at_once panicked) in_progress later later (completed one_panicked) refl

join_from-Reachable_example : join_from one_panicked ≢ none
join_from-Reachable_example = join_from-Reachable one_panicked one_panicked-Reachable
