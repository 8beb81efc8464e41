-- ===== src/Branch/Output.antt =====
-- src/coroutines/select.rs and src/coroutines/join.rs: what they make of the output of a branch.
use xx_core.Base.{Bool, true, false, Option, none, some}
use xx_core.Branch.{MaybePanic, returned, panicked, BranchOutput, ◌>>=◌}

-- `Select`, and `Select::from_branch`, in which a panic of a future goes on.
pub data Select (O1 O2 : Type 0) : Type 0 where
  first_of : O1 → Option O2 → Select O1 O2
  second_of : O2 → Option O1 → Select O1 O2

-- `runtime::join` of an output that may be missing.
abbrev pub joined : {O : Type 0} → Option (MaybePanic O) → MaybePanic (Option O)
joined none = returned none
joined (some (returned v)) = returned (some v)
joined (some panicked) = panicked

module _ {O1 O2 : Type 0} where
  abbrev pub select_of : Bool → Option O1 → Option O2 → Option (Select O1 O2)
  select_of true (some a) b = some (first_of a b)
  select_of true none b = none
  select_of false a (some b) = some (second_of b a)
  select_of false a none = none

  abbrev pub select_joined :
      Bool → MaybePanic (Option O1) → MaybePanic (Option O2) → Option (MaybePanic (Select O1 O2))
  select_joined flag panicked b = some panicked
  select_joined flag (returned a) panicked = some panicked
  select_joined flag (returned a) (returned b) = select_of flag a b >>= (λ s. some (returned s))

  unfoldable pub select_from : BranchOutput O1 O2 → Option (MaybePanic (Select O1 O2))
  select_from out =
      select_joined (BranchOutput.is_first out) (joined (BranchOutput.first_output out))
        (joined (BranchOutput.second_output out))

-- `Result::is_err`, with which a join cancels.
abbrev pub is_panicked : {O : Type 0} → MaybePanic O → Bool
is_panicked (returned v) = false
is_panicked panicked = true

-- `Join`, and `Join::from_branch`.
pub record Join (O1 O2 : Type 0) : Type 0 where
  pub one : O1
  pub two : O2

module _ {O1 O2 : Type 0} where
  abbrev pub join_of : Option O1 → Option O2 → Option (Join O1 O2)
  join_of none b = none
  join_of (some a) none = none
  join_of (some a) (some b) = some (record { one = a; two = b })

  abbrev pub join_joined :
      MaybePanic (Option O1) → MaybePanic (Option O2) → Option (MaybePanic (Join O1 O2))
  join_joined panicked b = some panicked
  join_joined (returned a) panicked = some panicked
  join_joined (returned a) (returned b) = join_of a b >>= (λ j. some (returned j))

  unfoldable pub join_from : BranchOutput O1 O2 → Option (MaybePanic (Join O1 O2))
  join_from out =
      join_joined (joined (BranchOutput.first_output out)) (joined (BranchOutput.second_output out))
