-- ===== src/Branch.antt =====
-- src/coroutines/branch.rs: two futures that run at
-- once, of which the first to complete may cancel the other. What a future does when it is run or
-- cancelled is an argument, `Started` and `Reply`. A future calls back for itself only. `none` is
-- undefined behaviour: a branch is used after it was completed, or a call breaks what it must keep.
pub mod Output
pub mod Shape
pub mod Races
mod Tests
use xx_core.Base.{Bool, true, false, ◌&&◌, not, Option, none, some, ℕ, zero, suc, if◌then◌else◌}
use xx_core.Base.Outcome.{Outcome, ok, err, panic, out_of_fuel}

-- Undefined behaviour stays undefined.
infixl 1 ◌>>=◌
abbrev pub ◌>>=◌ : {A B : Type 0} → Option A → (A → Option B) → Option B
none >>= f = none
(some x) >>= f = f x

-- Each callback is called from the cancellation of the other future at most.
abbrev pub call_depth : ℕ
call_depth = 2

-- `MaybePanic<O>`
pub data MaybePanic (O : Type 0) : Type 0 where
  returned : O → MaybePanic O
  panicked : MaybePanic O

-- `State<F>`; a future that is being run or cancelled is taken, and leaves `empty`.
pub data State (O : Type 0) : Type 0 where
  ready pending empty : State O
  done : MaybePanic O → State O

-- What `Future::run` gives.
pub data Started (O : Type 0) : Type 0 where
  in_progress : Started O
  at_once : MaybePanic O → Started O

-- What `Cancel::run` does: the value with which the future completes within the call, if it does,
-- and what the call returns.
pub record Reply (O : Type 0) : Type 0 where
  pub completes : Option O
  pub result : Outcome (Unit {0})

module _ {O : Type 0} where
  abbrev pub is_done : State O → Bool
  is_done ready = false
  is_done pending = false
  is_done empty = false
  is_done (done x) = true

  -- A future that was run and has not completed.
  abbrev pub is_running : State O → Bool
  is_running ready = false
  is_running pending = true
  is_running empty = true
  is_running (done x) = false

  -- `take_cancel`: whether there was one, and what is left.
  abbrev pub take_cancel : State O → Bool × State O
  take_cancel ready = (false, ready)
  take_cancel pending = (true, empty)
  take_cancel empty = (false, empty)
  take_cancel (done x) = (false, done x)

  -- `FutureHandle::run`, with the value when the future completed.
  abbrev pub run_handle : Started O → State O → Option (State O)
  run_handle in_progress ready = some pending
  run_handle (at_once x) ready = some (done x)
  run_handle s pending = none
  run_handle s empty = none
  run_handle s (done x) = none

  -- `FutureHandle::complete`
  abbrev pub complete_handle : MaybePanic O → State O → Option (State O)
  complete_handle x s = if is_done s then none else some (done x)

  -- `FutureHandle::result`
  abbrev pub handle_result : State O → Option (MaybePanic O)
  handle_result ready = none
  handle_result pending = none
  handle_result empty = none
  handle_result (done x) = some x

  abbrev pub cancel_result : Bool → Reply O → Option (Outcome (Unit {0}))
  cancel_result taken reply = if taken then some (Reply.result reply) else none

module _ (O1 O2 : Type 0) where
  pub record BranchOutput : Type 0 where
    pub is_first : Bool
    pub first_output : Option (MaybePanic O1)
    pub second_output : Option (MaybePanic O2)

  pub record Branch : Type 0 where
    pub first : State O1
    pub second : State O2
    pub interrupt_callback : Bool

  -- A branch that was completed is freed.
  pub data World : Type 0 where
    alive : Branch → World
    completed : BranchOutput → World

module _ {O1 O2 : Type 0} where
  -- The outputs of both futures.
  abbrev pub both_results : Bool → Branch O1 O2 → Option (World O1 O2)
  both_results flag b = do
    x ← handle_result (Branch.first b)
    y ← handle_result (Branch.second b)
    some (completed (record { is_first = flag; first_output = some x; second_output = some y }))

  -- `complete_single`, with the cancellation of the other future.
  abbrev pub complete_single :
      Bool → Bool → (Branch O1 O2 → Option (World O1 O2)) → Branch O1 O2 → Option (World O1 O2)
  complete_single is_first should_cancel cancel_other b =
      if Branch.interrupt_callback b
      then some (alive (record b { interrupt_callback = false }))
      else if is_done (Branch.first b) && is_done (Branch.second b)
      then both_results (not is_first) b
      else if should_cancel
      then cancel_other b
      else some (alive b)

  -- What the cancellation of a future that was taken does.
  abbrev pub replied :
      {O : Type 0}
      → Option O
      → (O → Branch O1 O2 → Option (World O1 O2))
      → Branch O1 O2
      → Option (World O1 O2)
  replied none callback b = some (alive b)
  replied (some x) callback b = callback x b

  -- `FutureHandle::cancel` of either future.
  abbrev pub cancel_first :
      Reply O1 → (O1 → Branch O1 O2 → Option (World O1 O2)) → Branch O1 O2 → Option (World O1 O2)
  cancel_first reply callback b =
      let (taken, left) = take_cancel (Branch.first b) in
      if taken then replied (Reply.completes reply) callback (record b { first = left }) else none

  abbrev pub cancel_second :
      Reply O2 → (O2 → Branch O1 O2 → Option (World O1 O2)) → Branch O1 O2 → Option (World O1 O2)
  cancel_second reply callback b =
      let (taken, left) = take_cancel (Branch.second b) in
      if taken then replied (Reply.completes reply) callback (record b { second = left }) else none

  module _ (cancels1 : MaybePanic O1 → Bool) (cancels2 : MaybePanic O2 → Bool) (reply1 : Reply O1)
      (reply2 : Reply O2) where
    -- `complete_first` and `complete_second`, to a depth of calls within calls.
    unfoldable mutual
      pub complete_first : ℕ → O1 → Branch O1 O2 → Option (World O1 O2)
      complete_first zero v b = none
      complete_first (suc depth) v b = complete_handle (returned v) (Branch.first b) >>= (λ s.
          complete_single true (cancels1 (returned v))
            (cancel_second reply2 (complete_second depth)) (record b { first = s }))

      pub complete_second : ℕ → O2 → Branch O1 O2 → Option (World O1 O2)
      complete_second zero v b = none
      complete_second (suc depth) v b = complete_handle (returned v) (Branch.second b) >>= (λ s.
          complete_single false (cancels2 (returned v)) (cancel_first reply1 (complete_first depth))
            (record b { second = s }))

    -- A callback of a branch that was completed.
    abbrev pub freed : Option O2 → BranchOutput O1 O2 → Option (World O1 O2)
    freed none out = some (completed out)
    freed (some y) out = none

    -- `cancel_all`, up to the results of the cancellations: both are taken before the first runs, and
    -- the second runs also when the branch is completed, since it was taken.
    abbrev pub second_cancel : Bool → World O1 O2 → Option (World O1 O2)
    second_cancel false w = some w
    second_cancel true (completed out) = freed (Reply.completes reply2) out
    second_cancel true (alive b) = replied (Reply.completes reply2) (complete_second call_depth) b

    abbrev pub first_cancel : Bool → Branch O1 O2 → Option (World O1 O2)
    first_cancel false b = some (alive b)
    first_cancel true b = replied (Reply.completes reply1) (complete_first call_depth) b

    pub cancel_all : Branch O1 O2 → Option (World O1 O2)
    cancel_all b =
        let (taken1, left1) = take_cancel (Branch.first b) in
        let (taken2, left2) = take_cancel (Branch.second b) in
        first_cancel taken1 (record b {
          first = left1;
          second = left2;
          interrupt_callback = (if taken1 && taken2 then true else Branch.interrupt_callback b);
        })
        >>= second_cancel taken2

    -- `run` behind the cancellation of the first future: the flag that is still set tells that the first
    -- has not completed.
    abbrev pub after_cancel : World O1 O2 → Option (World O1 O2)
    after_cancel (completed out) = none
    after_cancel (alive b) =
        if Branch.interrupt_callback b
        then some (alive (record b { interrupt_callback = false }))
        else both_results true b

    abbrev pub second_started : Started O2 → Branch O1 O2 → Option (World O1 O2)
    second_started in_progress b = some (alive b)
    second_started (at_once y) b =
        if is_done (Branch.first b)
        then both_results true b
        else if cancels2 y
        then cancel_first reply1 (complete_first call_depth)
            (record b { interrupt_callback = true })
          >>= after_cancel
        else some (alive b)

    abbrev pub run_second : Started O2 → Branch O1 O2 → Option (World O1 O2)
    run_second s b =
        run_handle s (Branch.second b) >>= (λ state. second_started s (record b { second = state }))

    abbrev pub first_started : Started O1 → Started O2 → Branch O1 O2 → Option (World O1 O2)
    first_started in_progress s2 b = run_second s2 b
    first_started (at_once x) s2 b =
        if cancels1 x
        then handle_result (Branch.first b) >>= (λ r.
          some
            (completed (record { is_first = true; first_output = some r; second_output = none })))
        else run_second s2 b

    pub run : Started O1 → Started O2 → Branch O1 O2 → Option (World O1 O2)
    run s1 s2 b =
        run_handle s1 (Branch.first b)
        >>= (λ state. first_started s1 s2 (record b { first = state }))

-- What `cancel_all` returns: a panic goes on, and else the first error.
abbrev pub cancel_results :
    Option (Outcome (Unit {0})) → Option (Outcome (Unit {0})) → Outcome (Unit {0})
cancel_results none none = ok tt
cancel_results none (some r) = r
cancel_results (some (ok u)) none = ok u
cancel_results (some (ok u)) (some r) = r
cancel_results (some (err e)) (some panic) = panic
cancel_results (some (err e)) r = err e
cancel_results (some panic) r = panic
cancel_results (some out_of_fuel) r = out_of_fuel

-- The result of `cancel_all`, next to what it does.
pub cancel_all_result : {O1 O2 : Type 0} → Reply O1 → Reply O2 → Branch O1 O2 → Outcome (Unit {0})
cancel_all_result reply1 reply2 b =
    let (taken1, left1) = take_cancel (Branch.first b) in
    let (taken2, left2) = take_cancel (Branch.second b) in
    cancel_results (cancel_result taken1 reply1) (cancel_result taken2 reply2)

-- `Branch::new`
abbrev pub new_branch : {O1 O2 : Type 0} → Branch O1 O2
new_branch = record { first = ready; second = ready; interrupt_callback = false }
