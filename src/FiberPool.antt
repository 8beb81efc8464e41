-- ===== src/FiberPool.antt =====
-- src/fiber/pool.rs: the pool of the stacks of fibers that have exited. A fiber is the number of its
-- stack with the start that it was given; the stack of a new one is an argument, and so is whether the
-- vector can be given room for one more. A call holds the lock while it changes the pool, so the
-- calls of several threads are a sequence.
pub mod Unique
mod Tests
use Prim.Native.Nat.{max}
use xx_core.Base.{
  ℕ, zero, suc, ◌+◌, ◌-◌, ◌*◌, ◌/◌, ◌%◌, Bool, true, false, ◌&&◌, Option, none, some, List, [], ◌∷◌,
  ◌++◌, ltb, ◌==◌, if◌then◌else◌, length, ◌≡◌,
}

pub record Fiber : Type 0 where
  pub stack : ℕ
  pub start : ℕ

pub record Data : Type 0 where
  pub pool : List Fiber
  pub active : ℕ

-- `checked_add(1)` of a number below twice `half`, 2 ^ 63 in the source; none ends the process.
abbrev pub added : ℕ → ℕ → Option ℕ
added half n = if ltb (n + 1) (half + half) then some (n + 1) else none

-- `checked_sub(1)`
abbrev pub subtracted : ℕ → Option ℕ
subtracted zero = none
subtracted (suc n) = some n

-- `Vec::pop`: the last, and what is left.
abbrev pub pop_last : Fiber → List Fiber → Fiber × List Fiber
pop_last f [] = (f, [])
pop_last f (g ∷ fs) = let (last, rest) = pop_last g fs in (last, f ∷ rest)

abbrev pub reused : ℕ → ℕ → ℕ → List Fiber → Fiber × Data
reused start new_stack active [] =
    (record { stack = new_stack; start = start }, record { pool = []; active = active })
reused start new_stack active (f ∷ fs) =
    let (last, rest) = pop_last f fs in
    (record last { start = start }, record { pool = rest; active = active })

abbrev pub on_active : {A : Type 0} → Option ℕ → (ℕ → A) → Option A
on_active none k = none
on_active (some n) k = some (k n)

pub new_fiber : ℕ → ℕ → ℕ → Data → Option (Fiber × Data)
new_fiber half start new_stack d =
    on_active (added half (Data.active d)) (λ active. reused start new_stack active (Data.pool d))

abbrev pub calculate_ideal : ℕ → ℕ → ℕ
calculate_ideal half count = count * 20 % (half + half) / 100 + 16

abbrev pub preserved : ℕ → Bool → Fiber → List Fiber → ℕ → Data
preserved half reserves fiber pool active =
    if ltb (length pool) (calculate_ideal half active) && reserves
    then record { pool = pool ++ fiber ∷ []; active = active }
    else record { pool = pool; active = active }

pub exit_fiber : ℕ → Bool → Fiber → Data → Option Data
exit_fiber half reserves fiber d =
    on_active (subtracted (Data.active d)) (preserved half reserves fiber (Data.pool d))

-- A pool, the fibers that run, the number of the next new stack, and the most that ran at once.
pub record System : Type 0 where
  pub data_of : Data
  pub running : List Fiber
  pub made : ℕ
  pub peak : ℕ

-- The users of the pool give back only what they have. A stack that is made is a new one.
pub data Step (half : ℕ) : System → System → Type 0 where
  starts :
      (s : System) (start : ℕ) (fiber : Fiber) (d : Data)
      → new_fiber half start (System.made s) (System.data_of s) ≡ some (fiber, d)
      → Step half s (record {
        data_of = d;
        running = fiber ∷ System.running s;
        made = System.made s + 1;
        peak = max (System.peak s) (Data.active d);
      })
  exits :
      (s : System) (before after : List Fiber) (fiber : Fiber) (reserves : Bool) (d : Data)
      → System.running s ≡ before ++ fiber ∷ after
      → exit_fiber half reserves fiber (System.data_of s) ≡ some d
      → Step half s (record s { data_of = d; running = before ++ after })

pub data Reachable (half : ℕ) : System → Type 0 where
  created :
      Reachable half
        (record { data_of = record { pool = []; active = 0 }; running = []; made = 0; peak = 0 })
  stepped : (s t : System) → Reachable half s → Step half s t → Reachable half t
