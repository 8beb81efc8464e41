-- ===== src/Mutex.antt =====
-- src/async_std/sync/mutex.rs: the asynchronous mutex, with the wait list of
-- src/async_std/sync/wait_list.rs (`ThreadSafeWaitList`) that it suspends on. Several lockers run
-- interleaved, each between two atomic operations of its call. The list behind its spin lock is
-- the lockers that are parked. An append to it, which nobody sees before the spin lock is released,
-- is one step with the release. A mutex never closes its list.
pub mod Exclusion
pub mod Wakeup
mod Tests
use xx_core.Base.{
  ℕ, zero, suc, Bool, true, false, List, [], ◌∷◌, ◌++◌, ◌+◌, ◌==◌, ◌≡◌, if◌then◌else◌,
}

-- `State`
pub data Lock : Type 0 where
  unlocked locked contended : Lock

-- The points of `try_lock`, `lock` and `blocking_lock_cancellable`, of `try_spin_lock`, of
-- `ThreadSafeWaitList::suspend`, and of `unlock` and `wake_one`.
pub data Locker : Type 0 where
  outside failed holds : Locker
  cas_try cas_lock : Locker
  spin : ℕ → Locker
  swap_contended interrupt_check : Locker
  register announces entered blocks vacates releases parked : Locker
  wake_check wake_pop : Locker

-- The words that the lockers share: `Mutex::state`, and `empty` and the lock of the list.
pub record Words : Type 0 where
  pub state : Lock
  pub empty : Bool
  pub list_locked : Bool

abbrev pub spin_limit : ℕ
spin_limit = 97

-- `try_lock_internal`
abbrev pub try_lock_internal : Lock → Bool × Lock
try_lock_internal unlocked = (true, locked)
try_lock_internal locked = (false, locked)
try_lock_internal contended = (false, contended)

abbrev pub is_contended : Lock → Bool
is_contended unlocked = false
is_contended locked = false
is_contended contended = true

-- `try_spin_lock` behind a load in its loop, with n rounds left.
abbrev pub spin_load : ℕ → Lock → Locker
spin_load n unlocked = swap_contended
spin_load n locked = spin n
spin_load n contended = interrupt_check

-- `try_spin_lock` and the test of its result, behind the swap.
abbrev pub swapped : Lock → Locker
swapped unlocked = holds
swapped locked = interrupt_check
swapped contended = interrupt_check

-- `suspend` under the lock of the list, behind `should_block`: the locker is appended, or `Empty` ends,
-- which says whether the list is empty.
abbrev pub suspend_check : Lock → Locker
suspend_check x = if is_contended x then blocks else vacates

-- `wake_one` looks at the flag first.
abbrev pub wake_load : Bool → Locker
wake_load true = outside
wake_load false = wake_pop

-- `unlock`
abbrev pub unlocked_from : Lock → Locker
unlocked_from unlocked = outside
unlocked_from locked = outside
unlocked_from contended = wake_check

-- One operation of a locker. `alone` says whether the list is empty, `interrupted` whether the task
-- is, in which case it gives up or leaves the list.
pub advance : Bool → Bool → Locker → Words → Locker × Words
advance alone interrupted outside w = (outside, w)
advance alone interrupted failed w = (failed, w)
advance alone interrupted holds w = (unlocked_from (Words.state w), record w { state = unlocked })
advance alone interrupted cas_try w =
    let (won, now) = try_lock_internal (Words.state w) in
    (if won then holds else failed, record w { state = now })
advance alone interrupted cas_lock w =
    let (won, now) = try_lock_internal (Words.state w) in
    (if won then holds else spin spin_limit, record w { state = now })
advance alone interrupted (spin zero) w = (swap_contended, w)
advance alone interrupted (spin (suc n)) w = (spin_load n (Words.state w), w)
advance alone interrupted swap_contended w =
    (swapped (Words.state w), record w { state = contended })
advance alone interrupted interrupt_check w = (if interrupted then failed else register, w)
advance alone true register w = (spin spin_limit, w)
advance alone false register w =
    if Words.list_locked w then (register, w) else (announces, record w { list_locked = true })
advance alone interrupted announces w = (entered, record w { empty = false })
advance alone interrupted entered w = (suspend_check (Words.state w), w)
advance alone interrupted blocks w = (parked, record w { list_locked = false })
advance alone interrupted vacates w = (releases, record w { empty = alone })
advance alone interrupted releases w = (spin spin_limit, record w { list_locked = false })
advance alone interrupted parked w =
    if Words.list_locked w
    then (parked, w)
    else if interrupted
    then (spin spin_limit, w)
    else (parked, w)
advance alone interrupted wake_check w = (wake_load (Words.empty w), w)
advance alone interrupted wake_pop w = (wake_pop, w)

abbrev pub is_parked : Locker → ℕ
is_parked outside = 0
is_parked failed = 0
is_parked holds = 0
is_parked cas_try = 0
is_parked cas_lock = 0
is_parked (spin n) = 0
is_parked swap_contended = 0
is_parked interrupt_check = 0
is_parked register = 0
is_parked announces = 0
is_parked entered = 0
is_parked blocks = 0
is_parked vacates = 0
is_parked releases = 0
is_parked parked = 1
is_parked wake_check = 0
is_parked wake_pop = 0

-- How many lockers are in the list.
abbrev pub parked_in : List Locker → ℕ
parked_in [] = 0
parked_in (t ∷ ts) = is_parked t + parked_in ts

-- `wake_one` takes a locker out of the list.
pub data Wakes : List Locker → List Locker → Type 0 where
  wakes_here : (ts : List Locker) → Wakes (parked ∷ ts) (spin spin_limit ∷ ts)
  wakes_later : (t : Locker) (ts us : List Locker) → Wakes ts us → Wakes (t ∷ ts) (t ∷ us)

pub record System : Type 0 where
  pub words : Words
  pub lockers : List Locker

pub data Step : System → System → Type 0 where
  goes :
      (interrupted : Bool) (front back : List Locker) (t : Locker) (w : Words)
      → Step
          (record { words = w; lockers = front ++ (t ∷ back) })
          (record {
            words = (advance (parked_in (front ++ (t ∷ back)) == 0) interrupted t w).1;
            lockers =
                front
                ++ ((advance (parked_in (front ++ (t ∷ back)) == 0) interrupted t w).0 ∷ back);
          })
  pops :
      (front back us : List Locker) (w : Words)
      → Words.list_locked w ≡ false
      → Wakes (front ++ (outside ∷ back)) us
      → Step
          (record { words = w; lockers = front ++ (wake_pop ∷ back) })
          (record { words = w; lockers = us })
  pops_none :
      (front back : List Locker) (w : Words)
      → Words.list_locked w ≡ false
      → parked_in (front ++ (outside ∷ back)) ≡ 0
      → Step
          (record { words = w; lockers = front ++ (wake_pop ∷ back) })
          (record { words = w; lockers = front ++ (outside ∷ back) })
  calls :
      (front back : List Locker) (w : Words) (waits : Bool)
      → Step
          (record { words = w; lockers = front ++ (outside ∷ back) })
          (record { words = w; lockers = front ++ ((if waits then cas_lock else cas_try) ∷ back) })
  leaves :
      (front back : List Locker) (w : Words)
      → Step
          (record { words = w; lockers = front ++ (failed ∷ back) })
          (record { words = w; lockers = front ++ (outside ∷ back) })

abbrev pub all_outside : ℕ → List Locker
all_outside zero = []
all_outside (suc n) = outside ∷ all_outside n

pub data Reachable : System → Type 0 where
  created :
      (n : ℕ)
      → Reachable (record {
        words = record { state = unlocked; empty = false; list_locked = false };
        lockers = all_outside n;
      })
  stepped : (s t : System) → Reachable s → Step s t → Reachable t
