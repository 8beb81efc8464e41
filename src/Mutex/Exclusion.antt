-- ===== src/Mutex/Exclusion.antt =====
-- src/async_std/sync/mutex.rs: at most one locker holds the mutex, and at most one is in the list.
use xx_core.Base.{
  ℕ, ◌+◌, ◌≤◌, ◌<◌, ◌≡◌, ◌⊎◌, Bool, false, List, [], ◌∷◌, ◌++◌, if◌then◌else◌, arith,
}
use xx_core.Mutex.{
  Lock, unlocked, locked, contended, Locker, outside, failed, holds, cas_try, cas_lock, spin,
  swap_contended, interrupt_check, register, announces, entered, blocks, vacates, releases, parked,
  wake_check, wake_pop, Words, is_parked, parked_in, System,
}

-- How many of the lockers have a property.
abbrev pub counted : (Locker → ℕ) → List Locker → ℕ
counted f [] = 0
counted f (t ∷ ts) = f t + counted f ts

pub counted-append :
    (f : Locker → ℕ) (ts us : List Locker) → counted f (ts ++ us) ≡ counted f ts + counted f us
counted-append f [] us = omega arith
counted-append f (t ∷ ts) us = omega (arith, counted-append f ts us)

abbrev pub is_holder : Locker → ℕ
is_holder outside = 0
is_holder failed = 0
is_holder holds = 1
is_holder cas_try = 0
is_holder cas_lock = 0
is_holder (spin n) = 0
is_holder swap_contended = 0
is_holder interrupt_check = 0
is_holder register = 0
is_holder announces = 0
is_holder entered = 0
is_holder blocks = 0
is_holder vacates = 0
is_holder releases = 0
is_holder parked = 0
is_holder wake_check = 0
is_holder wake_pop = 0

abbrev pub is_entered : Locker → ℕ
is_entered outside = 0
is_entered failed = 0
is_entered holds = 0
is_entered cas_try = 0
is_entered cas_lock = 0
is_entered (spin n) = 0
is_entered swap_contended = 0
is_entered interrupt_check = 0
is_entered register = 0
is_entered announces = 1
is_entered entered = 1
is_entered blocks = 1
is_entered vacates = 1
is_entered releases = 1
is_entered parked = 0
is_entered wake_check = 0
is_entered wake_pop = 0

-- A locker that has said that the list is not empty, and may be appended to it.
abbrev pub is_joining : Locker → ℕ
is_joining outside = 0
is_joining failed = 0
is_joining holds = 0
is_joining cas_try = 0
is_joining cas_lock = 0
is_joining (spin n) = 0
is_joining swap_contended = 0
is_joining interrupt_check = 0
is_joining register = 0
is_joining announces = 0
is_joining entered = 1
is_joining blocks = 1
is_joining vacates = 0
is_joining releases = 0
is_joining parked = 0
is_joining wake_check = 0
is_joining wake_pop = 0

-- A locker that will be appended to the list.
abbrev pub is_blocking : Locker → ℕ
is_blocking outside = 0
is_blocking failed = 0
is_blocking holds = 0
is_blocking cas_try = 0
is_blocking cas_lock = 0
is_blocking (spin n) = 0
is_blocking swap_contended = 0
is_blocking interrupt_check = 0
is_blocking register = 0
is_blocking announces = 0
is_blocking entered = 0
is_blocking blocks = 1
is_blocking vacates = 0
is_blocking releases = 0
is_blocking parked = 0
is_blocking wake_check = 0
is_blocking wake_pop = 0

-- What the words say of the number of holders, and of lockers that have the lock of the list.
abbrev pub held : Lock → ℕ
held unlocked = 0
held locked = 1
held contended = 1

abbrev pub one_if : Bool → ℕ
one_if b = if b then 1 else 0

-- A locker that is on its way to swap the state, or to wake one that is parked.
abbrev pub is_active : Locker → ℕ
is_active outside = 0
is_active failed = 0
is_active holds = 0
is_active cas_try = 0
is_active cas_lock = 0
is_active (spin n) = 1
is_active swap_contended = 1
is_active interrupt_check = 0
is_active register = 0
is_active announces = 0
is_active entered = 0
is_active blocks = 0
is_active vacates = 0
is_active releases = 0
is_active parked = 0
is_active wake_check = 1
is_active wake_pop = 1

-- The words, and how many hold the mutex, hold the lock of the list, are parked, are active, are
-- joining and are blocking: when a locker is parked or will be, the state is contended or some
-- locker is active.
abbrev pub Sound : Words → ℕ → ℕ → ℕ → ℕ → ℕ → ℕ → Type 0
Sound w h e p a j b =
    (h ≡ held (Words.state w))
    × ((e ≡ one_if (Words.list_locked w))
        × (((Words.empty w ≡ false) ⊎ (p + j ≡ 0))
            × ((Words.state w ≡ contended) ⊎ ((p + b ≡ 0) ⊎ (0 < a)))))

-- The same, with one locker apart from the others.
abbrev pub SoundWith : Locker → Words → ℕ → ℕ → ℕ → ℕ → ℕ → ℕ → Type 0
SoundWith t w h e p a j b =
    Sound w (is_holder t + h) (is_entered t + e) (is_parked t + p) (is_active t + a)
      (is_joining t + j) (is_blocking t + b)

-- A mutex and its lockers.
abbrev pub IsSystem : System → Type 0
IsSystem s =
    Sound (System.words s) (counted is_holder (System.lockers s))
      (counted is_entered (System.lockers s)) (parked_in (System.lockers s))
      (counted is_active (System.lockers s)) (counted is_joining (System.lockers s))
      (counted is_blocking (System.lockers s))

is_blocking_le : (t : Locker) → (is_blocking t ≤ is_joining t) × (is_joining t ≤ is_entered t)
is_blocking_le outside = (omega arith, omega arith)
is_blocking_le failed = (omega arith, omega arith)
is_blocking_le holds = (omega arith, omega arith)
is_blocking_le cas_try = (omega arith, omega arith)
is_blocking_le cas_lock = (omega arith, omega arith)
is_blocking_le (spin n) = (omega arith, omega arith)
is_blocking_le swap_contended = (omega arith, omega arith)
is_blocking_le interrupt_check = (omega arith, omega arith)
is_blocking_le register = (omega arith, omega arith)
is_blocking_le announces = (omega arith, omega arith)
is_blocking_le entered = (omega arith, omega arith)
is_blocking_le blocks = (omega arith, omega arith)
is_blocking_le vacates = (omega arith, omega arith)
is_blocking_le releases = (omega arith, omega arith)
is_blocking_le parked = (omega arith, omega arith)
is_blocking_le wake_check = (omega arith, omega arith)
is_blocking_le wake_pop = (omega arith, omega arith)

-- Who is blocking is joining, and who is joining has the lock of the list.
pub blocking_le :
    (ts : List Locker)
    → (counted is_blocking ts ≤ counted is_joining ts)
      × (counted is_joining ts ≤ counted is_entered ts)
blocking_le [] = (omega arith, omega arith)
blocking_le (t ∷ ts) =
    let (b, j) = is_blocking_le t in
    let (bs, js) = blocking_le ts in (omega (arith, b, bs), omega (arith, j, js))

pub parked_in-append : (ts us : List Locker) → parked_in (ts ++ us) ≡ parked_in ts + parked_in us
parked_in-append [] us = omega arith
parked_in-append (t ∷ ts) us = omega (arith, parked_in-append ts us)

-- One locker is counted apart from those in front of it and behind it.
pub counted_apart :
    (f : Locker → ℕ) (front back : List Locker) (t : Locker)
    → counted f (front ++ (t ∷ back)) ≡ f t + (counted f front + counted f back)
counted_apart f front back t = omega (arith, counted-append f front (t ∷ back))

pub parked_apart :
    (front back : List Locker) (t : Locker)
    → parked_in (front ++ (t ∷ back)) ≡ is_parked t + (parked_in front + parked_in back)
parked_apart front back t = omega (arith, parked_in-append front (t ∷ back))
