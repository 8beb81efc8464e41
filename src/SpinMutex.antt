-- ===== src/SpinMutex.antt =====
-- src/sync/spin_lock.rs and src/sync/spin_mutex.rs: the spin lock, and a value that is read and
-- written under it. Each locker is between two atomic operations of its call, or between the read
-- and the write of the value through its guard.
pub mod Exclusion
mod Tests
use xx_core.Base.{ℕ, zero, suc, Bool, true, false, List, [], ◌∷◌, ◌++◌, if◌then◌else◌}

-- The points of `try_lock`, `lock`, `lock_contended` and `try_spin_lock`, and of a guard: just made,
-- with the value that it has read and the change to make, and about to be dropped.
pub data Locker (A : Type 0) : Type 0 where
  outside failed : Locker A
  cas_try cas_lock cas_spin : Locker A
  spin : ℕ → Locker A
  holds : Locker A
  has_read : (A → A) → A → Locker A
  has_written : Locker A

pub record Shared (A : Type 0) : Type 0 where
  pub is_locked : Bool
  pub value : A

pub record System (A : Type 0) : Type 0 where
  pub shared : Shared A
  pub lockers : List (Locker A)
  pub changes : List (A → A)

abbrev pub spin_limit : ℕ
spin_limit = 97

module _ {A : Type 0} where
  -- `try_lock`: whether the lock was free, in which case it is taken.
  abbrev pub try_lock : Shared A → Bool × Shared A
  try_lock w = if Shared.is_locked w then (false, w) else (true, record w { is_locked = true })

  -- One operation; `change` is what the client does with the value. The changes made are returned.
  pub advance : (A → A) → Locker A → Shared A → Locker A × Shared A × List (A → A)
  advance change outside w = (outside, w, [])
  advance change failed w = (failed, w, [])
  advance change cas_try w = let (won, now) = try_lock w in (if won then holds else failed, now, [])
  advance change cas_lock w =
      let (won, now) = try_lock w in (if won then holds else spin spin_limit, now, [])
  advance change cas_spin w =
      let (won, now) = try_lock w in (if won then holds else spin spin_limit, now, [])
  advance change (spin zero) w = (spin spin_limit, w, [])
  advance change (spin (suc n)) w = (if Shared.is_locked w then spin n else cas_spin, w, [])
  advance change holds w = (has_read change (Shared.value w), w, [])
  advance change (has_read f v) w = (has_written, record w { value = f v }, f ∷ [])
  advance change has_written w = (outside, record w { is_locked = false }, [])

  pub data Step : System A → System A → Type 0 where
    goes :
        (change : A → A) (front back : List (Locker A)) (t : Locker A) (w : Shared A)
        (done : List (A → A))
        → Step
            (record { shared = w; lockers = front ++ (t ∷ back); changes = done })
            (record {
              shared = (advance change t w).1;
              lockers = front ++ ((advance change t w).0 ∷ back);
              changes = (advance change t w).2 ++ done;
            })
    calls :
        (front back : List (Locker A)) (w : Shared A) (done : List (A → A)) (waits : Bool)
        → Step
            (record { shared = w; lockers = front ++ (outside ∷ back); changes = done })
            (record {
              shared = w;
              lockers = front ++ ((if waits then cas_lock else cas_try) ∷ back);
              changes = done;
            })
    leaves :
        (front back : List (Locker A)) (w : Shared A) (done : List (A → A))
        → Step
            (record { shared = w; lockers = front ++ (failed ∷ back); changes = done })
            (record { shared = w; lockers = front ++ (outside ∷ back); changes = done })

  abbrev pub all_outside : ℕ → List (Locker A)
  all_outside zero = []
  all_outside (suc n) = outside ∷ all_outside n

  pub data Reachable (initial : A) : System A → Type 0 where
    created :
        (n : ℕ)
        → Reachable initial (record {
          shared = record { is_locked = false; value = initial };
          lockers = all_outside n;
          changes = [];
        })
    stepped : (s t : System A) → Reachable initial s → Step s t → Reachable initial t
