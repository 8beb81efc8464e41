-- ===== src/Mutex/Wakeup.antt =====
-- src/async_std/sync/mutex.rs: no locker stays parked while the mutex is free, unless another is
-- on its way to wake it.
use xx_core.Base.{
  ℕ, zero, suc, ◌+◌, ◌≤◌, ◌<◌, ◌≡◌, ◌≢◌, ◌∙◌, ap, sym, ◌⊎◌, Bool, true, false, List, ◌∷◌, ◌++◌,
  ◌==◌, arith, refl, inl, inr,
}
use xx_core.Mutex.{
  Lock, unlocked, locked, contended, Locker, outside, failed, holds, cas_try, cas_lock, spin,
  swap_contended, interrupt_check, register, announces, entered, blocks, vacates, releases, parked,
  wake_check, wake_pop, Words, advance, is_parked, parked_in, Wakes, wakes_here, wakes_later,
  System, Step, goes, pops, pops_none, calls, leaves, all_outside, Reachable, created, stepped,
}
use xx_core.Mutex.Exclusion.{
  is_holder, is_entered, is_active, is_joining, is_blocking, blocking_le, counted, counted_apart,
  parked_apart, one_if, held, Sound, SoundWith, IsSystem,
}

abbrev words : Lock → Bool → Bool → Words
words x e l = record { state = x; empty = e; list_locked = l }

-- Whatever a locker does, what is sound stays so.
advance-SoundWith :
    (h d p a j b : ℕ) (i : Bool) (t : Locker) (x : Lock) (e l : Bool)
    → b ≤ j
    → j ≤ d
    → SoundWith t (words x e l) h d p a j b
    → SoundWith
        (advance (is_parked t + p == 0) i t (words x e l)).0
        (advance (is_parked t + p == 0) i t (words x e l)).1
        h
        d
        p
        a
        j
        b
unfolding advance
advance-SoundWith h d p a j b i outside x e l u v s = grind arith
advance-SoundWith h d p a j b i failed x e l u v s = grind arith
advance-SoundWith h d p a j b i holds unlocked e l u v s = grind arith
advance-SoundWith h d p a j b i holds locked e l u v s = grind arith
advance-SoundWith h d p a j b i holds contended e l u v s = grind arith
advance-SoundWith h d p a j b i cas_try unlocked e l u v s = grind arith
advance-SoundWith h d p a j b i cas_try locked e l u v s = grind arith
advance-SoundWith h d p a j b i cas_try contended e l u v s = grind arith
advance-SoundWith h d p a j b i cas_lock unlocked e l u v s = grind arith
advance-SoundWith h d p a j b i cas_lock locked e l u v s = grind arith
advance-SoundWith h d p a j b i cas_lock contended e l u v s = grind arith
advance-SoundWith h d p a j b i (spin zero) x e l u v s = grind arith
advance-SoundWith h d p a j b i (spin (suc n)) unlocked e l u v s = grind arith
advance-SoundWith h d p a j b i (spin (suc n)) locked e l u v s = grind arith
advance-SoundWith h d p a j b i (spin (suc n)) contended e l u v s = grind arith
advance-SoundWith h d p a j b i swap_contended unlocked e l u v s = grind arith
advance-SoundWith h d p a j b i swap_contended locked e l u v s = grind arith
advance-SoundWith h d p a j b i swap_contended contended e l u v s = grind arith
advance-SoundWith h d p a j b true interrupt_check x e l u v s = grind arith
advance-SoundWith h d p a j b false interrupt_check x e l u v s = grind arith
advance-SoundWith h d p a j b true register x e l u v s = grind arith
advance-SoundWith h d p a j b false register x e true u v s = grind arith
advance-SoundWith h d p a j b false register x e false u v s = grind arith
advance-SoundWith h d p a j b i announces x e l u v s = grind arith
advance-SoundWith h d p a j b i entered unlocked e l u v s = grind arith
advance-SoundWith h d p a j b i entered locked e l u v s = grind arith
advance-SoundWith h d p a j b i entered contended e l u v s = grind arith
advance-SoundWith h d p a j b i blocks x e l u v s = grind arith
advance-SoundWith h d p a j b i vacates x e l u v s = grind arith
advance-SoundWith h d p a j b i releases x e l u v s = grind arith
advance-SoundWith h d p a j b i parked x e true u v s = grind arith
advance-SoundWith h d p a j b true parked x e false u v s = grind arith
advance-SoundWith h d p a j b false parked x e false u v s = grind arith
advance-SoundWith h d p a j b i wake_check x true l u v s = grind arith
advance-SoundWith h d p a j b i wake_check x false l u v s = grind arith
advance-SoundWith h d p a j b i wake_pop x e l u v s = grind arith

-- The system with one locker apart from the others.
abbrev Apart : List Locker → List Locker → Locker → Words → Type 0
Apart front back t w =
    SoundWith t w (counted is_holder front + counted is_holder back)
      (counted is_entered front + counted is_entered back) (parked_in front + parked_in back)
      (counted is_active front + counted is_active back)
      (counted is_joining front + counted is_joining back)
      (counted is_blocking front + counted is_blocking back)

-- What is sound depends on the counts alone.
Sound-counts :
    (w : Words) (h h' e e' p p' a a' j j' b b' : ℕ)
    → h ≡ h'
    → e ≡ e'
    → p ≡ p'
    → a ≡ a'
    → j ≡ j'
    → b ≡ b'
    → Sound w h e p a j b
    → Sound w h' e' p' a' j' b'
Sound-counts w h h' e e' p p' a a' j j' b b' hq eq pq aq jq bq s =
    rw (← hq, ← eq, ← pq, ← aq, ← jq, ← bq) s

apart :
    (front back : List Locker) (t : Locker) (w : Words)
    → IsSystem (record { words = w; lockers = front ++ (t ∷ back) })
    → Apart front back t w
apart front back t w =
    Sound-counts w _ _ _ _ _ _ _ _ _ _ _ _ (counted_apart is_holder front back t)
      (counted_apart is_entered front back t) (parked_apart front back t)
      (counted_apart is_active front back t) (counted_apart is_joining front back t)
      (counted_apart is_blocking front back t)

together :
    (front back : List Locker) (t : Locker) (w : Words)
    → Apart front back t w
    → IsSystem (record { words = w; lockers = front ++ (t ∷ back) })
together front back t w =
    Sound-counts w _ _ _ _ _ _ _ _ _ _ _ _ (sym (counted_apart is_holder front back t))
      (sym (counted_apart is_entered front back t)) (sym (parked_apart front back t))
      (sym (counted_apart is_active front back t)) (sym (counted_apart is_joining front back t))
      (sym (counted_apart is_blocking front back t))

-- What is changed by taking a locker out of the list.
Wakes-counted :
    (ts us : List Locker)
    → Wakes ts us
    → (counted is_holder us ≡ counted is_holder ts)
      × ((counted is_entered us ≡ counted is_entered ts)
          × ((parked_in ts ≡ suc (parked_in us))
              × ((0 < counted is_active us) × (counted is_joining us ≡ counted is_joining ts))))
Wakes-counted ts us (wakes_here rest) = (refl, (refl, (omega arith, (omega arith, refl))))
Wakes-counted ts us (wakes_later t rest after w) =
    let (h, (e, c)) = Wakes-counted rest after w in
    (
      omega (arith, h),
      (omega (arith, e), (omega (arith, c.0), (omega (arith, c.1.0), omega (arith, c.1.1)))),
    )

Step-IsSystem : (s t : System) → Step s t → IsSystem s → IsSystem t
Step-IsSystem s t (goes i front back u w) g = together front back _ _ (
    rw (parked_apart front back u) (
      advance-SoundWith _ _ _ _ _ _ i u (Words.state w) (Words.empty w) (Words.list_locked w)
        (omega (arith, (blocking_le front).0, (blocking_le back).0))
        (omega (arith, (blocking_le front).1, (blocking_le back).1)) (apart front back u w g)))
Step-IsSystem s t (pops front back us w unheld wakes) g =
    let (holders, (list_lock, (words_empty, waits))) = apart front back wake_pop w g in
    let (same_holders, (same_entered, (fewer, (active, same_joining)))) =
      Wakes-counted _ us wakes in
    let still_empty : (Words.empty w ≡ false) ⊎ (parked_in us + counted is_joining us ≡ 0) =
      elim words_empty [
        | inl q ↦ inl q
        | inr z ↦ absurd (omega (arith, fewer, parked_apart front back outside, z))
      ] in
    (
      omega (arith, same_holders, holders, counted_apart is_holder front back outside),
      (
        omega (arith, same_entered, list_lock, counted_apart is_entered front back outside),
        (still_empty, inr (inr active)),
      ),
    )
Step-IsSystem s t (pops_none front back w unheld none) g =
    let (holders, (list_lock, (words_empty, waits))) = apart front back wake_pop w g in
    let nobody : counted is_entered front + counted is_entered back ≡ 0 =
      omega (arith, list_lock, ap one_if unheld) in
    together front back outside w (
      holders,
      (
        list_lock,
        (
          words_empty,
          inr (
              inl (
                omega (
                  arith,
                  none,
                  nobody,
                  parked_apart front back outside,
                  blocking_le front,
                  blocking_le back,
                ))),
        ),
      ),
    )
Step-IsSystem s t (calls front back w true) g =
    together front back cas_lock w (apart front back outside w g)
Step-IsSystem s t (calls front back w false) g =
    together front back cas_try w (apart front back outside w g)
Step-IsSystem s t (leaves front back w) g =
    together front back outside w (apart front back failed w g)

all_outside_sound :
    (n : ℕ)
    → (counted is_holder (all_outside n) ≡ 0)
      × ((counted is_entered (all_outside n) ≡ 0) × (parked_in (all_outside n) ≡ 0))
all_outside_sound zero = (refl, (refl, refl))
all_outside_sound (suc n) =
    let (a, (b, c)) = all_outside_sound n in (omega arith, (omega arith, omega arith))

held_le : (x : Lock) → held x ≤ 1
held_le unlocked = omega arith
held_le locked = omega arith
held_le contended = omega arith

unlocked_ne_contended : unlocked ≢ contended
unlocked_ne_contended q = cc q

pub Reachable-IsSystem : (s : System) → Reachable s → IsSystem s
Reachable-IsSystem s (created n) =
    let (h, (e, p)) = all_outside_sound n in
    (h, (e, (inl refl, inr (inl (omega (arith, p, e, blocking_le (all_outside n)))))))
Reachable-IsSystem s (stepped t u r step) = Step-IsSystem t u step (Reachable-IsSystem t r)

-- However the calls of any number of lockers are interleaved, interrupted and retried, the mutex is
-- held by as many lockers as its state says: by none when it is unlocked, and by one alone when it
-- is locked or contended.
pub mutual_exclusion :
    (s : System)
    → Reachable s
    → (counted is_holder (System.lockers s) ≡ held (Words.state (System.words s)))
      × (counted is_holder (System.lockers s) ≤ 1)
mutual_exclusion s r =
    let (holders, _) = Reachable-IsSystem s r in
    (holders, omega (arith, holders, held_le (Words.state (System.words s))))

-- However the calls are interleaved, when a locker is parked in the list while the mutex is
-- unlocked, some locker is on its way to swap the state or to wake a parked one: no wake-up is lost.
pub no_lost_wakeup :
    (s : System)
    → Reachable s
    → Words.state (System.words s) ≡ unlocked
    → 0 < parked_in (System.lockers s)
    → 0 < counted is_active (System.lockers s)
no_lost_wakeup s r free waiting =
    let (_, (_, (_, waits))) = Reachable-IsSystem s r in
    elim waits [
      | inl c ↦ absurd (unlocked_ne_contended (sym free ∙ c))
      | inr (inl z) ↦ absurd (omega arith)
      | inr (inr a) ↦ a
    ]
