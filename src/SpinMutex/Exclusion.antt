-- ===== src/SpinMutex/Exclusion.antt =====
-- src/sync/spin_mutex.rs: at most one guard at a time, and no change of the value is lost.
use xx_core.Base.{
  ℕ, zero, suc, ◌+◌, ◌≤◌, ◌≡◌, ◌∙◌, sym, ap, refl, ◌⊎◌, inl, inr, Bool, true, false, List, [], ◌∷◌,
  ◌++◌, if◌then◌else◌, arith,
}
use mathlib.Core.Path.{subst}
use xx_core.SpinMutex.{
  Locker, outside, failed, cas_try, cas_lock, cas_spin, spin, holds, has_read, has_written, Shared,
  advance, System, Step, goes, calls, leaves, all_outside, Reachable, created, stepped,
}

abbrev pub one_if : Bool → ℕ
one_if b = if b then 1 else 0

one_if_le : (b : Bool) → one_if b ≤ 1
one_if_le true = omega arith
one_if_le false = omega arith

module _ {A : Type 0} where
  abbrev pub is_holder : Locker A → ℕ
  is_holder outside = 0
  is_holder failed = 0
  is_holder cas_try = 0
  is_holder cas_lock = 0
  is_holder cas_spin = 0
  is_holder (spin n) = 0
  is_holder holds = 1
  is_holder (has_read f v) = 1
  is_holder has_written = 1

  abbrev pub holders : List (Locker A) → ℕ
  holders [] = 0
  holders (t ∷ ts) = is_holder t + holders ts

  -- What a locker has read is what the value still is.
  abbrev pub IsFresh : A → Locker A → Type 0
  IsFresh v outside = Unit
  IsFresh v failed = Unit
  IsFresh v cas_try = Unit
  IsFresh v cas_lock = Unit
  IsFresh v cas_spin = Unit
  IsFresh v (spin n) = Unit
  IsFresh v holds = Unit
  IsFresh v (has_read f u) = u ≡ v
  IsFresh v has_written = Unit

  abbrev pub AllFresh : A → List (Locker A) → Type 0
  AllFresh v [] = Unit
  AllFresh v (t ∷ ts) = IsFresh v t × AllFresh v ts

  -- The changes, the last one first, applied to the value that was there at the start.
  abbrev pub replay : List (A → A) → A → A
  replay [] a = a
  replay (f ∷ fs) a = f (replay fs a)

  -- As many guards as the lock says, and the value is that of the changes in their order.
  abbrev pub Sound : A → System A → Type 0
  Sound initial s =
      (holders (System.lockers s) ≡ one_if (Shared.is_locked (System.shared s)))
      × (Shared.value (System.shared s) ≡ replay (System.changes s) initial)
      × AllFresh (Shared.value (System.shared s)) (System.lockers s)

  holders-append : (ts us : List (Locker A)) → holders (ts ++ us) ≡ holders ts + holders us
  holders-append [] us = omega arith
  holders-append (t ∷ ts) us = omega (arith, holders-append ts us)

  no_holder-IsFresh : (v : A) (t : Locker A) → is_holder t ≡ 0 → IsFresh v t
  no_holder-IsFresh v outside h = tt
  no_holder-IsFresh v failed h = tt
  no_holder-IsFresh v cas_try h = tt
  no_holder-IsFresh v cas_lock h = tt
  no_holder-IsFresh v cas_spin h = tt
  no_holder-IsFresh v (spin n) h = tt
  no_holder-IsFresh v holds h = tt
  no_holder-IsFresh v (has_read f u) h = absurd (omega arith)
  no_holder-IsFresh v has_written h = tt

  holders-AllFresh : (v : A) (ts : List (Locker A)) → holders ts ≡ 0 → AllFresh v ts
  holders-AllFresh v [] h = tt
  holders-AllFresh v (t ∷ ts) h =
      (no_holder-IsFresh v t (omega arith), holders-AllFresh v ts (omega arith))

  AllFresh-split :
      (v : A) (ts us : List (Locker A)) → AllFresh v (ts ++ us) → AllFresh v ts × AllFresh v us
  AllFresh-split v [] us a = (tt, a)
  AllFresh-split v (t ∷ ts) us (f, a) =
      let (front, back) = AllFresh-split v ts us a in ((f, front), back)

  AllFresh-append :
      (v : A) (ts us : List (Locker A)) → AllFresh v ts → AllFresh v us → AllFresh v (ts ++ us)
  AllFresh-append v [] us a b = b
  AllFresh-append v (t ∷ ts) us (f, a) b = (f, AllFresh-append v ts us a b)

  -- The lock changes as the guards do; a change is logged; and only a guard changes the value.
  advance_lem :
      (change : A → A) (t : Locker A) (l : Bool) (x initial : A) (done : List (A → A)) (others : ℕ)
      → is_holder t + others ≡ one_if l
      → x ≡ replay done initial
      → IsFresh x t
      → (is_holder (advance change t (record { is_locked = l; value = x })).0 + others
          ≡ one_if (Shared.is_locked (advance change t (record { is_locked = l; value = x })).1))
        × (Shared.value (advance change t (record { is_locked = l; value = x })).1
            ≡ replay ((advance change t (record { is_locked = l; value = x })).2 ++ done) initial)
        × IsFresh
            (Shared.value (advance change t (record { is_locked = l; value = x })).1)
            (advance change t (record { is_locked = l; value = x })).0
        × ((Shared.value (advance change t (record { is_locked = l; value = x })).1 ≡ x)
            ⊎ (others ≡ 0))
  unfolding advance
  advance_lem change outside l x initial done others h v f = (h, v, tt, inl refl)
  advance_lem change failed l x initial done others h v f = (h, v, tt, inl refl)
  advance_lem change cas_try true x initial done others h v f = (h, v, tt, inl refl)
  advance_lem change cas_try false x initial done others h v f = (omega arith, v, tt, inl refl)
  advance_lem change cas_lock true x initial done others h v f = (h, v, tt, inl refl)
  advance_lem change cas_lock false x initial done others h v f = (omega arith, v, tt, inl refl)
  advance_lem change cas_spin true x initial done others h v f = (h, v, tt, inl refl)
  advance_lem change cas_spin false x initial done others h v f = (omega arith, v, tt, inl refl)
  advance_lem change (spin zero) l x initial done others h v f = (h, v, tt, inl refl)
  advance_lem change (spin (suc n)) true x initial done others h v f = (h, v, tt, inl refl)
  advance_lem change (spin (suc n)) false x initial done others h v f = (h, v, tt, inl refl)
  advance_lem change holds l x initial done others h v f = (h, v, refl, inl refl)
  advance_lem change (has_read g u) true x initial done others h v f =
      (h, ap g (f ∙ v), tt, inr (omega arith))
  advance_lem change (has_read g u) false x initial done others h v f = absurd (omega arith)
  advance_lem change has_written true x initial done others h v f = (omega arith, v, tt, inl refl)
  advance_lem change has_written false x initial done others h v f = absurd (omega arith)

  holders_apart :
      (front back : List (Locker A)) (t : Locker A)
      → holders (front ++ (t ∷ back)) ≡ is_holder t + (holders front + holders back)
  holders_apart front back t = omega (arith, holders-append front (t ∷ back))

  -- The others have read what is still there: nothing was changed, or none of them has a guard.
  others-AllFresh :
      (front back : List (Locker A)) (u : Locker A) (x y : A)
      → AllFresh x front
      → AllFresh x back
      → IsFresh y u
      → (y ≡ x) ⊎ (holders front + holders back ≡ 0)
      → AllFresh y (front ++ (u ∷ back))
  others-AllFresh front back u x y a b f (inl q) =
      AllFresh-append y front (u ∷ back) (subst (λ z. AllFresh z front) (sym q) a)
        (f, subst (λ z. AllFresh z back) (sym q) b)
  others-AllFresh front back u x y a b f (inr none) =
      AllFresh-append y front (u ∷ back) (holders-AllFresh y front (omega arith))
        (f, holders-AllFresh y back (omega arith))

  -- A locker that is put in the place of another that has no guard and has read nothing.
  replaced-Sound :
      (initial : A) (front back : List (Locker A)) (t u : Locker A) (w : Shared A)
      (done : List (A → A))
      → is_holder t ≡ 0
      → is_holder u ≡ 0
      → Sound initial (record { shared = w; lockers = front ++ (t ∷ back); changes = done })
      → Sound initial (record { shared = w; lockers = front ++ (u ∷ back); changes = done })
  replaced-Sound initial front back t u w done h k (guards, v, fresh) =
      let (a, (f, b)) = AllFresh-split (Shared.value w) front (t ∷ back) fresh in
      (
        omega (arith, guards, holders_apart front back t, holders_apart front back u, h, k),
        v,
        AllFresh-append (Shared.value w) front (u ∷ back) a
            (no_holder-IsFresh (Shared.value w) u k, b),
      )

  Step-Sound : (initial : A) (s t : System A) → Step s t → Sound initial s → Sound initial t
  Step-Sound initial s t (goes change front back u w done) (guards, v, fresh) =
      let (a, (f, b)) = AllFresh-split (Shared.value w) front (u ∷ back) fresh in
      let (guards', v', f', same) =
        advance_lem change u (Shared.is_locked w) (Shared.value w) initial done
          (holders front + holders back) (omega (arith, guards, holders_apart front back u)) v f in
      (
        omega (arith, guards', holders_apart front back (advance change u w).0),
        v',
        others-AllFresh front back (advance change u w).0 (Shared.value w) _ a b f' same,
      )
  Step-Sound initial s t (calls front back w done true) g =
      replaced-Sound initial front back outside cas_lock w done refl refl g
  Step-Sound initial s t (calls front back w done false) g =
      replaced-Sound initial front back outside cas_try w done refl refl g
  Step-Sound initial s t (leaves front back w done) g =
      replaced-Sound initial front back failed outside w done refl refl g

  holders-all_outside : (v : A) (n : ℕ) → holders (all_outside {A = A} n) ≡ 0
  holders-all_outside v zero = refl
  holders-all_outside v (suc n) = omega (arith, holders-all_outside v n)

  Reachable-Sound : (initial : A) (s : System A) → Reachable initial s → Sound initial s
  Reachable-Sound initial s (created n) = (
    holders-all_outside initial n,
    refl,
    holders-AllFresh initial (all_outside n) (holders-all_outside initial n),
  )
  Reachable-Sound initial s (stepped t u r step) =
      Step-Sound initial t u step (Reachable-Sound initial t r)

  -- However any number of lockers of a spin mutex are interleaved, at most one guard exists, and one
  -- exists exactly when the lock is taken; and the value is what the changes made through the
  -- guards, one after another, make of the value at the start: none is lost.
  pub guarded_changes :
      (initial : A) (s : System A)
      → Reachable initial s
      → (holders (System.lockers s) ≡ one_if (Shared.is_locked (System.shared s)))
        × (holders (System.lockers s) ≤ 1)
        × (Shared.value (System.shared s) ≡ replay (System.changes s) initial)
  guarded_changes initial s r =
      let (guards, v, fresh) = Reachable-Sound initial s r in
      (guards, omega (arith, guards, one_if_le (Shared.is_locked (System.shared s))), v)
