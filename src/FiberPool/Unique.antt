-- ===== src/FiberPool/Unique.antt =====
-- src/fiber/pool.rs: no stack is given to two fibers, and the pool stays small.
use xx_core.Base.{
  ℕ, zero, suc, ◌+◌, ◌*◌, ◌/◌, ◌%◌, ◌≤◌, ◌<◌, ◌≡◌, ◌≢◌, ◌∙◌, sym, ap, refl, ◌⊎◌, inl, inr, Bool,
  true, false, ◌&&◌, Option, none, some, List, [], ◌∷◌, ◌++◌, ltb, ◌==◌, if◌then◌else◌, length,
  length-append, Bool-cases, arith,
}
use Prim.Native.Nat.{max}
use native.Mathlib.Nat.{mod-le}
use mathlib.Core.Option.{some-injective, none-ne-some}
use mathlib.Core.Path.{subst}
use xx_core.FiberPool.{
  Fiber, Data, added, subtracted, pop_last, reused, on_active, new_fiber, calculate_ideal,
  preserved, exit_fiber, System, max, Step, starts, exits, Reachable, created, stepped,
}

-- How many of the fibers have the stack.
abbrev pub uses : ℕ → List Fiber → ℕ
uses n [] = 0
uses n (f ∷ fs) = (if Fiber.stack f == n then 1 else 0) + uses n fs

uses-append : (n : ℕ) (fs gs : List Fiber) → uses n (fs ++ gs) ≡ uses n fs + uses n gs
uses-append n [] gs = omega arith
uses-append n (f ∷ fs) gs = omega (arith, uses-append n fs gs)

-- No stack is used twice; no stack is used that was not made; the count is that of the fibers that
-- run, and the pool is at most as large as is ideal for the most that ran at once.
pub record IsPool (s : System) : Type 0 where
  pub once : (n : ℕ) → uses n (Data.pool (System.data_of s)) + uses n (System.running s) ≤ 1
  pub was_made :
      (n : ℕ)
      → System.made s ≤ n
      → uses n (Data.pool (System.data_of s)) + uses n (System.running s) ≡ 0
  pub counted : Data.active (System.data_of s) ≡ length (System.running s)
  pub below_peak : Data.active (System.data_of s) ≤ System.peak s
  pub small : length (Data.pool (System.data_of s)) ≤ System.peak s * 20 / 100 + 16

uses-pop_last :
    (n : ℕ) (f : Fiber) (fs : List Fiber)
    → uses n (f ∷ fs) ≡ uses n ((pop_last f fs).0 ∷ []) + uses n (pop_last f fs).1
uses-pop_last n f [] = omega arith
uses-pop_last n f (g ∷ fs) = omega (arith, uses-pop_last n g fs)

length-pop_last : (f : Fiber) (fs : List Fiber) → length (f ∷ fs) ≡ length ((pop_last f fs).1) + 1
length-pop_last f [] = omega arith
length-pop_last f (g ∷ fs) = omega (arith, length-pop_last g fs)

ideal-le : (half a b : ℕ) → a ≤ b → calculate_ideal half a ≤ b * 20 / 100 + 16
ideal-le half a b h =
    let wraps : a * 20 % (half + half) ≤ a * 20 = mod-le (a * 20) (half + half) in omega arith

reused-IsPool :
    (s : System) (start active : ℕ) (pool : List Fiber)
    → IsPool s
    → pool ≡ Data.pool (System.data_of s)
    → active ≡ Data.active (System.data_of s) + 1
    → IsPool (record {
      data_of = (reused start (System.made s) active pool).1;
      running = (reused start (System.made s) active pool).0 ∷ System.running s;
      made = System.made s + 1;
      peak = max (System.peak s) active;
    })
reused-IsPool s start active [] g e a = record {
  once = λ n. first n (IsPool.once g n) (IsPool.was_made g n) (Bool-cases (System.made s == n));
  was_made = λ n h.
      let before = IsPool.was_made g n (omega arith) in
      let other : (System.made s == n) ≡ false = ground arith in rw (other) (omega (arith, before));
  counted = omega (arith, a, IsPool.counted g);
  below_peak = omega arith;
  small = omega arith;
}
  where
    first :
        (n : ℕ)
        → uses n (Data.pool (System.data_of s)) + uses n (System.running s) ≤ 1
        → (System.made s ≤ n
            → uses n (Data.pool (System.data_of s)) + uses n (System.running s) ≡ 0)
        → ((System.made s == n) ≡ true) ⊎ ((System.made s == n) ≡ false)
        → 0 + ((if System.made s == n then 1 else 0) + uses n (System.running s)) ≤ 1
    first n few none_yet (inl t) =
        let before = none_yet (ground arith) in rw (t) (omega (arith, before))
    first n few none_yet (inr t) = rw (t) (omega (arith, few))
reused-IsPool s start active (f ∷ fs) g e a =
    let count : (n : ℕ) → uses n (f ∷ fs) ≡ uses n (Data.pool (System.data_of s)) =
      λ n. ap (uses n) e in
    record {
      once = λ n. omega (arith, IsPool.once g n, count n, uses-pop_last n f fs);
      was_made = λ n h.
          let before = IsPool.was_made g n (omega arith) in
          omega (arith, before, count n, uses-pop_last n f fs);
      counted = omega (arith, a, IsPool.counted g);
      below_peak = omega arith;
      small =
          let grown : System.peak s * 20 / 100 ≤ max (System.peak s) active * 20 / 100 =
            omega arith in
          omega (arith, grown, IsPool.small g, ap length e, length-pop_last f fs);
    }

-- A fiber among those that run.
uses-middle :
    (n : ℕ) (before after : List Fiber) (f : Fiber)
    → uses n (before ++ f ∷ after) ≡ uses n (f ∷ []) + uses n (before ++ after)
uses-middle n before after f =
    omega (arith, uses-append n before (f ∷ after), uses-append n before after)

length-middle :
    (before after : List Fiber) (f : Fiber)
    → length (before ++ f ∷ after) ≡ length (before ++ after) + 1
length-middle before after f =
    omega (arith, length-append before (f ∷ after), length-append before after)

preserved-IsPool :
    (half : ℕ) (reserves : Bool) (s : System) (before after : List Fiber) (f : Fiber) (active : ℕ)
    → IsPool s
    → System.running s ≡ before ++ f ∷ after
    → Data.active (System.data_of s) ≡ active + 1
    → IsPool (record s {
      data_of = preserved half reserves f (Data.pool (System.data_of s)) active;
      running = before ++ after;
    })
preserved-IsPool half reserves s before after f active g e a =
    let pool = Data.pool (System.data_of s) in
    let split : (n : ℕ) → uses n (System.running s) ≡ uses n (f ∷ []) + uses n (before ++ after) =
      λ n. ap (uses n) e ∙ uses-middle n before after f in
    let fewer : length (System.running s) ≡ length (before ++ after) + 1 =
      ap length e ∙ length-middle before after f in
    elim (Bool-cases (ltb (length pool) (calculate_ideal half active) && reserves)) [
      | inl t ↦
          let room : length pool < calculate_ideal half active = ground arith in
          rw (t) (record {
            once = λ n. omega (arith, IsPool.once g n, split n, uses-append n pool (f ∷ []));
            was_made = λ n h.
                let none_used = IsPool.was_made g n h in
                omega (arith, none_used, split n, uses-append n pool (f ∷ []));
            counted = omega (arith, a, fewer, IsPool.counted g);
            below_peak = omega (arith, a, IsPool.below_peak g);
            small =
                let bound =
                  ideal-le half active (System.peak s) (omega (arith, a, IsPool.below_peak g)) in
                omega (arith, room, bound, length-append pool (f ∷ []));
          })
      | inr t ↦ rw (t) (record {
        once = λ n. omega (arith, IsPool.once g n, split n);
        was_made =
            λ n h. let none_used = IsPool.was_made g n h in omega (arith, none_used, split n);
        counted = omega (arith, a, fewer, IsPool.counted g);
        below_peak = omega (arith, a, IsPool.below_peak g);
        small = IsPool.small g;
      })
    ]

-- The number that was counted is the one before, with one more or less.
subtracted_lem : (n k : ℕ) → some k ≡ subtracted n → n ≡ k + 1
subtracted_lem zero k e = absurd cc
subtracted_lem (suc n) k e = let same : k ≡ n = some-injective _ _ e in omega arith

added_lem : (half n k : ℕ) → some k ≡ added half n → k ≡ n + 1
added_lem half n k e = elim (Bool-cases (ltb (n + 1) (half + half))) [
  | inl t ↦ some-injective _ _ (e ∙ ap (λ c. if c then some (n + 1) else none) t)
  | inr t ↦ absurd (none-ne-some k (sym (e ∙ ap (λ c. if c then some (n + 1) else none) t)))
]

active-reused :
    (start new_stack active : ℕ) (pool : List Fiber)
    → Data.active (reused start new_stack active pool).1 ≡ active
active-reused start new_stack active [] = refl
active-reused start new_stack active (f ∷ fs) = refl

exited-IsPool :
    (half : ℕ) (reserves : Bool) (s : System) (before after : List Fiber) (f : Fiber) (d : Data)
    → (o : Option ℕ) → o ≡ subtracted (Data.active (System.data_of s))
    → IsPool s
    → System.running s ≡ before ++ f ∷ after
    → on_active o (preserved half reserves f (Data.pool (System.data_of s))) ≡ some d
    → IsPool (record s { data_of = d; running = before ++ after })
exited-IsPool half reserves s before after f d none q g e h = absurd cc
exited-IsPool half reserves s before after f d (some active) q g e h =
    subst (λ c. IsPool (record s { data_of = c; running = before ++ after })) (some-injective _ _ h)
      (preserved-IsPool half reserves s before after f active g e
        (subtracted_lem (Data.active (System.data_of s)) active q))

started-IsPool :
    (half : ℕ) (s : System) (start : ℕ) (fiber : Fiber) (d : Data)
    → (o : Option ℕ) → o ≡ added half (Data.active (System.data_of s))
    → IsPool s
    → on_active o (λ active. reused start (System.made s) active (Data.pool (System.data_of s)))
      ≡ some (fiber, d)
    → IsPool (record {
      data_of = d;
      running = fiber ∷ System.running s;
      made = System.made s + 1;
      peak = max (System.peak s) (Data.active d);
    })
started-IsPool half s start fiber d none q g h = absurd cc
started-IsPool half s start fiber d (some active) q g h =
    let pool = Data.pool (System.data_of s) in
    let result = reused start (System.made s) active pool in
    subst
      (λ p. IsPool (record {
        data_of = p.1;
        running = p.0 ∷ System.running s;
        made = System.made s + 1;
        peak = max (System.peak s) (Data.active p.1);
      }))
      (some-injective _ _ h)
      (subst
        (λ n. IsPool (record {
          data_of = result.1;
          running = result.0 ∷ System.running s;
          made = System.made s + 1;
          peak = max (System.peak s) n;
        }))
        (sym (active-reused start (System.made s) active pool))
        (reused-IsPool s start active pool g refl
          (added_lem half (Data.active (System.data_of s)) active q)))

Step-IsPool : (half : ℕ) (s t : System) → Step half s t → IsPool s → IsPool t
unfolding new_fiber exit_fiber
Step-IsPool half s t (starts _ start fiber d e) g =
    started-IsPool half s start fiber d (added half (Data.active (System.data_of s))) refl g e
Step-IsPool half s t (exits _ before after fiber reserves d e h) g =
    exited-IsPool half reserves s before after fiber d (subtracted (Data.active (System.data_of s)))
      refl g e h

-- Whatever fibers start and exit, in any order: no stack is that of two fibers, be they in the pool or
-- running; no stack is used that was not made; the pool counts the fibers that run; and it has at
-- most a fifth of the most fibers that ran at once, and 16.
pub Reachable-IsPool : (half : ℕ) (s : System) → Reachable half s → IsPool s
Reachable-IsPool half s created = record {
  once = λ n. omega arith;
  was_made = λ n h. refl;
  counted = refl;
  below_peak = omega arith;
  small = omega arith;
}
Reachable-IsPool half t (stepped s _ r step) = Step-IsPool half s t step (Reachable-IsPool half s r)

defined :
    (half : ℕ) (reserves : Bool) (f : Fiber) (pool : List Fiber) (n : ℕ)
    → 0 < n
    → on_active (subtracted n) (preserved half reserves f pool) ≢ none
defined half reserves f pool zero h e = absurd (omega arith)
defined half reserves f pool (suc n) h e = absurd cc

-- The exit of a fiber that runs never ends the process by an overflow of the count.
pub exit_fiber-defined :
    (half : ℕ) (reserves : Bool) (s : System) (before after : List Fiber) (f : Fiber)
    → Reachable half s
    → System.running s ≡ before ++ f ∷ after
    → exit_fiber half reserves f (System.data_of s) ≢ none
unfolding exit_fiber
exit_fiber-defined half reserves s before after f r e =
    let g = Reachable-IsPool half s r in
    defined half reserves f (Data.pool (System.data_of s)) (Data.active (System.data_of s))
      (omega (arith, IsPool.counted g, ap length e, length-middle before after f))
