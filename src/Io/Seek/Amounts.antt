-- ===== src/Io/Seek/Amounts.antt =====
-- src/async_std/io/seek.rs: where `rewind_amount` and `skip_amount` lead.
use xx_core.Base.{
  ℕ, ◌+◌, ◌-◌, ◌≤◌, ◌<◌, ◌≡◌, refl, inl, inr, true, false, ltb, leb, ◌==◌, max, if◌then◌else◌,
  Bool-cases, arith,
}
use mathlib.Core.Path.{subst}
use xx_core.Base.Int.{ℤ, pos, negsuc, IsMoved, from_pattern, minus}
use xx_core.Base.Outcome.{Outcome, ok, err, panic, out_of_fuel, and_then}
use xx_core.Io.Seek.{current, Seeker, Sought, IsSeeker, rewind_amount, skip_loop, skip_amount}

module _ {R : Type 0} (half : ℕ) (position_of length_of : R → ℕ) (k : Seeker R)
    (is : IsSeeker half position_of length_of k) where
  -- The stream went back by the amount; a failure may have left it on the way.
  abbrev pub Rewinds : R → ℕ → Outcome ℕ × R → Type 0
  Rewinds r amount (ok q, s) = (q + amount ≡ position_of r) × (position_of s ≡ q)
  Rewinds r amount (err e, s) = position_of s ≤ position_of r
  Rewinds r amount (panic, s) = ⊥
  Rewinds r amount (out_of_fuel, s) = ⊥

  back : (a l q : ℕ) → IsMoved a (minus l) q → q + l ≡ a
  back a l q t = elim (Bool-cases (leb 1 l)) [ inl u ↦ grind arith | inr u ↦ grind arith ]

  one-Rewinds :
      (r : R) (amount : ℕ) (o : Outcome ℕ × R)
      → Sought half position_of length_of r (current (minus amount)) o
      → Rewinds r amount o
  one-Rewinds r amount (ok q, s) (t, at, len) = (back (position_of r) amount q t, at)
  one-Rewinds r amount (err e, s) (at, len) = omega (arith, at)
  one-Rewinds r amount (panic, s) x = absurd x
  one-Rewinds r amount (out_of_fuel, s) x = absurd x

  further-Rewinds :
      (r s : R) (first rest : ℕ)
      → position_of s + first ≡ position_of r
      → (o : Outcome ℕ × R) → Rewinds s rest o
      → Rewinds r (first + rest) o
  further-Rewinds r s first rest h (ok q, t) (m, at) = (omega (arith, m, h), at)
  further-Rewinds r s first rest h (err e, t) m = omega (arith, m, h)
  further-Rewinds r s first rest h (panic, t) x = absurd x
  further-Rewinds r s first rest h (out_of_fuel, t) x = absurd x

  two-Rewinds :
      (r : R) (first rest : ℕ) (o : Outcome ℕ × R)
      → Sought half position_of length_of r (current (minus first)) o
      → Rewinds r (first + rest) (and_then o (λ _ s. Seeker.seek k (current (minus rest)) s))
  two-Rewinds r first rest (ok q, s) (t, at, len) =
      further-Rewinds r s first rest (omega (arith, at, back (position_of r) first q t))
        (Seeker.seek k (current (minus rest)) s)
        (one-Rewinds s rest (Seeker.seek k (current (minus rest)) s)
          (IsSeeker.seeks is (current (minus rest)) s))
  two-Rewinds r first rest (err e, s) (at, len) = omega (arith, at)
  two-Rewinds r first rest (panic, s) x = absurd x
  two-Rewinds r first rest (out_of_fuel, s) x = absurd x

  -- For a stream that seeks where it is asked, rewind_amount goes back by exactly the amount, also
  -- when that does not fit the signed offset of one seek and takes two; and when it fails, the
  -- stream stands where it stood or further back.
  pub rewind_amount-Rewinds :
      (r : R) (amount : ℕ) → Rewinds r amount (rewind_amount half k amount r)
  unfolding rewind_amount
  rewind_amount-Rewinds r amount = elim (Bool-cases (ltb amount half)) [
    | inl t ↦
        rw (t, rewind_amount)
          (one-Rewinds r amount (Seeker.seek k (current (minus amount)) r)
            (IsSeeker.seeks is (current (minus amount)) r))
    | inr t ↦
        let parts : half + (amount - half) ≡ amount = ground arith in
        rw (t, rewind_amount)
          (subst
            (λ a. Rewinds r a (
              and_then (Seeker.seek k (current (minus half)) r)
                (λ _ s. Seeker.seek k (current (minus (amount - half))) s)))
            parts
            (two-Rewinds r half (amount - half) (Seeker.seek k (current (minus half)) r)
              (IsSeeker.seeks is (current (minus half)) r)))
  ]

  -- What skip_amount does: an amount below `half` is skipped, and for a greater one the stream goes
  -- back, by what the amount lacks to the modulus.
  abbrev pub Skips : R → ℕ → Outcome ℕ × R → Type 0
  Skips r amount (ok q, s) =
      (if ltb amount half
        then q ≡ position_of r + amount
        else q + (half + half - amount) ≡ position_of r)
      × (position_of s ≡ q)
  Skips r amount (err e, s) = position_of s ≡ position_of r
  Skips r amount (panic, s) = ⊥
  Skips r amount (out_of_fuel, s) = ⊥

  short-Skips :
      (r : R) (amount : ℕ) (o : Outcome ℕ × R)
      → ltb amount half ≡ true
      → Sought half position_of length_of r (current (pos amount)) o
      → Skips r amount o
  short-Skips r amount (ok q, s) h (t, at, len) = (rw (h) t, at)
  short-Skips r amount (err e, s) h (at, len) = at
  short-Skips r amount (panic, s) h x = absurd x
  short-Skips r amount (out_of_fuel, s) h x = absurd x

  long-Skips :
      (r : R) (amount : ℕ) (z : ℤ) (o : Outcome ℕ × R) (next : ℕ → R → Outcome ℕ × R)
      → ltb amount half ≡ false
      → amount < half + half
      → z ≡ negsuc (half + half - amount - 1)
      → ((q : ℕ) (s : R) → next q s ≡ (ok q, s))
      → Sought half position_of length_of r (current z) o
      → Skips r amount (and_then o next)
  long-Skips r amount z (ok q, s) next h b e n (t, at, len) =
      let m : IsMoved (position_of r) (negsuc (half + half - amount - 1)) q =
        subst (λ y. IsMoved (position_of r) y q) e t in
      rw (n q s, h) (omega (arith, m, b), at)
  long-Skips r amount z (err e', s) next h b e n (at, len) = at
  long-Skips r amount z (panic, s) next h b e n x = absurd x
  long-Skips r amount z (out_of_fuel, s) next h b e n x = absurd x

  -- For a stream that seeks where it is asked, skip_amount ends after one seek. Below 2 ^ 63 it
  -- skips the amount; from there on it goes back by 2 ^ 64 less the amount.
  pub skip_amount-Skips :
      (r : R) (amount : ℕ) → amount < half + half → Skips r amount (skip_amount half k amount r)
  unfolding skip_amount skip_loop
  skip_amount-Skips r amount h = elim (Bool-cases (ltb amount half)) [
    | inl t ↦
        rw (t, skip_amount)
          (short-Skips r amount (Seeker.seek k (current (pos amount)) r) t
            (IsSeeker.seeks is (current (pos amount)) r))
    | inr t ↦
        let all : max amount (half - 1) ≡ amount =
          (let c : half ≤ amount = ground arith in omega arith) in
        let none_left : (amount - amount == 0) ≡ true = ground arith in
        rw (t, skip_amount)
          (long-Skips r amount (from_pattern half (max amount (half - 1)))
            (Seeker.seek k (current (from_pattern half (max amount (half - 1)))) r) _ t h
            (rw (all, t) refl) (λ q s. rw (all, none_left) refl)
            (IsSeeker.seeks is (current (from_pattern half (max amount (half - 1)))) r))
  ]
