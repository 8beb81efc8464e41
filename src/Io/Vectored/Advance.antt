-- ===== src/Io/Vectored/Advance.antt =====
-- src/async_std/io/mod.rs: `advance_slices` cuts the amount off the front.
use xx_core.Base.{
  ℕ, zero, suc, ◌-◌, ◌≤◌, ◌<◌, ◌≡◌, ◌∙◌, sym, ap, refl, inl, inr, false, List, [], ◌∷◌, ◌++◌, leb,
  ◌==◌, length, drop, length-append, Bool-cases, arith,
}
use xx_core.Base.Outcome.{Outcome, ok, err, panic, out_of_fuel}
use xx_core.Io.Vectored.{concat, advance_slices}

drop-append_inside : (n : ℕ) (xs ys : List ℕ) → n ≤ length xs → drop n (xs ++ ys) ≡ drop n xs ++ ys
drop-append_inside zero xs ys h = refl
drop-append_inside (suc n) [] ys h = absurd (omega arith)
drop-append_inside (suc n) (x ∷ xs) ys h = drop-append_inside n xs ys (omega arith)

drop-append_behind :
    (n : ℕ) (xs ys : List ℕ) → length xs ≤ n → drop n (xs ++ ys) ≡ drop (n - length xs) ys
drop-append_behind n [] ys h = ap (λ k. drop k ys) (omega arith)
drop-append_behind zero (x ∷ xs) ys h = absurd (omega arith)
drop-append_behind (suc n) (x ∷ xs) ys h =
    drop-append_behind n xs ys (omega arith) ∙ ap (λ k. drop k ys) (omega arith)

-- The bytes behind the amount are left, in their order; none are left over in front.
abbrev pub Advances : List (List ℕ) → ℕ → Outcome (List (List ℕ)) → Type 0
Advances bufs amount (ok rest) =
    (amount ≤ length (concat bufs)) × (concat rest ≡ drop amount (concat bufs))
Advances bufs amount (err e) = ⊥
Advances bufs amount panic = length (concat bufs) < amount
Advances bufs amount out_of_fuel = ⊥

advance-Advances :
    (b : List ℕ) (bs : List (List ℕ)) (amount : ℕ) (o : Outcome (List (List ℕ)))
    → length b ≤ amount
    → Advances bs (amount - length b) o
    → Advances (b ∷ bs) amount o
advance-Advances b bs amount (ok rest) h (fits, q) = (
  omega (arith, length-append b (concat bs)),
  q ∙ sym (drop-append_behind amount b (concat bs) h),
)
advance-Advances b bs amount (err e) h x = absurd x
advance-Advances b bs amount panic h m = omega (arith, length-append b (concat bs))
advance-Advances b bs amount out_of_fuel h x = absurd x

-- For any slices, of which some may be empty, advance_slices leaves exactly the bytes behind the
-- amount, in their order, and panics exactly when the amount is greater than all slices together.
pub advance_slices-Advances :
    (bufs : List (List ℕ)) (amount : ℕ) → Advances bufs amount (advance_slices bufs amount)
advance_slices-Advances [] zero = (omega arith, refl)
advance_slices-Advances [] (suc n) =
    let t : (suc n == 0) ≡ false = ground arith in rw (t) (omega arith)
advance_slices-Advances (b ∷ bs) amount = elim (Bool-cases (leb (length b) amount)) [
  | inl t ↦ rw (t) (
      advance-Advances b bs amount (advance_slices bs (amount - length b)) (ground arith)
        (advance_slices-Advances bs (amount - length b)))
  | inr t ↦
      let inside : amount < length b = ground arith in
      rw (t) (
        omega (arith, length-append b (concat bs)),
        sym (drop-append_inside amount b (concat bs) (omega arith)),
      )
]
