-- ===== src/Broadcast/Indices.antt =====
-- Positions that share a slot: which numbers have the same remainder.
use xx_core.Base.{
  ℕ, zero, suc, ◌+◌, ◌/◌, ◌%◌, ◌≤◌, ◌<◌, ◌≡◌, ◌∙◌, refl, inl, inr, leb, Bool-cases, arith,
}
use native.Mathlib.Nat.{div-add-mod, add-mod_right, mul-le-mul_left, mul-suc}

-- Of two different positions less than a ring apart, none shares the other's slot.
pub mod_injective : (a b c : ℕ) → a < b → b < a + c → a % c ≡ b % c → ⊥
mod_injective a b c h k q = elim (Bool-cases (leb (b / c) (a / c))) [
  | inl t ↦
      let quotients : b / c ≤ a / c = ground arith in
      absurd (omega (arith, div-add-mod a c, div-add-mod b c, mul-le-mul_left c quotients, q))
  | inr t ↦
      let quotients : suc (a / c) ≤ b / c = ground arith in
      absurd (
        omega (
          arith,
          div-add-mod a c,
          div-add-mod b c,
          mul-le-mul_left c quotients,
          mul-suc c (a / c),
          q,
        ))
]

-- Each position behind n shares its slot with one of the c positions before n.
pub mod_window :
    (d p n c : ℕ)
    → n ≤ p + d
    → p < n
    → 0 < c
    → (k : ℕ) × ((p ≤ k) × ((k < n) × ((n ≤ k + c) × (k % c ≡ p % c))))
mod_window zero p n c h k z = absurd (omega arith)
mod_window (suc d) p n c h k z = elim (Bool-cases (leb n (p + c))) [
  | inl t ↦ (p, (omega arith, (k, (ground arith, refl))))
  | inr t ↦
      let (j, (a, (b, (e, f)))) = mod_window d (p + c) n c (ground arith) (ground arith) z in
      (j, (omega arith, (b, (e, f ∙ add-mod_right p c))))
]
