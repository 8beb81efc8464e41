-- ===== src/Io/Typed/Numbers.antt =====
-- src/async_std/io/typed.rs: the arithmetic of the byte orders.
use xx_core.Base.{
  ℕ, zero, suc, ◌+◌, ◌-◌, ◌*◌, ◌/◌, ◌%◌, ◌^◌, ◌≤◌, ◌<◌, ◌≡◌, ◌∙◌, sym, ap, refl, Bool, true, false,
  List, [], ◌∷◌, ◌++◌, length, replicate, length-append, take, drop, take-append, drop-append,
  arith,
}
use mathlib.Core.Path.{subst}
use mathlib.Core.List.{reverse, reverse-cons}
use native.Mathlib.Nat.{
  pow-suc, mul_assoc, mul_comm, add-mul-mod_self_left, mod-eq_of_lt, div-add-mod, mod-lt, one-mul,
  add-mul, mul-le-mul_right, div-eq_of_lt-le, div-lt_iff_lt-mul,
}
use xx_core.Io.Typed.{to_le_bytes, from_le_bytes, be_value, into_bytes, from_bytes, vint_from_bytes}

-- The elements are bytes.
abbrev pub AllBytes : List ℕ → Type 0
AllBytes [] = Unit
AllBytes (b ∷ bs) = (b < 256) × AllBytes bs

pow256 : (n : ℕ) → 256 ^ suc n ≡ 256 * 256 ^ n
pow256 n = simp (pow-suc, mul_comm)

from_le_bytes-lt : (bs : List ℕ) → AllBytes bs → from_le_bytes bs < 256 ^ length bs
from_le_bytes-lt [] h = omega arith
from_le_bytes-lt (b ∷ bs) (lt, h) = omega (arith, pow256 (length bs), from_le_bytes-lt bs h)

from_le_bytes-append :
    (bs cs : List ℕ)
    → from_le_bytes (bs ++ cs) ≡ from_le_bytes bs + 256 ^ length bs * from_le_bytes cs
from_le_bytes-append [] cs = omega arith
from_le_bytes-append (b ∷ bs) cs =
    let step : 256 ^ suc (length bs) * from_le_bytes cs
        ≡ 256 * (256 ^ length bs * from_le_bytes cs) =
      ap (λ m. m * from_le_bytes cs) (pow256 (length bs))
      ∙ mul_assoc 256 (256 ^ length bs) (from_le_bytes cs) in
    omega (arith, step, from_le_bytes-append bs cs)

be_value-append : (x : ℕ) (bs cs : List ℕ) → be_value x (bs ++ cs) ≡ be_value (be_value x bs) cs
be_value-append x [] cs = refl
be_value-append x (b ∷ bs) cs = be_value-append (x * 256 + b) bs cs

-- More digits scale the number.
be_value-scale :
    (x : ℕ) (b : ℕ) (bs : List ℕ)
    → (x * 256 + b) * 256 ^ length bs ≡ x * 256 ^ suc (length bs) + b * 256 ^ length bs
be_value-scale x b bs =
    let p = 256 ^ length bs in
    let inner : x * 256 * p ≡ x * 256 ^ suc (length bs) =
      mul_assoc x 256 p ∙ ap (λ m. x * m) (sym (pow256 (length bs))) in
    add-mul (x * 256) b p ∙ ap (λ m. m + b * p) inner

be_value-ge : (x : ℕ) (bs : List ℕ) → x * 256 ^ length bs ≤ be_value x bs
be_value-ge x [] = omega arith
be_value-ge x (b ∷ bs) = omega (arith, be_value-scale x b bs, be_value-ge (x * 256 + b) bs)

be_value-lt :
    (x : ℕ) (bs : List ℕ) → AllBytes bs → be_value x bs < x * 256 ^ length bs + 256 ^ length bs
be_value-lt x [] h = omega arith
be_value-lt x (b ∷ bs) (lt, h) =
    let p = 256 ^ length bs in
    let top : suc b * p ≤ 256 * p = mul-le-mul_right p lt in
    let next : suc b ≡ b + 1 = omega arith in
    let split : suc b * p ≡ b * p + 1 * p = ap (λ k. k * p) next ∙ add-mul b 1 p in
    omega
      (arith, pow256 (length bs), top, split, be_value-scale x b bs, be_value-lt (x * 256 + b) bs h)

-- The digits behind are divided away.
be_value-div : (x : ℕ) (bs : List ℕ) → AllBytes bs → be_value x bs / 256 ^ length bs ≡ x
be_value-div x bs h =
    let p = 256 ^ length bs in
    let next : (x + 1) * p ≡ x * p + 1 * p = add-mul x 1 p in
    div-eq_of_lt-le p (be_value-ge x bs) (omega (arith, next, be_value-lt x bs h))

pow256-pos : (n : ℕ) → 0 < 256 ^ n
pow256-pos zero = omega arith
pow256-pos (suc n) = omega (arith, pow256 n, pow256-pos n)

pow256-add : (m n : ℕ) → 256 ^ (m + n) ≡ 256 ^ m * 256 ^ n
pow256-add zero n =
    let same : 0 + n ≡ n = omega arith in
    let one_power : 256 ^ 0 ≡ 1 = omega arith in
    ap (λ k. 256 ^ k) same ∙ (sym (one-mul (256 ^ n)) ∙ ap (λ k. k * 256 ^ n) (sym one_power))
pow256-add (suc m) n =
    let next : suc m + n ≡ suc (m + n) = omega arith in
    ap (λ k. 256 ^ k) next
    ∙ (pow256 (m + n)
        ∙ (ap (λ k. 256 * k) (pow256-add m n)
            ∙ (sym (mul_assoc 256 (256 ^ m) (256 ^ n)) ∙ ap (λ k. k * 256 ^ n) (sym (pow256 m)))))

-- `!0 >> shift` has exactly the low bits.
mask-pow : (size more : ℕ) → (256 ^ (size + more) - 1) / 256 ^ more + 1 ≡ 256 ^ size
mask-pow size more =
    let low = 256 ^ size in
    let shift = 256 ^ more in
    let product : 256 ^ (size + more) ≡ low * shift = pow256-add size more in
    let top : (low - 1) + 1 ≡ low = omega (arith, pow256-pos size) in
    let all : (low - 1 + 1) * shift ≡ (low - 1) * shift + 1 * shift = add-mul (low - 1) 1 shift in
    let same : (low - 1 + 1) * shift ≡ low * shift = ap (λ m. m * shift) top in
    let div : (256 ^ (size + more) - 1) / shift ≡ low - 1 =
      div-eq_of_lt-le shift (omega (arith, product, all, same, pow256-pos more))
        (omega (arith, product, all, same, pow256-pos more)) in
    omega (arith, div, top)

-- A number of `size` bytes at the front of an array of `n` bytes.
pub vint_from_bytes-append :
    (le : Bool) (n size : ℕ) (bs cs : List ℕ)
    → length bs ≡ size
    → length cs ≡ n - size
    → size ≤ n
    → AllBytes bs
    → AllBytes cs
    → vint_from_bytes n (bs ++ cs) size le ≡ from_bytes le bs
unfolding vint_from_bytes from_bytes
vint_from_bytes-append true n size bs cs e f bound all others =
    let low = 256 ^ size in
    let mask : (256 ^ n - 1) / 256 ^ (n - size) + 1 ≡ low =
      ap (λ k. (256 ^ k - 1) / 256 ^ (n - size) + 1) (omega arith) ∙ mask-pow size (n - size) in
    let number : from_le_bytes (bs ++ cs) ≡ from_le_bytes bs + low * from_le_bytes cs =
      from_le_bytes-append bs cs ∙ ap (λ k. from_le_bytes bs + 256 ^ k * from_le_bytes cs) e in
    let lt : from_le_bytes bs < low =
      subst (λ k. from_le_bytes bs < 256 ^ k) e (from_le_bytes-lt bs all) in
    ap (λ k. from_le_bytes (bs ++ cs) % k) mask
    ∙ (ap (λ k. k % low) number
        ∙ (add-mul-mod_self_left (from_le_bytes bs) low (from_le_bytes cs) ∙ mod-eq_of_lt lt))
vint_from_bytes-append false n size bs cs e f bound all others =
    ap (λ k. be_value 0 (bs ++ cs) / 256 ^ k) (sym f)
    ∙ (ap (λ k. k / 256 ^ length cs) (be_value-append 0 bs cs)
        ∙ be_value-div (be_value 0 bs) cs others)

pub AllBytes-append : (bs cs : List ℕ) → AllBytes (bs ++ cs) → AllBytes bs × AllBytes cs
AllBytes-append [] cs h = (tt, h)
AllBytes-append (b ∷ bs) cs (lt, h) =
    let (all, others) = AllBytes-append bs cs h in ((lt, all), others)

pub AllBytes-zeros : (n : ℕ) → AllBytes (replicate n 0)
AllBytes-zeros zero = tt
AllBytes-zeros (suc n) = (omega arith, AllBytes-zeros n)

to_le_bytes-AllBytes : (n x : ℕ) → AllBytes (to_le_bytes n x)
to_le_bytes-AllBytes zero x = tt
to_le_bytes-AllBytes (suc n) x = (mod-lt x (omega arith), to_le_bytes-AllBytes n (x / 256))

pub length-to_le_bytes : (n x : ℕ) → length (to_le_bytes n x) ≡ n
length-to_le_bytes zero x = refl
length-to_le_bytes (suc n) x = ap suc (length-to_le_bytes n (x / 256))

from_le_bytes-to_le_bytes : (n x : ℕ) → x < 256 ^ n → from_le_bytes (to_le_bytes n x) ≡ x
from_le_bytes-to_le_bytes zero x lt = omega (arith, lt)
from_le_bytes-to_le_bytes (suc n) x lt =
    let less : x / 256 < 256 ^ n =
      (div-lt_iff_lt-mul {k = 256} {x = x} {y = 256 ^ n} (omega arith)).1
        (omega (arith, lt, pow256 n)) in
    omega (arith, from_le_bytes-to_le_bytes n (x / 256) less, div-add-mod x 256)

be_value-reverse : (bs : List ℕ) → be_value 0 (reverse bs) ≡ from_le_bytes bs
be_value-reverse [] = refl
be_value-reverse (b ∷ bs) =
    ap (be_value 0) (reverse-cons b bs)
    ∙ (be_value-append 0 (reverse bs) (b ∷ []) ∙ omega (arith, be_value-reverse bs))

length-reverse : (bs : List ℕ) → length (reverse bs) ≡ length bs
length-reverse [] = refl
length-reverse (b ∷ bs) =
    ap length (reverse-cons b bs)
    ∙ (length-append (reverse bs) (b ∷ []) ∙ omega (arith, length-reverse bs))

-- A number below 256 ^ n comes back from its bytes.
pub from_bytes-into_bytes :
    (le : Bool) (n x : ℕ) → x < 256 ^ n → from_bytes le (into_bytes le n x) ≡ x
unfolding from_bytes into_bytes
from_bytes-into_bytes true n x lt = from_le_bytes-to_le_bytes n x lt
from_bytes-into_bytes false n x lt =
    be_value-reverse (to_le_bytes n x) ∙ from_le_bytes-to_le_bytes n x lt

pub length-into_bytes : (le : Bool) (n x : ℕ) → length (into_bytes le n x) ≡ n
unfolding into_bytes
length-into_bytes true n x = length-to_le_bytes n x
length-into_bytes false n x = length-reverse (to_le_bytes n x) ∙ length-to_le_bytes n x

-- Fronts of the same length are the same.
pub append_cancel :
    (xs ys ts us : List ℕ) → xs ++ ts ≡ ys ++ us → length xs ≡ length ys → (xs ≡ ys) × (ts ≡ us)
append_cancel xs ys ts us e h = (
  sym (take-append (length xs) xs ts refl)
      ∙ (ap (take (length xs)) e ∙ take-append (length xs) ys us h),
  sym (drop-append (length xs) xs ts refl)
      ∙ (ap (drop (length xs)) e ∙ drop-append (length xs) ys us h),
)
