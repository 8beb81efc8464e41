-- ===== src/Io/ToEnd/Zeros.antt =====
-- src/async_std/io/read.rs: the zeros with which `read_to_end` fills the vector up to its capacity.
use xx_core.Base.{
  ℕ, zero, suc, ◌+◌, ◌-◌, ◌≡◌, ◌∙◌, sym, ap, List, [], ◌∷◌, ◌++◌, length, take, drop, replicate,
  length-replicate, append_assoc, take-append, arith,
}
use xx_core.Base.Slices.{write_at}

abbrev pub zeros : ℕ → List ℕ
zeros n = replicate n 0

pub length-zeros : (n : ℕ) → length (zeros n) ≡ n
length-zeros n = length-replicate n 0

pub zeros-append : (a b : ℕ) → zeros a ++ zeros b ≡ zeros (a + b)
zeros-append zero b = let e : b ≡ 0 + b = omega arith in ap zeros e
zeros-append (suc a) b =
    ap (◌∷◌ 0) (zeros-append a b) ∙ (let e : suc (a + b) ≡ suc a + b = omega arith in ap zeros e)

drop-zeros : (k pad : ℕ) → drop k (zeros pad) ≡ zeros (pad - k)
drop-zeros zero pad = ap zeros (omega arith)
drop-zeros (suc k) zero = let e : 0 ≡ 0 - suc k = omega arith in ap zeros e
drop-zeros (suc k) (suc pad) = drop-zeros k pad ∙ ap zeros (omega arith)

drop_behind : (k : ℕ) (xs ys : List ℕ) → drop (length xs + k) (xs ++ ys) ≡ drop k ys
drop_behind k [] ys = let e : 0 + k ≡ k = omega arith in ap (λ n. drop n ys) e
drop_behind k (x ∷ xs) ys =
    let e : suc (length xs) + k ≡ suc (length xs + k) = omega arith in
    ap (λ n. drop n (x ∷ (xs ++ ys))) e ∙ drop_behind k xs ys

-- A write behind what is held goes over the zeros.
pub write_at-zeros :
    (xs bs : List ℕ) (pad len : ℕ)
    → len ≡ length xs
    → write_at (xs ++ zeros pad) len bs ≡ (xs ++ bs) ++ zeros (pad - length bs)
unfolding write_at
write_at-zeros xs bs pad len e =
    let front : take len (xs ++ zeros pad) ≡ xs = take-append len xs (zeros pad) e in
    let at : len + length bs ≡ length xs + length bs = omega arith in
    let behind : drop (len + length bs) (xs ++ zeros pad) ≡ zeros (pad - length bs) =
      ap (λ n. drop n (xs ++ zeros pad)) at
      ∙ (drop_behind (length bs) xs (zeros pad) ∙ drop-zeros (length bs) pad) in
    rw (front, behind) (sym (append_assoc xs bs (zeros (pad - length bs))))
