-- ===== src/Io/ToEnd/Holds.antt =====
-- src/async_std/io/read.rs: what the vector holds while `read_to_end` fills it and reads into it.
use xx_core.Base.{
  ℕ, ◌+◌, ◌-◌, ◌≤◌, ◌<◌, ◌≡◌, ◌≢◌, ◌∙◌, sym, ap, refl, inl, inr, Bool, false, List, [], ◌++◌, ltb,
  leb, ◌==◌, if◌then◌else◌, length, length-append, append_assoc, append-nil, length_zero,
  Bool-cases, arith,
}
use mathlib.Core.Path.{subst}
use xx_core.Base.Slices.{write_at, length-write_at}
use xx_core.Base.Outcome.{M}
use xx_core.Io.ToEnd.{Vec, reserve, extend_from_slice, fill_capacity, prepared}
use xx_core.Io.ToEnd.Zeros.{zeros, length-zeros, zeros-append, write_at-zeros}

-- What the standard library promises of the growth of a vector.
abbrev pub Grows : (ℕ → ℕ → ℕ) → Type 0
Grows grow = (len more : ℕ) → len + more ≤ grow len more

module _ {R : Type 0} (Valid : R → Type 0) (rest : R → List ℕ) where
  -- What the loop holds: the vector as it was, what was read, and zeros.
  abbrev pub Holds : List ℕ → List ℕ → ℕ → R → Vec → Type 0
  Holds vec before len r v =
      Valid r
      × ((got : List ℕ) × (pad : ℕ) × (Vec.bytes v ≡ (vec ++ got) ++ zeros pad)
          × (len ≡ length (vec ++ got))
          × (before ≡ got ++ rest r)
          × (length (Vec.bytes v) ≤ Vec.capacity v))

  module _ (vec before : List ℕ) where
    fill-Holds :
        (len : ℕ) (r : R) (v : Vec)
        → Holds vec before len r v
        → Holds vec before len r (fill_capacity v)
          × (length (Vec.bytes (fill_capacity v)) ≡ Vec.capacity (fill_capacity v))
          × (Vec.capacity (fill_capacity v) ≡ Vec.capacity v)
    fill-Holds len r v (valid, (got, pad, e, l, b, fit)) =
        elim (Bool-cases (ltb (length (Vec.bytes v)) (Vec.capacity v))) [
          | inl t ↦
              let more : ℕ = Vec.capacity v - length (Vec.bytes v) in
              let size : length (Vec.bytes v ++ zeros more) ≡ Vec.capacity v =
                omega (arith, length-append (Vec.bytes v) (zeros more), length-zeros more) in
              rw t (
                (
                  valid,
                  (
                    got,
                    pad + more,
                    ap (λ l. l ++ zeros more) e
                        ∙ (append_assoc (vec ++ got) (zeros pad) (zeros more)
                            ∙ ap (◌++◌ (vec ++ got)) (zeros-append pad more)),
                    l,
                    b,
                    omega (arith, size),
                  ),
                ),
                size,
                refl,
              )
          | inr t ↦
              let all : length (Vec.bytes v) ≡ Vec.capacity v = ground arith in
              rw t ((valid, (got, pad, e, l, b, fit)), all, refl)
        ]

    no_zeros :
        (v : Vec) (got : List ℕ) (pad len : ℕ)
        → Vec.bytes v ≡ (vec ++ got) ++ zeros pad
        → len ≡ length (vec ++ got)
        → length (Vec.bytes v) ≡ len
        → Vec.bytes v ≡ vec ++ got
    no_zeros v got pad len e l all =
        let none_left : zeros pad ≡ [] =
          length_zero (zeros pad)
            (omega (arith, ap length e, length-append (vec ++ got) (zeros pad))) in
        e ∙ (ap (◌++◌ (vec ++ got)) none_left ∙ append-nil (vec ++ got))

    -- What was read stands in the place of zeros.
    pub read-Holds :
        (len : ℕ) (r s : R) (v : Vec) (bs : List ℕ)
        → len + length bs ≤ length (Vec.bytes v)
        → Valid s
        → rest r ≡ bs ++ rest s
        → Holds vec before len r v
        → Holds vec before (len + length bs) s (record v { bytes = write_at (Vec.bytes v) len bs })
          × (length (write_at (Vec.bytes v) len bs) ≡ length (Vec.bytes v))
    read-Holds len r s v bs short v' cut (valid, (got, pad, e, l, b, fit)) =
        let size : length (write_at (Vec.bytes v) len bs) ≡ length (Vec.bytes v) =
          length-write_at (Vec.bytes v) len bs short in
        let whole : write_at (Vec.bytes v) len bs
            ≡ (vec ++ (got ++ bs)) ++ zeros (pad - length bs) =
          ap (λ l. write_at l len bs) e
          ∙ (write_at-zeros (vec ++ got) bs pad len l
              ∙ ap (λ l. l ++ zeros (pad - length bs)) (append_assoc vec got bs)) in
        (
          (
            v',
            (
              got ++ bs,
              pad - length bs,
              whole,
              omega (
                arith,
                length-append vec got,
                length-append got bs,
                length-append vec (got ++ bs),
              ),
              b ∙ (ap (◌++◌ got) cut ∙ sym (append_assoc got bs (rest s))),
              omega (arith, size),
            ),
          ),
          size,
        )

    module _ (grow : ℕ → ℕ → ℕ) (grows : Grows grow) where
      capacity-reserve :
          (more : ℕ) (v : Vec) → length (Vec.bytes v) + more ≤ Vec.capacity (reserve grow more v)
      capacity-reserve more v =
          elim (Bool-cases (leb (length (Vec.bytes v) + more) (Vec.capacity v))) [
            | inl t ↦ rw t (ground arith)
            | inr t ↦ rw t (grows (length (Vec.bytes v)) more)
          ]

      -- What the probe has read is appended.
      pub appended-Holds :
          (len : ℕ) (r s : R) (v : Vec) (bs : List ℕ)
          → length (Vec.bytes v) ≡ len
          → Valid s
          → rest r ≡ bs ++ rest s
          → Holds vec before len r v
          → Holds vec before (length (Vec.bytes v ++ bs)) s (extend_from_slice grow bs v)
      appended-Holds len r s v bs all v' cut (valid, (got, pad, e, l, b, fit)) =
          let whole : Vec.bytes v ++ bs ≡ vec ++ (got ++ bs) =
            ap (λ l. l ++ bs) (no_zeros v got pad len e l all) ∙ append_assoc vec got bs in
          (
            v',
            (
              got ++ bs,
              0,
              whole ∙ sym (append-nil (vec ++ (got ++ bs))),
              ap length whole,
              b ∙ (ap (◌++◌ got) cut ∙ sym (append_assoc got bs (rest s))),
              omega (arith, length-append (Vec.bytes v) bs, capacity-reserve (length bs) v),
            ),
          )

      module _ (read : ℕ → M R (List ℕ)) (stops : R → Bool) where
        -- A round reads into a vector that is filled up, and has room.
        pub prepared-Holds :
            (len : ℕ) (r : R) (v : Vec)
            → Holds vec before len r v
            → Holds vec before len r (prepared read grow stops len v)
              × (length (Vec.bytes (prepared read grow stops len v))
                  ≡ Vec.capacity (prepared read grow stops len v))
              × (len < Vec.capacity (prepared read grow stops len v))
        prepared-Holds len r v (valid, (got, pad, e, l, b, fit)) =
            let within : len ≤ length (Vec.bytes v) =
              omega (arith, ap length e, length-append (vec ++ got) (zeros pad)) in
            elim (Bool-cases (len == Vec.capacity v)) [
              | inl t ↦
                  let last : len ≡ Vec.capacity v = ground arith in
                  let tight : leb (length (Vec.bytes v) + 32) (Vec.capacity v) ≡ false =
                    ground arith in
                  let enough : length (Vec.bytes v) + 32 ≤ grow (length (Vec.bytes v)) 32 =
                    grows (length (Vec.bytes v)) 32 in
                  let v' : Vec = record v { capacity = grow (length (Vec.bytes v)) 32 } in
                  let (holds, full, same) =
                    fill-Holds len r v' (valid, (got, pad, e, l, b, omega arith)) in
                  let grown : reserve grow 32 v ≡ v' = rw tight refl in
                  subst
                    (λ u.
                      Holds vec before len r (fill_capacity u)
                      × (length (Vec.bytes (fill_capacity u)) ≡ Vec.capacity (fill_capacity u))
                      × (len < Vec.capacity (fill_capacity u)))
                    (sym (ap (λ c. if c then reserve grow 32 v else v) t ∙ grown))
                    (holds, full, omega (arith, same))
              | inr t ↦
                  let other : len ≢ Vec.capacity v = λ z. ground arith in
                  let (holds, full, same) = fill-Holds len r v (valid, (got, pad, e, l, b, fit)) in
                  subst
                    (λ u.
                      Holds vec before len r (fill_capacity u)
                      × (length (Vec.bytes (fill_capacity u)) ≡ Vec.capacity (fill_capacity u))
                      × (len < Vec.capacity (fill_capacity u)))
                    (sym (ap (λ c. if c then reserve grow 32 v else v) t))
                    (holds, full, omega (arith, same))
            ]
