-- ===== src/Io/Vectored/Loop.antt =====
-- src/async_std/io/write.rs: `default_write_vectored` ends, and sends a prefix of all slices.
use xx_core.Base.{
  ℕ, zero, suc, ◌+◌, ◌≤◌, ◌<◌, ◌≡◌, ◌∙◌, sym, ap, refl, inl, inr, Bool, true, List, [], ◌∷◌, ◌++◌,
  append_assoc, append-nil, ◌==◌, length, take, drop, length-drop, drop-drop, take-take-append-drop,
  Bool-cases, arith,
}
use xx_core.Base.Outcome.{Outcome, ok, err, panic, out_of_fuel, is_interrupted, M}
use xx_core.Io.Vectored.{
  concat, advance_slices, is_empty, after_advance, after_write, default_write_vectored,
}
use xx_core.Io.Vectored.Advance.{Advances, advance_slices-Advances}

module _ {W : Type 0} (Valid : W → Type 0) (sent : W → List ℕ) where
  -- A write sends a prefix of the slices down, as long as the count; one that fails sends nothing.
  abbrev pub WritesVectored : List (List ℕ) → List ℕ → Outcome ℕ × W → Type 0
  WritesVectored bufs before (ok n, w) =
      Valid w × (n ≤ length (concat bufs)) × (sent w ≡ before ++ take n (concat bufs))
  WritesVectored bufs before (err e, w) = Valid w × (sent w ≡ before)
  WritesVectored bufs before (panic, w) = ⊥
  WritesVectored bufs before (out_of_fuel, w) = ⊥

  abbrev pub IsVectoredWriter : (List (List ℕ) → M W ℕ) → Type 0
  IsVectoredWriter write_vectored =
      (bufs : List (List ℕ)) (w : W)
      → Valid w
      → WritesVectored bufs (sent w) (write_vectored bufs w)

  -- The bytes sent are a prefix of `all`, as long as the total, and all of it when none is left.
  abbrev pub SendsVectored : List ℕ → List ℕ → Outcome (ℕ × Bool) × W → Type 0
  SendsVectored before all (ok (n, complete), w) =
      Valid w
      × (n ≤ length all)
      × (sent w ≡ before ++ take n all)
      × (complete ≡ true → n ≡ length all)
  SendsVectored before all (err e, w) =
      Valid w × ((n : ℕ) × ((n ≤ length all) × (sent w ≡ before ++ take n all)))
  SendsVectored before all (panic, w) = ⊥
  SendsVectored before all (out_of_fuel, w) = ⊥

  -- Where the loop is: what is left in the slices, and what was sent.
  abbrev At : List ℕ → List ℕ → ℕ → List (List ℕ) → W → Type 0
  At before all total bufs w =
      Valid w
      × (total ≤ length all)
      × (concat bufs ≡ drop total all)
      × (sent w ≡ before ++ take total all)

  empty_left :
      (all : List ℕ) (total : ℕ) (bufs : List (List ℕ))
      → total ≤ length all
      → concat bufs ≡ drop total all
      → is_empty bufs ≡ true
      → total ≡ length all
  empty_left all total [] h q e = omega (arith, h, length-drop total all, ap length q)
  empty_left all total (b ∷ bs) h q e = absurd (cc e)

  module _ (write_vectored : List (List ℕ) → M W ℕ)
      (contract : IsVectoredWriter write_vectored) where
    advanced-SendsVectored :
        (before all : List ℕ) (total n : ℕ) (bufs : List (List ℕ)) (w v : W)
        (next : List (List ℕ) → M W (ℕ × Bool))
        → At before all total bufs w
        → Valid v
        → 0 < n
        → n ≤ length (concat bufs)
        → sent v ≡ sent w ++ take n (concat bufs)
        → ((rest : List (List ℕ))
            → At before all (total + n) rest v
            → length (concat rest) < length (concat bufs)
            → SendsVectored before all (next rest v))
        → (o : Outcome (List (List ℕ))) → Advances bufs n o
        → SendsVectored before all (after_advance write_vectored next v o)
    advanced-SendsVectored before all total n bufs w v next (ok_w, t, left, s) ok_v z fits grown h
          (ok rest) (_, cut) =
        h rest
          (
            ok_v,
            omega (arith, fits, ap length left, length-drop total all, t),
            cut ∙ ap (drop n) left ∙ drop-drop total (total + n) n all refl,
            grown
                ∙ ap (λ l. sent w ++ take n l) left
                ∙ ap (λ l. l ++ take n (drop total all)) s
                ∙ append_assoc before (take total all) (take n (drop total all))
                ∙ ap (◌++◌ before) (
                    ap (λ k. take total all ++ take k (drop total all)) (omega arith)
                    ∙ take-take-append-drop total (total + n) all (omega arith)),
          )
          (omega (arith, ap length cut, length-drop n (concat bufs), z, fits))
    advanced-SendsVectored before all total n bufs w v next at ok_v z fits grown h (err e) x =
        absurd x
    advanced-SendsVectored before all total n bufs w v next at ok_v z fits grown h panic m =
        absurd (omega arith)
    advanced-SendsVectored before all total n bufs w v next at ok_v z fits grown h out_of_fuel x =
        absurd x

    after_write-SendsVectored :
        (before all : List ℕ) (total : ℕ) (bufs : List (List ℕ)) (w : W)
        (next : ℕ → List (List ℕ) → M W (ℕ × Bool))
        → At before all total bufs w
        → ((m : ℕ) (rest : List (List ℕ)) (v : W)
            → At before all m rest v
            → length (concat rest) < length (concat bufs)
            → SendsVectored before all (next m rest v))
        → (o : Outcome ℕ × W) → WritesVectored bufs (sent w) o
        → SendsVectored before all (after_write write_vectored bufs total next o)
    after_write-SendsVectored before all total bufs w next (ok_w, t, left, s) h (ok n, v)
          (ok_v, fits, grown) =
        elim (Bool-cases (n == 0)) [
          | inl z ↦
              let nothing : n ≡ 0 = ground arith in
              rw (z) (
                ok_v,
                t,
                grown ∙ ap (λ k. sent w ++ take k (concat bufs)) nothing ∙ append-nil (sent w) ∙ s,
                empty_left all total bufs t left,
              )
          | inr z ↦ rw (z) (
              advanced-SendsVectored before all total n bufs w v (next (total + n))
                (ok_w, t, left, s) ok_v (ground arith) fits grown (λ rest. h (total + n) rest v)
                (advance_slices bufs n) (advance_slices-Advances bufs n))
        ]
    after_write-SendsVectored before all total bufs w next (ok_w, t, left, s) h (err e, v)
          (ok_v, same) =
        elim (Bool-cases (is_interrupted e)) [
          | inl z ↦ rw (z) (ok_v, t, same ∙ s, empty_left all total bufs t left)
          | inr z ↦ rw (z) (ok_v, (total, (t, same ∙ s)))
        ]
    after_write-SendsVectored before all total bufs w next at h (panic, v) x = absurd x
    after_write-SendsVectored before all total bufs w next at h (out_of_fuel, v) x = absurd x

    loop-SendsVectored :
        (fuel : ℕ) (before all : List ℕ) (total : ℕ) (bufs : List (List ℕ)) (w : W)
        → At before all total bufs w
        → length (concat bufs) < fuel
        → SendsVectored before all (default_write_vectored write_vectored fuel total bufs w)
    unfolding default_write_vectored
    loop-SendsVectored zero before all total bufs w at f = absurd (omega arith)
    loop-SendsVectored (suc fuel) before all total [] w (v, t, left, s) f =
        (v, t, s, λ e. empty_left all total [] t left refl)
    loop-SendsVectored (suc fuel) before all total (b ∷ bs) w at f =
        after_write-SendsVectored before all total (b ∷ bs) w
          (default_write_vectored write_vectored fuel) at
          (λ m rest v at' less. loop-SendsVectored fuel before all m rest v at' (omega arith))
          (write_vectored (b ∷ bs) w) (contract (b ∷ bs) w at.0)

    -- For a writer whose vectored write sends a prefix of the slices, and fuel above the bytes in
    -- them, default_write_vectored ends without a panic; it has sent a prefix of all slices, as long
    -- as the total it returns, all of them when it says so, and a prefix also when it fails.
    pub default_write_vectored-SendsVectored :
        (fuel : ℕ) (bufs : List (List ℕ)) (w : W)
        → Valid w
        → length (concat bufs) < fuel
        → SendsVectored (sent w) (concat bufs) (default_write_vectored write_vectored fuel 0 bufs w)
    default_write_vectored-SendsVectored fuel bufs w v f =
        loop-SendsVectored fuel (sent w) (concat bufs) 0 bufs w
          (v, omega arith, refl, sym (append-nil (sent w))) f
