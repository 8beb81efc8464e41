-- ===== src/Io/Vectored/All.antt =====
-- src/async_std/io/write.rs: `write_vectored` and `write_all_vectored` over any writer.
use xx_core.Base.{
  ℕ, zero, suc, append-nil, ◌≤◌, ◌<◌, ◌≡◌, ◌∙◌, ap, refl, sym, Bool, true, false, List, [], ◌∷◌,
  ◌++◌, length, take, take_all, length-append, arith,
}
use xx_core.Base.Outcome.{Outcome, ok, err, panic, out_of_fuel, M, and_then}
use xx_core.Io.Contract.{Writes, IsWriter}
use xx_core.Io.Vectored.{
  concat, default_write_vectored, all_or_short, write_all_vectored, write_vectored,
}
use xx_core.Io.Vectored.Loop.{
  WritesVectored, IsVectoredWriter, SendsVectored, default_write_vectored-SendsVectored,
}

take-append_front : (n : ℕ) (xs ys : List ℕ) → n ≤ length xs → take n (xs ++ ys) ≡ take n xs
take-append_front zero xs ys h = refl
take-append_front (suc n) [] ys h = absurd (omega arith)
take-append_front (suc n) (x ∷ xs) ys h = ap (◌∷◌ x) (take-append_front n xs ys (omega arith))

module _ {W : Type 0} (Valid : W → Type 0) (sent : W → List ℕ) where
  front-WritesVectored :
      (b : List ℕ) (bs : List (List ℕ)) (before : List ℕ) (o : Outcome ℕ × W)
      → Writes Valid sent b before o
      → WritesVectored Valid sent (b ∷ bs) before o
  front-WritesVectored b bs before (ok n, w) (v, fits, grown) = (
    v,
    omega (arith, length-append b (concat bs)),
    grown ∙ ap (◌++◌ before) (sym (take-append_front n b (concat bs) fits)),
  )
  front-WritesVectored b bs before (err e, w) t = t
  front-WritesVectored b bs before (panic, w) x = absurd x
  front-WritesVectored b bs before (out_of_fuel, w) x = absurd x

  skipped-WritesVectored :
      (bs : List (List ℕ)) (before : List ℕ) (o : Outcome ℕ × W)
      → WritesVectored Valid sent bs before o
      → WritesVectored Valid sent ([] ∷ bs) before o
  skipped-WritesVectored bs before (ok n, w) t = t
  skipped-WritesVectored bs before (err e, w) t = t
  skipped-WritesVectored bs before (panic, w) x = absurd x
  skipped-WritesVectored bs before (out_of_fuel, w) x = absurd x

  module _ (write : List ℕ → M W ℕ) (contract : IsWriter Valid sent write) where
    write_vectored-IsVectoredWriter : IsVectoredWriter Valid sent (write_vectored write)
    write_vectored-IsVectoredWriter [] w v = (v, omega arith, sym (append-nil (sent w)))
    write_vectored-IsVectoredWriter ([] ∷ bs) w v =
        skipped-WritesVectored bs (sent w) (write_vectored write bs w)
          (write_vectored-IsVectoredWriter bs w v)
    write_vectored-IsVectoredWriter ((x ∷ xs) ∷ bs) w v =
        front-WritesVectored (x ∷ xs) bs (sent w) (write (x ∷ xs) w) (contract (x ∷ xs) w v)

    -- All slices were sent, or an error says that only a prefix was.
    abbrev pub SendsSlices : List ℕ → List ℕ → Outcome ℕ × W → Type 0
    SendsSlices before all (ok n, w) = Valid w × (n ≡ length all) × (sent w ≡ before ++ all)
    SendsSlices before all (err e, w) =
        Valid w × ((n : ℕ) × ((n ≤ length all) × (sent w ≡ before ++ take n all)))
    SendsSlices before all (panic, w) = ⊥
    SendsSlices before all (out_of_fuel, w) = ⊥

    complete-SendsSlices :
        (stops : W → Bool) (before all : List ℕ) (o : Outcome (ℕ × Bool) × W)
        → SendsVectored Valid sent before all o
        → SendsSlices before all (and_then o (all_or_short (write_vectored write) stops))
    complete-SendsSlices stops before all (ok (n, true), w) (v, fits, b, done) =
        let whole = done refl in
        (v, whole, b ∙ ap (◌++◌ before) (take_all n all (omega (arith, whole))))
    complete-SendsSlices stops before all (ok (n, false), w) (v, fits, b, done) =
        (v, (n, (fits, b)))
    complete-SendsSlices stops before all (err e, w) t = t
    complete-SendsSlices stops before all (panic, w) x = absurd x
    complete-SendsSlices stops before all (out_of_fuel, w) x = absurd x

    -- For a writer that keeps its contract and has no vectored write of its own, and fuel above the
    -- bytes in the slices, write_all_vectored ends without a panic, has sent all slices in their order when it
    -- succeeds, and a prefix of them when it fails.
    pub write_all_vectored-SendsSlices :
        (stops : W → Bool) (fuel : ℕ) (bufs : List (List ℕ)) (w : W)
        → Valid w
        → length (concat bufs) < fuel
        → SendsSlices
            (sent w)
            (concat bufs)
            (write_all_vectored (write_vectored write) stops fuel bufs w)
    unfolding write_all_vectored
    write_all_vectored-SendsSlices stops fuel bufs w v f =
        complete-SendsSlices stops (sent w) (concat bufs)
          (default_write_vectored (write_vectored write) fuel 0 bufs w)
          (default_write_vectored-SendsVectored Valid sent (write_vectored write)
            write_vectored-IsVectoredWriter fuel bufs w v f)
