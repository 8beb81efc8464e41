-- ===== src/Io/Scatter/Full.antt =====
-- src/async_std/io/read.rs: `read_fully_vectored` ends, fills all slices or fails, and where the
-- bytes are that it took from the stream.
use xx_core.Base.{
  ℕ, zero, suc, ◌+◌, ◌≤◌, ◌<◌, ◌≡◌, ◌∙◌, ap, refl, sym, ◌⊎◌, inl, inr, Bool, true, false, List, [],
  ◌∷◌, ◌++◌, append_assoc, ◌==◌, ltb, length, length_zero, length-append, length-drop, Bool-cases,
  arith,
}
use xx_core.Base.Outcome.{Outcome, ok, err, panic, out_of_fuel, is_interrupted, M, and_then}
use xx_core.Io.Contract.{Reads, IsReader, LastFails, EndsShort}
use xx_core.Io.Transfer.{short_io_error_unless_interrupt}
use xx_core.Io.Vectored.{concat, advance_slices, is_empty}
use xx_core.Io.Vectored.Advance.{Advances, advance_slices-Advances}
use xx_core.Io.Scatter.{
  with_rest, scattered, default_read_vectored, full_or_short, read_fully_vectored, read_vectored,
}

module _ {R : Type 0} (Valid : R → Type 0) (rest : R → List ℕ) (read : ℕ → M R (List ℕ))
    (contract : IsReader Valid rest read) where
  -- A read into slices moves bytes from the front of the stream, at most as many as they hold.
  abbrev Scatters : List (List ℕ) → List ℕ → Outcome (List ℕ) × R → Type 0
  Scatters bufs before (ok bs, r) =
      Valid r
      × (length bs ≤ length (concat bufs))
      × (before ≡ bs ++ rest r)
      × (bs ≡ [] → 0 < length (concat bufs) → before ≡ [])
  Scatters bufs before (err e, r) = Valid r × (before ≡ rest r) × LastFails Valid rest read e r
  Scatters bufs before (panic, r) = ⊥
  Scatters bufs before (out_of_fuel, r) = ⊥

  front-Scatters :
      (b : List ℕ) (bs : List (List ℕ)) (r : R)
      → Valid r
      → 0 < length b
      → (o : Outcome (List ℕ) × R) → read (length b) r ≡ o
      → Reads Valid rest (length b) (rest r) o
      → Scatters (b ∷ bs) (rest r) o
  front-Scatters b bs r w room (ok xs, s) p (v, fits, cut, at_end) =
      (v, omega (arith, length-append b (concat bs)), cut, λ e z. at_end e room)
  front-Scatters b bs r w room (err e, s) p (v, same) = (v, same, (length b, r, w, same, p))
  front-Scatters b bs r w room (panic, s) p x = absurd x
  front-Scatters b bs r w room (out_of_fuel, s) p x = absurd x

  skipped-Scatters :
      (bs : List (List ℕ)) (before : List ℕ) (o : Outcome (List ℕ) × R)
      → Scatters bs before o
      → Scatters ([] ∷ bs) before o
  skipped-Scatters bs before (ok xs, r) t = t
  skipped-Scatters bs before (err e, r) t = t
  skipped-Scatters bs before (panic, r) x = absurd x
  skipped-Scatters bs before (out_of_fuel, r) x = absurd x

  read_vectored-Scatters :
      (bufs : List (List ℕ)) (r : R) → Valid r → Scatters bufs (rest r) (read_vectored read bufs r)
  read_vectored-Scatters [] r v = (v, omega arith, refl, λ e z. absurd (omega arith))
  read_vectored-Scatters ([] ∷ bs) r v =
      skipped-Scatters bs (rest r) (read_vectored read bs r) (read_vectored-Scatters bs r v)
  read_vectored-Scatters ((x ∷ xs) ∷ bs) r v =
      front-Scatters (x ∷ xs) bs r v (omega arith) (read (length (x ∷ xs)) r) refl
        (contract (length (x ∷ xs)) r v)

  -- The bytes in the slices, and what is left of the stream behind them, are the stream as it was; the
  -- slices are full when the loop says so.
  abbrev Collects : List ℕ → ℕ → Outcome (ℕ × Bool) × (R × List ℕ) → Type 0
  Collects before size (ok (n, complete), (r, got)) =
      Valid r
      × (before ≡ got ++ rest r)
      × (n ≡ length got)
      × (n ≤ size)
      × (n < size → EndsShort Valid rest read r)
      × (complete ≡ true → n ≡ size)
  Collects before size (err e, (r, got)) =
      Valid r × (before ≡ got ++ rest r) × (length got ≤ size) × LastFails Valid rest read e r
  Collects before size (panic, s) = ⊥
  Collects before size (out_of_fuel, s) = ⊥

  none_left :
      (bufs : List (List ℕ)) (total size : ℕ)
      → total + length (concat bufs) ≡ size
      → is_empty bufs ≡ true
      → total ≡ size
  none_left [] total size e t = omega (arith, e)
  none_left (b ∷ bs) total size e t = absurd cc

  rest-Collects :
      (before : List ℕ) (size total n : ℕ) (bufs : List (List ℕ)) (s : R × List ℕ)
      (next : List (List ℕ) → M (R × List ℕ) (ℕ × Bool))
      → total + length (concat bufs) ≡ size
      → 0 < n
      → n ≤ length (concat bufs)
      → ((left : List (List ℕ))
          → total + n + length (concat left) ≡ size
          → length (concat left) < length (concat bufs)
          → Collects before size (next left s))
      → (o : Outcome (List (List ℕ))) → Advances bufs n o
      → Collects before size (with_rest (read_vectored read) next s o)
  rest-Collects before size total n bufs s next e z fits h (ok left) (_, cut) =
      let shorter = length-drop n (concat bufs) in
      h left (omega (arith, e, fits, ap length cut, shorter))
        (omega (arith, z, fits, ap length cut, shorter))
  rest-Collects before size total n bufs s next e z fits h (err x) a = absurd a
  rest-Collects before size total n bufs s next e z fits h panic m = absurd (omega arith)
  rest-Collects before size total n bufs s next e z fits h out_of_fuel a = absurd a

  scattered-Collects :
      (before : List ℕ) (size total : ℕ) (bufs : List (List ℕ)) (r : R) (got : List ℕ)
      (next : ℕ → List (List ℕ) → M (R × List ℕ) (ℕ × Bool))
      → total + length (concat bufs) ≡ size
      → total ≡ length got
      → before ≡ got ++ rest r
      → ((m : ℕ) (left : List (List ℕ)) (t : R) (more : List ℕ)
          → Valid t
          → m + length (concat left) ≡ size
          → m ≡ length more
          → before ≡ more ++ rest t
          → length (concat left) < length (concat bufs)
          → Collects before size (next m left (t, more)))
      → (o : Outcome (List ℕ) × R) → Scatters bufs (rest r) o
      → Collects before size (scattered (read_vectored read) bufs total got next o)
  scattered-Collects before size total bufs r got next e q b h (ok bs, t) (v, fits, cut, at_end) =
      elim (Bool-cases (length bs == 0)) [
        | inl z ↦
            let nothing : bs ≡ [] = length_zero bs (ground arith) in
            let same : rest r ≡ rest t = cut ∙ ap (λ l. l ++ rest t) nothing in
            rw (z) (
              v,
              b ∙ ap (◌++◌ got) same,
              q,
              omega (arith, e),
              λ few. inl (sym same ∙ at_end nothing (omega (arith, e))),
              none_left bufs total size e,
            )
        | inr z ↦ rw (z) (
            rest-Collects before size total (length bs) bufs (t, got ++ bs)
              (next (total + length bs)) e (ground arith) fits
              (λ left e' less.
                h (total + length bs) left t (got ++ bs) v e'
                  (omega (arith, q, length-append got bs))
                  (b ∙ (ap (◌++◌ got) cut ∙ sym (append_assoc got bs (rest t)))) less)
              (advance_slices bufs (length bs)) (advance_slices-Advances bufs (length bs)))
      ]
  scattered-Collects before size total bufs r got next e q b h (err x, t) (v, same, last) =
      elim (Bool-cases (is_interrupted x)) [
        | inl z ↦ rw (z) (
          v,
          b ∙ ap (◌++◌ got) same,
          q,
          omega (arith, e),
          λ few. inr (x, z, last),
          none_left bufs total size e,
        )
        | inr z ↦ rw (z) (v, b ∙ ap (◌++◌ got) same, omega (arith, e, q), last)
      ]
  scattered-Collects before size total bufs r got next e q b h (panic, t) x = absurd x
  scattered-Collects before size total bufs r got next e q b h (out_of_fuel, t) x = absurd x

  loop-Collects :
      (fuel : ℕ) (before : List ℕ) (size total : ℕ) (bufs : List (List ℕ)) (r : R) (got : List ℕ)
      → Valid r
      → total + length (concat bufs) ≡ size
      → total ≡ length got
      → before ≡ got ++ rest r
      → length (concat bufs) < fuel
      → Collects before size (default_read_vectored (read_vectored read) fuel total bufs (r, got))
  unfolding default_read_vectored
  loop-Collects zero before size total bufs r got v e q b f = absurd (omega arith)
  loop-Collects (suc fuel) before size total [] r got v e q b f =
      (v, b, q, omega (arith, e), λ few. absurd (omega (arith, e)), λ t. omega (arith, e))
  loop-Collects (suc fuel) before size total (c ∷ cs) r got v e q b f =
      scattered-Collects before size total (c ∷ cs) r got
        (default_read_vectored (read_vectored read) fuel) e q b
        (λ m left t more v' e' q' b' less.
          loop-Collects fuel before size m left t more v' e' q' b' (omega (arith, f, less)))
        (read_vectored read (c ∷ cs) r) (read_vectored-Scatters (c ∷ cs) r v)

  -- All slices are full, or an error says that they are not.
  abbrev pub FillsSlices : (R → Bool) → List ℕ → ℕ → Outcome ℕ × (R × List ℕ) → Type 0
  FillsSlices stops before size (ok n, (r, got)) =
      Valid r × (before ≡ got ++ rest r) × (n ≡ size) × (length got ≡ size)
  FillsSlices stops before size (err e, (r, got)) =
      Valid r
      × (before ≡ got ++ rest r)
      × (length got ≤ size)
      × (LastFails Valid rest read e r
          ⊎ ((e ≡ short_io_error_unless_interrupt (stops r))
              × (EndsShort Valid rest read r ⊎ (length got ≡ size))))
  FillsSlices stops before size (panic, s) = ⊥
  FillsSlices stops before size (out_of_fuel, s) = ⊥

  full-FillsSlices :
      (stops : R → Bool) (before : List ℕ) (size : ℕ) (o : Outcome (ℕ × Bool) × (R × List ℕ))
      → Collects before size o
      → FillsSlices stops before size (and_then o (full_or_short (read_vectored read) stops))
  full-FillsSlices stops before size (ok (n, true), s) (v, b, q, most, few, all) =
      let whole = all refl in (v, b, whole, sym q ∙ whole)
  full-FillsSlices stops before size (ok (n, false), (r, got)) (v, b, q, most, few, all) =
      let why : EndsShort Valid rest read r ⊎ (length got ≡ size) = elim (Bool-cases (ltb n size)) [
        | inl t ↦ inl (few (ground arith))
        | inr t ↦ let full : n ≡ size = ground arith in inr (sym q ∙ full)
      ] in
      (v, b, omega (arith, q, most), inr (refl, why))
  full-FillsSlices stops before size (err e, (r, got)) (v, b, most, last) = (v, b, most, inl last)
  full-FillsSlices stops before size (panic, s) x = absurd x
  full-FillsSlices stops before size (out_of_fuel, s) x = absurd x

  -- For a reader that keeps its contract and has no vectored read of its own, and fuel above the room in the
  -- slices, read_fully_vectored ends without a panic, and fills all slices in their order when it succeeds.
  -- When it fails, the bytes that have left the stream stand in front in the slices, at most as many as
  -- fit; their number is not returned. The error is that of the last read; or the stream is at its end, the
  -- last read was interrupted, or only empty slices are left, and the error is Interrupted if the task is
  -- interrupted then, and UnexpectedEof if not.
  pub read_fully_vectored-FillsSlices :
      (stops : R → Bool) (fuel : ℕ) (bufs : List (List ℕ)) (r : R)
      → Valid r
      → length (concat bufs) < fuel
      → FillsSlices stops
          (rest r)
          (length (concat bufs))
          (read_fully_vectored (read_vectored read) stops fuel bufs (r, []))
  unfolding read_fully_vectored
  read_fully_vectored-FillsSlices stops fuel bufs r v f =
      full-FillsSlices stops (rest r) (length (concat bufs))
        (default_read_vectored (read_vectored read) fuel 0 bufs (r, []))
        (loop-Collects fuel (rest r) (length (concat bufs)) 0 bufs r [] v (omega arith) refl refl f)
