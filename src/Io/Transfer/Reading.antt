-- ===== src/Io/Transfer/Reading.antt =====
-- src/async_std/io/read.rs: `try_read_fully` and `read_fully` end, and where the bytes
-- are that they took from the stream.
use xx_core.Base.{
  ℕ, zero, suc, ◌+◌, ◌-◌, ◌≤◌, ◌<◌, ◌≡◌, ◌∙◌, sym, ap, refl, ◌⊎◌, inl, inr, Bool, true, ◌&&◌, not,
  List, [], ◌++◌, append_assoc, ltb, leb, ◌==◌, if◌then◌else◌, length, length-append, length_zero,
  Bool-cases, arith,
}
use xx_core.Base.Outcome.{
  Outcome, IoError, ok, err, panic, out_of_fuel, is_interrupted, M, and_then, pure, throw,
}
use xx_core.Io.Contract.{Reads, IsReader, LastFails, EndsShort}
use xx_core.Io.Slices.{length_check}
use xx_core.Io.Transfer.{
  check_interrupt_if_zero, short_io_error_unless_interrupt, after_read, read_loop, try_read_fully,
  read_fully,
}

module _ {R : Type 0} (Valid : R → Type 0) (rest : R → List ℕ) (read : ℕ → M R (List ℕ))
    (stops : R → Bool) (contract : IsReader Valid rest read) where
  -- An error is that of the last read, or says that there were too few bytes, or that the task is
  -- interrupted.
  abbrev pub Fails : IoError → R → Type 0
  Fails e r =
      LastFails Valid rest read e r
      ⊎ ((e ≡ short_io_error_unless_interrupt (stops r)) × EndsShort Valid rest read r)

  -- The buffer, and what is left of the stream behind it, are the stream as it was; the count is
  -- that of the buffer's bytes, and at most its size.
  abbrev pub Transfers : List ℕ → ℕ → Outcome ℕ × (R × List ℕ) → Type 0
  Transfers before size (ok n, (r, got)) =
      Valid r
      × (before ≡ got ++ rest r)
      × (n ≡ length got)
      × (n ≤ size)
      × (n < size → EndsShort Valid rest read r)
  Transfers before size (err e, (r, got)) =
      Valid r × (before ≡ got ++ rest r) × (length got < size) × Fails e r
  Transfers before size (panic, (r, got)) = ⊥
  Transfers before size (out_of_fuel, (r, got)) = ⊥

  after_read-Transfers :
      (before : List ℕ) (size : ℕ) (r : R) (got : List ℕ) (next : M (R × List ℕ) ℕ)
      → Valid r
      → before ≡ got ++ rest r
      → length got < size
      → ((s : R) (more : List ℕ)
          → Valid s
          → before ≡ more ++ rest s
          → length more ≤ size
          → length got < length more
          → Transfers before size (next (s, more)))
      → (o : Outcome (List ℕ) × R) → read (size - length got) r ≡ o
      → Reads Valid rest (size - length got) (rest r) o
      → Transfers before size (after_read read stops size got next o)
  after_read-Transfers before size r got next w b room h (ok bs, s) p (v, fits, cut, stuck) =
      elim (Bool-cases (length bs == 0)) [
        | inl t ↦
            let nothing : bs ≡ [] = length_zero bs (ground arith) in
            let same : rest r ≡ rest s = cut ∙ ap (λ l. l ++ rest s) nothing in
            let done : rest s ≡ [] = sym same ∙ stuck nothing (omega arith) in
            rw (t) (v, (b ∙ ap (◌++◌ got) same), refl, omega arith, λ few. inl done)
        | inr t ↦
            let fits_in : leb (length bs) (size - length got) ≡ true = ground arith in
            rw (t, fits_in)
              (h s (got ++ bs) v (b ∙ ap (◌++◌ got) cut ∙ sym (append_assoc got bs (rest s)))
                (omega (arith, length-append got bs))
                (let c : 0 < length bs = ground arith in omega (arith, length-append got bs)))
      ]
  after_read-Transfers before size r got next w b room h (err e, s) p (v, same) =
      elim (Bool-cases (is_interrupted e)) [
        | inl t ↦
            let last : LastFails Valid rest read e s = (size - length got, r, w, same, p) in
            rw (t) (v, (b ∙ ap (◌++◌ got) same), refl, omega arith, λ few. inr (e, t, last))
        | inr t ↦ rw (t) (v, (b ∙ ap (◌++◌ got) same), room, inl (size - length got, r, w, same, p))
      ]
  after_read-Transfers before size r got next w b room h (panic, s) p x = absurd x
  after_read-Transfers before size r got next w b room h (out_of_fuel, s) p x = absurd x

  read_loop-Transfers :
      (fuel size : ℕ) (r : R) (got : List ℕ) (before : List ℕ)
      → Valid r
      → before ≡ got ++ rest r
      → length got ≤ size
      → size < length got + fuel
      → Transfers before size (read_loop read stops fuel size (r, got))
  unfolding read_loop
  read_loop-Transfers zero size r got before v b h f = absurd (omega arith)
  read_loop-Transfers (suc fuel) size r got before v b h f =
      elim (Bool-cases (ltb (length got) size)) [
        | inl t ↦ rw (t) (
            after_read-Transfers before size r got (read_loop read stops fuel size) v b
              (ground arith)
              (λ s more v' b' h' g.
                read_loop-Transfers fuel size s more before v' b' h' (omega arith))
              (read (size - length got) r) refl (contract (size - length got) r v))
        | inr t ↦ rw (t) (v, b, refl, h, λ few. absurd (ground arith))
      ]

  checked-Transfers :
      (before : List ℕ) (size : ℕ) (o : Outcome ℕ × (R × List ℕ))
      → 0 < size
      → Transfers before size o
      → Transfers before size (and_then o (λ n. λ t. check_interrupt_if_zero (stops (t.0)) n t))
  checked-Transfers before size (ok n, s) room (v, b, q, h, short) =
      elim (Bool-cases ((n == 0) && stops (s.0))) [
        | inl t ↦
            let nothing : n ≡ 0 = ground arith in
            let asked : stops (s.0) ≡ true = ground arith in
            rw (t) (v, b, omega (arith, q), inr (rw asked refl, short (omega arith)))
        | inr t ↦ rw (t) (v, b, q, h, short)
      ]
  checked-Transfers before size (err e, s) room t = t
  checked-Transfers before size (panic, s) room x = absurd x
  checked-Transfers before size (out_of_fuel, s) room x = absurd x

  -- For a reader that keeps its contract and fuel above the size of the buffer, try_read_fully ends
  -- without a panic. The bytes that have left the stream stand in front in the buffer: when it
  -- succeeds it returns their count, and they fill the buffer, unless the stream is at its end or the
  -- last read was interrupted; when it fails they do not fill the buffer.
  pub try_read_fully-Transfers :
      (fuel size : ℕ) (r : R)
      → Valid r
      → size < fuel
      → Transfers (rest r) size (try_read_fully read stops fuel size (r, []))
  unfolding try_read_fully
  try_read_fully-Transfers fuel size r v f = elim (Bool-cases (size == 0)) [
    | inl t ↦ rw (t) (v, refl, refl, omega arith, λ few. absurd (ground arith))
    | inr t ↦ rw (t) (
        checked-Transfers (rest r) size (read_loop read stops fuel size (r, [])) (ground arith)
          (read_loop-Transfers fuel size r [] (rest r) v refl (omega arith) (omega arith)))
  ]

  -- The buffer is full, or an error says that it is not.
  abbrev pub Completes : List ℕ → ℕ → Outcome ℕ × (R × List ℕ) → Type 0
  Completes before size (ok n, (r, got)) =
      Valid r × (before ≡ got ++ rest r) × (n ≡ size) × (length got ≡ size)
  Completes before size (err e, (r, got)) =
      Valid r × (before ≡ got ++ rest r) × (length got < size) × Fails e r
  Completes before size (panic, (r, got)) = ⊥
  Completes before size (out_of_fuel, (r, got)) = ⊥

  full-Completes :
      (before : List ℕ) (size : ℕ) (o : Outcome ℕ × (R × List ℕ))
      → Transfers before size o
      → Completes before size (
          and_then o (λ n. λ t. and_then (length_check size n t) (λ _.
            if not (n == size)
            then throw (short_io_error_unless_interrupt (stops (t.0)))
            else pure n)))
  full-Completes before size (ok n, (r, got)) (v, b, q, h, few) =
      let fits : leb n size ≡ true = ground arith in
      elim (Bool-cases (n == size)) [
        | inl t ↦ rw (fits, t) (v, b, ground arith, ground arith)
        | inr t ↦
            let short : length got < size = ground arith in
            rw (fits, t) (v, b, short, inr (refl, few (omega (arith, q))))
      ]
  full-Completes before size (err e, s) t = t
  full-Completes before size (panic, s) x = absurd x
  full-Completes before size (out_of_fuel, s) x = absurd x

  -- For a reader that keeps its contract and fuel above the size of the buffer, read_fully ends
  -- without a panic, and fills the whole buffer when it succeeds. When it fails, the bytes that have
  -- left the stream stand in front in the buffer and do not fill it; their number is not returned. The
  -- error is that of the last read; or the stream is at its end or the last read was interrupted, and
  -- the error is Interrupted if the task is interrupted then, and UnexpectedEof if not.
  pub read_fully-Completes :
      (fuel size : ℕ) (r : R)
      → Valid r
      → size < fuel
      → Completes (rest r) size (read_fully read stops fuel size (r, []))
  unfolding read_fully
  read_fully-Completes fuel size r v f = elim (Bool-cases (size == 0)) [
    | inl t ↦ let none_asked : size ≡ 0 = ground arith in rw (t) (v, refl, omega arith, omega arith)
    | inr t ↦ rw (t) (
        full-Completes (rest r) size (try_read_fully read stops fuel size (r, []))
          (try_read_fully-Transfers fuel size r v f))
  ]
