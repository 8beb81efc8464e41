-- ===== src/Io/ToEnd/Ends.antt =====
-- src/async_std/io/read.rs: `read_to_end` ends, appends the rest of the stream to the vector unless
-- it is interrupted, and what the vector holds when it fails.
use xx_core.Base.{
  ℕ, zero, suc, ◌+◌, ◌-◌, ◌≤◌, ◌<◌, ◌≡◌, ◌∙◌, sym, ap, refl, ◌⊎◌, inl, inr, Bool, true, false, ◌&&◌,
  List, [], ◌++◌, ltb, leb, ◌==◌, length, take, length-append, append-nil, length_zero, take-append,
  Bool-cases, arith,
}
use xx_core.Base.Slices.{write_at}
use xx_core.Base.Outcome.{
  Outcome, IoError, interrupted, ok, err, panic, out_of_fuel, is_interrupted, M, and_then,
}
use xx_core.Io.Contract.{Reads, IsReader, LastFails}
use xx_core.Io.ToEnd.{
  Vec, extend_from_slice, prepared, after_probe, after_read_in, read_to_end_loop, finish,
  read_to_end,
}
use xx_core.Io.ToEnd.Zeros.{zeros}
use xx_core.Io.ToEnd.Holds.{Grows, Holds, prepared-Holds, appended-Holds, read-Holds}

module _ {R : Type 0} (Valid : R → Type 0) (rest : R → List ℕ) (read : ℕ → M R (List ℕ))
    (grow : ℕ → ℕ → ℕ) (stops : R → Bool) where
  -- The task is interrupted where the reader stopped, or the read that brought it there was.
  abbrev pub StopsAt : R → Type 0
  StopsAt r =
      (stops r ≡ true) ⊎ ((e : IoError) × (is_interrupted e ≡ true) × LastFails Valid rest read e r)

  abbrev Stops : List ℕ → List ℕ → Outcome ℕ × (R × Vec) → Type 0
  Stops vec before (ok len, (r, v)) =
      Holds Valid rest vec before len r v × ((rest r ≡ []) ⊎ StopsAt r)
  Stops vec before (err e, (r, v)) =
      ((len : ℕ) × Holds Valid rest vec before len r v) × LastFails Valid rest read e r
  Stops vec before (panic, s) = ⊥
  Stops vec before (out_of_fuel, s) = ⊥

  -- On success all that was left of the stream is appended, unless the task or the last read was
  -- interrupted; on failure what was read is, with zeros behind it: the last read failed, or the task
  -- is interrupted and nothing was read.
  abbrev pub Ends : List ℕ → List ℕ → Outcome ℕ × (R × Vec) → Type 0
  Ends vec before (ok n, (r, v)) =
      Valid r
      × ((got : List ℕ) × (Vec.bytes v ≡ vec ++ got)
          × (n ≡ length got)
          × (before ≡ got ++ rest r)
          × ((rest r ≡ []) ⊎ StopsAt r))
  Ends vec before (err e, (r, v)) =
      Valid r
      × ((got : List ℕ) × (pad : ℕ) × (Vec.bytes v ≡ (vec ++ got) ++ zeros pad)
          × (before ≡ got ++ rest r)
          × (LastFails Valid rest read e r ⊎ ((e ≡ interrupted) × (stops r ≡ true) × (got ≡ []))))
  Ends vec before (panic, s) = ⊥
  Ends vec before (out_of_fuel, s) = ⊥

  module _ (contract : IsReader Valid rest read) (grows : Grows grow) (vec before : List ℕ) where
    -- What is known of the rounds that follow.
    abbrev Continues : ℕ → (ℕ → M (R × Vec) ℕ) → Type 0
    Continues left next =
        (len : ℕ) (r : R) (v : Vec)
        → Holds Valid rest vec before len r v
        → length (rest r) < left
        → Stops vec before (next len (r, v))

    probe-Stops :
        (left len : ℕ) (r : R) (v : Vec) (next : ℕ → M (R × Vec) ℕ)
        → Continues left next
        → Holds Valid rest vec before len r v
        → length (Vec.bytes v) ≡ len
        → length (rest r) ≤ left
        → (o : Outcome (List ℕ) × R) → o ≡ read 32 r
        → Reads Valid rest 32 (rest r) o
        → Stops vec before (after_probe read grow stops len v next o)
    probe-Stops left len r v next k (valid, (got, pad, e, l, b, fit)) all few (ok bs, s) q
          (v', short, cut, at_end) =
        elim (Bool-cases (length bs == 0)) [
          | inl t ↦
              let nothing : bs ≡ [] = length_zero bs (ground arith) in
              let same : rest r ≡ rest s = cut ∙ ap (λ l. l ++ rest s) nothing in
              rw t (
                (v', (got, pad, e, l, b ∙ ap (◌++◌ got) same, fit)),
                inl (sym same ∙ at_end nothing (omega arith)),
              )
          | inr t ↦
              let fits_in : leb (length bs) 32 ≡ true = ground arith in
              let some_bytes : 0 < length bs = ground arith in
              rw (t, fits_in)
                (k (length (Vec.bytes v ++ bs)) s (extend_from_slice grow bs v)
                  (appended-Holds Valid rest vec before grow grows len r s v bs all v' cut
                    (valid, (got, pad, e, l, b, fit)))
                  (omega (arith, ap length cut, length-append bs (rest s))))
        ]
    probe-Stops left len r v next k (valid, (got, pad, e, l, b, fit)) all few (err x, s) q
          (v', same) =
        elim (Bool-cases (is_interrupted x)) [
          | inl t ↦ rw t (
            (v', (got, pad, e, l, b ∙ ap (◌++◌ got) same, fit)),
            inr (inr (x, t, (32, r, valid, same, sym q))),
          )
          | inr t ↦ rw t (
            (len, (v', (got, pad, e, l, b ∙ ap (◌++◌ got) same, fit))),
            (32, r, valid, same, sym q),
          )
        ]
    probe-Stops left len r v next k h all few (panic, s) q x = absurd x
    probe-Stops left len r v next k h all few (out_of_fuel, s) q x = absurd x

    read-Stops :
        (left len : ℕ) (r : R) (v : Vec) (next : ℕ → M (R × Vec) ℕ)
        → Continues left next
        → Holds Valid rest vec before len r v
        → length (Vec.bytes v) ≡ Vec.capacity v
        → len < Vec.capacity v
        → length (rest r) ≤ left
        → (o : Outcome (List ℕ) × R) → o ≡ read (length (Vec.bytes v) - len) r
        → Reads Valid rest (length (Vec.bytes v) - len) (rest r) o
        → Stops vec before (after_read_in read grow stops len v next o)
    read-Stops left len r v next k (valid, (got, pad, e, l, b, fit)) full room few (ok bs, s) q
          (v', short, cut, at_end) =
        elim (Bool-cases (length bs == 0)) [
          | inl t ↦
              let nothing : bs ≡ [] = length_zero bs (ground arith) in
              let same : rest r ≡ rest s = cut ∙ ap (λ l. l ++ rest s) nothing in
              rw t (
                (v', (got, pad, e, l, b ∙ ap (◌++◌ got) same, fit)),
                inl (sym same ∙ at_end nothing (omega arith)),
              )
          | inr t ↦
              let fits_in : leb (length bs) (length (Vec.bytes v) - len) ≡ true = ground arith in
              let some_bytes : 0 < length bs = ground arith in
              let w : Vec = record v { bytes = write_at (Vec.bytes v) len bs } in
              let (holds, size) =
                read-Holds Valid rest vec before len r s v bs (omega arith) v' cut
                  (valid, (got, pad, e, l, b, fit)) in
              elim (Bool-cases (ltb (len + length bs) (Vec.capacity v))) [
                | inl u ↦
                    rw (t, fits_in, u)
                      (k (len + length bs) s w holds
                        (omega (arith, ap length cut, length-append bs (rest s))))
                | inr u ↦
                    let last : len + length bs ≡ Vec.capacity v = ground arith in
                    rw (t, fits_in, u)
                      (probe-Stops left (len + length bs) s w next k holds (omega arith)
                        (omega (arith, ap length cut, length-append bs (rest s))) (read 32 s) refl
                        (contract 32 s v'))
              ]
        ]
    read-Stops left len r v next k (valid, (got, pad, e, l, b, fit)) full room few (err x, s) q
          (v', same) =
        elim (Bool-cases (is_interrupted x)) [
          | inl t ↦ rw t (
            (v', (got, pad, e, l, b ∙ ap (◌++◌ got) same, fit)),
            inr (inr (x, t, (length (Vec.bytes v) - len, r, valid, same, sym q))),
          )
          | inr t ↦ rw t (
            (len, (v', (got, pad, e, l, b ∙ ap (◌++◌ got) same, fit))),
            (length (Vec.bytes v) - len, r, valid, same, sym q),
          )
        ]
    read-Stops left len r v next k h full room few (panic, s) q x = absurd x
    read-Stops left len r v next k h full room few (out_of_fuel, s) q x = absurd x

    loop-Stops : (fuel : ℕ) → Continues fuel (read_to_end_loop read grow stops fuel)
    unfolding read_to_end_loop
    loop-Stops zero len r v h few = absurd (omega arith)
    loop-Stops (suc fuel) len r v h few = elim (Bool-cases (stops r)) [
      | inl t ↦ rw t (h, inr (inl t))
      | inr t ↦
          let p : Vec = prepared read grow stops len v in
          let (holds, full, room) =
            prepared-Holds Valid rest vec before grow grows read stops len r v h in
          rw t (
            read-Stops fuel len r p (read_to_end_loop read grow stops fuel) (loop-Stops fuel) holds
              full room (omega arith) (read (length (Vec.bytes p) - len) r) refl
              (contract (length (Vec.bytes p) - len) r (h.0)))
    ]

    finish-Ends :
        (o : Outcome ℕ × (R × Vec))
        → Stops vec before o
        → Ends vec before (and_then o (finish read grow stops (length vec)))
    finish-Ends (ok len, (r, v)) ((valid, (got, pad, e, l, b, fit)), at_end) =
        let cut : take len (Vec.bytes v) ≡ vec ++ got =
          ap (take len) e ∙ take-append len (vec ++ got) (zeros pad) l in
        elim (Bool-cases ((len - length vec == 0) && stops r)) [
          | inl t ↦
              let none_got : length got ≡ 0 = ground (arith, l, length-append vec got) in
              let asked : stops r ≡ true = ground arith in
              rw t (
                valid,
                (
                  got,
                  0,
                  cut ∙ sym (append-nil (vec ++ got)),
                  b,
                  inr (refl, asked, length_zero got none_got),
                ),
              )
          | inr t ↦ rw t (valid, (got, cut, omega (arith, length-append vec got), b, at_end))
        ]
    finish-Ends (err e, (r, v)) ((len, (valid, (got, pad, q, l, b, fit))), fails) =
        (valid, (got, pad, q, b, inl fails))
    finish-Ends (panic, s) x = absurd x
    finish-Ends (out_of_fuel, s) x = absurd x

  -- For a vector within its capacity, which grows by at least what is asked for, over a reader that keeps
  -- its contract, and with more fuel than bytes are left, read_to_end ends without a panic. On success it has appended all the rest of the
  -- stream, unless the task is interrupted in the state where it stopped or the last read was, and
  -- returns how much it has appended. On failure what was read stands in the vector, with zeros behind
  -- it: the last read failed with that error, or the task is interrupted, nothing was read and the
  -- error is Interrupted.
  pub read_to_end-Ends :
      IsReader Valid rest read
      → Grows grow
      → (fuel : ℕ) (r : R) (v : Vec) → Valid r
      → length (Vec.bytes v) ≤ Vec.capacity v
      → length (rest r) < fuel
      → Ends (Vec.bytes v) (rest r) (read_to_end read grow stops fuel (r, v))
  unfolding read_to_end
  read_to_end-Ends contract grows fuel r v valid fit few =
      finish-Ends contract grows (Vec.bytes v) (rest r) _ (
        loop-Stops contract grows (Vec.bytes v) (rest r) fuel (length (Vec.bytes v)) r v
          (
            valid,
            (
              [],
              0,
              sym (append-nil (Vec.bytes v ++ []) ∙ append-nil (Vec.bytes v)),
              ap length (sym (append-nil (Vec.bytes v))),
              refl,
              fit,
            ),
          )
          few)

  -- When the first read fails, other than by an interrupt, the vector is left longer than it was,
  -- although nothing was read: the zeros for the read are not cut off.
  pub read_to_end-lengthens :
      IsReader Valid rest read
      → Grows grow
      → (fuel : ℕ) (r s : R) (v : Vec) (e : IoError) → Valid r
      → length (Vec.bytes v) ≤ Vec.capacity v
      → stops r ≡ false
      → ((n : ℕ) → read n r ≡ (err e, s))
      → is_interrupted e ≡ false
      → ((read_to_end read grow stops (suc fuel) (r, v)).0 ≡ err e)
        × (length (Vec.bytes v)
            < length (Vec.bytes (read_to_end read grow stops (suc fuel) (r, v)).1.1))
  unfolding read_to_end read_to_end_loop
  read_to_end-lengthens contract grows fuel r s v e valid fit goes_on fails other =
      let (holds, full, room) =
        prepared-Holds Valid rest (Vec.bytes v) (rest r) grow grows read stops
          (length (Vec.bytes v)) r v
          (
            valid,
            (
              [],
              0,
              sym (append-nil (Vec.bytes v ++ []) ∙ append-nil (Vec.bytes v)),
              ap length (sym (append-nil (Vec.bytes v))),
              refl,
              fit,
            ),
          ) in
      rw (goes_on, fails, other) (refl, omega (arith, full, room))
