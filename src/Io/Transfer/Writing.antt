-- ===== src/Io/Transfer/Writing.antt =====
-- src/async_std/io/write.rs: `try_write_all` and `write_all` end, and send a prefix of the buffer.
use xx_core.Base.{
  ℕ, zero, suc, ◌+◌, ◌-◌, ◌≤◌, ◌<◌, ◌≡◌, ◌∙◌, sym, ap, inl, inr, Bool, true, ◌&&◌, List, [], ◌++◌,
  append_assoc, append-nil, ltb, leb, ◌==◌, if◌then◌else◌, length, take, drop, length-drop,
  length_zero, take-take-append-drop, take_all, Bool-cases, arith,
}
use xx_core.Base.Outcome.{
  Outcome, ok, err, panic, out_of_fuel, is_interrupted, M, and_then, pure, throw,
}
use xx_core.Io.Contract.{Writes, IsWriter}
use xx_core.Io.Slices.{length_check}
use xx_core.Io.Transfer.{
  check_interrupt_if_zero, short_io_error_unless_interrupt, after_write, write_loop, try_write_all,
  write_all,
}

module _ {W : Type 0} (Valid : W → Type 0) (sent : W → List ℕ) (write : List ℕ → M W ℕ)
    (stops : W → Bool) (contract : IsWriter Valid sent write) where
  -- What was sent is what was sent before and a prefix of the buffer, whose length is the count.
  abbrev pub Sends : List ℕ → List ℕ → Outcome ℕ × W → Type 0
  Sends before buf (ok n, w) = Valid w × (n ≤ length buf) × (sent w ≡ before ++ take n buf)
  Sends before buf (err e, w) =
      Valid w × ((n : ℕ) × ((n ≤ length buf) × (sent w ≡ before ++ take n buf)))
  Sends before buf (panic, w) = ⊥
  Sends before buf (out_of_fuel, w) = ⊥

  after_write-Sends :
      (before buf : List ℕ) (wrote : ℕ) (w : W) (next : ℕ → M W ℕ)
      → wrote < length buf
      → sent w ≡ before ++ take wrote buf
      → ((v : W) (n : ℕ)
          → Valid v
          → n ≤ length buf
          → wrote < n
          → sent v ≡ before ++ take n buf
          → Sends before buf (next n v))
      → (o : Outcome ℕ × W) → Writes Valid sent (drop wrote buf) (sent w) o
      → Sends before buf (after_write write stops buf wrote next o)
  after_write-Sends before buf wrote w next room b h (ok n, v) (ok_v, fits, grown) =
      let left = length-drop wrote buf in
      elim (Bool-cases (n == 0)) [
        | inl t ↦
            let nothing : n ≡ 0 = ground arith in
            rw (t) (
              ok_v,
              omega arith,
              grown ∙ ap (λ k. sent w ++ take k (drop wrote buf)) nothing ∙ append-nil (sent w) ∙ b,
            )
        | inr t ↦
            let fits_in : leb n (length buf - wrote) ≡ true = ground arith in
            let longer : take wrote buf ++ take n (drop wrote buf) ≡ take (wrote + n) buf =
              ap (λ k. take wrote buf ++ take k (drop wrote buf)) (omega arith)
              ∙ take-take-append-drop wrote (wrote + n) buf (omega arith) in
            rw (t, fits_in)
              (h v (wrote + n) ok_v (omega (arith, left, fits)) (ground arith) (
                grown
                ∙ ap (λ l. l ++ take n (drop wrote buf)) b
                ∙ append_assoc before (take wrote buf) (take n (drop wrote buf))
                ∙ ap (◌++◌ before) longer))
      ]
  after_write-Sends before buf wrote w next room b h (err e, v) (ok_v, same) =
      elim (Bool-cases (is_interrupted e)) [
        | inl t ↦ rw (t) (ok_v, omega arith, same ∙ b)
        | inr t ↦ rw (t) (ok_v, (wrote, (omega arith, same ∙ b)))
      ]
  after_write-Sends before buf wrote w next room b h (panic, v) x = absurd x
  after_write-Sends before buf wrote w next room b h (out_of_fuel, v) x = absurd x

  write_loop-Sends :
      (fuel : ℕ) (before buf : List ℕ) (wrote : ℕ) (w : W)
      → Valid w
      → wrote ≤ length buf
      → sent w ≡ before ++ take wrote buf
      → length buf < wrote + fuel
      → Sends before buf (write_loop write stops fuel buf wrote w)
  unfolding write_loop
  write_loop-Sends zero before buf wrote w v h b f = absurd (omega arith)
  write_loop-Sends (suc fuel) before buf wrote w v h b f =
      elim (Bool-cases (ltb wrote (length buf))) [
        | inl t ↦ rw (t) (
            after_write-Sends before buf wrote w (write_loop write stops fuel buf) (ground arith) b
              (λ s n v' h' g b'. write_loop-Sends fuel before buf n s v' h' b' (omega arith))
              (write (drop wrote buf) w) (contract (drop wrote buf) w v))
        | inr t ↦ rw (t) (v, h, b)
      ]

  checked-Sends :
      (before buf : List ℕ) (o : Outcome ℕ × W)
      → Sends before buf o
      → Sends before buf (and_then o (λ n. λ v. check_interrupt_if_zero (stops v) n v))
  checked-Sends before buf (ok n, w) (v, h, b) = elim (Bool-cases ((n == 0) && stops w)) [
    | inl t ↦ rw (t) (v, (n, (h, b)))
    | inr t ↦ rw (t) (v, h, b)
  ]
  checked-Sends before buf (err e, w) s = s
  checked-Sends before buf (panic, w) x = absurd x
  checked-Sends before buf (out_of_fuel, w) x = absurd x

  -- For a writer that keeps its contract and fuel above the length of the buffer, try_write_all
  -- ends without a panic; what was sent is a prefix of the buffer, of the length that it returns,
  -- and also when it fails a prefix.
  pub try_write_all-Sends :
      (fuel : ℕ) (buf : List ℕ) (w : W)
      → Valid w
      → length buf < fuel
      → Sends (sent w) buf (try_write_all write stops fuel buf w)
  unfolding try_write_all
  try_write_all-Sends fuel buf w v f = elim (Bool-cases (length buf == 0)) [
    | inl t ↦ rw (t) (v, omega arith, sym (append-nil (sent w)))
    | inr t ↦ rw (t) (
        checked-Sends (sent w) buf (write_loop write stops fuel buf 0 w) (
          write_loop-Sends fuel (sent w) buf 0 w v (omega arith) (sym (append-nil (sent w)))
            (omega arith)))
  ]

  -- The whole buffer was sent, or an error says that only a prefix was.
  abbrev pub SendsAll : List ℕ → List ℕ → Outcome ℕ × W → Type 0
  SendsAll before buf (ok n, w) = Valid w × (n ≡ length buf) × (sent w ≡ before ++ buf)
  SendsAll before buf (err e, w) =
      Valid w × ((n : ℕ) × ((n ≤ length buf) × (sent w ≡ before ++ take n buf)))
  SendsAll before buf (panic, w) = ⊥
  SendsAll before buf (out_of_fuel, w) = ⊥

  full-SendsAll :
      (before buf : List ℕ) (o : Outcome ℕ × W)
      → Sends before buf o
      → SendsAll before buf (
          and_then o (λ n. λ v. and_then (length_check (length buf) n v) (λ _.
            if ltb n (length buf)
            then throw (short_io_error_unless_interrupt (stops v))
            else pure n)))
  full-SendsAll before buf (ok n, w) (v, h, b) =
      let fits : leb n (length buf) ≡ true = ground arith in
      elim (Bool-cases (ltb n (length buf))) [
        | inl t ↦ rw (fits, t) (v, (n, (h, b)))
        | inr t ↦
            let all : n ≡ length buf = ground arith in
            rw (fits, t) (v, all, b ∙ ap (◌++◌ before) (take_all n buf (omega arith)))
      ]
  full-SendsAll before buf (err e, w) s = s
  full-SendsAll before buf (panic, w) x = absurd x
  full-SendsAll before buf (out_of_fuel, w) x = absurd x

  -- For a writer that keeps its contract and fuel above the length of the buffer, write_all ends
  -- without a panic, has sent the whole buffer when it succeeds, and a prefix when it fails.
  pub write_all-SendsAll :
      (fuel : ℕ) (buf : List ℕ) (w : W)
      → Valid w
      → length buf < fuel
      → SendsAll (sent w) buf (write_all write stops fuel buf w)
  unfolding write_all
  write_all-SendsAll fuel buf w v f = elim (Bool-cases (length buf == 0)) [
    | inl t ↦
        let nothing : buf ≡ [] = length_zero buf (ground arith) in
        rw (t) (v, ground arith, sym (ap (◌++◌ (sent w)) nothing ∙ append-nil (sent w)))
    | inr t ↦ rw (t) (
        full-SendsAll (sent w) buf (try_write_all write stops fuel buf w)
          (try_write_all-Sends fuel buf w v f))
  ]
