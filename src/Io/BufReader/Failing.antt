-- ===== src/Io/BufReader/Failing.antt =====
-- src/async_std/io/buf_reader.rs: `fill_amount` fails only with an error of the reader below.
use xx_core.Base.{
  ℕ, ◌+◌, ◌-◌, ◌≡◌, refl, inl, inr, true, false, ◌&&◌, not, ◌||◌, if◌then◌else◌, List, [], ◌∷◌, ltb,
  leb, ◌==◌, length, Bool-cases, arith,
}
use xx_core.Base.Outcome.{Outcome, ok, err, panic, out_of_fuel, M, pure, and_then, ◌>>◌}
use xx_core.Io.Contract.{Reads, IsReader, LastFails}
use xx_core.Io.BufReader.{
  BufReader, capacity, spare_capacity, is_empty, discard, move_data_to_beginning, set_start,
  fill_buf_range, fill_at, fill_amount,
}

module _ {R : Type 0} (Valid : R → Type 0) (rest : R → List ℕ) (read : ℕ → M R (List ℕ)) where
  -- An error is one that the reader below has just given.
  abbrev pub FailsBelow : Outcome ℕ × BufReader R → Type 0
  FailsBelow (ok n, c) = Unit
  FailsBelow (err e, c) = LastFails Valid rest read e c.reader
  FailsBelow (panic, c) = Unit
  FailsBelow (out_of_fuel, c) = Unit

  module _ (contract : IsReader Valid rest read) where
    fill_buf_range-FailsBelow :
        (b : BufReader R) (s e : ℕ) → Valid b.reader → FailsBelow (fill_buf_range read s e b)
    unfolding fill_buf_range
    fill_buf_range-FailsBelow b s e p = elim (Bool-cases (ltb e s || ltb (length b.store) e)) [
      | inl t ↦ rw (t, fill_buf_range) tt
      | inr t ↦ go t (read (e - s) b.reader) refl (contract (e - s) b.reader p)
    ]
      where
        go :
            (ltb e s || ltb (length b.store) e) ≡ false
            → (o : Outcome (List ℕ) × R) → read (e - s) b.reader ≡ o
            → Reads Valid rest (e - s) (rest b.reader) o
            → FailsBelow (fill_buf_range read s e b)
        go test (ok [], r) q c = rw (test, q, fill_buf_range) tt
        go test (ok (x ∷ xs), r) q (v, l, m, z) =
            let long : leb (length (x ∷ xs)) (e - s) ≡ true = ground arith in
            let more : (length (x ∷ xs) == 0) ≡ false = ground arith in
            rw (test, q, fill_buf_range, more, long) tt
        go test (err x, r) q (v, m) = rw (test, q, fill_buf_range) (e - s, b.reader, p, m, q)
        go test (panic, r) q c = absurd c
        go test (out_of_fuel, r) q c = absurd c

    restarted-FailsBelow :
        (s : ℕ) (o : Outcome ℕ × BufReader R)
        → FailsBelow o
        → FailsBelow (
            and_then o (λ n. if (s == 0) && not (n == 0) then (do set_start 0; pure n) else pure n))
    restarted-FailsBelow s (ok n, c) f = elim (Bool-cases ((s == 0) && not (n == 0))) [
      | inl t ↦ rw t tt
      | inr t ↦ rw t tt
    ]
    restarted-FailsBelow s (err x, c) f = f
    restarted-FailsBelow s (panic, c) f = tt
    restarted-FailsBelow s (out_of_fuel, c) f = tt

    fill_at-FailsBelow :
        (b : BufReader R) (s e : ℕ) → Valid b.reader → FailsBelow (fill_at read s e b)
    unfolding fill_at
    fill_at-FailsBelow b s e p =
        restarted-FailsBelow s (fill_buf_range read s e b) (fill_buf_range-FailsBelow b s e p)

    reader-move_data_to_beginning : (b : BufReader R) → (move_data_to_beginning b).reader ≡ b.reader
    unfolding move_data_to_beginning discard
    reader-move_data_to_beginning b = ground arith

    -- When `fill_amount` fails, the last read of the reader below has failed with the same error.
    pub fill_amount-FailsBelow :
        (b : BufReader R) (amount : ℕ) → Valid b.reader → FailsBelow (fill_amount read amount b)
    unfolding fill_amount
    fill_amount-FailsBelow b amount p = elim (Bool-cases (ltb (capacity b) amount)) [
      | inl t ↦ rw (t, fill_amount) tt
      | inr t ↦ elim (Bool-cases (leb (b.start + amount) b.end)) [
        | inl u ↦ rw (t, u, fill_amount) tt
        | inr u ↦ elim (Bool-cases (leb (b.start + amount) (capacity b))) [
          | inl w ↦ rw (t, u, w, fill_amount) (fill_at-FailsBelow b b.end (b.start + amount) p)
          | inr w ↦ elim (Bool-cases (is_empty b)) [
            | inl z ↦ rw (t, u, w, z, fill_amount) (fill_at-FailsBelow b 0 amount p)
            | inr z ↦
                let m : BufReader R = move_data_to_beginning b in
                elim (Bool-cases (spare_capacity m == 0)) [
                  | inl y ↦ rw (t, u, w, z, y, fill_amount) tt
                  | inr y ↦
                      rw (t, u, w, z, y, fill_amount)
                        (fill_at-FailsBelow m m.end amount (rw reader-move_data_to_beginning p))
                ]
          ]
        ]
      ]
    ]
