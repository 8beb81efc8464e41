-- ===== src/Io/BufReader/Amount.antt =====
-- `fill_amount` and `move_data_to_beginning` of src/async_std/io/buf_reader.rs.
use xx_core.Base.{
  ℕ, ◌+◌, ◌-◌, ◌≤◌, ◌≡◌, refl, sym, ap, ◌∙◌, inl, inr, false, List, [], ◌∷◌, ◌++◌, arith,
  Bool-cases, ltb, leb, ◌==◌, length, if◌then◌else◌,
}
use xx_core.Base.Slices.{
  slice, write_at, length-slice, length-write_at, slice_empty, slice-write_at_self,
}
use mathlib.Core.Path.{ap₂}
use xx_core.Base.Outcome.{Outcome, ok, err, panic, out_of_fuel, M}
use xx_core.Io.Contract.{IsReader}
use xx_core.Io.BufReader.{
  BufReader, IsValid, capacity, spare_capacity, buffer, discard, move_data_to_beginning, fill_at,
  fill_amount,
}
use xx_core.Io.BufReader.Fill.{stream, IsValidReader, Fills, fill_at-append, fill_at-empty}

nil_of_length : (xs : List ℕ) → length xs ≡ 0 → xs ≡ []
nil_of_length [] h = refl
nil_of_length (x ∷ xs) h = absurd (omega arith)

-- What `move_data_to_beginning` does to a valid buffer.
pub record Moved {R : Type 0} (b c : BufReader R) : Type 0 where
  pub valid : IsValid c
  pub same : buffer c ≡ buffer b
  pub front : c.start ≡ 0
  pub size : capacity c ≡ capacity b
  pub below : c.reader ≡ b.reader

-- Moving the data to the beginning keeps it and its reader, and frees the space in front of it.
pub move_data_to_beginning-Moved :
    {R : Type 0} (b : BufReader R) → IsValid b → Moved b (move_data_to_beginning b)
unfolding move_data_to_beginning discard
move_data_to_beginning-Moved b v = elim (Bool-cases (b.start == 0)) [
  | inl z ↦
      let front : b.start ≡ 0 = ground arith in
      rw (z, move_data_to_beginning)
        (record { valid = v; same = refl; front = front; size = refl; below = refl })
  | inr s ↦ elim (Bool-cases (length (buffer b) == 0)) [
    | inl n ↦
        rw (s, n, move_data_to_beginning)
          (record {
            valid = record { ordered = omega arith; bounded = omega arith };
            same =
                slice_empty b.store 0 0 (omega arith)
                ∙ sym (nil_of_length (buffer b) (ground arith));
            front = refl;
            size = refl;
            below = refl;
          })
    | inr n ↦
        rw (s, n, move_data_to_beginning)
          (record {
            valid = record { ordered = omega arith; bounded = omega (arith, shorter, size) };
            same =
                ap (slice (write_at b.store 0 (buffer b)) 0) (omega arith)
                ∙ slice-write_at_self b.store 0 (buffer b) (omega arith);
            front = refl;
            size = size;
            below = refl;
          })
  ]
]
  where
    shorter : length (buffer b) ≡ b.end - b.start
    shorter = length-slice b.store b.start b.end v.ordered v.bounded

    size : length (write_at b.store 0 (buffer b)) ≡ length b.store
    size = length-write_at b.store 0 (buffer b) (omega (arith, shorter))

module _ {R : Type 0} (Valid : R → Type 0) (rest : R → List ℕ) where
  Moved-Fills :
      (b c : BufReader R) (room : ℕ)
      → Moved b c
      → (o : Outcome ℕ × BufReader R) → Fills Valid rest c room o
      → Fills Valid rest b room o
  Moved-Fills b c room m (ok n, d) (v, size, same, more, fit, eof) = (
    v,
    size ∙ m.size,
    same ∙ stream-Moved,
    more ∙ ap (λ bs. length bs + n) m.same,
    fit,
    λ z t. ap rest (sym m.below) ∙ eof z t,
  )
    where
      stream-Moved : stream Valid rest c ≡ stream Valid rest b
      stream-Moved = ap₂ (λ bs r. bs ++ rest r) m.same m.below
  Moved-Fills b c room m (err x, d) (v, size, same) =
      (v, size ∙ m.size, same ∙ ap₂ (λ bs r. bs ++ rest r) m.same m.below)
  Moved-Fills b c room m (panic, d) h = absurd h
  Moved-Fills b c room m (out_of_fuel, d) h = absurd h

module _ {R : Type 0} (Valid : R → Type 0) (rest : R → List ℕ) (read : ℕ → M R (List ℕ))
    (contract : IsReader Valid rest read) where
  -- The part of `fill_amount` that has to move the data first.
  fill_behind-Fills :
      (b c : BufReader R) (amount : ℕ)
      → IsValidReader Valid rest b
      → amount ≤ capacity b
      → length (buffer b) ≤ amount
      → Moved b c
      → Fills Valid rest b
          (amount - length (buffer b))
          ((if spare_capacity c == 0 then (ok 0, c) else fill_at read c.end amount c))
  fill_behind-Fills b c amount (v, p) h l m = elim (Bool-cases (spare_capacity c == 0)) [
    | inl full ↦
        let fits : amount - length (buffer b) ≡ 0 = ground (arith, shorter, m.size) in
        rw (full, fits)
          (Moved-Fills Valid rest b c 0 m (ok 0, c)
            ((m.valid, u), refl, refl, omega arith, omega arith, λ z t. absurd (omega arith)))
    | inr space ↦
        let room : amount - length (buffer b) ≡ amount - c.end = omega (arith, shorter) in
        rw (space, room)
          (Moved-Fills Valid rest b c (amount - c.end) m (fill_at read c.end amount c) (
            fill_at-append Valid rest read contract c amount (m.valid, u) (omega (arith, shorter))
              (omega (arith, m.size))))
  ]
    where
      u : Valid c.reader
      u = rw m.below p

      shorter : length (buffer b) ≡ c.end
      shorter =
          ap length (sym m.same)
          ∙ (length-slice c.store c.start c.end m.valid.ordered m.valid.bounded
              ∙ omega (arith, m.front))

  -- `fill_amount` of an amount that fits moves data from the reader into the buffer and keeps the stream
  -- as it is, also when the reader fails. It reads nothing only if as much is buffered already,
  -- or at the end of the stream.
  pub fill_amount-Fills :
      (b : BufReader R) (amount : ℕ)
      → IsValidReader Valid rest b
      → amount ≤ capacity b
      → Fills Valid rest b (amount - length (buffer b)) (fill_amount read amount b)
  unfolding fill_amount
  fill_amount-Fills b amount (v, p) h = elim (Bool-cases (leb (b.start + amount) b.end)) [
    | inl enough ↦
        let room : amount - length (buffer b) ≡ 0 = ground (arith, shorter) in
        rw (fits, enough, fill_amount, room)
          ((v, p), refl, refl, omega arith, omega arith, λ z t. absurd (omega arith))
    | inr more ↦ elim (Bool-cases (leb (b.start + amount) (capacity b))) [
      | inl behind ↦
          let room : amount - length (buffer b) ≡ b.start + amount - b.end =
            omega (arith, shorter) in
          rw (fits, more, behind, fill_amount, room)
            (fill_at-append Valid rest read contract b (b.start + amount) (v, p) (ground arith)
              (ground arith))
      | inr beyond ↦ elim (Bool-cases (leb b.end b.start)) [
        | inl empty ↦
            let none_left : b.end ≤ b.start = ground arith in
            let room : amount - length (buffer b) ≡ amount = omega (arith, shorter) in
            rw (fits, more, beyond, empty, fill_amount, room)
              (fill_at-empty Valid rest read contract b amount (v, p) none_left h)
        | inr some_left ↦
            rw (fits, more, beyond, some_left, fill_amount)
              (fill_behind-Fills b (move_data_to_beginning b) amount (v, p) h
                (ground (arith, shorter)) (move_data_to_beginning-Moved b v))
      ]
    ]
  ]
    where
      fits : ltb (capacity b) amount ≡ false
      fits = ground arith

      shorter : length (buffer b) ≡ b.end - b.start
      shorter = length-slice b.store b.start b.end v.ordered v.bounded
