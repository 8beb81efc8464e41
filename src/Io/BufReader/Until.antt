-- ===== src/Io/BufReader/Until.antt =====
-- `read_until` of src/async_std/io/read.rs over a `BufReader`: it appends to the vector what it takes
-- from the stream, up to the first delimiter or the end.
use xx_core.Base.{
  ℕ, zero, suc, ◌+◌, ◌-◌, ◌≤◌, ◌<◌, ◌≡◌, refl, ap, ◌∙◌, inl, inr, true, false, Option, none, some,
  List, [], ◌∷◌, ◌++◌, append-nil, append_assoc, arith, Option-cases, leb, ◌==◌, if◌then◌else◌,
  length, take, take_all, length-append,
}
use mathlib.Core.Path.{ap₂}
use xx_core.Base.Slices.{slice, length-slice, slice_empty, slice-append, take-slice}
use xx_core.Base.Outcome.{Outcome, ok, err, panic, out_of_fuel, M}
use xx_core.Io.Contract.{IsReader, LastFails}
use xx_core.Io.BufReader.{
  BufReader, IsValid, capacity, buffer, consume, fill_amount, fill, read_until_loop, read_until,
}
use xx_core.Io.BufReader.Fill.{stream, IsValidReader, Fills}
use xx_core.Io.BufReader.Failing.{FailsBelow, fill_amount-FailsBelow}
use xx_core.Io.BufReader.Amount.{fill_amount-Fills}

-- No byte of `bs` is `byte`.
abbrev pub Lacks : ℕ → List ℕ → Type 0
Lacks byte [] = Unit {0}
Lacks byte (x ∷ xs) = ((x == byte) ≡ false) × Lacks byte xs

-- What `memchr` promises: the index of the first `byte`, if there is one.
abbrev pub Finds : ℕ → List ℕ → Option ℕ → Type 0
Finds byte xs (some i) =
    (i < length xs) × ((pre : List ℕ) × (take (i + 1) xs ≡ pre ++ byte ∷ []) × Lacks byte pre)
Finds byte xs none = Lacks byte xs

-- A line: it ends with the first delimiter, or the stream ends behind it.
pub data IsLine (byte : ℕ) (line after : List ℕ) : Type 0 where
  delimited : (pre : List ℕ) → line ≡ pre ++ byte ∷ [] → Lacks byte pre → IsLine byte line after
  ended : Lacks byte line → after ≡ [] → IsLine byte line after

module _ {R : Type 0} (Valid : R → Type 0) (rest : R → List ℕ) (read : ℕ → M R (List ℕ)) where
  -- What was taken from the stream stands in the vector, whatever the outcome; an error is that of the
  -- reader below.
  abbrev pub Appends : ℕ → List ℕ → List ℕ → Outcome (Option ℕ) × (BufReader R × List ℕ) → Type 0
  Appends byte vec before (ok r, (b, vec')) =
      IsValidReader Valid rest b
      × (0 < capacity b)
      × ((line : List ℕ) × (vec' ≡ vec ++ line)
          × (before ≡ line ++ stream Valid rest b)
          × IsLine byte line (stream Valid rest b)
          × (r ≡ (if length line == 0 then none else some (length line))))
  Appends byte vec before (err e, (b, vec')) =
      IsValidReader Valid rest b
      × ((part : List ℕ) × (vec' ≡ vec ++ part)
          × (before ≡ part ++ stream Valid rest b)
          × Lacks byte part)
      × LastFails Valid rest read e b.reader
  Appends byte vec before (panic, s) = ⊥
  Appends byte vec before (out_of_fuel, s) = ⊥

Lacks-append : (byte : ℕ) (xs ys : List ℕ) → Lacks byte xs → Lacks byte ys → Lacks byte (xs ++ ys)
Lacks-append byte [] ys h k = k
Lacks-append byte (x ∷ xs) ys h k = (h.0, Lacks-append byte xs ys h.1 k)

module _ {R : Type 0} where
  abbrev pub advanced : BufReader R → ℕ → BufReader R
  advanced b k = record b { start = b.start + k }

  -- `consume` within the buffer.
  pub consume-ok :
      (b : BufReader R) (k : ℕ)
      → IsValid b
      → k ≤ length (buffer b)
      → (consume k b ≡ (ok tt, advanced b k))
        × IsValid (advanced b k)
        × (take k (buffer b) ++ buffer (advanced b k) ≡ buffer b)
  unfolding consume
  consume-ok b k v h = (
    let test : leb k (length (buffer b)) ≡ true = ground arith in rw test,
    record { ordered = omega (arith, shorter); bounded = v.bounded },
    ap (λ bs. bs ++ slice b.store (b.start + k) b.end)
          (take-slice b.store b.start b.end k (omega (arith, shorter)))
        ∙ slice-append b.store b.start (b.start + k) b.end (omega arith) (omega (arith, shorter)),
  )
    where
      shorter : length (buffer b) ≡ b.end - b.start
      shorter = length-slice b.store b.start b.end v.ordered v.bounded

advance-split :
    (before acc taken left all after : List ℕ)
    → before ≡ acc ++ (all ++ after)
    → taken ++ left ≡ all
    → before ≡ (acc ++ taken) ++ (left ++ after)
advance-split before acc taken left all after h j = h ∙ rw (← j) (simp append_assoc)

-- The count that is returned is the length of the line.
length-line : (vec line : List ℕ) → length (vec ++ line) - length vec ≡ length line
length-line vec line = omega (arith, length-append vec line)

count_of_line :
    (vec line : List ℕ)
    → (if length (vec ++ line) == length vec
        then none
        else some (length (vec ++ line) - length vec))
      ≡ (if length line == 0 then none else some (length line))
count_of_line vec line = ground (arith, length-append vec line)

module _ {R : Type 0} (Valid : R → Type 0) (rest : R → List ℕ) (read : ℕ → M R (List ℕ))
    (contract : IsReader Valid rest read) (memchr : ℕ → List ℕ → Option ℕ)
    (finds : (byte : ℕ) (xs : List ℕ) → Finds byte xs (memchr byte xs)) (byte : ℕ)
    (vec0 before : List ℕ) where
  -- What the loop knows of the vector and the stream when it looks at the buffer.
  record Ready (acc : List ℕ) (b : BufReader R) : Type 0 where
    pub valid : IsValidReader Valid rest b
    pub lacks : Lacks byte acc
    pub split : before ≡ acc ++ stream Valid rest b
    pub room : 0 < capacity b

  hit :
      (f i : ℕ) (acc : List ℕ) (b : BufReader R)
      → Ready acc b
      → memchr byte (buffer b) ≡ some i
      → Finds byte (buffer b) (some i)
      → Appends Valid rest read byte vec0 before
          (read_until_loop memchr read (suc f) byte (length vec0) (b, vec0 ++ acc))
  unfolding read_until_loop
  hit f i acc b r e (lt, (pre, cut, lacks)) =
      let (q, v, joined) = consume-ok b (i + 1) r.valid.0 (omega arith) in
      let line : List ℕ = acc ++ take (i + 1) (buffer b) in
      let ends : line ≡ (acc ++ pre) ++ byte ∷ [] = rw (cut, append_assoc) in
      rw (e, q, read_until_loop)
        (
          (v, r.valid.1),
          r.room,
          (
            line,
            append_assoc vec0 acc (take (i + 1) (buffer b)),
            advance-split before acc _ _ _ (rest b.reader) r.split joined,
            delimited (acc ++ pre) ends (Lacks-append byte acc pre r.lacks lacks),
            rw append_assoc (
                ground (
                  arith,
                  length-line vec0 line,
                  ap length ends,
                  length-append (acc ++ pre) (byte ∷ []),
                )),
          ),
        )

  miss :
      (f : ℕ) (acc : List ℕ) (b : BufReader R)
      → Ready acc b
      → length (rest b.reader) < suc f
      → memchr byte (buffer b) ≡ none
      → Lacks byte (buffer b)
      → ((acc' : List ℕ) (c : BufReader R)
          → Ready acc' c
          → length (rest c.reader) < f
          → Appends Valid rest read byte vec0 before
              (read_until_loop memchr read f byte (length vec0) (c, vec0 ++ acc')))
      → Appends Valid rest read byte vec0 before
          (read_until_loop memchr read (suc f) byte (length vec0) (b, vec0 ++ acc))
  unfolding read_until_loop fill
  miss f acc b r fuel e lacks ih =
      go (consume-ok b (length (buffer b)) r.valid.0 (omega arith)).0
        (fill_amount read (capacity c) c) refl
        (fill_amount-Fills Valid rest read contract c (capacity c) (v, r.valid.1) (omega arith))
        (fill_amount-FailsBelow Valid rest read contract c (capacity c) r.valid.1)
    where
      c : BufReader R
      c = advanced b (length (buffer b))

      taken : List ℕ
      taken = take (length (buffer b)) (buffer b)

      v : IsValid c
      v = (consume-ok b (length (buffer b)) r.valid.0 (omega arith)).1

      all : taken ≡ buffer b
      all = take_all (length (buffer b)) (buffer b) (omega arith)

      gone : buffer c ≡ []
      gone =
          slice_empty b.store (b.start + length (buffer b)) b.end
            (omega (arith, length-slice b.store b.start b.end r.valid.0.ordered r.valid.0.bounded))

      split : before ≡ (acc ++ taken) ++ stream Valid rest c
      split =
          advance-split before acc taken (buffer c) (buffer b) (rest b.reader) r.split
            (consume-ok b (length (buffer b)) r.valid.0 (omega arith)).2

      clean : Lacks byte (acc ++ taken)
      clean = Lacks-append byte acc taken r.lacks (rw all lacks)

      go :
          consume (length (buffer b)) b ≡ (ok tt, c)
          → (o : Outcome ℕ × BufReader R) → fill_amount read (capacity c) c ≡ o
          → Fills Valid rest c (capacity c - length (buffer c)) o
          → FailsBelow Valid rest read o
          → Appends Valid rest read byte vec0 before
              (read_until_loop memchr read (suc f) byte (length vec0) (b, vec0 ++ acc))
      go q (ok zero, d) p (u, size, same, more, fit, eof) w =
          rw (e, q, read_until_loop, p)
            (
              u,
              omega (arith, size, r.room),
              (
                acc ++ taken,
                append_assoc vec0 acc taken,
                rw same split,
                ended clean (
                    same
                    ∙ ap₂ (◌++◌ {A = ℕ}) gone (eof refl (omega (arith, ap length gone, r.room)))),
                rw append_assoc (count_of_line vec0 (acc ++ taken)),
              ),
            )
      go q (ok (suc n), d) p (u, size, same, more, fit, eof) w =
          let got : (suc n == 0) ≡ false = ground arith in
          let next : Ready (acc ++ taken) d = record {
            valid = u;
            lacks = clean;
            split = rw same split;
            room = omega arith;
          } in
          rw (e, q, read_until_loop, p, got)
            (rw append_assoc (
              ih (acc ++ taken) d next (
                omega (
                  arith,
                  ap length same,
                  length-append (buffer d) (rest d.reader),
                  length-append (buffer c) (rest b.reader),
                  more,
                ))))
      go q (err x, d) p (u, size, same) w =
          rw (e, q, read_until_loop, p)
            (u, (acc ++ taken, append_assoc vec0 acc taken, rw same split, clean), w)
      go q (panic, d) p z w = absurd z
      go q (out_of_fuel, d) p z w = absurd z

  read_until_loop-Appends :
      (f : ℕ) (acc : List ℕ) (b : BufReader R)
      → Ready acc b
      → length (rest b.reader) < f
      → Appends Valid rest read byte vec0 before
          (read_until_loop memchr read f byte (length vec0) (b, vec0 ++ acc))
  read_until_loop-Appends zero acc b r fuel = absurd (omega arith)
  read_until_loop-Appends (suc f) acc b r fuel = elim (Option-cases (memchr byte (buffer b))) [
    | inl e ↦ miss f acc b r fuel e (rw e at (finds byte (buffer b))) (read_until_loop-Appends f)
    | inr (i, e) ↦ hit f i acc b r e (rw e at (finds byte (buffer b)))
  ]

module _ {R : Type 0} (Valid : R → Type 0) (rest : R → List ℕ) (read : ℕ → M R (List ℕ))
    (contract : IsReader Valid rest read) (memchr : ℕ → List ℕ → Option ℕ)
    (finds : (byte : ℕ) (xs : List ℕ) → Finds byte xs (memchr byte xs)) where
  -- For a well-formed BufReader whose buffer has room for a byte at least, over a reader that keeps its
  -- contract, for a memchr that finds the first of the bytes, and with more fuel than bytes are left
  -- below, `read_until` ends without a panic. It appends to the vector exactly what it takes from the
  -- stream: up to the first delimiter, or all of it, and it returns the number of bytes, or nothing if
  -- there were none. It fails only when the reader below does, and with its error: then what was taken
  -- so far, which is no whole line, is in the vector.
  pub read_until-Appends :
      (fuel byte : ℕ) (vec : List ℕ) (b : BufReader R)
      → IsValidReader Valid rest b
      → 0 < capacity b
      → length (rest b.reader) < fuel
      → Appends Valid rest read byte vec
          (stream Valid rest b)
          (read_until memchr read fuel byte (b, vec))
  unfolding read_until
  read_until-Appends fuel byte vec b v room h = rw append-nil at (
      read_until_loop-Appends Valid rest read contract memchr finds byte vec (stream Valid rest b)
        fuel [] b (record { valid = v; lacks = tt; split = refl; room = room }) h)
