-- ===== src/Io/BufReader/Seek/Shows.antt =====
-- src/async_std/io/buf_reader.rs: what a buffer that shows the stream at its place is, and what a discard leaves.
use xx_core.Base.{ℕ, ◌+◌, ◌-◌, ◌≤◌, ◌<◌, ◌≡◌, ◌∙◌, sym, List, length, arith}
use mathlib.Core.Path.{subst}
use xx_core.Base.Slices.{slice, length-slice, slice_empty}
use xx_core.Base.Outcome.{Outcome, ok, err, panic, out_of_fuel}
use xx_core.Io.Seek.{SeekFrom, Target, Sought}
use xx_core.Io.BufReader.{BufReader, IsValid, buffer, discard}

module _ {R : Type 0} (half : ℕ) (position_of length_of : R → ℕ) (file : List ℕ) where
  -- What was read is in the buffer, in front of the reader's position.
  pub record Shows (b : BufReader R) : Type 0 where
    pub valid : IsValid b
    pub behind : b.end ≤ position_of b.reader
    pub contents :
        slice b.store 0 b.end ≡ slice file (position_of b.reader - b.end) (position_of b.reader)

  -- Where a client stands.
  abbrev pub stands : BufReader R → ℕ
  stands b = position_of b.reader - (b.end - b.start)

  -- The outcome of a seek of the buffered reader.
  abbrev pub Seeks : BufReader R → SeekFrom → Outcome ℕ × BufReader R → Type 0
  Seeks b to (ok q, c) =
      Target (stands b) (length_of b.reader) to q
      × (stands c ≡ q)
      × Shows c
      × (length_of c.reader ≡ length_of b.reader)
  Seeks b to (err e, c) = Shows c
  Seeks b to (panic, c) = ⊥
  Seeks b to (out_of_fuel, c) = ⊥

  -- The answer to where a client stands, which an `u64` holds.
  abbrev pub Tells : BufReader R → Outcome ℕ × BufReader R → Type 0
  Tells b (ok q, c) =
      (q ≡ stands b)
      × (q < half + half)
      × (stands c ≡ q)
      × Shows c
      × (length_of c.reader ≡ length_of b.reader)
  Tells b (err e, c) = Shows c
  Tells b (panic, c) = ⊥
  Tells b (out_of_fuel, c) = ⊥

  pub Tells-Seeks :
      (b c : BufReader R) (asked : SeekFrom) (o : Outcome ℕ × BufReader R)
      → length_of b.reader ≡ length_of c.reader
      → Target (stands c) (length_of c.reader) asked (stands b)
      → Tells b o
      → Seeks c asked o
  Tells-Seeks b c asked (ok q, d) same t (here, fits, at, g, len) = (
    subst (Target (stands c) (length_of c.reader) asked) (sym here) t,
    at,
    g,
    omega (arith, len, same),
  )
  Tells-Seeks b c asked (err e, d) same t g = g
  Tells-Seeks b c asked (panic, d) same t x = absurd x
  Tells-Seeks b c asked (out_of_fuel, d) same t x = absurd x

  -- A seek seen from where a client stood before.
  pub Seeks-Target :
      (b c : BufReader R) (asked to : SeekFrom) (o : Outcome ℕ × BufReader R)
      → ((q : ℕ)
          → Target (stands c) (length_of c.reader) asked q
          → Target (stands b) (length_of b.reader) to q)
      → length_of c.reader ≡ length_of b.reader
      → Seeks c asked o
      → Seeks b to o
  Seeks-Target b c asked to (ok q, d) h same (t, at, g, len) =
      (h q t, at, g, omega (arith, len, same))
  Seeks-Target b c asked to (err e, d) h same g = g
  Seeks-Target b c asked to (panic, d) h same x = absurd x
  Seeks-Target b c asked to (out_of_fuel, d) h same x = absurd x

  pub discard-Shows : (b : BufReader R) (r : R) → Shows (discard (record b { reader = r }))
  unfolding discard
  discard-Shows b r = record {
    valid = record { ordered = omega arith; bounded = omega arith };
    behind = omega arith;
    contents = slice_empty b.store 0 0 (omega arith) ∙ sym (slice_empty file _ _ (omega arith));
  }

  -- A reader that stands as before shows as much.
  pub same-Shows :
      (b : BufReader R) (r : R)
      → position_of r ≡ position_of b.reader
      → Shows b
      → Shows (record b { reader = r })
  same-Shows b r q g = record {
    valid = record {
      ordered = IsValid.ordered (Shows.valid g);
      bounded = IsValid.bounded (Shows.valid g);
    };
    behind = omega (arith, Shows.behind g, q);
    contents = rw (q) (Shows.contents g);
  }

  -- The last seek of one that leaves the buffer, from a reader that may have moved.
  pub discarded-Seeks :
      (b c : BufReader R) (to asked : SeekFrom) (o : Outcome ℕ × R)
      → ((q : ℕ)
          → Target (position_of c.reader) (length_of c.reader) to q
          → Target (stands b) (length_of b.reader) asked q)
      → length_of c.reader ≡ length_of b.reader
      → Sought half position_of length_of c.reader to o
      → Seeks b asked (o.0, discard (record c { reader = o.1 }))
  unfolding discard
  discarded-Seeks b c to asked (ok q, r) h same (t, at, len) =
      (h q t, omega (arith, at), discard-Shows c r, omega (arith, len, same))
  discarded-Seeks b c to asked (err e, r) h same s = discard-Shows c r
  discarded-Seeks b c to asked (panic, r) h same s = absurd s
  discarded-Seeks b c to asked (out_of_fuel, r) h same s = absurd s

  pub remainder : (b : BufReader R) → Shows b → length (buffer b) ≡ b.end - b.start
  remainder b g =
      length-slice b.store b.start b.end (IsValid.ordered (Shows.valid g))
        (IsValid.bounded (Shows.valid g))
