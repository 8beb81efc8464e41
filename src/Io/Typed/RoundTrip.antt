-- ===== src/Io/Typed/RoundTrip.antt =====
-- src/async_std/io/typed.rs: a number that `write_type` wrote is the one that both forms of `read_type`
-- read.
use xx_core.Base.{
  ℕ, ◌-◌, ◌^◌, ◌<◌, ◌≡◌, ◌∙◌, sym, ap, refl, inl, inr, Bool, Option, none, some, List, ◌++◌,
  append_assoc, append-nil, leb, ◌==◌, length, replicate, take, drop, take_all, length-take,
  drop-append, Bool-cases, arith,
}
use mathlib.Core.Path.{subst}
use xx_core.Base.Outcome.{Outcome, ok, err, panic, out_of_fuel, M, and_then}
use xx_core.Io.Contract.{IsReader, IsWriter}
use xx_core.Io.Transfer.{try_write_all}
use xx_core.Io.Transfer.Writing.{Sends, try_write_all-Sends}
use xx_core.Io.BufReader.{BufReader, buffer, read_buffered}
use xx_core.Io.BufReader.Fill.{stream, IsValidReader}
use xx_core.Io.BufReader.Reader.{read_buffered-IsReader}
use xx_core.Io.BufReader.Until.{consume-ok, advanced}
use xx_core.Io.Typed.{
  from_bytes, into_bytes, array, read_bytes, read_bytes_n, then_some, map_value, try_read_type,
  or_eof, read_type, buf_get_bytes, buf_read_bytes, buf_try_read_type, buf_read_type, write_type,
}
use xx_core.Io.Typed.Numbers.{append_cancel, from_bytes-into_bytes, length-into_bytes}
use xx_core.Io.Typed.Values.{TakesBytes, read_bytes-TakesBytes, all_of}

module _ {R : Type 0} (Valid : R → Type 0) (rest : R → List ℕ) where
  -- The number is read, and the stream goes on behind it, unless the read fails.
  abbrev pub ReadsBack : ℕ → List ℕ → Outcome ℕ × R → Type 0
  ReadsBack x more (ok y, r) = Valid r × (y ≡ x) × (rest r ≡ more)
  ReadsBack x more (err e, r) = Valid r
  ReadsBack x more (panic, r) = ⊥
  ReadsBack x more (out_of_fuel, r) = ⊥

  array_all : (n : ℕ) (bs : List ℕ) → length bs ≡ n → array n bs ≡ bs
  array_all n bs e =
      ap (λ k. bs ++ replicate k 0) (let nothing : n - length bs ≡ 0 = omega arith in nothing)
      ∙ append-nil bs

  -- The bytes that a read of an array took.
  abbrev TakesArray : List ℕ → ℕ → Outcome (Option (List ℕ)) × R → Type 0
  TakesArray before n (ok (some bs), r) = Valid r × (before ≡ bs ++ rest r) × (length bs ≡ n)
  TakesArray before n (ok none, r) = Valid r
  TakesArray before n (err e, r) = Valid r
  TakesArray before n (panic, r) = ⊥
  TakesArray before n (out_of_fuel, r) = ⊥

  then_some-TakesArray :
      (read : ℕ → M R (List ℕ)) (stops : R → Bool) (before : List ℕ) (n : ℕ)
      (o : Outcome (ℕ × List ℕ) × R)
      → TakesBytes Valid rest before n o
      → TakesArray before n (and_then o (then_some read stops n))
  then_some-TakesArray read stops before n (ok (k, got), r) (v, b, q, either) =
      elim (Bool-cases (k == 0)) [
        | inl t ↦ rw (t) v
        | inr t ↦
            let full : length got ≡ n = sym q ∙ all_of k n t either in
            let same = array_all n got full in
            rw (t) (v, b ∙ ap (λ l. l ++ rest r) (sym same), ap length same ∙ full)
      ]
  then_some-TakesArray read stops before n (err e, r) (v, lost) = v
  then_some-TakesArray read stops before n (panic, r) z = absurd z
  then_some-TakesArray read stops before n (out_of_fuel, r) z = absurd z

  number-ReadsBack :
      (read : ℕ → M R (List ℕ)) (stops : R → Bool) (le : Bool) (n x : ℕ) (more : List ℕ)
      (o : Outcome (Option (List ℕ)) × R)
      → x < 256 ^ n
      → TakesArray (into_bytes le n x ++ more) n o
      → ReadsBack x more (and_then (and_then o (map_value read stops (from_bytes le))) or_eof)
  number-ReadsBack read stops le n x more (ok none, r) lt v = v
  number-ReadsBack read stops le n x more (ok (some bs), r) lt (v, b, full) =
      let (same, behind) =
        append_cancel (into_bytes le n x) bs more (rest r) b
          (length-into_bytes le n x ∙ sym full) in
      (v, ap (from_bytes le) (sym same) ∙ from_bytes-into_bytes le n x lt, sym behind)
  number-ReadsBack read stops le n x more (err e, r) lt v = v
  number-ReadsBack read stops le n x more (panic, r) lt z = absurd z
  number-ReadsBack read stops le n x more (out_of_fuel, r) lt z = absurd z

module _ {R : Type 0} (Valid : R → Type 0) (rest : R → List ℕ) (read : ℕ → M R (List ℕ))
    (contract : IsReader Valid rest read) where
  read_bytes_n-TakesArray :
      (stops : R → Bool) (fuel n : ℕ) (r : R)
      → Valid r
      → n < fuel
      → TakesArray Valid rest (rest r) n (read_bytes_n read stops fuel n r)
  unfolding read_bytes_n
  read_bytes_n-TakesArray stops fuel n r v f =
      then_some-TakesArray Valid rest read stops (rest r) n (read_bytes read stops fuel n r)
        (read_bytes-TakesBytes Valid rest read stops contract fuel n r v f)

  abbrev ValidBuffer : BufReader R → Type 0
  ValidBuffer = IsValidReader Valid rest

  buf_read_bytes-TakesArray :
      (stops : BufReader R → Bool) (fuel n : ℕ) (b : BufReader R)
      → ValidBuffer b
      → n < fuel
      → TakesArray ValidBuffer
          (stream Valid rest)
          (stream Valid rest b)
          n
          (buf_read_bytes read stops fuel n b)
  unfolding buf_read_bytes buf_get_bytes
  buf_read_bytes-TakesArray stops fuel n b (v, w) f =
      elim (Bool-cases (leb n (length (buffer b)))) [
        | inl enough ↦
            let (q, v', joined) = consume-ok b n v (ground arith) in
            rw (enough, q)
              (
                (v', w),
                ap (λ l. l ++ rest b.reader) (sym joined)
                    ∙ append_assoc (take n (buffer b)) (buffer (advanced b n)) (rest b.reader),
                length-take n (buffer b) ∙ ground arith,
              )
        | inr few ↦ rw (few) (
            then_some-TakesArray ValidBuffer (stream Valid rest) (read_buffered read) stops
              (stream Valid rest b) n (read_bytes (read_buffered read) stops fuel n b)
              (read_bytes-TakesBytes ValidBuffer (stream Valid rest) (read_buffered read) stops
                (read_buffered-IsReader Valid rest read contract) fuel n b (v, w) f))
      ]

module _ {W : Type 0} (Sound : W → Type 0) (sent : W → List ℕ) (write : List ℕ → M W ℕ)
    (stops : W → Bool) (writes : IsWriter Sound sent write) where
  written :
      (before buf : List ℕ) (o : Outcome ℕ × W)
      → Sends Sound sent write stops writes before buf o
      → o.0 ≡ ok (length buf)
      → sent (o.1) ≡ before ++ buf
  written before buf (ok n, v) (s, h, b) e =
      let all : n ≡ length buf = cc in
      b
      ∙ (ap (λ k. before ++ take k buf) all
          ∙ ap (◌++◌ before) (take_all (length buf) buf (omega arith)))
  written before buf (err x, v) s e = absurd cc
  written before buf (panic, v) x e = absurd x
  written before buf (out_of_fuel, v) x e = absurd x

  -- What write_type sends when it reports all bytes.
  write_type-sent :
      (fuel n x : ℕ) (le : Bool) (w : W)
      → Sound w
      → n < fuel
      → (write_type write stops fuel le n x w).0 ≡ ok n
      → sent ((write_type write stops fuel le n x w).1) ≡ sent w ++ into_bytes le n x
  unfolding write_type
  write_type-sent fuel n x le w v f e =
      let long = length-into_bytes le n x in
      written (sent w) (into_bytes le n x) (try_write_all write stops fuel (into_bytes le n x) w)
        (try_write_all-Sends Sound sent write stops writes fuel (into_bytes le n x) w v
          (omega (arith, long)))
        (e ∙ ap ok (sym long))

  module _ {R : Type 0} (Valid : R → Type 0) (rest : R → List ℕ) (read : ℕ → M R (List ℕ))
      (contract : IsReader Valid rest read) where
    at_bytes :
        (fuel n x : ℕ) (le : Bool) (w : W) (now more : List ℕ)
        → n < fuel
        → Sound w
        → (write_type write stops fuel le n x w).0 ≡ ok n
        → now ≡ drop (length (sent w)) (sent ((write_type write stops fuel le n x w).1)) ++ more
        → now ≡ into_bytes le n x ++ more
    at_bytes fuel n x le w now more f v e stands =
        stands
        ∙ ap (λ l. l ++ more)
            (ap (drop (length (sent w))) (write_type-sent fuel n x le w v f e)
              ∙ drop-append (length (sent w)) (sent w) (into_bytes le n x) refl)

    -- When write_type reports that all bytes of a number below 256 ^ n went down a writer that keeps its contract, and a
    -- reader that keeps its contract stands at these bytes, then read_type in the same byte
    -- order ends without a panic, and unless the reader fails, it gives that number and leaves the
    -- stream behind it.
    pub read_type-write_type :
        (reader_stops : R → Bool) (fuel n x : ℕ) (le : Bool) (w : W) (r : R) (more : List ℕ)
        → x < 256 ^ n
        → n < fuel
        → Sound w
        → (write_type write stops fuel le n x w).0 ≡ ok n
        → Valid r
        → rest r ≡ drop (length (sent w)) (sent ((write_type write stops fuel le n x w).1)) ++ more
        → ReadsBack Valid rest x more (read_type read reader_stops fuel le n r)
    unfolding read_type try_read_type
    read_type-write_type reader_stops fuel n x le w r more lt f v e valid stands =
        number-ReadsBack Valid rest read reader_stops le n x more
          (read_bytes_n read reader_stops fuel n r) lt
          (subst (λ l. TakesArray Valid rest l n (read_bytes_n read reader_stops fuel n r))
            (at_bytes fuel n x le w (rest r) more f v e stands)
            (read_bytes_n-TakesArray Valid rest read contract reader_stops fuel n r valid f))

    -- When write_type reports that all bytes of a number below 256 ^ n went down a writer that keeps
    -- its contract, and a well-formed BufReader stands at these bytes, then its read_type in the same
    -- byte order, which takes the bytes from the buffer where it holds them all and else reads, ends
    -- without a panic, and unless it fails, it gives that number and leaves the stream behind it.
    pub buf_read_type-write_type :
        (reader_stops : BufReader R → Bool) (fuel n x : ℕ) (le : Bool) (w : W) (b : BufReader R)
        (more : List ℕ)
        → x < 256 ^ n
        → n < fuel
        → Sound w
        → (write_type write stops fuel le n x w).0 ≡ ok n
        → IsValidReader Valid rest b
        → stream Valid rest b
          ≡ drop (length (sent w)) (sent ((write_type write stops fuel le n x w).1)) ++ more
        → ReadsBack
            (IsValidReader Valid rest)
            (stream Valid rest)
            x
            more
            (buf_read_type read reader_stops fuel le n b)
    unfolding buf_read_type buf_try_read_type
    buf_read_type-write_type reader_stops fuel n x le w b more lt f v e valid stands =
        number-ReadsBack (IsValidReader Valid rest) (stream Valid rest) (read_buffered read)
          reader_stops le n x more (buf_read_bytes read reader_stops fuel n b) lt
          (subst
            (λ l.
              TakesArray (IsValidReader Valid rest) (stream Valid rest) l n
                (buf_read_bytes read reader_stops fuel n b))
            (at_bytes fuel n x le w (stream Valid rest b) more f v e stands)
            (buf_read_bytes-TakesArray Valid rest read contract reader_stops fuel n b valid f))
