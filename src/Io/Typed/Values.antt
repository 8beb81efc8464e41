-- ===== src/Io/Typed/Values.antt =====
-- src/async_std/io/typed.rs: `read_bytes` and the numbers of a variable size. Both forms of them give the
-- number of the bytes that they take from the stream.
use xx_core.Base.{
  ℕ, ◌-◌, ◌≤◌, ◌<◌, ◌≡◌, ◌∙◌, ◌⊎◌, sym, ap, refl, inl, inr, Bool, true, false, ◌&&◌, not, Option,
  none, some, List, [], ◌++◌, append_assoc, ltb, leb, ◌==◌, length, length-replicate, length_zero,
  replicate, take, drop, length-take, length-drop, take-append-drop, take-take-append-drop,
  Bool-cases, arith,
}
use mathlib.Core.Path.{subst}
use xx_core.Base.Outcome.{Outcome, ok, err, panic, out_of_fuel, M, and_then, pure}
use xx_core.Io.Contract.{IsReader}
use xx_core.Io.Transfer.{try_read_fully}
use xx_core.Io.Transfer.Reading.{Transfers, try_read_fully-Transfers}
use xx_core.Io.BufReader.{BufReader, buffer, consume, read_buffered}
use xx_core.Io.BufReader.Fill.{stream, IsValidReader}
use xx_core.Io.BufReader.Reader.{read_buffered-IsReader}
use xx_core.Io.BufReader.Until.{consume-ok, advanced}
use xx_core.Io.Typed.{
  from_bytes, vint_from_bytes, read_bytes, checked_bytes, then_some, map_value, read_vint,
  buf_get_bytes, read_vint_fast,
}
use xx_core.Io.Typed.Numbers.{AllBytes, AllBytes-append, AllBytes-zeros, vint_from_bytes-append}

module _ {R : Type 0} (Valid : R → Type 0) (rest : R → List ℕ) where
  -- The bytes that a read of `size` bytes took: all of them or none, unless it fails.
  abbrev pub TakesBytes : List ℕ → ℕ → Outcome (ℕ × List ℕ) × R → Type 0
  TakesBytes before size (ok (n, got), r) =
      Valid r × (before ≡ got ++ rest r) × (n ≡ length got) × ((n ≡ 0) ⊎ (n ≡ size))
  TakesBytes before size (err e, r) = Valid r × ((lost : List ℕ) × (before ≡ lost ++ rest r))
  TakesBytes before size (panic, r) = ⊥
  TakesBytes before size (out_of_fuel, r) = ⊥

  -- A number of `size` bytes that are taken from the stream, or none, which takes nothing; a failure
  -- loses what was read.
  abbrev pub Gives : List ℕ → Bool → ℕ → Outcome (Option ℕ) × R → Type 0
  Gives before le size (ok (some x), r) =
      Valid r
      × ((bs : List ℕ) × ((before ≡ bs ++ rest r) × (length bs ≡ size) × (x ≡ from_bytes le bs)))
  Gives before le size (ok none, r) = Valid r × (before ≡ rest r)
  Gives before le size (err e, r) = Valid r × ((lost : List ℕ) × (before ≡ lost ++ rest r))
  Gives before le size (panic, r) = ⊥
  Gives before le size (out_of_fuel, r) = ⊥

from_bytes-empty : (le : Bool) → 0 ≡ from_bytes le []
unfolding from_bytes
from_bytes-empty true = refl
from_bytes-empty false = refl

none_or_all : (n size : ℕ) → not (n == 0) && ltb n size ≡ false → n ≤ size → (n ≡ 0) ⊎ (n ≡ size)
none_or_all n size t h = ground arith

pub all_of : (n size : ℕ) → (n == 0) ≡ false → (n ≡ 0) ⊎ (n ≡ size) → n ≡ size
all_of n size t either = ground arith

module _ {R : Type 0} (Valid : R → Type 0) (rest : R → List ℕ) (read : ℕ → M R (List ℕ))
    (stops : R → Bool) (contract : IsReader Valid rest read) where
  checked_bytes-TakesBytes :
      (before : List ℕ) (size : ℕ) (o : Outcome ℕ × (R × List ℕ))
      → Transfers Valid rest read stops contract before size o
      → TakesBytes Valid rest before size (checked_bytes read stops size o)
  checked_bytes-TakesBytes before size (ok n, (r, got)) (v, b, q, h, few) =
      let fits : leb n size ≡ true = ground arith in
      elim (Bool-cases (not (n == 0) && ltb n size)) [
        | inl t ↦ rw (fits, t) (v, (got, b))
        | inr t ↦ rw (fits, t) (v, b, q, none_or_all n size t h)
      ]
  checked_bytes-TakesBytes before size (err e, (r, got)) (v, b, short, why) = (v, (got, b))
  checked_bytes-TakesBytes before size (panic, (r, got)) x = absurd x
  checked_bytes-TakesBytes before size (out_of_fuel, (r, got)) x = absurd x

  pub read_bytes-TakesBytes :
      (fuel size : ℕ) (r : R)
      → Valid r
      → size < fuel
      → TakesBytes Valid rest (rest r) size (read_bytes read stops fuel size r)
  unfolding read_bytes
  read_bytes-TakesBytes fuel size r v f =
      checked_bytes-TakesBytes (rest r) size (try_read_fully read stops fuel size (r, []))
        (try_read_fully-Transfers Valid rest read stops contract fuel size r v f)

  -- The number of an array that holds the bytes.
  given :
      (before : List ℕ) (le : Bool) (n size : ℕ) (o : Outcome (ℕ × List ℕ) × R)
      → 0 < size
      → size ≤ n
      → AllBytes before
      → TakesBytes Valid rest before size o
      → Gives Valid rest before le size (
          and_then
            (and_then o (then_some read stops n))
            (map_value read stops (λ bytes. vint_from_bytes n bytes size le)))
  given before le n size (ok (k, got), r) pos h all (v, b, q, either) = elim (Bool-cases (k == 0)) [
    | inl t ↦
        let nothing : got ≡ [] = length_zero got (ground arith) in
        rw (t) (v, b ∙ ap (λ l. l ++ rest r) nothing)
    | inr t ↦
        let full : length got ≡ size = sym q ∙ all_of k size t either in
        let (bytes, others) = AllBytes-append got (rest r) (subst AllBytes b all) in
        rw (t) (
          v,
          (
            got,
            (
              b,
              full,
              (vint_from_bytes-append le n size got (replicate (n - length got) 0) full
                  (length-replicate (n - length got) 0 ∙ ap (λ k. n - k) full) h bytes
                  (AllBytes-zeros (n - length got))),
            ),
          ),
        )
  ]
  given before le n size (err e, r) pos h all t = t
  given before le n size (panic, r) pos h all x = absurd x
  given before le n size (out_of_fuel, r) pos h all x = absurd x

  -- For a reader that keeps its contract, a stream of bytes, a size of at most `n` bytes and fuel above it,
  -- read_vint ends without a panic: it gives the number of the `size` bytes that it takes from the
  -- stream, in the byte order, or none and takes nothing, or fails.
  pub read_vint-Gives :
      (fuel n size : ℕ) (le : Bool) (r : R)
      → Valid r
      → AllBytes (rest r)
      → size ≤ n
      → size < fuel
      → Gives Valid rest (rest r) le size (read_vint read stops fuel n size le r)
  unfolding read_vint
  read_vint-Gives fuel n size le r v all h f = elim (Bool-cases (size == 0)) [
    | inl t ↦
        let none_asked : size ≡ 0 = ground arith in
        rw (t) (v, ([], (refl, sym none_asked, from_bytes-empty le)))
    | inr t ↦
        let fits : leb size n ≡ true = ground arith in
        rw (t, fits)
          (given (rest r) le n size (read_bytes read stops fuel size r) (ground arith) h all
            (read_bytes-TakesBytes fuel size r v f))
  ]

module _ {R : Type 0} (Valid : R → Type 0) (rest : R → List ℕ) (read : ℕ → M R (List ℕ))
    (stops : BufReader R → Bool) (contract : IsReader Valid rest read) where
  -- The number of the buffer's first bytes, of which `size` are consumed.
  buffered :
      (le : Bool) (n size : ℕ) (b : BufReader R)
      → IsValidReader Valid rest b
      → AllBytes (stream Valid rest b)
      → size ≤ n
      → n ≤ length (buffer b)
      → Gives (IsValidReader Valid rest) (stream Valid rest) (stream Valid rest b) le size (
          and_then
            (and_then (consume size b) (λ u. pure (some (take n (buffer b)))))
            (map_value (read_buffered read) stops (λ bytes. vint_from_bytes n bytes size le)))
  buffered le n size b (v, w) all h fits =
      let (q, v', joined) = consume-ok b size v (omega arith) in
      rw (q) ((v', w), (take size (buffer b), (split, long, value)))
    where
      split : stream Valid rest b ≡ take size (buffer b) ++ stream Valid rest (advanced b size)
      split =
          let (q, v', joined) = consume-ok b size v (omega arith) in
          ap (λ l. l ++ rest b.reader) (sym joined)
          ∙ append_assoc (take size (buffer b)) (buffer (advanced b size)) (rest b.reader)

      long : length (take size (buffer b)) ≡ size
      long = length-take size (buffer b) ∙ ground arith

      more : List ℕ
      more = take (n - size) (drop size (buffer b))

      joined_more : take size (buffer b) ++ more ≡ take n (buffer b)
      joined_more = take-take-append-drop size n (buffer b) h

      in_buffer : AllBytes (take n (buffer b))
      in_buffer =
          let (whole, behind) = AllBytes-append (buffer b) (rest b.reader) all in
          let (front, back) =
            AllBytes-append (take n (buffer b)) (drop n (buffer b))
              (subst AllBytes (sym (take-append-drop n (buffer b))) whole) in
          front

      length_more : length more ≡ n - size
      length_more =
          length-take (n - size) (drop size (buffer b)) ∙ omega (arith, length-drop size (buffer b))

      value : vint_from_bytes n (take n (buffer b)) size le ≡ from_bytes le (take size (buffer b))
      value =
          let (front, back) =
            AllBytes-append (take size (buffer b)) more
              (subst AllBytes (sym joined_more) in_buffer) in
          ap (λ l. vint_from_bytes n l size le) (sym joined_more)
          ∙ vint_from_bytes-append le n size (take size (buffer b)) more long length_more h front
              back

  -- For a reader that keeps its contract, a BufReader that is well-formed, a stream of bytes, a size of at most
  -- `n` bytes and fuel above it, read_vint_fast, which takes the bytes from the buffer where it
  -- holds `n`, ends without a panic: it gives the number of the `size` bytes that it takes from
  -- the stream, in the byte order, or none and takes nothing, or fails.
  pub read_vint_fast-Gives :
      (fuel n size : ℕ) (le : Bool) (b : BufReader R)
      → IsValidReader Valid rest b
      → AllBytes (stream Valid rest b)
      → size ≤ n
      → size < fuel
      → Gives
          (IsValidReader Valid rest)
          (stream Valid rest)
          (stream Valid rest b)
          le
          size
          (read_vint_fast read stops fuel n size le b)
  unfolding read_vint_fast buf_get_bytes
  read_vint_fast-Gives fuel n size le b v all h f = elim (Bool-cases (size == 0)) [
    | inl t ↦
        let none_asked : size ≡ 0 = ground arith in
        rw (t) (v, ([], (refl, sym none_asked, from_bytes-empty le)))
    | inr t ↦
        let fits : leb size n ≡ true = ground arith in
        elim (Bool-cases (leb n (length (buffer b)))) [
          | inl enough ↦ rw (t, fits, enough) (buffered le n size b v all h (ground arith))
          | inr few ↦
              rw (t, fits, few)
                (given (IsValidReader Valid rest) (stream Valid rest) (read_buffered read) stops
                  (read_buffered-IsReader Valid rest read contract) (stream Valid rest b) le n size
                  (read_bytes (read_buffered read) stops fuel size b) (ground arith) h all
                  (read_bytes-TakesBytes (IsValidReader Valid rest) (stream Valid rest)
                    (read_buffered read) stops (read_buffered-IsReader Valid rest read contract)
                    fuel size b v f))
        ]
  ]
