-- ===== src/Io/Typed/Same.antt =====
-- src/async_std/io/typed.rs: the two forms of a number of a variable size, `read_vint` and
-- `read_vint_fast`, agree on a `BufReader`.
use xx_core.Base.{ℕ, ◌≤◌, ◌<◌, ◌≡◌, ◌∙◌, sym, ap, Bool, Option, some, List}
use xx_core.Base.Outcome.{Outcome, ok, M}
use xx_core.Io.Contract.{IsReader}
use xx_core.Io.BufReader.{BufReader, read_buffered}
use xx_core.Io.BufReader.Fill.{stream, IsValidReader}
use xx_core.Io.BufReader.Reader.{read_buffered-IsReader}
use xx_core.Io.Typed.{from_bytes, read_vint, read_vint_fast}
use xx_core.Io.Typed.Numbers.{AllBytes, append_cancel}
use xx_core.Io.Typed.Values.{Gives, read_vint-Gives, read_vint_fast-Gives}

module _ {S : Type 0} (Valid : S → Type 0) (rest : S → List ℕ) where
  -- Two outcomes that give the same bytes' number.
  Gives-same :
      (before : List ℕ) (le : Bool) (size x y : ℕ) (o p : Outcome (Option ℕ) × S)
      → Gives Valid rest before le size o
      → Gives Valid rest before le size p
      → o.0 ≡ ok (some x)
      → p.0 ≡ ok (some y)
      → (x ≡ y) × (rest (o.1) ≡ rest (p.1))
  Gives-same before le size x y (ok (some n), s) (ok (some m), t) (v, (bs, (b, long, value)))
        (w, (cs, (c, longer, other))) e f =
      let (same, behind) = append_cancel bs cs (rest s) (rest t) (sym b ∙ c) (long ∙ sym longer) in
      let first : n ≡ x = cc in
      let second : m ≡ y = cc in
      (sym first ∙ (value ∙ (ap (from_bytes le) same ∙ (sym other ∙ second))), behind)
  Gives-same before le size x y o p g h e f = absurd cc

module _ {R : Type 0} (Valid : R → Type 0) (rest : R → List ℕ) (read : ℕ → M R (List ℕ))
    (stops : BufReader R → Bool) (contract : IsReader Valid rest read) where
  -- Of a well-formed BufReader over a reader that keeps its contract, with a stream of bytes, a size of at
  -- most `n` bytes and fuel above it: when read_vint and read_vint_fast both give a number, it is the
  -- same one, and both leave the same stream.
  pub read_vint_fast-read_vint :
      (fuel n size x y : ℕ) (le : Bool) (b : BufReader R)
      → IsValidReader Valid rest b
      → AllBytes (stream Valid rest b)
      → size ≤ n
      → size < fuel
      → (read_vint_fast read stops fuel n size le b).0 ≡ ok (some x)
      → (read_vint (read_buffered read) stops fuel n size le b).0 ≡ ok (some y)
      → (x ≡ y)
        × (stream Valid rest ((read_vint_fast read stops fuel n size le b).1)
            ≡ stream Valid rest ((read_vint (read_buffered read) stops fuel n size le b).1))
  read_vint_fast-read_vint fuel n size x y le b v all h f =
      Gives-same (IsValidReader Valid rest) (stream Valid rest) (stream Valid rest b) le size x y
        (read_vint_fast read stops fuel n size le b)
        (read_vint (read_buffered read) stops fuel n size le b)
        (read_vint_fast-Gives Valid rest read stops contract fuel n size le b v all h f)
        (read_vint-Gives (IsValidReader Valid rest) (stream Valid rest) (read_buffered read) stops
          (read_buffered-IsReader Valid rest read contract) fuel n size le b v all h f)
