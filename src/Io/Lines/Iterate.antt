-- ===== src/Io/Lines/Iterate.antt =====
-- src/async_std/io/read.rs: the iterator `Lines` gives the lines of the stream, up to the end or the
-- first error.
use xx_core.Base.{
  ℕ, zero, suc, ◌+◌, ◌<◌, ◌≡◌, ◌≢◌, ◌∙◌, sym, ap, refl, Bool, true, Option, none, some, List, [],
  ◌∷◌, ◌++◌, append_assoc, append-nil, length, length-append, arith,
}
use mathlib.Core.Path.{subst}
use xx_core.Base.Outcome.{Outcome, ok, err, panic, out_of_fuel, M}
use xx_core.Io.Contract.{IsReader}
use xx_core.Io.BufReader.{BufReader, buffer, capacity}
use xx_core.Io.BufReader.Fill.{stream, IsValidReader}
use xx_core.Io.BufReader.Until.{Lacks, Finds, IsLine, delimited, ended}
use xx_core.Io.Lines.{newline, strip_line, read_line, item, next, and_line, collected, collect}
use xx_core.Io.Lines.Strip.{
  strip_return, strip_line-append, strip_line-Lacks, NoLine, ReadsLine, read_line-ReadsLine,
}

-- The valid lines in front of a stream, and what is left of it behind them: each line ends with a newline,
-- and with a carriage return before it perhaps, or with the stream.
pub data AreLines (from_utf8 : List ℕ → Bool) : List ℕ → List ℕ → List (List ℕ) → Type 0 where
  no_more : (s after : List ℕ) → s ≡ after → AreLines from_utf8 s after []
  line_before :
      (s pre behind after : List ℕ) (lines : List (List ℕ))
      → s ≡ pre ++ newline ∷ behind
      → Lacks newline pre
      → from_utf8 (pre ++ newline ∷ []) ≡ true
      → AreLines from_utf8 behind after lines
      → AreLines from_utf8 s after (strip_return pre ∷ lines)
  last_line :
      (s after : List ℕ)
      → s ≢ []
      → Lacks newline s
      → from_utf8 s ≡ true
      → after ≡ []
      → AreLines from_utf8 s after (s ∷ [])

lines_at_end :
    (from_utf8 : List ℕ → Bool) (s after : List ℕ) (lines : List (List ℕ))
    → AreLines from_utf8 s after lines
    → s ≡ []
    → (lines ≡ []) × (after ≡ [])
lines_at_end from_utf8 s after lines (no_more s' a e) z = (refl, sym e ∙ z)
lines_at_end from_utf8 s after lines (line_before s' pre behind a ls e h u are) z =
    absurd (omega (arith, ap length (sym z ∙ e), length-append pre (newline ∷ behind)))
lines_at_end from_utf8 s after lines (last_line s' a n h u e) z = absurd (n z)

-- A line in front of lines.
and_line-AreLines :
    (from_utf8 : List ℕ → Bool) (before line behind after : List ℕ) (lines : List (List ℕ))
    → before ≡ line ++ behind
    → 0 < length line
    → from_utf8 line ≡ true
    → IsLine newline line behind
    → AreLines from_utf8 behind after lines
    → AreLines from_utf8 before after (strip_line line ∷ lines)
and_line-AreLines from_utf8 before line behind after lines cut pos u (delimited pre e h) are =
    let split : before ≡ pre ++ newline ∷ behind =
      cut ∙ (ap (λ l. l ++ behind) e ∙ append_assoc pre (newline ∷ []) behind) in
    subst (λ l. AreLines from_utf8 before after (l ∷ lines))
      (sym (ap strip_line e ∙ strip_line-append pre))
      (line_before before pre behind after lines split h (sym (ap from_utf8 e) ∙ u) are)
and_line-AreLines from_utf8 before line behind after lines cut pos u (ended h e) are =
    let only : before ≡ line = cut ∙ (ap (◌++◌ line) e ∙ append-nil line) in
    let nonempty : line ≢ [] = λ z. omega (arith, ap length z) in
    let (no_lines, done) = lines_at_end from_utf8 behind after lines are e in
    subst (λ ls. AreLines from_utf8 before after (strip_line line ∷ ls)) (sym no_lines)
      (subst (λ l. AreLines from_utf8 before after (l ∷ [])) (sym (strip_line-Lacks line h))
        (subst (λ s. AreLines from_utf8 s after (line ∷ [])) (sym only)
          (last_line line after nonempty h u done)))

module _ {R : Type 0} (Valid : R → Type 0) (rest : R → List ℕ) (from_utf8 : List ℕ → Bool)
    (read : ℕ → M R (List ℕ)) (memchr : ℕ → List ℕ → Option ℕ) where
  -- All lines of the stream, at whose end the reader is; or the lines in front of one that was not read,
  -- of which `part` was taken.
  abbrev pub Collects : List ℕ → List (List ℕ) × Outcome (Unit {0}) × BufReader R → Type 0
  Collects before (lines, ok _, b) = AreLines from_utf8 before [] lines × (stream Valid rest b ≡ [])
  Collects before (lines, err e, b) =
      IsValidReader Valid rest b
      × ((after : List ℕ) × (part : List ℕ) × AreLines from_utf8 before after lines
          × (after ≡ part ++ stream Valid rest b)
          × NoLine Valid rest from_utf8 read e part b)
  Collects before (lines, panic, b) = ⊥
  Collects before (lines, out_of_fuel, b) = ⊥

  one_more :
      (before line behind : List ℕ) (o : List (List ℕ) × Outcome (Unit {0}) × BufReader R)
      → before ≡ line ++ behind
      → 0 < length line
      → from_utf8 line ≡ true
      → IsLine newline line behind
      → Collects behind o
      → Collects before (and_line from_utf8 memchr read (strip_line line) o)
  one_more before line behind (lines, ok _, c) cut pos u is (are, done) =
      (and_line-AreLines from_utf8 before line behind [] lines cut pos u is are, done)
  one_more before line behind (lines, err x, c) cut pos u is (v, (after, part, are, e, why)) = (
    v,
    (
      after,
      part,
      and_line-AreLines from_utf8 before line behind after lines cut pos u is are,
      e,
      why,
    ),
  )
  one_more before line behind (lines, panic, c) cut pos u is x = absurd x
  one_more before line behind (lines, out_of_fuel, c) cut pos u is x = absurd x

  module _ (contract : IsReader Valid rest read)
      (finds : (byte : ℕ) (xs : List ℕ) → Finds byte xs (memchr byte xs)) where
    next-Collects :
        (rounds fuel : ℕ) (before : List ℕ)
        → length before < suc rounds
        → ((b : BufReader R)
            → IsValidReader Valid rest b
            → 0 < capacity b
            → length (stream Valid rest b) < rounds
            → length (stream Valid rest b) < length before
            → Collects (stream Valid rest b) (collect from_utf8 memchr read rounds fuel b))
        → (o : Outcome (Option ℕ) × (BufReader R × List ℕ))
        → ReadsLine Valid rest from_utf8 read [] before o
        → Collects before (
            collected from_utf8 memchr read
              (item from_utf8 memchr read o)
              (collect from_utf8 memchr read rounds fuel))
    next-Collects rounds fuel before few ih (ok none, (b, buf)) (v, e, done, s) =
        (no_more before [] e, done)
    next-Collects rounds fuel before few ih (ok (some n), (b, buf))
          (v, room, (line, cut, is, q, pos, u, e)) =
        let longer : length before ≡ length line + length (stream Valid rest b) =
          omega (arith, ap length cut, length-append line (stream Valid rest b)) in
        subst
          (λ l.
            Collects before
              (and_line from_utf8 memchr read l (collect from_utf8 memchr read rounds fuel b)))
          (sym e)
          (one_more before line (stream Valid rest b) (collect from_utf8 memchr read rounds fuel b)
            cut (omega arith) u is (ih b v room (omega arith) (omega arith)))
    next-Collects rounds fuel before few ih (err x, (b, buf)) (v, e, (part, cut, why)) =
        (v, (before, part, no_more before before refl, cut, why))
    next-Collects rounds fuel before few ih (panic, s) x = absurd x
    next-Collects rounds fuel before few ih (out_of_fuel, s) x = absurd x

    -- For a well-formed BufReader whose buffer has room for a byte at least, over a reader that keeps
    -- its contract, for a memchr that finds the first of the bytes, and with more rounds and fuel than
    -- bytes are left, the iteration of Lines up to the end or the first error ends without a panic. At
    -- the end it has given all the lines of the stream in order, without their line endings. At an
    -- error it has given the lines in front of the one that was not read; the reader below failed with
    -- that error before the end of that line, or its bytes are not valid UTF-8; and what was taken of
    -- that line is all that is gone from the stream behind the lines.
    pub collect-Collects :
        (rounds fuel : ℕ) (b : BufReader R)
        → IsValidReader Valid rest b
        → 0 < capacity b
        → length (stream Valid rest b) < rounds
        → length (stream Valid rest b) < fuel
        → Collects (stream Valid rest b) (collect from_utf8 memchr read rounds fuel b)
    unfolding collect next
    collect-Collects zero fuel b v room few enough = absurd (omega arith)
    collect-Collects (suc rounds) fuel b v room few enough =
        next-Collects rounds fuel (stream Valid rest b) few
          (λ c v' room' less shorter. collect-Collects rounds fuel c v' room' less (omega arith))
          (read_line from_utf8 memchr read fuel (b, []))
          (read_line-ReadsLine Valid rest from_utf8 read contract memchr finds fuel [] b v room
            (omega (arith, length-append (buffer b) (rest b.reader))))
