-- ===== src/Io/Lines/Strip.antt =====
-- src/async_std/io/read.rs: what `read_line` does to the string and the stream.
use xx_core.Base.{
  ℕ, ◌<◌, ◌≡◌, ◌∙◌, ap, refl, ◌⊎◌, inl, inr, Bool, true, false, Option, none, some, List, [], ◌∷◌,
  ◌++◌, ◌==◌, if◌then◌else◌, length, take, drop, length-append, take-append, drop-append,
  length_zero, Bool-cases, arith,
}
use mathlib.Core.Path.{subst}
use xx_core.Base.Outcome.{Outcome, ok, err, panic, out_of_fuel, IoError, M}
use xx_core.Io.Contract.{IsReader, LastFails}
use xx_core.Io.BufReader.{BufReader, capacity}
use xx_core.Io.BufReader.Fill.{stream, IsValidReader}
use xx_core.Io.BufReader.Until.{Lacks, Finds, IsLine, delimited, ended, Appends, read_until-Appends}
use xx_core.Io.Lines.{
  newline, carriage_return, invalid_utf8, ends_with, pop, guarded, append_to_string, strip_line,
  stripped, read_line,
}

abbrev pub strip_return : List ℕ → List ℕ
strip_return buf = if ends_with carriage_return buf then pop buf else buf

ends_with-append : (c y : ℕ) (xs : List ℕ) → ends_with c (xs ++ y ∷ []) ≡ (y == c)
ends_with-append c y [] = refl
ends_with-append c y (x ∷ []) = refl
ends_with-append c y (x ∷ (z ∷ zs)) = ends_with-append c y (z ∷ zs)

pop-append : (y : ℕ) (xs : List ℕ) → pop (xs ++ y ∷ []) ≡ xs
pop-append y [] = refl
pop-append y (x ∷ []) = refl
pop-append y (x ∷ (z ∷ zs)) = ap (◌∷◌ x) (pop-append y (z ∷ zs))

-- A line that ends with a newline loses it, and a carriage return before it.
pub strip_line-append : (pre : List ℕ) → strip_line (pre ++ newline ∷ []) ≡ strip_return pre
unfolding strip_line
strip_line-append pre = rw (ends_with-append newline newline pre, pop-append newline pre) refl

ends_with-Lacks : (c : ℕ) (line : List ℕ) → Lacks c line → ends_with c line ≡ false
ends_with-Lacks c [] h = refl
ends_with-Lacks c (x ∷ []) (e, h) = e
ends_with-Lacks c (x ∷ (y ∷ ys)) (e, h) = ends_with-Lacks c (y ∷ ys) h

-- A line without a newline stays as it is.
pub strip_line-Lacks : (line : List ℕ) → Lacks newline line → strip_line line ≡ line
unfolding strip_line
strip_line-Lacks line h = rw (ends_with-Lacks newline line h) refl

count_some : (n k : ℕ) → some n ≡ (if k == 0 then none else some k) → (n ≡ k) × (0 < n)
count_some n k q = ground arith

module _ {R : Type 0} (Valid : R → Type 0) (rest : R → List ℕ) (from_utf8 : List ℕ → Bool)
    (read : ℕ → M R (List ℕ)) where
  -- Why a line was not read, of which `part` was taken: the reader below failed before its end, or it
  -- is not valid.
  abbrev pub NoLine : IoError → List ℕ → BufReader R → Type 0
  NoLine e part b =
      (LastFails Valid rest read e b.reader × Lacks newline part)
      ⊎ ((e ≡ invalid_utf8) × (from_utf8 part ≡ false) × IsLine newline part (stream Valid rest b))

  -- On success the string is the old one with the line, stripped; at the end of the stream, and on
  -- failure, it is the old one, stripped.
  abbrev pub ReadsLine : List ℕ → List ℕ → Outcome (Option ℕ) × (BufReader R × List ℕ) → Type 0
  ReadsLine vec before (ok none, (b, buf)) =
      IsValidReader Valid rest b
      × (before ≡ [])
      × (stream Valid rest b ≡ [])
      × (buf ≡ strip_line vec)
  ReadsLine vec before (ok (some n), (b, buf)) =
      IsValidReader Valid rest b
      × (0 < capacity b)
      × ((line : List ℕ) × (before ≡ line ++ stream Valid rest b)
          × IsLine newline line (stream Valid rest b)
          × (n ≡ length line)
          × (0 < n)
          × (from_utf8 line ≡ true)
          × (buf ≡ strip_line (vec ++ line)))
  ReadsLine vec before (err e, (b, buf)) =
      IsValidReader Valid rest b
      × (buf ≡ strip_line vec)
      × ((part : List ℕ) × (before ≡ part ++ stream Valid rest b) × NoLine e part b)
  ReadsLine vec before (panic, s) = ⊥
  ReadsLine vec before (out_of_fuel, s) = ⊥

  line_at_end : (line after : List ℕ) → IsLine newline line after → length line ≡ 0 → after ≡ []
  line_at_end line after (delimited pre e h) z =
      absurd (omega (arith, ap length e, length-append pre (newline ∷ [])))
  line_at_end line after (ended h e) z = e

  guarded-ReadsLine :
      (memchr : ℕ → List ℕ → Option ℕ) (vec before : List ℕ)
      (o : Outcome (Option ℕ) × (BufReader R × List ℕ))
      → Appends Valid rest read newline vec before o
      → ReadsLine vec before (stripped from_utf8 memchr read (guarded from_utf8 (length vec) o))
  guarded-ReadsLine memchr vec before (ok none, (b, buf)) (valid, room, (line, e, cut, is, q)) =
      elim (Bool-cases (length line == 0)) [
        | inl t ↦
            let nothing : length line ≡ 0 = ground arith in
            let done : stream Valid rest b ≡ [] =
              line_at_end line (stream Valid rest b) is nothing in
            (
              valid,
              cut ∙ (ap (λ l. l ++ stream Valid rest b) (length_zero line nothing) ∙ done),
              done,
              ap strip_line (ap (take (length vec)) e ∙ take-append (length vec) vec line refl),
            )
        | inr t ↦
            let absent : none ≡ some (length line) =
              q ∙ ap (λ c. if c then none else some (length line)) t in
            cc
      ]
  guarded-ReadsLine memchr vec before (ok (some n), (b, buf)) (valid, room, (line, e, cut, is, q)) =
      let added : drop (length vec) buf ≡ line =
        ap (drop (length vec)) e ∙ drop-append (length vec) vec line refl in
      let count : (n ≡ length line) × (0 < n) = count_some n (length line) q in
      elim (Bool-cases (from_utf8 line)) [
        | inl t ↦ rw (added, t) (valid, room, (line, cut, is, count.0, count.1, t, ap strip_line e))
        | inr t ↦
            rw (added, t)
              (
                valid,
                ap strip_line (ap (take (length vec)) e ∙ take-append (length vec) vec line refl),
                (line, cut, inr (refl, t, is)),
              )
      ]
  guarded-ReadsLine memchr vec before (err x, (b, buf)) (valid, (part, e, cut, lacks), fails) = (
    valid,
    ap strip_line (ap (take (length vec)) e ∙ take-append (length vec) vec part refl),
    (part, cut, inl (fails, lacks)),
  )
  guarded-ReadsLine memchr vec before (panic, s) x = absurd x
  guarded-ReadsLine memchr vec before (out_of_fuel, s) x = absurd x

  module _ (contract : IsReader Valid rest read) (memchr : ℕ → List ℕ → Option ℕ)
      (finds : (byte : ℕ) (xs : List ℕ) → Finds byte xs (memchr byte xs)) where
    -- With more fuel than bytes are left below, read_line ends without a panic. A line that it has
    -- read is the stream up to the first newline or the end, is valid, and is appended to the string
    -- without its line ending; at the end of the stream, and when the read or the check of the bytes
    -- fails, the string is as it was but for a line ending of its own, which it loses.
    pub read_line-ReadsLine :
        (fuel : ℕ) (vec : List ℕ) (b : BufReader R)
        → IsValidReader Valid rest b
        → 0 < capacity b
        → length (rest b.reader) < fuel
        → ReadsLine vec (stream Valid rest b) (read_line from_utf8 memchr read fuel (b, vec))
    unfolding read_line append_to_string
    read_line-ReadsLine fuel vec b valid room enough =
        guarded-ReadsLine memchr vec (stream Valid rest b) _ (
          read_until-Appends Valid rest read contract memchr finds fuel newline vec b valid room
            enough)

    emptied :
        (vec : List ℕ) (o : Outcome (Option ℕ) × (BufReader R × List ℕ))
        → ReadsLine vec [] o
        → o.1.1 ≡ strip_line vec
    emptied vec (ok none, (b, s)) (v, e, done, q) = q
    emptied vec (ok (some n), (b, s)) (v, room, (line, cut, is, q, pos, u, e)) =
        absurd (omega (arith, q, ap length cut, length-append line (stream Valid rest b)))
    emptied vec (err x, (b, s)) (v, q, p) = q
    emptied vec (panic, s) x = absurd x
    emptied vec (out_of_fuel, s) x = absurd x

    -- At the end of the stream read_line takes the line ending off a string that ends with one,
    -- although it has read nothing.
    pub read_line-shortens :
        (fuel : ℕ) (old : List ℕ) (b : BufReader R)
        → IsValidReader Valid rest b
        → 0 < capacity b
        → stream Valid rest b ≡ []
        → length (rest b.reader) < fuel
        → (read_line from_utf8 memchr read fuel (b, old ++ newline ∷ [])).1.1 ≡ strip_return old
    read_line-shortens fuel old b valid room done enough =
        emptied (old ++ newline ∷ []) _ (
          subst
            (λ s.
              ReadsLine (old ++ newline ∷ []) s
                (read_line from_utf8 memchr read fuel (b, old ++ newline ∷ [])))
            done (read_line-ReadsLine fuel (old ++ newline ∷ []) b valid room enough))
        ∙ strip_line-append old
