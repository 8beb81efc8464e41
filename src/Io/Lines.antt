-- ===== src/Io/Lines.antt =====
-- src/async_std/io/read.rs: `append_to_string`, `read_line` and the iterator
-- `Lines`. A string is its bytes; `from_utf8`, which says whether bytes are valid UTF-8, is an argument.
pub mod Strip
pub mod Iterate
mod Tests
use xx_core.Base.{
  ℕ, zero, suc, Bool, true, false, Option, none, some, List, [], ◌∷◌, ◌==◌, if◌then◌else◌, length,
  take, drop,
}
use mathlib.Core.Option
use xx_core.Base.Outcome.{Outcome, ok, err, panic, out_of_fuel, IoError, raised, M}
use xx_core.Io.BufReader.{BufReader, read_until}

abbrev pub newline : ℕ
newline = b'\n'

abbrev pub carriage_return : ℕ
carriage_return = b'\r'

-- The error of `from_utf8`.
abbrev pub invalid_utf8 : IoError
invalid_utf8 = raised 1

abbrev pub ends_with : ℕ → List ℕ → Bool
ends_with c [] = false
ends_with c (x ∷ []) = x == c
ends_with c (x ∷ (y ∷ ys)) = ends_with c (y ∷ ys)

abbrev pub pop : List ℕ → List ℕ
pop [] = []
pop (x ∷ []) = []
pop (x ∷ (y ∷ ys)) = x ∷ pop (y ∷ ys)

module _ {S : Type 0} (from_utf8 : List ℕ → Bool) where
  -- What the guard leaves of the buffer, whose length was `len`.
  abbrev pub guarded : ℕ → Outcome (Option ℕ) × (S × List ℕ) → Outcome (Option ℕ) × (S × List ℕ)
  guarded len (ok none, (s, buf)) = (ok none, (s, take len buf))
  guarded len (ok (some n), (s, buf)) =
      if from_utf8 (drop len buf)
      then (ok (some n), (s, buf))
      else (err invalid_utf8, (s, take len buf))
  guarded len (err e, (s, buf)) = (err e, (s, take len buf))
  guarded len (panic, (s, buf)) = (panic, (s, take len buf))
  guarded len (out_of_fuel, (s, buf)) = (out_of_fuel, (s, buf))

  pub append_to_string : M (S × List ℕ) (Option ℕ) → M (S × List ℕ) (Option ℕ)
  append_to_string read (s, buf) = guarded (length buf) (read (s, buf))

-- The line ending is stripped.
pub strip_line : List ℕ → List ℕ
strip_line buf =
    if ends_with newline buf
    then (if ends_with carriage_return (pop buf) then pop (pop buf) else pop buf)
    else buf

module _ {R : Type 0} (from_utf8 : List ℕ → Bool) (memchr : ℕ → List ℕ → Option ℕ)
    (read : ℕ → M R (List ℕ)) where
  -- The rest of the function runs whatever was read.
  abbrev pub stripped :
      Outcome (Option ℕ) × (BufReader R × List ℕ) → Outcome (Option ℕ) × (BufReader R × List ℕ)
  stripped (o, (b, buf)) = (o, (b, strip_line buf))

  pub read_line : ℕ → M (BufReader R × List ℕ) (Option ℕ)
  read_line fuel s = stripped (append_to_string from_utf8 (read_until memchr read fuel newline) s)

  -- `Lines::next`: none at the end, and else the line or the error.
  abbrev pub item :
      Outcome (Option ℕ) × (BufReader R × List ℕ) → Option (Outcome (List ℕ)) × BufReader R
  item (ok none, (b, line)) = (none, b)
  item (ok (some n), (b, line)) = (some (ok line), b)
  item (err e, (b, line)) = (some (err e), b)
  item (panic, (b, line)) = (some panic, b)
  item (out_of_fuel, (b, line)) = (some out_of_fuel, b)

  pub next : ℕ → BufReader R → Option (Outcome (List ℕ)) × BufReader R
  next fuel b = item (read_line fuel (b, []))

  -- What a client has that calls `next` up to the end or the first error: the lines it was given, how
  -- the iteration ended, and the reader.
  abbrev pub Given : Type 0
  Given = List (List ℕ) × Outcome (Unit {0}) × BufReader R

  abbrev pub and_line : List ℕ → Given → Given
  and_line line (lines, o, b) = (line ∷ lines, o, b)

  abbrev pub collected : Option (Outcome (List ℕ)) × BufReader R → (BufReader R → Given) → Given
  collected (none, b) rest = ([], ok tt, b)
  collected (some (ok line), b) rest = and_line line (rest b)
  collected (some (err e), b) rest = ([], err e, b)
  collected (some panic, b) rest = ([], panic, b)
  collected (some out_of_fuel, b) rest = ([], out_of_fuel, b)

  pub collect : ℕ → ℕ → BufReader R → Given
  collect zero fuel b = ([], out_of_fuel, b)
  collect (suc rounds) fuel b = collected (next fuel b) (collect rounds fuel)
