-- ===== src/Io/Lines/Tests.antt =====
-- Runs of `Lines` and `read_line` over lists.
use xx_core.Base.{ℕ, ◌≡◌, refl, Bool, true, ◌&&◌, not, ◌==◌, List, [], ◌∷◌, ◌++◌, arith}
use xx_core.Base.Slices.{slice, write_at}
use xx_core.Base.Outcome.{err}
use xx_core.Io.ListStream.{list_read, Any, whole, list_read-IsReader, find_byte, find_byte-Finds}
use xx_core.Io.BufReader
use xx_core.Io.BufReader.{BufReader}
use xx_core.Io.BufReader.Fill
use xx_core.Io.Lines.{newline, invalid_utf8, strip_line, append_to_string, read_line, next, collect}
use xx_core.Io.Lines.Strip.{strip_return, read_line-shortens}
use xx_core.Io.Lines.Iterate.{Collects, collect-Collects}

abbrev all_valid : List ℕ → Bool
all_valid bs = true

-- "a", "", "b" and "c", of which the first and the third end with a carriage return, and the last with
-- the stream.
abbrev reader : BufReader (List ℕ)
reader = record {
  store = b'a' ∷ 13 ∷ 10 ∷ 0 ∷ [];
  start = 0;
  end = 3;
  reader = 10 ∷ b'b' ∷ 13 ∷ 10 ∷ b'c' ∷ [];
}

reader-IsValid : Fill.IsValidReader Any whole reader
reader-IsValid = (record { ordered = omega arith; bounded = omega arith }, tt)

lines_of_reader :
    (collect all_valid find_byte list_read 9 9 reader).0
    ≡ (b'a' ∷ []) ∷ [] ∷ (b'b' ∷ []) ∷ (b'c' ∷ []) ∷ []
unfolding collect next read_line append_to_string strip_line find_byte list_read
    BufReader.read_until BufReader.read_until_loop BufReader.consume BufReader.fill
    BufReader.fill_amount BufReader.fill_at BufReader.fill_buf_range
    BufReader.move_data_to_beginning slice write_at
lines_of_reader = refl

abbrev lacks_b : List ℕ → Bool
lacks_b [] = true
lacks_b (x ∷ xs) = not (x == b'b') && lacks_b xs

-- The lines before one that is not valid are given, and the error.
lines_before_error : (collect lacks_b find_byte list_read 9 9 reader) ≡ (
  (b'a' ∷ []) ∷ [] ∷ [],
  err invalid_utf8,
  record { store = 10 ∷ b'b' ∷ 13 ∷ 10 ∷ []; start = 4; end = 4; reader = b'c' ∷ [] },
)
unfolding collect next read_line append_to_string strip_line find_byte list_read
    BufReader.read_until BufReader.read_until_loop BufReader.consume BufReader.fill
    BufReader.fill_amount BufReader.fill_at BufReader.fill_buf_range
    BufReader.move_data_to_beginning slice write_at
lines_before_error = refl

collect-Collects_example :
    Collects Any whole all_valid list_read find_byte
      (Fill.stream Any whole reader)
      (collect all_valid find_byte list_read 9 9 reader)
unfolding slice
collect-Collects_example =
    collect-Collects Any whole all_valid list_read find_byte list_read-IsReader find_byte-Finds 9 9
      reader reader-IsValid (omega arith) (omega arith) (omega arith)

abbrev at_end : BufReader (List ℕ)
at_end = record { store = 0 ∷ 0 ∷ []; start = 0; end = 0; reader = [] }

read_line-shortens_example :
    (read_line all_valid find_byte list_read 2 (at_end, (b'a' ∷ []) ++ newline ∷ [])).1.1
    ≡ strip_return (b'a' ∷ [])
unfolding slice
read_line-shortens_example =
    read_line-shortens Any whole all_valid list_read list_read-IsReader find_byte find_byte-Finds 2
      (b'a' ∷ []) at_end (record { ordered = omega arith; bounded = omega arith }, tt) (omega arith)
      refl (omega arith)
