-- ===== src/Io/Typed/Tests.antt =====
-- Runs of the typed reads and writes over lists.
use xx_core.Base.{ℕ, ◌≡◌, refl, true, false, none, some, List, [], ◌∷◌, arith}
use xx_core.Base.Slices.{slice}
use xx_core.Base.Outcome.{ok, err, panic, unexpected_eof}
use xx_core.Io.ListStream.{
  never, list_read, list_write, Any, whole, list_read-IsReader, list_write-IsWriter,
}
use xx_core.Io.BufReader
use xx_core.Io.BufReader.{BufReader, read_buffered}
use xx_core.Io.BufReader.Fill.{stream, IsValidReader}
use xx_core.Io.Transfer.{try_read_fully, read_loop, try_write_all, write_loop}
use xx_core.Io.Typed.{
  into_bytes, vint_from_bytes, read_bytes, read_bytes_n, try_read_type, read_type, read_vint,
  buf_get_bytes, buf_read_type, read_vint_fast, write_type,
}
use xx_core.Io.Typed.Numbers.{AllBytes}
use xx_core.Io.Typed.Values.{Gives, read_vint_fast-Gives}
use xx_core.Io.Typed.Same.{read_vint_fast-read_vint}
use xx_core.Io.Typed.RoundTrip.{ReadsBack, buf_read_type-write_type}

abbrev five : List ℕ
five = 1 ∷ 2 ∷ 3 ∷ 4 ∷ 5 ∷ []

abbrev buffered : BufReader (List ℕ)
buffered = record { store = five; start = 0; end = 5; reader = 6 ∷ [] }

abbrev nearly_empty : BufReader (List ℕ)
nearly_empty = record { store = 1 ∷ 0 ∷ []; start = 0; end = 1; reader = 2 ∷ 3 ∷ [] }

-- The bytes 1, 2 and 3.
abbrev number : ℕ
number = 66051

buffered-IsValid : IsValidReader Any whole buffered
buffered-IsValid = (record { ordered = omega arith; bounded = omega arith }, tt)

buffered-AllBytes : AllBytes (stream Any whole buffered)
unfolding slice
buffered-AllBytes =
    (omega arith, (omega arith, (omega arith, (omega arith, (omega arith, (omega arith, tt))))))

three_bytes_big : (read_vint list_read never 9 4 3 false five).0 ≡ ok (some 66051)
unfolding read_vint read_bytes try_read_fully read_loop list_read vint_from_bytes
three_bytes_big = refl

three_bytes_little : (read_vint_fast list_read never 9 4 3 true buffered).0 ≡ ok (some 197121)
unfolding read_vint_fast buf_get_bytes BufReader.consume vint_from_bytes slice
three_bytes_little = refl

too_large : (read_vint list_read never 9 4 5 true five).0 ≡ panic
unfolding read_vint
too_large = refl

too_short : (read_type list_read never 9 true 8 five).0 ≡ err unexpected_eof
unfolding read_type try_read_type read_bytes_n read_bytes try_read_fully read_loop list_read
too_short = refl

at_the_end : (try_read_type list_read never 9 true 8 []).0 ≡ ok none
unfolding try_read_type read_bytes_n read_bytes try_read_fully read_loop list_read
at_the_end = refl

read_vint_fast-Gives_example :
    Gives
      (IsValidReader Any whole)
      (stream Any whole)
      (1 ∷ 2 ∷ 3 ∷ 4 ∷ 5 ∷ 6 ∷ [])
      false
      3
      (read_vint_fast list_read never 4 4 3 false buffered)
unfolding slice
read_vint_fast-Gives_example =
    read_vint_fast-Gives Any whole list_read never list_read-IsReader 4 4 3 false buffered
      buffered-IsValid buffered-AllBytes (omega arith) (omega arith)

read_vint_fast-read_vint_example :
    (number ≡ number)
    × (stream Any whole ((read_vint_fast list_read never 4 4 3 false buffered).1)
        ≡ stream Any whole ((read_vint (read_buffered list_read) never 4 4 3 false buffered).1))
unfolding slice read_vint read_vint_fast read_bytes try_read_fully read_loop list_read
    vint_from_bytes buf_get_bytes BufReader.consume BufReader.read_buffered BufReader.read_into
read_vint_fast-read_vint_example =
    read_vint_fast-read_vint Any whole list_read never list_read-IsReader 4 4 3 number number false
      buffered buffered-IsValid buffered-AllBytes (omega arith) (omega arith) refl refl

wrote : write_type list_write never 9 false 3 66051 (7 ∷ []) ≡ (ok 3, 7 ∷ 1 ∷ 2 ∷ 3 ∷ [])
unfolding write_type try_write_all write_loop list_write into_bytes
wrote = refl

buf_read_type-write_type_example :
    ReadsBack
      (IsValidReader Any whole)
      (stream Any whole)
      197121
      []
      (buf_read_type list_read never 9 true 3 nearly_empty)
unfolding write_type try_write_all write_loop list_write into_bytes slice
buf_read_type-write_type_example =
    buf_read_type-write_type Any whole list_write never list_write-IsWriter Any whole list_read
      list_read-IsReader never 9 3 197121 true (7 ∷ []) nearly_empty [] (omega arith) (omega arith)
      tt refl (record { ordered = omega arith; bounded = omega arith }, tt) refl
