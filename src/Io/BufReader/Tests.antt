-- ===== src/Io/BufReader/Tests.antt =====
-- `BufReader` at concrete buffers.
use mathlib.Core.Path.{refl}
use xx_core.Base.{ℕ, ◌≡◌, none, some, List, [], ◌∷◌, arith}
use xx_core.Base.Slices.{slice, write_at}
use xx_core.Base.Outcome.{ok}
use xx_core.Io.Contract.{Reads}
use xx_core.Io.BufReader
use xx_core.Io.BufReader.{BufReader}
use xx_core.Io.BufReader.Fill
use xx_core.Io.BufReader.Reader
use xx_core.Io.BufReader.Until
use xx_core.Io.ListStream.{list_read, Any, whole, list_read-IsReader, find_byte, find_byte-Finds}

-- Five bytes of room, of which 1..3 are buffered.
abbrev reader : BufReader (List ℕ)
reader = record { store = 9 ∷ 7 ∷ 8 ∷ 0 ∷ 0 ∷ []; start = 1; end = 3; reader = 5 ∷ 6 ∷ 10 ∷ 4 ∷ [] }

reader-IsValid : Fill.IsValidReader Any whole reader
reader-IsValid = (record { ordered = omega arith; bounded = omega arith }, tt)

read_buffered-IsReader_example :
    Reads
      (Fill.IsValidReader Any whole)
      (Fill.stream Any whole)
      4
      (Fill.stream Any whole reader)
      (BufReader.read_buffered list_read 4 reader)
read_buffered-IsReader_example =
    Reader.read_buffered-IsReader Any whole list_read list_read-IsReader 4 reader reader-IsValid

read_until-Appends_example :
    Until.Appends Any whole list_read 10
      (1 ∷ [])
      (Fill.stream Any whole reader)
      (BufReader.read_until find_byte list_read 9 10 (reader, 1 ∷ []))
read_until-Appends_example =
    Until.read_until-Appends Any whole list_read list_read-IsReader find_byte find_byte-Finds 9 10
      (1 ∷ []) reader reader-IsValid (omega arith) (omega arith)

read_until_runs : (BufReader.read_until find_byte list_read 9 10 (reader, 1 ∷ [])).0 ≡ ok (some 5)
unfolding find_byte list_read BufReader.read_until BufReader.read_until_loop BufReader.consume
    BufReader.fill BufReader.fill_amount BufReader.fill_at BufReader.fill_buf_range
    BufReader.move_data_to_beginning slice write_at
read_until_runs = refl

abbrev no_room : BufReader (List ℕ)
no_room = record { store = []; start = 0; end = 0; reader = 1 ∷ [] }

-- Without room for a byte there seems to be no more.
no_room_reads_nothing :
    BufReader.read_until find_byte list_read 9 10 (no_room, []) ≡ (ok none, (no_room, []))
unfolding find_byte list_read BufReader.read_until BufReader.read_until_loop BufReader.consume
    BufReader.fill BufReader.fill_amount BufReader.fill_at BufReader.fill_buf_range
    BufReader.move_data_to_beginning slice write_at
no_room_reads_nothing = refl
