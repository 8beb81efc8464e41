-- ===== src/Io/Transfer/Tests.antt =====
-- Runs of the loops over lists.
use xx_core.Base.{ℕ, ◌≡◌, refl, arith, List, [], ◌∷◌}
use xx_core.Base.Outcome.{ok, err, unexpected_eof}
use xx_core.Io.ListStream.{
  never, list_read, list_write, Any, whole, list_read-IsReader, list_write-IsWriter,
}
use xx_core.Io.Transfer.{
  try_read_fully, read_fully, read_loop, write_loop, try_write_all, write_all,
}
use xx_core.Io.Transfer.Reading.{Completes, read_fully-Completes}
use xx_core.Io.Transfer.Writing.{SendsAll, write_all-SendsAll}

abbrev three : List ℕ
three = 4 ∷ 5 ∷ 6 ∷ []

read_short : read_fully list_read never 6 5 (three, []) ≡ (err unexpected_eof, ([], three))
unfolding read_fully try_read_fully read_loop list_read
read_short = refl

written : write_all list_write never 4 three [] ≡ (ok 3, three)
unfolding write_all try_write_all write_loop list_write
written = refl

read_fully-Completes_example :
    Completes Any whole list_read never list_read-IsReader three 2
      (read_fully list_read never 3 2 (three, []))
read_fully-Completes_example =
    read_fully-Completes Any whole list_read never list_read-IsReader 3 2 three tt (omega arith)

write_all-SendsAll_example :
    SendsAll Any whole list_write never list_write-IsWriter [] three
      (write_all list_write never 4 three [])
write_all-SendsAll_example =
    write_all-SendsAll Any whole list_write never list_write-IsWriter 4 three [] tt (omega arith)
