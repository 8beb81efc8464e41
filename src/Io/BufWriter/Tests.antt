-- ===== src/Io/BufWriter/Tests.antt =====
-- `BufWriter` at concrete buffers.
use xx_core.Base.{ℕ, List, [], ◌∷◌, arith}
use xx_core.Io.Contract.{Writes}
use xx_core.Io.BufWriter
use xx_core.Io.BufWriter.{BufWriter}
use xx_core.Io.BufWriter.Flush
use xx_core.Io.BufWriter.Writer
use xx_core.Io.BufWriter.Pipe
use xx_core.Io.ListStream.{
  list_read, list_write, list_flush, Any, whole, list_read-IsReader, list_write-IsWriter,
  list_flush-IsFlush,
}

abbrev writer : BufWriter (List ℕ)
writer = record { store = 1 ∷ 2 ∷ 3 ∷ []; start = 0; end = 3; writer = 9 ∷ [] }

writer-IsValid : Flush.IsValidWriter Any whole writer
writer-IsValid = (record { ordered = omega arith; bounded = omega arith }, tt)

write_through-IsWriter_example :
    Writes
      (Flush.IsValidWriter Any whole)
      (Flush.accepted Any whole)
      (4 ∷ 5 ∷ [])
      (Flush.accepted Any whole writer)
      (BufWriter.write_through list_write (4 ∷ 5 ∷ []) writer)
write_through-IsWriter_example =
    Writer.write_through-IsWriter Any whole list_write list_write-IsWriter (4 ∷ 5 ∷ []) writer
      writer-IsValid

pipe_from-PipesAll_example :
    Pipe.PipesAll Any whole Any whole
      (Flush.accepted Any whole writer)
      (4 ∷ 5 ∷ [])
      (BufWriter.pipe_from list_write list_flush list_read 3 (writer, 4 ∷ 5 ∷ []))
pipe_from-PipesAll_example =
    Pipe.pipe_from-PipesAll Any whole list_write list_flush list_write-IsWriter list_flush-IsFlush
      Any whole list_read list_read-IsReader 3 writer (4 ∷ 5 ∷ []) writer-IsValid tt (omega arith)
