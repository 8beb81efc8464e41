-- ===== src/Io/Scatter/Tests.antt =====
-- Reads of a list into three slices.
use xx_core.Base.{ℕ, ◌≡◌, refl, arith, List, [], ◌∷◌}
use xx_core.Base.Outcome.{ok, err, unexpected_eof}
use xx_core.Io.ListStream.{never, list_read, Any, whole, list_read-IsReader}
use xx_core.Io.Scatter.{default_read_vectored, read_fully_vectored, read_vectored}
use xx_core.Io.Scatter.Full.{FillsSlices, read_fully_vectored-FillsSlices}

abbrev slices : List (List ℕ)
slices = (0 ∷ []) ∷ [] ∷ (0 ∷ 0 ∷ []) ∷ []

abbrev four : List ℕ
four = 1 ∷ 2 ∷ 3 ∷ 4 ∷ []

filled :
    read_fully_vectored (read_vectored list_read) never 4 slices (four, [])
    ≡ (ok 3, (4 ∷ [], 1 ∷ 2 ∷ 3 ∷ []))
unfolding read_fully_vectored default_read_vectored list_read
filled = refl

too_few :
    read_fully_vectored (read_vectored list_read) never 4 slices (1 ∷ 2 ∷ [], [])
    ≡ (err unexpected_eof, ([], 1 ∷ 2 ∷ []))
unfolding read_fully_vectored default_read_vectored list_read
too_few = refl

read_fully_vectored-FillsSlices_example :
    FillsSlices Any whole list_read list_read-IsReader never four 3
      (read_fully_vectored (read_vectored list_read) never 4 slices (four, []))
read_fully_vectored-FillsSlices_example =
    read_fully_vectored-FillsSlices Any whole list_read list_read-IsReader never 4 slices four tt
      (omega arith)

-- Slices that are all empty are not taken away before the first read.
nothing_to_read :
    read_fully_vectored (read_vectored list_read) never 4 ([] ∷ []) (four, [])
    ≡ (err unexpected_eof, (four, []))
unfolding read_fully_vectored default_read_vectored
nothing_to_read = refl
