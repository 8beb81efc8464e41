-- ===== src/Io/Vectored/Tests.antt =====
-- A writer that takes two bytes of its slices at a time.
use xx_core.Base.{ℕ, ◌≡◌, refl, arith, min, true, List, [], ◌∷◌, ◌++◌, length, take}
use xx_core.Base.Outcome.{ok, err, unexpected_eof, M}
use xx_core.Io.ListStream.{never, list_write, Any, whole, list_write-IsWriter}
use xx_core.Io.Vectored.All.{SendsSlices, write_all_vectored-SendsSlices}
use xx_core.Io.Vectored.{
  write_vectored, write_all_vectored, concat, advance_slices, default_write_vectored,
}
use xx_core.Io.Vectored.Loop.{IsVectoredWriter}

abbrev two_at_a_time : List (List ℕ) → M (List ℕ) ℕ
two_at_a_time bufs s =
    (ok (min 2 (length (concat bufs))), s ++ take (min 2 (length (concat bufs))) (concat bufs))

two_at_a_time-IsVectoredWriter : IsVectoredWriter Any whole two_at_a_time
two_at_a_time-IsVectoredWriter bufs w v = (tt, omega arith, refl)

abbrev slices : List (List ℕ)
slices = (1 ∷ []) ∷ [] ∷ (2 ∷ 3 ∷ 4 ∷ []) ∷ []

advanced : advance_slices slices 2 ≡ ok ((3 ∷ 4 ∷ []) ∷ [])
advanced = refl

all_written :
    default_write_vectored two_at_a_time 5 0 slices [] ≡ (ok (4, true), 1 ∷ 2 ∷ 3 ∷ 4 ∷ [])
unfolding default_write_vectored
all_written = refl

write_all_vectored-SendsSlices_example :
    SendsSlices Any whole list_write list_write-IsWriter []
      (concat slices)
      (write_all_vectored (write_vectored list_write) never 5 slices [])
write_all_vectored-SendsSlices_example =
    write_all_vectored-SendsSlices Any whole list_write list_write-IsWriter never 5 slices [] tt
      (omega arith)

-- Slices that are all empty are not taken away before the first write.
nothing_to_write :
    write_all_vectored (write_vectored list_write) never 5 ([] ∷ []) [] ≡ (err unexpected_eof, [])
unfolding write_all_vectored default_write_vectored
nothing_to_write = refl
