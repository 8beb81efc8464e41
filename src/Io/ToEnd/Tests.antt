-- ===== src/Io/ToEnd/Tests.antt =====
-- Runs of `read_to_end` over lists, and over a reader that fails.
use xx_core.Base.{ℕ, ◌+◌, ◌<◌, ◌≡◌, refl, List, [], ◌∷◌, length, arith}
use xx_core.Base.Slices.{write_at}
use xx_core.Base.Outcome.{ok, err, raised, M}
use xx_core.Io.Contract.{IsReader}
use xx_core.Io.ListStream.{never, list_read, Any, whole, list_read-IsReader}
use xx_core.Io.ToEnd.{Vec, read_to_end, read_to_end_loop}
use xx_core.Io.ToEnd.Holds.{Grows}
use xx_core.Io.ToEnd.Ends.{Ends, read_to_end-Ends, read_to_end-lengthens}

abbrev exact : ℕ → ℕ → ℕ
exact len more = len + more

exact-Grows : Grows exact
exact-Grows len more = omega arith

abbrev two_bytes : Vec
two_bytes = record { bytes = 1 ∷ 2 ∷ []; capacity = 4 }

-- The two bytes of room are filled, and the probe has the third.
three_more :
    read_to_end list_read exact never 5 (7 ∷ 8 ∷ 9 ∷ [], two_bytes)
    ≡ (ok 3, ([], record { bytes = 1 ∷ 2 ∷ 7 ∷ 8 ∷ 9 ∷ []; capacity = 5 + 32 }))
unfolding read_to_end read_to_end_loop list_read write_at
three_more = refl

read_to_end-Ends_example :
    Ends Any whole list_read exact never
      (1 ∷ 2 ∷ [])
      (7 ∷ 8 ∷ 9 ∷ [])
      (read_to_end list_read exact never 5 (7 ∷ 8 ∷ 9 ∷ [], two_bytes))
read_to_end-Ends_example =
    read_to_end-Ends Any whole list_read exact never list_read-IsReader exact-Grows 5
      (7 ∷ 8 ∷ 9 ∷ []) two_bytes tt (omega arith) (omega arith)

unfoldable failing_read : ℕ → M (List ℕ) (List ℕ)
failing_read n s = (err (raised 5), s)

failing_read-IsReader : IsReader Any whole failing_read
unfolding failing_read
failing_read-IsReader n s v = (tt, refl)

failing_read_lem : (n : ℕ) → failing_read n (7 ∷ []) ≡ (err (raised 5), 7 ∷ [])
unfolding failing_read
failing_read_lem n = refl

read_to_end-lengthens_example :
    ((read_to_end failing_read exact never 3 (7 ∷ [], two_bytes)).0 ≡ err (raised 5))
    × (length (Vec.bytes two_bytes)
        < length (Vec.bytes (read_to_end failing_read exact never 3 (7 ∷ [], two_bytes)).1.1))
read_to_end-lengthens_example =
    read_to_end-lengthens Any whole failing_read exact never failing_read-IsReader exact-Grows 2
      (7 ∷ []) (7 ∷ []) two_bytes (raised 5) tt (omega arith) refl failing_read_lem refl
