-- ===== src/Io/BufReader/Seek/Tests.antt =====
-- A seek of a buffered reader over a stream that is its position.
use xx_core.Base.{ℕ, ◌≡◌, refl, List, [], ◌∷◌}
use xx_core.Base.Int.{negsuc}
use xx_core.Base.Slices.{slice}
use xx_core.Base.Outcome.{ok}
use xx_core.Io.Seek.{current}
use xx_core.Io.FileStream.{file_seeker}
use xx_core.Io.BufReader.{BufReader}
use xx_core.Io.BufReader.Seek.{seek, seek_relative, stream_position}
use xx_core.Io.BufReader.Seek.Shows.{Shows}

abbrev byte_file : List ℕ
byte_file = 5 ∷ 6 ∷ 7 ∷ 8 ∷ []

-- Three bytes were read, and one of them was taken.
abbrev one_taken : BufReader ℕ
one_taken = record { store = 5 ∷ 6 ∷ 7 ∷ 0 ∷ []; start = 1; end = 3; reader = 3 }

back_by_one :
    seek 128 file_seeker (current (negsuc 0)) one_taken ≡ (ok 0, record one_taken { start = 0 })
unfolding seek seek_relative stream_position slice
back_by_one = refl
