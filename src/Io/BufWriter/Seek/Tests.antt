-- ===== src/Io/BufWriter/Seek/Tests.antt =====
-- A seek to the current position of a writer that holds two bytes.
use xx_core.Base.{ℕ, ◌≡◌, refl, arith, true, List, [], ◌∷◌, length}
use xx_core.Base.Int.{pos}
use xx_core.Base.Outcome.{ok, M}
use xx_core.Io.Seek.{current, Seeker}
use xx_core.Io.ListStream.{list_write, whole}
use xx_core.Io.BufWriter.{BufWriter, IsValid, buffer}
use xx_core.Io.BufWriter.Seek.{seek}
use xx_core.Io.BufWriter.Seek.Drops.{seek-buffer}

-- The writer's state is what was sent; it stands behind that.
abbrev list_length : M (List ℕ) ℕ
list_length s = (ok (length s), s)

abbrev list_seeker : Seeker (List ℕ)
list_seeker = record {
  seek = λ to. list_length;
  stream_position = list_length;
  stream_len = list_length;
  stream_position_fast = true;
  stream_len_fast = true;
}

abbrev two_held : BufWriter (List ℕ)
two_held = record { store = 8 ∷ 9 ∷ 0 ∷ []; start = 0; end = 2; writer = 7 ∷ [] }

two_held-IsValid : IsValid two_held
two_held-IsValid = record { ordered = omega arith; bounded = omega arith }

seek-buffer_example :
    (buffer (seek 128 list_write list_seeker (current (pos 0)) two_held).1 ≡ [])
    × (BufWriter.writer (seek 128 list_write list_seeker (current (pos 0)) two_held).1 ≡ 7 ∷ [])
seek-buffer_example =
    seek-buffer 128 list_write list_seeker whole (λ w. refl) two_held two_held-IsValid (omega arith)
