-- ===== src/Io/BufWriter/Seek.antt =====
-- src/async_std/io/buf_writer.rs: seeking.
pub mod Drops
mod Tests
use xx_core.Base.{
  ℕ, ◌+◌, ◌-◌, Bool, true, false, not, Option, none, some, List, leb, ltb, ◌||◌, if◌then◌else◌,
  length,
}
use xx_core.Base.Int.{ℤ, pos, negsuc, checked_add_unsigned, from_pattern, checked_add_signed}
use xx_core.Base.Outcome.{Outcome, ok, err, panic, out_of_fuel, M, and_then}
use xx_core.Uint
use xx_core.Io.Seek.{SeekFrom, from_start, current, from_end, Seeker}
use xx_core.Io.BufWriter.{BufWriter, buffer, on_writer, flush_buf}

module _ {W : Type 0} (half : ℕ) (write : List ℕ → M W ℕ) (k : Seeker W) where
  -- The sum with the length of the whole store is checked.
  pub stream_position : M (BufWriter W) ℕ
  stream_position b = and_then (on_writer (Seeker.stream_position k) b) (λ at c.
      if ltb (at + length c.store) (half + half) then (ok (at + length c.store), c) else (panic, c))

  pub seek_inner : SeekFrom → M (BufWriter W) ℕ
  seek_inner to b = and_then (flush_buf write b) (λ _ c. on_writer (Seeker.seek k to) c)

  -- The new end of the buffered range, when it is from `start` to `end`.
  abbrev pub relative_end : ℤ → BufWriter W → Option ℕ
  relative_end z b = elim (checked_add_unsigned half z b.start) [
    | none ↦ none
    | some (negsuc n) ↦ none
    | some (pos n) ↦ if ltb n b.start || ltb b.end n then none else some n
  ]

  pub seek_relative : ℤ → M (BufWriter W) ℕ
  seek_relative z b = elim (relative_end z b) [
    | some n ↦ stream_position (record b { end = n })
    | none ↦ seek_inner (current z) b
  ]

  pub seek_abs : ℕ → SeekFrom → M (BufWriter W) ℕ
  seek_abs abs to b = and_then (stream_position b) (λ at c.
      elim (Uint.checked_signed_diff half abs at) [
        | some rel ↦ seek_relative (from_pattern half rel) c
        | none ↦ seek_inner to c
      ])

  pub seek : SeekFrom → M (BufWriter W) ℕ
  seek (current z) b = seek_relative z b
  seek (from_start p) b =
      if not (Seeker.stream_position_fast k)
      then seek_inner (from_start p) b
      else seek_abs p (from_start p) b
  seek (from_end z) b =
      if not (Seeker.stream_position_fast k)
      then seek_inner (from_end z) b
      else if not (Seeker.stream_len_fast k)
      then seek_inner (from_end z) b
      else and_then (on_writer (Seeker.stream_len k) b) (λ len c.
        elim (checked_add_signed half len z) [
          | none ↦ (panic, c)
          | some abs ↦ seek_abs abs (from_end z) c
        ])
