-- ===== src/Io/BufReader/Seek.antt =====
-- src/async_std/io/buf_reader.rs: seeking, in the buffer where the target is in it.
pub mod Moves
pub mod Shows
pub mod Stands
mod Tests
use xx_core.Base.{
  ℕ, ◌+◌, ◌-◌, Bool, true, false, not, Option, none, some, leb, ltb, if◌then◌else◌, length,
}
use xx_core.Base.Int.{
  ℤ, pos, negsuc, checked_add_unsigned, checked_sub_pos, from_pattern, checked_add_signed, minus,
}
use xx_core.Base.Outcome.{Outcome, ok, err, panic, out_of_fuel, M, and_then}
use xx_core.Uint
use xx_core.Io.Seek.{SeekFrom, from_start, current, from_end, Seeker}
use xx_core.Io.BufReader.{BufReader, buffer, discard, on_reader}

module _ {R : Type 0} (half : ℕ) (k : Seeker R) where
  -- `stream_position`, whose subtraction is checked.
  pub stream_position : M (BufReader R) ℕ
  stream_position b =
      and_then (on_reader (Seeker.stream_position k) b) (λ at c.
        if leb (length (buffer c)) at then (ok (at - length (buffer c)), c) else (panic, c))

  -- The last seek of `seek_inner`, whatever comes of it.
  pub seek_discard : SeekFrom → M (BufReader R) ℕ
  seek_discard to b = let (out, c) = on_reader (Seeker.seek k to) b in (out, discard c)

  -- `seek_inner`
  pub seek_inner : SeekFrom → M (BufReader R) ℕ
  seek_inner (from_start p) b = seek_discard (from_start p) b
  seek_inner (from_end z) b = seek_discard (from_end z) b
  seek_inner (current z) b = elim (checked_sub_pos half z (length (buffer b))) [
    | some less ↦ seek_discard (current less) b
    | none ↦
        and_then (on_reader (Seeker.seek k (current (minus (length (buffer b))))) b)
          (λ _ c. seek_discard (current z) c)
  ]

  -- `seek_relative` in the buffer, when the position in it is from 0 to `end`.
  abbrev pub relative_start : ℤ → BufReader R → Option ℕ
  relative_start z b = elim (checked_add_unsigned half z b.start) [
    | none ↦ none
    | some (negsuc n) ↦ none
    | some (pos n) ↦ if leb n b.end then some n else none
  ]

  pub seek_relative : ℤ → M (BufReader R) ℕ
  seek_relative z b = elim (relative_start z b) [
    | some n ↦ stream_position (record b { start = n })
    | none ↦ seek_inner (current z) b
  ]

  pub seek_abs : ℕ → SeekFrom → M (BufReader R) ℕ
  seek_abs abs to b = and_then (stream_position b) (λ at c.
      elim (Uint.checked_signed_diff half abs at) [
        | some rel ↦ seek_relative (from_pattern half rel) c
        | none ↦ seek_inner to c
      ])

  pub seek : SeekFrom → M (BufReader R) ℕ
  seek (current z) b = seek_relative z b
  seek (from_start p) b =
      if not (Seeker.stream_position_fast k)
      then seek_inner (from_start p) b
      else seek_abs p (from_start p) b
  seek (from_end z) b =
      if not (Seeker.stream_position_fast k)
      then seek_inner (from_end z) b
      else if not (Seeker.stream_len_fast k)
      then seek_inner (from_end z) b
      else and_then (on_reader (Seeker.stream_len k) b) (λ len c.
        elim (checked_add_signed half len z) [
          | none ↦ (panic, c)
          | some abs ↦ seek_abs abs (from_end z) c
        ])
