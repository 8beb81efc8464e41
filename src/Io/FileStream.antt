-- ===== src/Io/FileStream.antt =====
-- A stream to run the seeks of src/async_std/io/seek.rs on: its position in a file of four bytes.
use xx_core.Base.{
  ℕ, suc, ◌+◌, ◌-◌, ◌≡◌, ◌<◌, refl, arith, true, leb, ltb, if◌then◌else◌, Bool-cases, inl, inr,
  Option, none, some,
}
use xx_core.Base.Int.{ℤ, pos, negsuc, checked_add_signed, IsMoved}
use xx_core.Base.Outcome.{ok, err, raised, M}
use xx_core.Io.Seek.{SeekFrom, from_start, current, from_end, Seeker, IsSeeker, Sought, Target}
use xx_core.Io.BufReader.Seek.Moves.{checked_add_signed_lem}

abbrev pub at_position : ℕ → ℕ
at_position p = p

abbrev pub four_long : ℕ → ℕ
four_long p = 4

-- The reader's state is its position in a file of four bytes.
abbrev pub file_seek : SeekFrom → M ℕ ℕ
file_seek (from_start p) r = (ok p, p)
file_seek (current (pos n)) r = (ok (r + n), r + n)
file_seek (current (negsuc n)) r =
    if leb (suc n) r then (ok (r - suc n), r - suc n) else (err (raised 22), r)
file_seek (from_end z) r = elim (checked_add_signed 128 4 z) [
  | some p ↦ (ok p, p)
  | none ↦ (err (raised 22), r)
]

abbrev pub file_position : M ℕ ℕ
file_position r = if ltb r 256 then (ok r, r) else (err (raised 75), r)

abbrev pub file_seeker : Seeker ℕ
file_seeker = record {
  seek = file_seek;
  stream_position = file_position;
  stream_len = λ r. (ok 4, r);
  stream_position_fast = true;
  stream_len_fast = true;
}

summed-Sought :
    (to : SeekFrom) (r : ℕ) (u : ℕ) (z : ℤ) (o : Option ℕ)
    → u < 256
    → ((q : ℕ) → IsMoved u z q → Target r 4 to q)
    → checked_add_signed 128 u z ≡ o
    → Sought 128 at_position four_long r to
        (elim o [ some p ↦ (ok p, p) | none ↦ (err (raised 22), r) ])
summed-Sought to r u z none h t e = (refl, refl)
summed-Sought to r u z (some p) h t e = (t p (checked_add_signed_lem 128 u p z h e).0, refl, refl)

file_seek-Sought : (to : SeekFrom) (r : ℕ) → Sought 128 at_position four_long r to (file_seek to r)
file_seek-Sought (from_start p) r = (refl, refl, refl)
file_seek-Sought (current (pos n)) r = (refl, refl, refl)
file_seek-Sought (current (negsuc n)) r = elim (Bool-cases (leb (suc n) r)) [
  | inl t ↦ rw (t) (ground arith, refl, refl)
  | inr t ↦ rw (t) (refl, refl)
]
file_seek-Sought (from_end z) r =
    summed-Sought (from_end z) r 4 z (checked_add_signed 128 4 z) (omega arith) (λ q m. m) refl

pub file_seeker-IsSeeker : IsSeeker 128 at_position four_long file_seeker
file_seeker-IsSeeker = record {
  seeks = file_seek-Sought;
  positions = λ r. elim (Bool-cases (ltb r 256)) [
    | inl t ↦ rw (t) (refl, ground arith, refl, refl)
    | inr t ↦ rw (t) (refl, refl)
  ];
  lengths = λ r. (refl, omega arith, refl, refl);
}
