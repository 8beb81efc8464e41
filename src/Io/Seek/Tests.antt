-- ===== src/Io/Seek/Tests.antt =====
-- Rewinds and skips of a stream at a width of eight bits.
use xx_core.Base.{◌≡◌, refl, arith}
use xx_core.Base.Outcome.{ok}
use xx_core.Io.FileStream.{at_position, four_long, file_seeker, file_seeker-IsSeeker}
use xx_core.Io.Seek.{rewind_amount, skip_loop, skip_amount}
use xx_core.Io.Seek.Amounts.{Skips, skip_amount-Skips}

rewound : rewind_amount 128 file_seeker 200 230 ≡ (ok 30, 30)
unfolding rewind_amount
rewound = refl

skipped_back : skip_amount 128 file_seeker 200 100 ≡ (ok 44, 44)
unfolding skip_amount skip_loop
skipped_back = refl

skip_amount-Skips_example :
    Skips 128 at_position four_long file_seeker file_seeker-IsSeeker 100 200
      (skip_amount 128 file_seeker 200 100)
skip_amount-Skips_example =
    skip_amount-Skips 128 at_position four_long file_seeker file_seeker-IsSeeker 100 200
      (omega arith)
