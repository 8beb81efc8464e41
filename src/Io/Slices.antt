-- ===== src/Io/Slices.antt =====
-- src/io/mod.rs and src/async_std/io/mod.rs: copies between slices, and the checks on byte counts.
use xx_core.Base.{ℕ, min, List, length, take, leb}
use xx_core.Base.Outcome.{M, assert, pure, ◌>>◌}

-- The bytes that `read_into_slice` copies into a buffer of `room` bytes; it returns their number.
abbrev pub read_into_slice : ℕ → List ℕ → List ℕ
read_into_slice room src = take (min room (length src)) src

-- `length_check(buf, len)` for a buffer of `room` bytes.
abbrev pub length_check : {S : Type 0} → ℕ → ℕ → M S ℕ
length_check room len = assert (leb len room) >> pure len
