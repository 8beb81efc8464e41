-- ===== src/Io/Typed.antt =====
-- src/async_std/io/typed.rs and src/io/typed.rs: numbers of `N` bytes in either byte order, and those
-- of a variable size. A number, signed or not or a float, is its bit pattern, below 256 ^ N. A shift
-- by 8 * k bits is by a power of 256; `stops` says, in a state of the reader or the
-- writer, whether the task is interrupted.
pub mod Numbers
pub mod Values
pub mod Same
pub mod RoundTrip
mod Tests
use xx_core.Base.{
  ℕ, zero, suc, ◌+◌, ◌-◌, ◌*◌, ◌/◌, ◌%◌, ◌^◌, Bool, true, false, ◌&&◌, not, Option, none, some,
  List, [], ◌∷◌, ◌++◌, ltb, leb, ◌==◌, if◌then◌else◌, length, take, replicate,
}
use mathlib.Core.List.{reverse}
use xx_core.Base.Outcome.{
  Outcome, ok, err, panic, out_of_fuel, unexpected_eof, M, and_then, pure, throw, panics,
}
use xx_core.Io.Slices.{length_check}
use xx_core.Io.Transfer.{short_io_error_unless_interrupt, try_read_fully, try_write_all}
use xx_core.Io.BufReader.{BufReader, buffer, consume, read_buffered}

-- `to_le_bytes` and `from_le_bytes`.
abbrev pub to_le_bytes : ℕ → ℕ → List ℕ
to_le_bytes zero x = []
to_le_bytes (suc n) x = x % 256 ∷ to_le_bytes n (x / 256)

abbrev pub from_le_bytes : List ℕ → ℕ
from_le_bytes [] = 0
from_le_bytes (b ∷ bs) = b + 256 * from_le_bytes bs

-- `to_be_bytes` and `from_be_bytes`.
abbrev pub to_be_bytes : ℕ → ℕ → List ℕ
to_be_bytes n x = reverse (to_le_bytes n x)

abbrev pub be_value : ℕ → List ℕ → ℕ
be_value x [] = x
be_value x (b ∷ bs) = be_value (x * 256 + b) bs

abbrev pub from_be_bytes : List ℕ → ℕ
from_be_bytes bs = be_value 0 bs

-- `IntoBytes` and `FromBytes` of the types for little-endian numbers and the others.
pub into_bytes : Bool → ℕ → ℕ → List ℕ
into_bytes le n x = if le then to_le_bytes n x else to_be_bytes n x

pub from_bytes : Bool → List ℕ → ℕ
from_bytes le bs = if le then from_le_bytes bs else from_be_bytes bs

-- `[0u8; N]` with bytes at its front.
abbrev pub array : ℕ → List ℕ → List ℕ
array n bs = bs ++ replicate (n - length bs) 0

-- `vint_from_bytes`. The bits of `mask` are all ones from some bit down, so that `value & mask` is
-- the remainder by `mask + 1`.
pub vint_from_bytes : ℕ → List ℕ → ℕ → Bool → ℕ
vint_from_bytes n bytes size le =
    let shift = 256 ^ (n - size) in
    let mask = (256 ^ n - 1) / shift in
    if le then from_le_bytes bytes % (mask + 1) else from_be_bytes bytes / shift

module _ {R : Type 0} (read : ℕ → M R (List ℕ)) (stops : R → Bool) where
  abbrev pub checked_bytes : ℕ → Outcome ℕ × (R × List ℕ) → Outcome (ℕ × List ℕ) × R
  checked_bytes size (ok n, (r, got)) = and_then (length_check size n r) (λ k. λ s.
      if not (k == 0) && ltb k size
      then throw (short_io_error_unless_interrupt (stops s)) s
      else pure (k, got) s)
  checked_bytes size (err e, (r, got)) = (err e, r)
  checked_bytes size (panic, (r, got)) = (panic, r)
  checked_bytes size (out_of_fuel, (r, got)) = (out_of_fuel, r)

  -- The count that is returned, and the bytes that were put into the buffer.
  pub read_bytes : ℕ → ℕ → M R (ℕ × List ℕ)
  read_bytes fuel size r = checked_bytes size (try_read_fully read stops fuel size (r, []))

  -- `success.then_some(bytes)`
  abbrev pub then_some : ℕ → ℕ × List ℕ → M R (Option (List ℕ))
  then_some n (k, got) = pure (if k == 0 then none else some (array n got))

  pub read_bytes_n : ℕ → ℕ → M R (Option (List ℕ))
  read_bytes_n fuel n r = and_then (read_bytes fuel n r) (then_some n)

  abbrev pub map_value : (List ℕ → ℕ) → Option (List ℕ) → M R (Option ℕ)
  map_value f none = pure none
  map_value f (some bytes) = pure (some (f bytes))

  pub try_read_type : ℕ → Bool → ℕ → M R (Option ℕ)
  try_read_type fuel le n r = and_then (read_bytes_n fuel n r) (map_value (from_bytes le))

  pub read_vint : ℕ → ℕ → ℕ → Bool → M R (Option ℕ)
  read_vint fuel n size le r =
      if size == 0
      then (ok (some 0), r)
      else if leb size n
      then and_then (and_then (read_bytes fuel size r) (then_some n))
          (map_value (λ bytes. vint_from_bytes n bytes size le))
      else (panic, r)

-- `ok_or_else`, of the functions that report the end of the stream as an error.
abbrev pub or_eof : {R : Type 0} → Option ℕ → M R ℕ
or_eof none = throw unexpected_eof
or_eof (some x) = pure x

pub read_type : {R : Type 0} → (ℕ → M R (List ℕ)) → (R → Bool) → ℕ → Bool → ℕ → M R ℕ
read_type read stops fuel le n r = and_then (try_read_type read stops fuel le n r) or_eof

module _ {R : Type 0} (read : ℕ → M R (List ℕ)) (stops : BufReader R → Bool) where
  -- `buf_get_bytes`: from the buffer where it holds as many bytes as the type has, though fewer may
  -- be consumed.
  pub buf_get_bytes : ℕ → ℕ → ℕ → M (BufReader R) (Option (List ℕ))
  buf_get_bytes fuel n count b =
      if leb n (length (buffer b))
      then and_then (consume count b) (λ u. pure (some (take n (buffer b))))
      else and_then (read_bytes (read_buffered read) stops fuel count b)
          (then_some (read_buffered read) stops n)

  pub read_vint_fast : ℕ → ℕ → ℕ → Bool → M (BufReader R) (Option ℕ)
  read_vint_fast fuel n size le b =
      if size == 0
      then (ok (some 0), b)
      else if leb size n
      then and_then (buf_get_bytes fuel n size b)
          (map_value (read_buffered read) stops (λ bytes. vint_from_bytes n bytes size le))
      else (panic, b)

  pub buf_read_bytes : ℕ → ℕ → M (BufReader R) (Option (List ℕ))
  buf_read_bytes fuel n = buf_get_bytes fuel n n

  -- `try_read_type` of `BufReadTyped`.
  pub buf_try_read_type : ℕ → Bool → ℕ → M (BufReader R) (Option ℕ)
  buf_try_read_type fuel le n b =
      and_then (buf_read_bytes fuel n b) (map_value (read_buffered read) stops (from_bytes le))

  -- `read_type` of `BufReadTyped`.
  pub buf_read_type : ℕ → Bool → ℕ → M (BufReader R) ℕ
  buf_read_type fuel le n b = and_then (buf_try_read_type fuel le n b) or_eof

pub write_type : {W : Type 0} → (List ℕ → M W ℕ) → (W → Bool) → ℕ → Bool → ℕ → ℕ → M W ℕ
write_type write stops fuel le n x w = try_write_all write stops fuel (into_bytes le n x) w
