-- ===== src/Io/BufReader.antt =====
-- src/async_std/io/buf_reader.rs. The reader below is a parameter; `read n` of it gives the bytes
-- that it put into a buffer of `n` bytes.
pub mod Fill
pub mod Amount
pub mod Failing
pub mod Reader
pub mod Until
pub mod Seek
mod Tests
use xx_core.Base.{
  ℕ, zero, suc, ◌+◌, ◌-◌, ◌≤◌, Bool, true, false, ◌||◌, ◌&&◌, not, Option, none, some, List, [],
  ◌++◌, ltb, leb, ◌==◌, if◌then◌else◌, length, take, replicate,
}
use xx_core.Base.Slices.{slice, write_at}
use xx_core.Base.Outcome.{
  Outcome, ok, panic, out_of_fuel, M, pure, panics, assert, get, put, ◌>>=◌, ◌>>◌,
}
use xx_core.Io.Slices.{read_into_slice, length_check}

-- `start..end` is the range `buffered`.
pub record BufReader (R : Type 0) : Type 0 where
  pub store : List ℕ
  pub start : ℕ
  pub end : ℕ
  pub reader : R

pub record IsValid {R : Type 0} (b : BufReader R) : Type 0 where
  pub ordered : b.start ≤ b.end
  pub bounded : b.end ≤ length b.store

module _ {R : Type 0} where
  abbrev pub capacity : BufReader R → ℕ
  capacity b = length b.store

  abbrev pub spare_capacity : BufReader R → ℕ
  spare_capacity b = length b.store - b.end

  abbrev pub buffer : BufReader R → List ℕ
  buffer b = slice b.store b.start b.end

  abbrev pub position : BufReader R → ℕ
  position b = b.start

  abbrev pub is_empty : BufReader R → Bool
  is_empty b = leb b.end b.start

  -- A vector has a length and a capacity, and the spare part is filled with zeros.
  pub from_parts : R → List ℕ → ℕ → ℕ → Outcome (BufReader R)
  from_parts reader buf cap pos =
      if leb pos (length buf)
      then ok (record {
        store = buf ++ replicate (cap - length buf) 0;
        start = pos;
        end = length buf;
        reader = reader;
      })
      else panic

  pub with_capacity : R → ℕ → Outcome (BufReader R)
  unfolding from_parts
  with_capacity reader cap = from_parts reader [] cap 0

  pub into_parts : BufReader R → R × List ℕ × ℕ
  into_parts b = (b.reader, take b.end b.store, b.start)

  pub discard : BufReader R → BufReader R
  discard b = record b { start = 0; end = 0 }

  unfoldable pub consume : ℕ → M (BufReader R) (Unit {0})
  consume count b =
      if leb count (length (buffer b))
      then (ok tt, record b { start = b.start + count })
      else (panic, b)

  pub unconsume : ℕ → M (BufReader R) (Unit {0})
  unconsume count b =
      if leb count b.start then (ok tt, record b { start = b.start - count }) else (panic, b)

  unfoldable pub move_data_to_beginning : BufReader R → BufReader R
  unfolding discard
  move_data_to_beginning b =
      if b.start == 0
      then b
      else if length (buffer b) == 0
      then discard b
      else record b { store = write_at b.store 0 (buffer b); start = 0; end = length (buffer b) }

  unfoldable pub read_into : ℕ → M (BufReader R) (List ℕ)
  read_into n b =
      let bs = read_into_slice n (buffer b) in (ok bs, record b { start = b.start + length bs })

  abbrev on_reader : {A : Type 0} → M R A → M (BufReader R) A
  on_reader m b = let (out, r) = m b.reader in (out, record b { reader = r })

  -- `start = s; end = e`
  abbrev set_start : ℕ → M (BufReader R) (Unit {0})
  set_start s b = (ok tt, record b { start = s })

  -- The bytes that the reader put at `data[s..]`, and the new end of the buffered range.
  abbrev filled : ℕ → List ℕ → M (BufReader R) (Unit {0})
  filled s bs b = (ok tt, record b { store = write_at b.store s bs; end = s + length bs })

module _ {R : Type 0} (read : ℕ → M R (List ℕ)) where
  unfoldable pub fill_buf_range : ℕ → ℕ → M (BufReader R) ℕ
  fill_buf_range s e b =
      if ltb e s || ltb (length b.store) e
      then (panic, b)
      else (do
        bs ← on_reader (read (e - s))
        if length bs == 0
            then pure 0
            else do n ← length_check (e - s) (length bs); filled s bs; pure n)
          b

  pub fill_buf : M (BufReader R) ℕ
  fill_buf b =
      (do n ← fill_buf_range 0 (capacity b); if n == 0 then pure n else do set_start 0; pure n) b

  unfoldable pub read_cold : ℕ → M (BufReader R) (List ℕ)
  read_cold n b =
      if leb (capacity b) n
      then on_reader (read n) b
      else (do k ← fill_buf; if k == 0 then pure [] else read_into n) b

  unfoldable pub read_buffered : ℕ → M (BufReader R) (List ℕ)
  read_buffered n b = if is_empty b then read_cold n b else read_into n b

  unfoldable pub fill_at : ℕ → ℕ → M (BufReader R) ℕ
  fill_at s e = do
    n ← fill_buf_range s e
    if (s == 0) && not (n == 0) then (do set_start 0; pure n) else pure n

  unfoldable pub fill_amount : ℕ → M (BufReader R) ℕ
  fill_amount amount b =
      if ltb (capacity b) amount
      then (panic, b)
      else if leb (b.start + amount) b.end
      then (ok 0, b)
      else if leb (b.start + amount) (capacity b)
      then fill_at b.end (b.start + amount) b
      else if is_empty b
      then fill_at 0 amount b
      else let moved = move_data_to_beginning b in
        if spare_capacity moved == 0 then (ok 0, moved) else fill_at moved.end amount moved

  unfoldable pub fill : M (BufReader R) ℕ
  fill b = fill_amount (capacity b) b

-- `read_until` appends to a vector `vec`; its loop takes fuel. `memchr` is the crate's function.
module _ {R : Type 0} (memchr : ℕ → List ℕ → Option ℕ) (read : ℕ → M R (List ℕ)) where
  abbrev on_buf : {A : Type 0} → M (BufReader R) A → M (BufReader R × List ℕ) A
  on_buf m (b, vec) = let (out, c) = m b in (out, (c, vec))

  abbrev extend : List ℕ → M (BufReader R × List ℕ) (Unit {0})
  extend bs (b, vec) = (ok tt, (b, vec ++ bs))

  abbrev used_bytes : Option ℕ → ℕ → ℕ × Bool
  used_bytes (some index) len = (index + 1, true)
  used_bytes none len = (len, false)

  abbrev at_end : ℕ → M (BufReader R × List ℕ) (Option ℕ)
  at_end start_len (b, vec) =
      (ok (if length vec == start_len then none else some (length vec - start_len)), (b, vec))

  abbrev at_delimiter : ℕ → M (BufReader R × List ℕ) (Option ℕ)
  at_delimiter start_len (b, vec) = (ok (some (length vec - start_len)), (b, vec))

  unfoldable pub read_until_loop : ℕ → ℕ → ℕ → M (BufReader R × List ℕ) (Option ℕ)
  read_until_loop zero byte start_len s = (out_of_fuel, s)
  read_until_loop (suc fuel) byte start_len (b, vec) =
      let (used, done) = used_bytes (memchr byte (buffer b)) (length (buffer b)) in
      (do
        extend (take used (buffer b))
        on_buf (consume used)
        if done then at_delimiter start_len else do
          n ← on_buf (fill read)
          if n == 0 then at_end start_len else read_until_loop fuel byte start_len)
        (b, vec)

  unfoldable pub read_until : ℕ → ℕ → M (BufReader R × List ℕ) (Option ℕ)
  read_until fuel byte (b, vec) = read_until_loop fuel byte (length vec) (b, vec)
