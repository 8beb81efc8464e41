-- ===== src/Io/BufWriter.antt =====
-- src/async_std/io/buf_writer.rs. The writer below is a parameter; `write bs` of it gives the number
-- of bytes that it took.
pub mod Flush
pub mod Writer
pub mod Pipe
pub mod Seek
mod Tests
use xx_core.Base.{
  ℕ, zero, suc, ◌+◌, ◌-◌, ◌≤◌, Bool, min, List, [], ◌++◌, ltb, leb, ◌==◌, if◌then◌else◌, length,
  take, replicate,
}
use xx_core.Base.Slices.{slice, write_at}
use xx_core.Base.Outcome.{
  Outcome, ok, err, panic, out_of_fuel, write_zero, is_interrupted, M, pure, throw, ◌>>=◌, ◌>>◌,
}
use xx_core.Io.Slices.{read_into_slice, length_check}

-- `start..end` is the range `buffered`.
pub record BufWriter (W : Type 0) : Type 0 where
  pub store : List ℕ
  pub start : ℕ
  pub end : ℕ
  pub writer : W

pub record IsValid {W : Type 0} (b : BufWriter W) : Type 0 where
  pub ordered : b.start ≤ b.end
  pub bounded : b.end ≤ length b.store

module _ {W : Type 0} where
  abbrev pub buffer : BufWriter W → List ℕ
  buffer b = slice b.store b.start b.end

  abbrev pub is_empty : BufWriter W → Bool
  is_empty b = leb b.end b.start

  abbrev pub spare_capacity : BufWriter W → ℕ
  spare_capacity b = length b.store - b.end

  pub from_parts : W → List ℕ → ℕ → ℕ → Outcome (BufWriter W)
  from_parts writer buf cap pos =
      if leb pos (length buf)
      then ok (record {
        store = buf ++ replicate (cap - length buf) 0;
        start = pos;
        end = length buf;
        writer = writer;
      })
      else panic

  pub into_parts : BufWriter W → W × List ℕ × ℕ
  into_parts b = (b.writer, take b.end b.store, b.start)

  pub discard : BufWriter W → BufWriter W
  discard b = record b { start = 0; end = 0 }

  abbrev discarding : M (BufWriter W) (Unit {0})
  discarding b = (ok tt, discard b)

  pub write_buffered : List ℕ → M (BufWriter W) ℕ
  write_buffered buf b =
      let bs = read_into_slice (spare_capacity b) buf in
      (ok (length bs), record b { store = write_at b.store b.end bs; end = b.end + length bs })

  abbrev pub on_writer : {A : Type 0} → M W A → M (BufWriter W) A
  on_writer m b = let (out, w) = m b.writer in (out, record b { writer = w })

  abbrev pub advance : ℕ → M (BufWriter W) (Unit {0})
  advance n b = (ok tt, record b { start = b.start + n })

module _ {W : Type 0} (write : List ℕ → M W ℕ) where
  -- One round of the loop, which ends by an error if nothing is taken.
  flush_round : M (BufWriter W) (Unit {0})
  flush_round b =
      (do
        wrote ← on_writer (write (buffer b))
        if wrote == 0
            then throw write_zero
            else do n ← length_check (length (buffer b)) wrote; advance n)
        b

  pub flush_loop : ℕ → M (BufWriter W) (Unit {0})
  flush_loop zero b = (out_of_fuel, b)
  flush_loop (suc fuel) b = if is_empty b then discarding b else (do flush_round; flush_loop fuel) b

  pub flush_buf : M (BufWriter W) (Unit {0})
  flush_buf b = flush_loop (length (buffer b) + 1) b

  pub write_flushed : List ℕ → M (BufWriter W) ℕ
  write_flushed buf b =
      if leb (length b.store) (length buf) then on_writer (write buf) b else write_buffered buf b

  pub write_through : List ℕ → M (BufWriter W) ℕ
  write_through buf b =
      if ltb 0 (spare_capacity b) then write_buffered buf b else (do flush_buf; write_flushed buf) b

-- `flush_below` is the method `flush` of the writer below.
module _ {W : Type 0} (write : List ℕ → M W ℕ) (flush_below : M W (Unit {0})) where
  pub flush : M (BufWriter W) (Unit {0})
  flush b = (do flush_buf write; on_writer flush_below) b

-- `pipe_from` reads from a reader straight into the buffer.
module _ {W R : Type 0} (write : List ℕ → M W ℕ) (flush_below : M W (Unit {0}))
    (read : ℕ → M R (List ℕ)) where
  abbrev on_buf : {A : Type 0} → M (BufWriter W) A → M (BufWriter W × R) A
  on_buf m (b, r) = let (out, c) = m b in (out, (c, r))

  abbrev on_source : {A : Type 0} → M R A → M (BufWriter W × R) A
  on_source m (b, r) = let (out, t) = m r in (out, (b, t))

  -- The bytes that the reader put at `data[end..]`.
  abbrev appended : List ℕ → M (BufWriter W) (Unit {0})
  appended bs b = (ok tt, record b { store = write_at b.store b.end bs; end = b.end + length bs })

  pub pipe_read : M (BufWriter W × R) ℕ
  pipe_read (b, r) =
      (do
        bs ← on_source (read (spare_capacity b))
        n ← length_check (spare_capacity b) (length bs)
        on_buf (appended bs)
        pure n)
        (b, r)

  pub pipe_from_once : M (BufWriter W × R) ℕ
  pipe_from_once (b, r) =
      if spare_capacity b == 0
      then (do on_buf (flush write flush_below); pipe_read) (b, r)
      else pipe_read (b, r)

  -- The loop ends at the end of the stream or by an interrupt.
  pipe_next :
      ℕ
      → Outcome ℕ × (BufWriter W × R)
      → (ℕ → M (BufWriter W × R) ℕ)
      → Outcome ℕ × (BufWriter W × R)
  pipe_next total (ok n, s) again = if n == 0 then (ok total, s) else again (total + n) s
  pipe_next total (err e, s) again = if is_interrupted e then (ok total, s) else (err e, s)
  pipe_next total (panic, s) again = (panic, s)
  pipe_next total (out_of_fuel, s) again = (out_of_fuel, s)

  pipe_loop : ℕ → ℕ → M (BufWriter W × R) ℕ
  pipe_loop zero total s = (out_of_fuel, s)
  pipe_loop (suc fuel) total s = pipe_next total (pipe_from_once s) (pipe_loop fuel)

  pub pipe_from : ℕ → M (BufWriter W × R) ℕ
  pipe_from fuel s = pipe_loop fuel 0 s
