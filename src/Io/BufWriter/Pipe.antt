-- ===== src/Io/BufWriter/Pipe.antt =====
-- `flush`, `pipe_from_once` and `pipe_from` of src/async_std/io/buf_writer.rs: bytes go from a
-- reader through the buffer, and none is lost or sent twice, however the transfer ends.
use xx_core.Base.{
  ℕ, zero, suc, ◌+◌, ◌<◌, ◌≡◌, refl, sym, ap, ◌∙◌, inl, inr, true, false, List, [], ◌++◌,
  append-nil, append_assoc, arith, Bool-cases, leb, ◌==◌, length, length-append,
}
use xx_core.Base.Slices.{slice-write_at, length-write_at}
use xx_core.Base.Outcome.{Outcome, ok, err, panic, out_of_fuel, is_interrupted, M}
use xx_core.Io.Contract.{Reads, IsReader, IsWriter}
use xx_core.Io.BufWriter.{
  BufWriter, buffer, spare_capacity, flush_buf, flush, pipe_read, pipe_from_once, pipe_next,
  pipe_loop, pipe_from,
}
use xx_core.Io.BufWriter.Flush.{accepted, IsValidWriter, Flushes, flush_buf-Flushes}

abbrev pub Passes :
    {W : Type 0} → (W → Type 0) → (W → List ℕ) → List ℕ → Outcome (Unit {0}) × W → Type 0
Passes Valid sent before (ok _, w) = Valid w × (sent w ≡ before)
Passes Valid sent before (err e, w) = Valid w × (sent w ≡ before)
Passes Valid sent before (panic, w) = ⊥
Passes Valid sent before (out_of_fuel, w) = ⊥

-- A flush of the writer below sends nothing new.
abbrev pub IsFlush : {W : Type 0} → (W → Type 0) → (W → List ℕ) → M W (Unit {0}) → Type 0
IsFlush {W} Valid sent flush_below = (w : W) → Valid w → Passes Valid sent (sent w) (flush_below w)

module _ {W : Type 0} (Valid : W → Type 0) (sent : W → List ℕ) (write : List ℕ → M W ℕ)
    (flush_below : M W (Unit {0})) (contract : IsWriter Valid sent write)
    (flushes : IsFlush Valid sent flush_below) where
  -- After a flush that succeeds, all that was accepted is sent; one that fails keeps the rest.
  pub flush-Flushes :
      (b : BufWriter W)
      → IsValidWriter Valid sent b
      → Flushes Valid sent b (flush write flush_below b)
  unfolding flush
  flush-Flushes b v = go (flush_buf write b) refl (flush_buf-Flushes Valid sent write contract b v)
    where
      after :
          (c : BufWriter W)
          → flush_buf write b ≡ (ok tt, c)
          → Flushes Valid sent b (ok tt, c)
          → (o : Outcome (Unit {0}) × W) → flush_below c.writer ≡ o
          → Passes Valid sent (sent c.writer) o
          → Flushes Valid sent b (flush write flush_below b)
      after c q (((v, p), size, same), z, y, all) (ok _, w) e (u, m) =
          rw (q, flush, e)
            (
              (
                (record { ordered = v.ordered; bounded = v.bounded }, u),
                size,
                ap (λ bs. bs ++ buffer c) m ∙ same,
              ),
              z,
              y,
              m ∙ all,
            )
      after c q (((v, p), size, same), z, y, all) (err x, w) e (u, m) =
          rw (q, flush, e)
            (
              (record { ordered = v.ordered; bounded = v.bounded }, u),
              size,
              ap (λ bs. bs ++ buffer c) m ∙ same,
            )
      after c q f (panic, w) e h = absurd h
      after c q f (out_of_fuel, w) e h = absurd h

      go :
          (o : Outcome (Unit {0}) × BufWriter W)
          → flush_buf write b ≡ o
          → Flushes Valid sent b o
          → Flushes Valid sent b (flush write flush_below b)
      go (ok _, c) q f = after c q f (flush_below c.writer) refl (flushes c.writer f.0.0.1)
      go (err x, c) q k = rw (q, flush) k
      go (panic, c) q z = absurd z
      go (out_of_fuel, c) q z = absurd z

module _ {W R : Type 0} (Valid : W → Type 0) (sent : W → List ℕ) (Good : R → Type 0)
    (rest : R → List ℕ) where
  -- Some bytes went from the stream `before` into the writer, which had accepted `had`.
  abbrev pub Moves : List ℕ → List ℕ → ℕ → BufWriter W → R → Type 0
  Moves had before n b r =
      IsValidWriter Valid sent b
      × Good r
      × ((bs : List ℕ) × (accepted Valid sent b ≡ had ++ bs)
          × (before ≡ bs ++ rest r)
          × (length bs ≡ n))

  -- The result of one call is the number of bytes that were moved. A call that fails moves none.
  abbrev pub Pipes : List ℕ → List ℕ → Outcome ℕ × (BufWriter W × R) → Type 0
  Pipes had before (ok n, (b, r)) = Moves had before n b r
  Pipes had before (err e, (b, r)) = Moves had before 0 b r
  Pipes had before (panic, s) = ⊥
  Pipes had before (out_of_fuel, s) = ⊥

  -- The loop also fails behind bytes that it has moved.
  abbrev pub PipesAll : List ℕ → List ℕ → Outcome ℕ × (BufWriter W × R) → Type 0
  PipesAll had before (ok n, (b, r)) = Moves had before n b r
  PipesAll had before (err e, (b, r)) = (n : ℕ) × Moves had before n b r
  PipesAll had before (panic, s) = ⊥
  PipesAll had before (out_of_fuel, s) = ⊥

  still :
      (had before : List ℕ) (b : BufWriter W) (r : R)
      → IsValidWriter Valid sent b
      → Good r
      → accepted Valid sent b ≡ had
      → before ≡ rest r
      → Moves had before 0 b r
  still had before b r v g a e = (v, g, ([], a ∙ sym (append-nil had), e, refl))

  -- Bytes that go on from where others ended.
  Moves-trans :
      (had before : List ℕ) (m n : ℕ) (b : BufWriter W) (r : R) (c : BufWriter W) (t : R)
      → Moves had before m b r
      → Moves (accepted Valid sent b) (rest r) n c t
      → Moves had before (m + n) c t
  Moves-trans had before m n b r c t (v, g, (bs, a, e, l)) (w, h, (cs, a', e', l')) = (
    w,
    h,
    (
      bs ++ cs,
      a' ∙ (rw (a, append_assoc) refl),
      e ∙ (rw (e', append_assoc) refl),
      omega (arith, length-append bs cs),
    ),
  )

  Moves-still :
      (had before : List ℕ) (m : ℕ) (b : BufWriter W) (r : R) (c : BufWriter W) (t : R)
      → Moves had before m b r
      → Moves (accepted Valid sent b) (rest r) 0 c t
      → Moves had before m c t
  Moves-still had before m b r c t k l =
      let (v, g, (bs, a, e, s)) = Moves-trans had before m 0 b r c t k l in
      (v, g, (bs, a, e, omega arith))

module _ {W R : Type 0} (Valid : W → Type 0) (sent : W → List ℕ) (write : List ℕ → M W ℕ)
    (flush_below : M W (Unit {0})) (contract : IsWriter Valid sent write)
    (flushes : IsFlush Valid sent flush_below) (Good : R → Type 0) (rest : R → List ℕ)
    (read : ℕ → M R (List ℕ)) (source : IsReader Good rest read) where
  pipe_read-Pipes :
      (b : BufWriter W) (r : R)
      → IsValidWriter Valid sent b
      → Good r
      → Pipes Valid sent Good rest
          (accepted Valid sent b)
          (rest r)
          (pipe_read write flush_below read (b, r))
  unfolding pipe_read
  pipe_read-Pipes b r (v, p) g = go (read (spare_capacity b) r) refl (source (spare_capacity b) r g)
    where
      go :
          (o : Outcome (List ℕ) × R)
          → read (spare_capacity b) r ≡ o
          → Reads Good rest (spare_capacity b) (rest r) o
          → Pipes Valid sent Good rest
              (accepted Valid sent b)
              (rest r)
              (pipe_read write flush_below read (b, r))
      go (ok bs, t) q (u, l, m, z) =
          let fits : leb (length bs) (spare_capacity b) ≡ true = ground arith in
          rw (q, pipe_read, fits)
            (
              (
                record {
                  ordered = omega arith;
                  bounded = omega (arith, length-write_at b.store b.end bs (omega arith));
                },
                p,
              ),
              u,
              (
                bs,
                rw (slice-write_at b.store b.start b.end bs v.ordered v.bounded, append_assoc) refl,
                m,
                refl,
              ),
            )
      go (err x, t) q (u, m) =
          rw (q, pipe_read) (still Valid sent Good rest _ (rest r) b t (v, p) u refl m)
      go (panic, t) q h = absurd h
      go (out_of_fuel, t) q h = absurd h

  -- One call of `pipe_from_once` moves bytes from the front of the stream behind what was accepted,
  -- and returns their number; a call that fails moves none.
  pub pipe_from_once-Pipes :
      (b : BufWriter W) (r : R)
      → IsValidWriter Valid sent b
      → Good r
      → Pipes Valid sent Good rest
          (accepted Valid sent b)
          (rest r)
          (pipe_from_once write flush_below read (b, r))
  unfolding pipe_from_once
  pipe_from_once-Pipes b r v g = elim (Bool-cases (spare_capacity b == 0)) [
    | inl full ↦
        go full (flush write flush_below b) refl
          (flush-Flushes Valid sent write flush_below contract flushes b v)
    | inr space ↦ rw (space, pipe_from_once) (pipe_read-Pipes b r v g)
  ]
    where
      go :
          (spare_capacity b == 0) ≡ true
          → (o : Outcome (Unit {0}) × BufWriter W) → flush write flush_below b ≡ o
          → Flushes Valid sent b o
          → Pipes Valid sent Good rest
              (accepted Valid sent b)
              (rest r)
              (pipe_from_once write flush_below read (b, r))
      go full (ok _, c) q ((u, size, same), f, g', h') =
          rw (full, pipe_from_once, q, ← same) (pipe_read-Pipes c r u g)
      go full (err x, c) q (u, size, same) =
          rw (full, pipe_from_once, q) (still Valid sent Good rest _ (rest r) c r u g same refl)
      go full (panic, c) q z = absurd z
      go full (out_of_fuel, c) q z = absurd z

  loop-PipesAll :
      (f total : ℕ) (had before : List ℕ) (b : BufWriter W) (r : R)
      → Moves Valid sent Good rest had before total b r
      → length (rest r) < f
      → PipesAll Valid sent Good rest had before (pipe_loop write flush_below read f total (b, r))
  unfolding pipe_loop pipe_next
  loop-PipesAll zero total had before b r m h = absurd (omega arith)
  loop-PipesAll (suc f) total had before b r m h =
      go (pipe_from_once write flush_below read (b, r)) refl (pipe_from_once-Pipes b r m.0 m.1)
        (loop-PipesAll f)
    where
      go :
          (o : Outcome ℕ × (BufWriter W × R))
          → pipe_from_once write flush_below read (b, r) ≡ o
          → Pipes Valid sent Good rest (accepted Valid sent b) (rest r) o
          → ((total' : ℕ) (had' before' : List ℕ) (c : BufWriter W) (t : R)
              → Moves Valid sent Good rest had' before' total' c t
              → length (rest t) < f
              → PipesAll Valid sent Good rest had' before'
                  (pipe_loop write flush_below read f total' (c, t)))
          → PipesAll Valid sent Good rest had before
              (pipe_loop write flush_below read (suc f) total (b, r))
      go (ok zero, (c, t)) q k ih =
          rw (q, pipe_loop) (Moves-still Valid sent Good rest had before total b r c t m k)
      go (ok (suc n), (c, t)) q k ih =
          let more : (suc n == 0) ≡ false = ground arith in
          rw (q, pipe_loop, more, pipe_next)
            (ih (total + suc n) had before c t
              (Moves-trans Valid sent Good rest had before total (suc n) b r c t m k)
              (omega (arith, ap length k.2.2, length-append k.2.0 (rest t), k.2.3)))
      go (err x, (c, t)) q k ih =
          rw (q, pipe_loop)
            (elim (Bool-cases (is_interrupted x)) [
              | inl stop ↦ rw stop (Moves-still Valid sent Good rest had before total b r c t m k)
              | inr fail ↦
                  rw fail (total, Moves-still Valid sent Good rest had before total b r c t m k)
            ])
      go (panic, s) q z ih = absurd z
      go (out_of_fuel, s) q z ih = absurd z

  -- With more fuel than bytes are left in the stream, `pipe_from` ends. Whether it ends at the end of the stream, by an
  -- interrupt or by an error, the bytes that left the stream are those that the writer accepted behind what it
  -- had, and on success their number is returned.
  pub pipe_from-PipesAll :
      (fuel : ℕ) (b : BufWriter W) (r : R)
      → IsValidWriter Valid sent b
      → Good r
      → length (rest r) < fuel
      → PipesAll Valid sent Good rest
          (accepted Valid sent b)
          (rest r)
          (pipe_from write flush_below read fuel (b, r))
  unfolding pipe_from
  pipe_from-PipesAll fuel b r v g h =
      loop-PipesAll fuel 0 (accepted Valid sent b) (rest r) b r
        (still Valid sent Good rest _ (rest r) b r v g refl refl) h
