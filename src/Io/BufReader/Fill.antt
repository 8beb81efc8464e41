-- ===== src/Io/BufReader/Fill.antt =====
-- Filling the buffer: `fill_buf_range`, `move_data_to_beginning` and `fill_amount` of
-- src/async_std/io/buf_reader.rs keep the stream, buffered bytes first, as it is.
use xx_core.Base.{
  ℕ, suc, ◌+◌, ◌-◌, ◌≤◌, ◌<◌, ◌≡◌, refl, sym, ap, Bool, true, false, ◌&&◌, if◌then◌else◌, List, [],
  ◌∷◌, ◌++◌, append_assoc, arith, ltb, leb, ◌==◌, ◌||◌, length, length-append,
}
use xx_core.Base.Slices.{
  slice, write_at, length-write_at, slice_empty, slice-write_at, slice-write_at_self,
}
use xx_core.Base.Outcome.{Outcome, ok, err, panic, out_of_fuel, IoError, M, pure, ◌>>◌}
use xx_core.Io.Contract.{Reads, IsReader}
use xx_core.Io.BufReader.{BufReader, IsValid, capacity, buffer, fill_buf_range, fill_at, set_start}

module _ {R : Type 0} (Valid : R → Type 0) (rest : R → List ℕ) where
  -- The rest of the stream as a client sees it.
  abbrev pub stream : BufReader R → List ℕ
  stream b = buffer b ++ rest b.reader

  abbrev pub IsValidReader : BufReader R → Type 0
  IsValidReader b = IsValid b × Valid b.reader

  -- The outcome of a fill that asked for `room` bytes.
  abbrev pub Fills : BufReader R → ℕ → Outcome ℕ × BufReader R → Type 0
  Fills b room (ok n, c) =
      IsValidReader c
      × (capacity c ≡ capacity b)
      × (stream c ≡ stream b)
      × (length (buffer c) ≡ length (buffer b) + n)
      × (n ≤ room)
      × (n ≡ 0 → 0 < room → rest b.reader ≡ [])
  Fills b room (err e, c) = IsValidReader c × (capacity c ≡ capacity b) × (stream c ≡ stream b)
  Fills b room (panic, c) = ⊥
  Fills b room (out_of_fuel, c) = ⊥

  -- What a call of `fill_buf_range` can do.
  pub data RangeFill (b : BufReader R) (s e : ℕ) (out : Outcome ℕ × BufReader R) : Type 0 where
    nothing :
        (r : R)
        → Valid r
        → rest b.reader ≡ rest r
        → (s < e → rest b.reader ≡ [])
        → out ≡ (ok 0, record b { reader = r })
        → RangeFill b s e out
    bytes :
        (bs : List ℕ) (r : R)
        → Valid r
        → 0 < length bs
        → length bs ≤ e - s
        → rest b.reader ≡ bs ++ rest r
        → out ≡ (
          ok (length bs),
          record b { store = write_at b.store s bs; end = s + length bs; reader = r },
        )
        → RangeFill b s e out
    failed :
        (x : IoError) (r : R)
        → Valid r
        → rest b.reader ≡ rest r
        → out ≡ (err x, record b { reader = r })
        → RangeFill b s e out

module _ {R : Type 0} (Valid : R → Type 0) (rest : R → List ℕ) (read : ℕ → M R (List ℕ))
    (contract : IsReader Valid rest read) where
  pub fill_buf_range-RangeFill :
      (b : BufReader R) (s e : ℕ)
      → Valid b.reader
      → s ≤ e
      → e ≤ capacity b
      → RangeFill Valid rest b s e (fill_buf_range read s e b)
  unfolding fill_buf_range
  fill_buf_range-RangeFill b s e p h k =
      go (read (e - s) b.reader) refl (contract (e - s) b.reader p)
    where
      test : (ltb e s || ltb (length b.store) e) ≡ false
      test = ground arith

      go :
          (o : Outcome (List ℕ) × R)
          → read (e - s) b.reader ≡ o
          → Reads Valid rest (e - s) (rest b.reader) o
          → RangeFill Valid rest b s e (fill_buf_range read s e b)
      go (ok [], r) q (v, l, m, z) =
          nothing r v m (λ t. z refl (omega arith)) (rw (test, q, fill_buf_range) refl)
      go (ok (x ∷ xs), r) q (v, l, m, z) =
          let long : leb (suc (length xs)) (e - s) ≡ true = ground arith in
          let more : (suc (length xs) == 0) ≡ false = ground arith in
          bytes (x ∷ xs) r v (omega arith) l m (rw (test, q, fill_buf_range, more, long) refl)
      go (err x, r) q c = failed x r c.0 c.1 (rw (test, q, fill_buf_range) refl)
      go (panic, r) q c = absurd c
      go (out_of_fuel, r) q c = absurd c

  -- The new start matters only where nothing was buffered.
  restart :
      (s n : ℕ) (t : Bool) (c : BufReader R)
      → (s ≡ 0 → c.start ≡ 0)
      → (if (s == 0) && t then (do set_start 0; pure n) else pure n) c ≡ (ok n, c)
  restart s n t c z = ground arith

  pub nothing-Fills :
      (b : BufReader R) (room : ℕ) (r : R)
      → IsValid b
      → Valid r
      → rest b.reader ≡ rest r
      → (0 < room → rest b.reader ≡ [])
      → Fills Valid rest b room (ok 0, record b { reader = r })
  nothing-Fills b room r v u m z = (
    (record { ordered = v.ordered; bounded = v.bounded }, u),
    refl,
    ap (◌++◌ (buffer b)) (sym m),
    omega arith,
    omega arith,
    λ e. z,
  )

  pub failed-Fills :
      (b : BufReader R) (room : ℕ) (x : IoError) (r : R)
      → IsValid b
      → Valid r
      → rest b.reader ≡ rest r
      → Fills Valid rest b room (err x, record b { reader = r })
  failed-Fills b room x r v u m =
      ((record { ordered = v.ordered; bounded = v.bounded }, u), refl, ap (◌++◌ (buffer b)) (sym m))

  -- The buffer is extended behind what it holds.
  bytes-Fills :
      (b : BufReader R) (room : ℕ) (bs : List ℕ) (r : R)
      → IsValid b
      → Valid r
      → 0 < length bs
      → length bs ≤ room
      → b.end + room ≤ capacity b
      → rest b.reader ≡ bs ++ rest r
      → Fills Valid rest b room (
        ok (length bs),
        record b { store = write_at b.store b.end bs; end = b.end + length bs; reader = r },
      )
  bytes-Fills b room bs r v u pos l fit m =
      let grown = slice-write_at b.store b.start b.end bs v.ordered v.bounded in
      let size = length-write_at b.store b.end bs (omega arith) in
      (
        (record { ordered = omega arith; bounded = omega arith }, u),
        size,
        rw (grown, m, append_assoc) refl,
        rw grown (length-append (buffer b) bs),
        l,
        λ e. absurd (omega arith),
      )

  -- Behind what is buffered.
  pub fill_at-append :
      (b : BufReader R) (e : ℕ)
      → IsValidReader Valid rest b
      → b.end ≤ e
      → e ≤ capacity b
      → Fills Valid rest b (e - b.end) (fill_at read b.end e b)
  unfolding fill_at
  fill_at-append b e (v, p) h k = elim (fill_buf_range-RangeFill b b.end e p h k) [
    | nothing r u m z q ↦
        rw (q, fill_at, restart b.end 0 _ (record b { reader = r }) (λ g. omega arith))
          (nothing-Fills b _ r v u m (λ t. z (omega arith)))
    | bytes bs r u pos l m q ↦
        rw
          (
            q,
            fill_at,
            restart b.end (length bs) _
                (record b {
                  store = write_at b.store b.end bs;
                  end = b.end + length bs;
                  reader = r;
                })
                (λ g. omega arith),
          )
          (bytes-Fills b _ bs r v u pos l (omega arith) m)
    | failed x r u m q ↦ rw (q, fill_at) (failed-Fills b (e - b.end) x r v u m)
  ]

  -- An empty buffer is filled from its front.
  pub bytes_front-Fills :
      (b : BufReader R) (e : ℕ) (bs : List ℕ) (r : R)
      → IsValid b × Valid r
      → b.end ≤ b.start
      → 0 < length bs
      → length bs ≤ e - 0
      → e ≤ capacity b
      → rest b.reader ≡ bs ++ rest r
      → Fills Valid rest b e (
        ok (length bs),
        record { store = write_at b.store 0 bs; start = 0; end = 0 + length bs; reader = r },
      )
  bytes_front-Fills b e bs r (v, u) empty pos l fit m =
      let grown : slice (write_at b.store 0 bs) 0 (0 + length bs) ≡ bs =
        slice-write_at_self b.store 0 bs (omega arith) in
      let gone = slice_empty b.store b.start b.end empty in
      let size = length-write_at b.store 0 bs (omega arith) in
      (
        (record { ordered = omega arith; bounded = omega arith }, u),
        size,
        rw (grown, gone, m) refl,
        rw (grown, gone) (omega arith),
        omega arith,
        λ e. absurd (omega arith),
      )

  -- At the front, when nothing is buffered.
  pub fill_at-empty :
      (b : BufReader R) (e : ℕ)
      → IsValidReader Valid rest b
      → b.end ≤ b.start
      → e ≤ capacity b
      → Fills Valid rest b e (fill_at read 0 e b)
  unfolding fill_at
  fill_at-empty b e (v, p) h k = elim (fill_buf_range-RangeFill b 0 e p (omega arith) k) [
    | nothing r u m z q ↦ rw (q, fill_at) (nothing-Fills b _ r v u m z)
    | bytes bs r u pos l m q ↦
        let more : (length bs == 0) ≡ false = ground arith in
        rw (q, fill_at, more) (bytes_front-Fills b e bs r (v, u) h pos l k m)
    | failed x r u m q ↦ rw (q, fill_at) (failed-Fills b e x r v u m)
  ]
