-- ===== src/Io/Contract.antt =====
-- What `Read` and `Write` of src/async_std/io promise. A reader is a state with a method
-- `read n`, which gives the bytes that it put into a buffer of `n` bytes; a writer's `write bs` gives the count
-- of the bytes that it took. Their states' meaning is the rest of the stream, and the bytes
-- that went down.
use xx_core.Base.{ℕ, ◌≤◌, ◌<◌, ◌≡◌, ◌⊎◌, true, List, [], ◌++◌, length, take}
use xx_core.Base.Outcome.{Outcome, IoError, is_interrupted, ok, err, panic, out_of_fuel, M}

-- A read moves bytes from the front of the stream into the buffer, at most as many as fit; none are moved
-- only at the end, or into an empty buffer. A read that fails moves nothing.
abbrev pub Reads :
    {R : Type 0} → (R → Type 0) → (R → List ℕ) → ℕ → List ℕ → Outcome (List ℕ) × R → Type 0
Reads Valid rest n before (ok bs, r) =
    Valid r × (length bs ≤ n) × (before ≡ bs ++ rest r) × (bs ≡ [] → 0 < n → before ≡ [])
Reads Valid rest n before (err e, r) = Valid r × (before ≡ rest r)
Reads Valid rest n before (panic, r) = ⊥
Reads Valid rest n before (out_of_fuel, r) = ⊥

abbrev pub IsReader : {R : Type 0} → (R → Type 0) → (R → List ℕ) → (ℕ → M R (List ℕ)) → Type 0
IsReader {R} Valid rest read = (n : ℕ) (r : R) → Valid r → Reads Valid rest n (rest r) (read n r)

-- The read that brought the reader where it is failed with this error.
abbrev pub LastFails :
    {R : Type 0} → (R → Type 0) → (R → List ℕ) → (ℕ → M R (List ℕ)) → IoError → R → Type 0
LastFails {R} Valid rest read e r =
    (n : ℕ) × (q : R) × Valid q × (rest q ≡ rest r) × (read n q ≡ (err e, r))

-- The stream is at its end, or the last read was interrupted.
abbrev pub EndsShort : {R : Type 0} → (R → Type 0) → (R → List ℕ) → (ℕ → M R (List ℕ)) → R → Type 0
EndsShort Valid rest read r =
    (rest r ≡ []) ⊎ ((e : IoError) × (is_interrupted e ≡ true) × LastFails Valid rest read e r)

-- A write sends a prefix of the buffer down. A write that fails sends nothing.
abbrev pub Writes :
    {W : Type 0} → (W → Type 0) → (W → List ℕ) → List ℕ → List ℕ → Outcome ℕ × W → Type 0
Writes Valid sent bs before (ok n, w) = Valid w × (n ≤ length bs) × (sent w ≡ before ++ take n bs)
Writes Valid sent bs before (err e, w) = Valid w × (sent w ≡ before)
Writes Valid sent bs before (panic, w) = ⊥
Writes Valid sent bs before (out_of_fuel, w) = ⊥

abbrev pub IsWriter : {W : Type 0} → (W → Type 0) → (W → List ℕ) → (List ℕ → M W ℕ) → Type 0
IsWriter {W} Valid sent write =
    (bs : List ℕ) (w : W) → Valid w → Writes Valid sent bs (sent w) (write bs w)
