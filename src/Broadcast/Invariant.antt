-- ===== src/Broadcast/Invariant.antt =====
-- src/async_std/sync/broadcast.rs: what holds of a channel and of the positions of its receivers.
-- `log k` is the message of the k-th send.
use xx_core.Base.{
  ℕ, suc, ◌+◌, ◌%◌, ◌≤◌, ◌<◌, ◌≡◌, ◌⊎◌, inl, inr, some, List, [], ◌∷◌, ◌++◌, length, length-append,
  leb, if◌then◌else◌, arith, refl, ◌∙◌, Bool-cases, true, false,
}
use xx_core.Broadcast.{Slot, Channel}

-- How many receivers have yet to read message k.
abbrev pub waiting : ℕ → List ℕ → ℕ
waiting k [] = 0
waiting k (p ∷ ps) = if leb p k then suc (waiting k ps) else waiting k ps

pub waiting-append : (k : ℕ) (ps qs : List ℕ) → waiting k (ps ++ qs) ≡ waiting k ps + waiting k qs
waiting-append k [] qs = omega arith
waiting-append k (p ∷ ps) qs = elim (Bool-cases (leb p k)) [
  | inl t ↦ rw (t) (omega (arith, waiting-append k ps qs))
  | inr t ↦ rw (t) (waiting-append k ps qs)
]

-- A position is passed by no receiver that is not behind the tail.
pub waiting_le : (k : ℕ) (ps : List ℕ) → waiting k ps ≤ length ps
waiting_le k [] = omega arith
waiting_le k (p ∷ ps) = elim (Bool-cases (leb p k)) [
  | inl t ↦ rw (t) (omega (arith, waiting_le k ps))
  | inr t ↦ rw (t) (omega (arith, waiting_le k ps))
]

pub waiting_mono : (k m : ℕ) (ps : List ℕ) → k ≤ m → waiting k ps ≤ waiting m ps
waiting_mono k m [] h = omega arith
waiting_mono k m (p ∷ ps) h = elim (Bool-cases (leb p k)) [
  | inl t ↦
      let u : leb p m ≡ true = ground arith in rw (t, u) (omega (arith, waiting_mono k m ps h))
  | inr t ↦ elim (Bool-cases (leb p m)) [
    | inl u ↦ rw (t, u) (omega (arith, waiting_mono k m ps h))
    | inr u ↦ rw (t, u) (waiting_mono k m ps h)
  ]
]

-- All receivers that have yet to come to message m have yet to come to each later one.
pub waiting_new :
    (k m : ℕ) (ps : List ℕ) → m ≤ k → waiting m ps ≡ length ps → waiting k ps ≡ length ps
waiting_new k m ps h q = omega (arith, waiting_mono m k ps h, waiting_le k ps, q)

-- Where all receivers have yet to read message m or come to it, each is at m at most.
pub waiting_behind :
    (m : ℕ) (front back : List ℕ) (p : ℕ)
    → waiting m (front ++ (p ∷ back)) ≡ length (front ++ (p ∷ back))
    → p ≤ m
waiting_behind m front back p h = elim (Bool-cases (leb p m)) [
  | inl t ↦ ground arith
  | inr t ↦
      let tail_count : waiting m (p ∷ back) ≡ waiting m back = rw (t) refl in
      absurd (
        omega (
          arith,
          waiting-append m front (p ∷ back),
          length-append front (p ∷ back),
          tail_count,
          waiting_le m front,
          waiting_le m back,
          h,
        ))
]

-- A receiver that moves on waits for no more than before.
pub waiting_advance :
    (k : ℕ) (front back : List ℕ) (p p' : ℕ)
    → p ≤ p'
    → waiting k (front ++ (p' ∷ back)) ≤ waiting k (front ++ (p ∷ back))
waiting_advance k front back p p' h =
    let later : waiting k (p' ∷ back) ≤ waiting k (p ∷ back) = elim (Bool-cases (leb p' k)) [
      | inl t ↦ let u : leb p k ≡ true = ground arith in rw (t, u) (omega arith)
      | inr t ↦ elim (Bool-cases (leb p k)) [
        | inl u ↦ rw (t, u) (omega arith)
        | inr u ↦ rw (t, u) (omega arith)
      ]
    ] in
    omega (arith, waiting-append k front (p ∷ back), waiting-append k front (p' ∷ back), later)

-- Without one of the receivers, at most one less is waited for.
pub waiting_remove :
    (k : ℕ) (front back : List ℕ) (p : ℕ)
    → (waiting k (front ++ back) ≤ waiting k (front ++ (p ∷ back)))
      × (waiting k (front ++ (p ∷ back)) ≤ suc (waiting k (front ++ back)))
waiting_remove k front back p =
    let one : (waiting k back ≤ waiting k (p ∷ back))
        × (waiting k (p ∷ back) ≤ suc (waiting k back)) =
      elim (Bool-cases (leb p k)) [
        | inl t ↦ rw (t) (omega arith, omega arith)
        | inr t ↦ rw (t) (omega arith, omega arith)
      ] in
    (
      omega (arith, waiting-append k front back, waiting-append k front (p ∷ back), one.0),
      omega (arith, waiting-append k front back, waiting-append k front (p ∷ back), one.1),
    )

-- The receiver that takes message p no longer waits for it.
pub waiting_take :
    (front back : List ℕ) (p : ℕ)
    → waiting p (front ++ (p ∷ back)) ≡ suc (waiting p (front ++ (suc p ∷ back)))
waiting_take front back p =
    let t : leb p p ≡ true = ground arith in
    let u : leb (suc p) p ≡ false = ground arith in
    let now : waiting p (p ∷ back) ≡ suc (waiting p back) = rw (t) refl in
    let later : waiting p (suc p ∷ back) ≡ waiting p back = rw (u) refl in
    omega
      (arith, waiting-append p front (p ∷ back), waiting-append p front (suc p ∷ back), now, later)

pub length_replace :
    (front back : List ℕ) (p p' : ℕ) → length (front ++ (p ∷ back)) ≡ length (front ++ (p' ∷ back))
length_replace front back p p' =
    omega (arith, length-append front (p ∷ back), length-append front (p' ∷ back))

-- A receiver that moves on is still at m at most.
waiting_reached :
    (m : ℕ) (front back : List ℕ) (p p' : ℕ)
    → p ≤ p'
    → p' ≤ m
    → waiting m (front ++ (p ∷ back)) ≡ length (front ++ (p ∷ back))
    → waiting m (front ++ (p' ∷ back)) ≡ length (front ++ (p' ∷ back))
waiting_reached m front back p p' h k behind =
    let t : leb p m ≡ true = ground arith in
    let u : leb p' m ≡ true = ground arith in
    let same : waiting m (p ∷ back) ≡ waiting m (p' ∷ back) = rw (t, u) refl in
    omega (
      arith,
      behind,
      length_replace front back p p',
      same,
      waiting-append m front (p ∷ back),
      waiting-append m front (p' ∷ back),
    )

module _ {A : Type 0} where
  abbrev pub Initialized : Slot A → Type 0
  Initialized s = (Slot.remaining s ≡ 0) ⊎ ((a : A) × (Slot.data_of s ≡ some a))

  -- The slot of message k: nothing reads it more often than it counts, and while it is to be read
  -- it has the message.
  abbrev pub Stores : (ℕ → A) → List ℕ → ℕ → Slot A → Type 0
  Stores log ps k s =
      (Slot.sequence s ≡ suc k)
      × ((waiting k ps ≤ Slot.remaining s)
          × ((Slot.remaining s ≡ 0) ⊎ (Slot.data_of s ≡ some (log k))))

  -- The slot that message k will take.
  abbrev pub Awaits : ℕ → Slot A → Type 0
  Awaits k s = (Slot.sequence s ≤ k) × Initialized s

  -- A channel whose numbers are in the range that a `usize` does not wrap in, with the receivers
  -- at `ps`.
  pub record IsBroadcast (half : ℕ) (log : ℕ → A) (ps : List ℕ) (ch : Channel A) : Type 0 where
    pub in_range : Channel.tail ch < half
    pub has_slots : 0 < Channel.size ch
    pub counted : Channel.rx_count ch ≡ length ps
    pub behind : waiting (Channel.tail ch) ps ≡ length ps
    pub window :
        (k : ℕ)
        → k < Channel.tail ch
        → Channel.tail ch ≤ k + Channel.size ch
        → Stores log ps k (Channel.slots ch (k % Channel.size ch))
    pub fresh :
        (k : ℕ)
        → Channel.tail ch ≤ k
        → k < Channel.tail ch + Channel.size ch
        → Awaits k (Channel.slots ch (k % Channel.size ch))

  -- A receiver may move on to any position that is not behind the tail.
  pub advance-IsBroadcast :
      (half : ℕ) (log : ℕ → A) (front back : List ℕ) (p p' : ℕ) (ch : Channel A)
      → p ≤ p'
      → p' ≤ Channel.tail ch
      → IsBroadcast half log (front ++ (p ∷ back)) ch
      → IsBroadcast half log (front ++ (p' ∷ back)) ch
  advance-IsBroadcast half log front back p p' ch h m w = record {
    in_range = IsBroadcast.in_range w;
    has_slots = IsBroadcast.has_slots w;
    counted = IsBroadcast.counted w ∙ length_replace front back p p';
    behind = waiting_reached (Channel.tail ch) front back p p' h m (IsBroadcast.behind w);
    window = λ k a b.
        let (q, (r, d)) = IsBroadcast.window w k a b in
        (q, (omega (arith, waiting_advance k front back p p' h, r), d));
    fresh = IsBroadcast.fresh w;
  }
