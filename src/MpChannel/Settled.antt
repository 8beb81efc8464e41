-- ===== src/MpChannel/Settled.antt =====
-- src/async_std/sync/channel/mp.rs: what a call returns that runs while no other task has a slot.
use xx_core.Base.{
  ℕ, ◌+◌, ◌%◌, ◌≤◌, ◌<◌, ◌≡◌, ◌≢◌, ◌∙◌, sym, ap, refl, inl, inr, false, Option, none, some, ◌==◌,
  if◌then◌else◌, Bool-cases, arith, leb,
}
use mathlib.Core.Path.{subst}
use native.Mathlib.Nat.{mod-lt, mod-eq_of_lt, add-mod_right}
use xx_core.Uint.Laws.{wrapping_sub_sign}
use xx_core.Broadcast.Indices.{mod_injective}
use xx_core.MpChannel.{
  Slot, Channel, Call, send, recv, checking, loading, exchanging, failed, returned, History, System,
  counter, sent, received, Reachable, full, empty, recv_closed, send_closed, expected, run,
}
use xx_core.MpChannel.Invariant.{wants, owned, sequence_at, cell_at, Sound}
use xx_core.MpChannel.Keeps.{Fits, Reachable-Sound}
use xx_core.MpChannel.Calls.{
  after, send_shut, hits, misses, claims, fails, writes, takes_value, start_send, start_recv,
}

-- In a window as long as the ring, each slot stands for one position.
pub same_window : (c lo p q : ℕ) → lo ≤ p → p < lo + c → lo ≤ q → q < lo + c → p % c ≡ q % c → p ≡ q
same_window c lo p q a b d e i = elim (Bool-cases (p == q)) [
  | inl y ↦ ground arith
  | inr y ↦ elim (Bool-cases (leb p q)) [
    | inl z ↦ absurd (mod_injective p q c (ground arith) (omega arith) i)
    | inr z ↦ absurd (mod_injective q p c (ground arith) (omega arith) (sym i))
  ]
]

-- What calls return that run alone.
module _ {A : Type 0} (half capacity : ℕ) (s : System A) where
  abbrev pub Answers : Type 0
  Answers =
      ((v : A)
        → (run half capacity 6 (checking v) (System.channel s)).0
          ≡ returned (
              if Channel.tx_closed (System.channel s)
              then send_closed v
              else if Channel.tail (System.channel s) == Channel.head (System.channel s) + capacity
              then full v
              else sent))
      × ((v : A)
          → Channel.head (System.channel s) < Channel.tail (System.channel s)
          → History.sent_at (System.history s) (Channel.head (System.channel s)) ≡ some v
          → (run half capacity 5 (loading recv) (System.channel s)).0 ≡ returned (received v))
      × (A
          → Channel.head (System.channel s) ≡ Channel.tail (System.channel s)
          → (run half capacity 5 (loading recv) (System.channel s)).0
            ≡ returned (if Channel.rx_closed (System.channel s) then recv_closed else empty))

-- The steps of a task that runs alone.
module _ {A : Type 0} (capacity : ℕ) (two : 2 ≤ capacity) where
  module _ (s : System A) (g : Sound capacity s)
      (settled : (k : ℕ) → owned capacity (System.tasks s k) ≡ none) where
    abbrev ch : Channel A
    ch = System.channel s

    abbrev h : History A
    h = System.history s

    unclaimed : (c : Call A) (p : ℕ) → sequence_at capacity ch h p ≡ wants c p → counter c ch ≤ p
    unclaimed c p e = elim (Bool-cases (leb (counter c ch) p)) [
      | inl b ↦ ground arith
      | inr b ↦
          let (k, o) = Sound.worked g c p (ground arith) e in
          let y : none ≡ some (p % capacity) = sym (settled k) ∙ o in cc
    ]

    sent_value : (p : ℕ) → p < Channel.tail ch → A
    sent_value p lt = go (History.sent_at h p) (Sound.sent_all g p lt)
      where
        go : (o : Option A) → o ≢ none → A
        go none z = absurd (z refl)
        go (some v) z = v

    -- A position that was sent and not claimed has its value in its slot.
    pub stored :
        (q : ℕ)
        → Channel.head ch ≤ q
        → q < Channel.tail ch
        → (sequence_at capacity ch h q ≡ q + 1) × (cell_at capacity ch h q ≡ History.sent_at h q)
    stored q lo hi =
        let (p, i, le, x) = Sound.slots g (q % capacity) (mod-lt q (omega arith)) in
        let room = Sound.room g in
        elim x [
          | inl v ↦
              let ahead : Channel.tail ch ≤ p = unclaimed (send (sent_value q hi)) p v.0 in
              absurd (mod_injective q p capacity (omega arith) (omega (arith, v.2)) (sym i))
          | inr o ↦
              let behind : Channel.head ch ≤ p = unclaimed recv p o.0 in
              let same : p ≡ q =
                same_window capacity (Channel.head ch) p q behind (omega (arith, o.1)) lo
                  (omega arith) i in
              subst
                (λ n.
                  (sequence_at capacity ch h n ≡ n + 1)
                  × (cell_at capacity ch h n ≡ History.sent_at h n))
                same (o.0, o.2 behind)
        ]

    -- A position that has room waits for its sender.
    pub vacant :
        (v : A) (q : ℕ)
        → Channel.tail ch ≤ q
        → q < Channel.head ch + capacity
        → sequence_at capacity ch h q ≡ q
    vacant v q lo hi =
        let (p, i, le, x) = Sound.slots g (q % capacity) (mod-lt q (omega arith)) in
        let room = Sound.room g in
        let ordered = Sound.ordered g in
        elim x [
          | inl w ↦
              let ahead : Channel.tail ch ≤ p = unclaimed (send v) p w.0 in
              let same : p ≡ q =
                same_window capacity (Channel.head ch) p q (omega arith) w.2 (omega arith) hi i in
              subst (λ n. sequence_at capacity ch h n ≡ n) same w.0
          | inr o ↦
              let behind : Channel.head ch ≤ p = unclaimed recv p o.0 in
              absurd (mod_injective p q capacity (omega (arith, o.1)) (omega arith) i)
        ]

  module _ (half : ℕ) (s : System A) (g : Sound capacity s) (fits : Fits half capacity two s)
      (settled : (k : ℕ) → owned capacity (System.tasks s k) ≡ none) where
    abbrev here : Channel A
    here = System.channel s

    abbrev past : History A
    past = System.history s

    sender_waits :
        (v : A)
        → Channel.tail here ≡ Channel.head here + capacity
        → sequence_at capacity here past (Channel.tail here) ≡ Channel.head here + 1
    sender_waits v e =
        let i : Channel.tail here % capacity ≡ Channel.head here % capacity =
          ap (λ n. n % capacity) e ∙ add-mod_right (Channel.head here) capacity in
        ap (λ n. Slot.sequence (Channel.slots here n)) i
        ∙ (stored s g settled (Channel.head here) (omega arith) (omega arith)).0

    send_open :
        (v : A)
        → Channel.tx_closed here ≡ false
        → (run half capacity 6 (checking v) here).0
          ≡ returned (if Channel.tail here == Channel.head here + capacity then full v else sent)
    send_open v open_tx = elim (Bool-cases (Channel.tail here == Channel.head here + capacity)) [
      | inl b ↦
          let e : Channel.tail here ≡ Channel.head here + capacity = ground arith in
          let counted = Sound.counted g in
          rw b (
            start_send half capacity here v (failed (send v)) open_tx (
              misses half capacity here (send v) (Channel.tail here) _ refl (
                wrapping_sub_sign half (sequence_at capacity here past (Channel.tail here))
                  (Channel.tail here) (omega (arith, sender_waits v e)) (omega arith)))
            ∙ (fails half capacity here (send v)
                ∙ ap (λ c. returned (if c then send_closed v else full v)) open_tx))
      | inr b ↦
          let other : Channel.tail here ≢ Channel.head here + capacity = λ z. ground arith in
          let room = Sound.room g in
          let counted = Sound.counted g in
          rw b (
            start_send half capacity here v (exchanging (send v) (Channel.tail here)) open_tx (
              hits half capacity here (send v) (Channel.tail here)
                (vacant s g settled v (Channel.tail here) (omega arith) (omega arith))
                (omega arith))
            ∙ (ap (after half capacity here 2) (claims half capacity here (send v))
                ∙ writes half capacity _ v (Channel.tail here)))
    ]

    send_result :
        (v : A)
        → (run half capacity 6 (checking v) here).0
          ≡ returned (
              if Channel.tx_closed here
              then send_closed v
              else if Channel.tail here == Channel.head here + capacity
              then full v
              else sent)
    send_result v = elim (Bool-cases (Channel.tx_closed here)) [
      | inl b ↦ send_shut half capacity here v _ b
      | inr b ↦
          send_open v b
          ∙ ap
              (λ c. returned (
                if c
                then send_closed v
                else if Channel.tail here == Channel.head here + capacity
                then full v
                else sent))
              (sym b)
    ]

    expects : expected {A = A} half capacity recv (Channel.head here) ≡ Channel.head here + 1
    expects =
        let counted = Sound.counted g in let ordered = Sound.ordered g in mod-eq_of_lt (omega arith)

    receive_empty :
        (v : A)
        → Channel.head here ≡ Channel.tail here
        → (run half capacity 5 (loading recv) here).0
          ≡ returned (if Channel.rx_closed here then recv_closed else empty)
    receive_empty v e =
        let counted = Sound.counted g in
        let seq : sequence_at capacity here past (Channel.head here) ≡ Channel.head here =
          vacant s g settled v (Channel.head here) (omega arith) (omega arith) in
        start_recv half capacity here (failed recv) (
          misses half capacity here recv (Channel.head here) _ refl (
            wrapping_sub_sign half (sequence_at capacity here past (Channel.head here))
              (expected {A = A} half capacity recv (Channel.head here))
              (omega (arith, seq, expects)) (omega (arith, expects))))
        ∙ fails half capacity here recv

    receive_next :
        (v : A)
        → Channel.head here < Channel.tail here
        → History.sent_at past (Channel.head here) ≡ some v
        → (run half capacity 5 (loading recv) here).0 ≡ returned (received v)
    receive_next v lt e =
        let counted = Sound.counted g in
        let (seq, cell) = stored s g settled (Channel.head here) (omega arith) lt in
        start_recv half capacity here (exchanging recv (Channel.head here)) (
          hits half capacity here recv (Channel.head here) (seq ∙ sym expects)
            (omega (arith, expects)))
        ∙ (ap (after half capacity here 2) (claims half capacity here recv)
            ∙ takes_value half capacity _ v (Channel.head here) (cell ∙ e))

    answers : Answers half capacity s
    answers = (send_result, receive_next, receive_empty)

  -- In a channel of two slots or more, of which no other task has one for itself, a try_send that
  -- runs alone returns in six steps, and a try_recv in five: the closed channel is reported before
  -- all else to a sender, and to a receiver only when nothing is left; the value is given back
  -- exactly when as many values as slots are sent and not received; and the value received is the
  -- next one in the order of sending.
  pub Reachable-Answers :
      (half : ℕ) (s : System A)
      → Reachable half capacity s
      → History.count (System.history s) + capacity + 1 ≤ half
      → ((k : ℕ) → owned capacity (System.tasks s k) ≡ none)
      → Answers half capacity s
  Reachable-Answers half s r fits settled =
      answers half s (Reachable-Sound half capacity two s r fits) fits settled
