-- ===== src/MpChannel/Drops.antt =====
-- src/async_std/sync/channel/mp.rs: what is dropped with the channel.
use xx_core.Base.{
  ℕ, zero, suc, ◌+◌, ◌%◌, ◌≤◌, ◌<◌, ◌≡◌, ◌≢◌, ◌∙◌, ap, refl, inl, inr, false, Option, none, some,
  List, [], ◌∷◌, ◌==◌, Bool-cases, arith,
}
use native.Mathlib.Nat.{mod-eq_of_lt}
use xx_core.Broadcast.Indices.{mod_injective}
use xx_core.MpChannel.{
  Slot, Channel, History, System, put_slot, wrapped, slot_at, dropped, drop_all, Reachable,
}
use xx_core.MpChannel.Invariant.{owned, Sound}
use xx_core.MpChannel.Keeps.{Reachable-Sound}
use xx_core.MpChannel.Settled.{stored}

other_slot : (c p q : ℕ) → p < q → q < p + c → (q % c == p % c) ≡ false
other_slot c p q lo hi = elim (Bool-cases (q % c == p % c)) [
  | inl b ↦ let same : p % c ≡ q % c = ground arith in absurd (mod_injective p q c lo hi same)
  | inr b ↦ b
]

module _ {A : Type 0} (half capacity : ℕ) where
  -- The values sent from a position on, up to the last.
  abbrev pub SentFrom : (ℕ → Option A) → ℕ → ℕ → List A → Type 0
  SentFrom sent_at p last [] = p ≡ last
  SentFrom sent_at p last (v ∷ vs) =
      (p < last) × (sent_at p ≡ some v) × SentFrom sent_at (p + 1) last vs

  -- The loop drops the values from its head on, and leaves the channel empty.
  abbrev pub Drops : (ℕ → Option A) → ℕ → ℕ → Option (List A × Channel A) → Type 0
  Drops sent_at p last none = ⊥
  Drops sent_at p last (some (vs, left)) =
      SentFrom sent_at p last vs × (Channel.head left ≡ Channel.tail left)

  module _ (sent_at : ℕ → Option A) (last : ℕ) (fits : last < half) where
    some_value : (o : Option A) → o ≢ none → (v : A) × (o ≡ some v)
    some_value none z = absurd (z refl)
    some_value (some v) z = (v, refl)

    more :
        (p : ℕ) (v : A) (rest : Option (List A × Channel A))
        → p < last
        → sent_at p ≡ some v
        → Drops sent_at (p + 1) last rest
        → Drops sent_at p last (elim rest [ none ↦ none | some (vs, left) ↦ some (v ∷ vs, left) ])
    more p v none lt e d = d
    more p v (some (vs, left)) lt e (d, q) = ((lt, e, d), q)

    drop_all-from :
        (fuel p : ℕ) (ch : Channel A)
        → Channel.head ch ≡ p
        → Channel.tail ch ≡ last
        → p ≤ last
        → last ≤ p + capacity
        → last < p + fuel
        → ((q : ℕ)
            → p ≤ q
            → q < last
            → (Slot.cell (Channel.slots ch (q % capacity)) ≡ sent_at q) × (sent_at q ≢ none))
        → Drops sent_at p last (drop_all half capacity fuel ch)
    unfolding drop_all
    drop_all-from zero p ch h t le room enough cells = absurd (omega arith)
    drop_all-from (suc fuel) p ch h t le room enough cells =
        elim (Bool-cases (Channel.head ch == Channel.tail ch)) [
          | inl b ↦ rw b (ground arith, ground arith)
          | inr b ↦
              let lt : p < last = ground arith in
              let (v, e) = some_value (sent_at p) (cells p (omega arith) lt).1 in
              let full : Slot.cell (slot_at half capacity ch (Channel.head ch)) ≡ some v =
                ap (λ n. Slot.cell (Channel.slots ch (n % capacity))) h
                ∙ ((cells p (omega arith) lt).0 ∙ e) in
              let ch' : Channel A =
                put_slot (Channel.head ch % capacity)
                  (record (slot_at half capacity ch (Channel.head ch)) { cell = none })
                  (record ch { head = wrapped half (Channel.head ch + 1) }) in
              let moved : wrapped half (Channel.head ch + 1) ≡ p + 1 =
                mod-eq_of_lt (omega arith) ∙ omega arith in
              let rest =
                drop_all-from fuel (p + 1) ch' moved t (omega arith) (omega arith) (omega arith)
                  (λ q lo hi.
                    let apart : (q % capacity == Channel.head ch % capacity) ≡ false =
                      other_slot capacity (Channel.head ch) q (omega arith) (omega arith) in
                    (rw apart (cells q (omega arith) hi).0, (cells q (omega arith) hi).1)) in
              rw (b, full, dropped) (more p v _ lt e rest)
        ]

  -- When the last handle is dropped, so that no task is in a call, the channel drops exactly the
  -- values that were sent and that no receiver has taken, in the order of sending, and is empty; the
  -- rounds of the loop are as many.
  pub drop_all-Drops :
      (two : 2 ≤ capacity) (s : System A)
      → Reachable half capacity s
      → History.count (System.history s) + capacity + 1 ≤ half
      → ((k : ℕ) → owned capacity (System.tasks s k) ≡ none)
      → (fuel : ℕ) → History.count (System.history s) < Channel.head (System.channel s) + fuel
      → Drops
          (History.sent_at (System.history s))
          (Channel.head (System.channel s))
          (History.count (System.history s))
          (drop_all half capacity fuel (System.channel s))
  drop_all-Drops two s r fits settled fuel enough =
      let g = Reachable-Sound half capacity two s r fits in
      let counted = Sound.counted g in
      drop_all-from (History.sent_at (System.history s)) (History.count (System.history s))
        (omega arith) fuel (Channel.head (System.channel s)) (System.channel s) refl counted
        (omega (arith, Sound.ordered g)) (omega (arith, Sound.room g)) enough
        (λ q lo hi. (
          (stored capacity two s g settled q lo (omega arith)).1,
          Sound.sent_all g q (omega arith),
        ))
