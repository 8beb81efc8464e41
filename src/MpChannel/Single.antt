-- ===== src/MpChannel/Single.antt =====
-- src/async_std/sync/channel/mp.rs: a channel with one slot, whose full slot has the sequence that
-- the next sender expects.
use xx_core.Base.{
  ℕ, zero, suc, ◌+◌, ◌%◌, ◌<◌, ◌≡◌, ◌≢◌, ◌∙◌, sym, ap, refl, Bool, true, false, some, ◌==◌, arith,
  leb,
}
use native.Mathlib.Nat.{mod-eq_of_lt, mod-one}
use mathlib.Core.Path.{subst}
use xx_core.Uint
use xx_core.Uint.Laws.{wrapping_sub_above}
use xx_core.MpChannel.{
  Slot, Channel, send, recv, Answer, checking, loading, reading, exchanging, accessing, storing,
  returned, sent, run, advance, silent, sends, put_slot,
}

-- The one slot holds the value that was sent at `p` and that no receiver has claimed.
abbrev pub full_one : {A : Type 0} → ℕ → A → Bool → Channel A
full_one p v closed = record {
  head = p;
  tail = p + 1;
  slots = λ i. record { sequence = p + 1; cell = some v };
  tx_closed = false;
  rx_closed = closed;
  tx_count = 1;
  rx_count = 1;
}

module _ {A : Type 0} (half p : ℕ) (fits : p + 3 < half) (v w : A) (closed : Bool) where
  abbrev full : Channel A
  full = full_one p v closed

  abbrev claimed : Channel A
  claimed = record full { tail = p + 2 }

  abbrev written : Channel A
  written = put_slot 0 (record { sequence = p + 1; cell = some w }) claimed

  abbrev published : Channel A
  published = put_slot 0 (record { sequence = p + 2; cell = some w }) written

  compares :
      advance half 1 false (reading (send w) (p + 1)) full
      ≡ (exchanging (send w) (p + 1), full, silent)
  unfolding advance
  compares =
      let d : Uint.wrapping_sub half (p + 1) (p + 1) ≡ 0 =
        wrapping_sub_above half (p + 1) (p + 1) (omega arith) (omega arith) ∙ omega arith in
      rw d refl

  exchanges :
      advance half 1 false (exchanging (send w) (p + 1)) full
      ≡ (accessing (send w) (p + 1), claimed, sends w)
  unfolding advance
  exchanges =
      let same : (p + 1 == p + 1) ≡ true = ground arith in
      let m : (p + 1 + 1) % (half + half) ≡ p + 2 = mod-eq_of_lt (omega arith) ∙ omega arith in
      rw (same, m) refl

  accesses :
      advance half 1 false (accessing (send w) (p + 1)) claimed
      ≡ (storing (send w) (p + 1) sent, written, silent)
  unfolding advance
  accesses = rw (mod-one (p + 1)) refl

  stores :
      advance half 1 false (storing (send w) (p + 1) sent) written
      ≡ (returned sent, published, silent)
  unfolding advance
  stores =
      let m : (p + 1 + 1) % (half + half) ≡ p + 2 = mod-eq_of_lt (omega arith) ∙ omega arith in
      rw (m, mod-one (p + 1)) refl

  loads : advance half 1 false (loading recv) published ≡ (reading recv p, published, silent)
  unfolding advance
  loads = refl

  spins : advance half 1 false (reading recv p) published ≡ (loading recv, published, silent)
  unfolding advance
  spins =
      let m : (p + 1) % (half + half) ≡ p + 1 = mod-eq_of_lt (omega arith) in
      let d : Uint.wrapping_sub half (p + 2) (p + 1) ≡ 1 =
        wrapping_sub_above half (p + 2) (p + 1) (omega arith) (omega arith) ∙ omega arith in
      let small : leb half 1 ≡ false = ground arith in rw (mod-one p, m, d, small) refl

  receives_never :
      (n : ℕ) (a : Answer A)
      → ((run half 1 n (loading recv) published).0 ≢ returned a)
        × ((run half 1 n (reading recv p) published).0 ≢ returned a)
  receives_never zero a = (λ e. cc, λ e. cc)
  receives_never (suc n) a =
      let (ready, busy) = receives_never n a in
      (
        λ e. busy (ap (λ x. (run half 1 n x.0 x.1).0) (sym loads) ∙ e),
        λ e. ready (ap (λ x. (run half 1 n x.0 x.1).0) (sym spins) ∙ e),
      )

  opens : advance half 1 false (checking w) full ≡ (loading (send w), full, silent)
  unfolding advance
  opens = refl

  starts : advance half 1 false (loading (send w)) full ≡ (reading (send w) (p + 1), full, silent)
  unfolding advance
  starts = refl

  sends_again : run half 1 6 (checking w) full ≡ (returned sent, published)
  sends_again = simp (opens, starts, compares, exchanges, accesses, stores)

  -- In a channel with one slot, when the slot is full a further try_send by itself returns that it
  -- has sent, over the value that nobody has received; and a try_recv after it does not return in
  -- any number of its steps, since its slot is ahead of the sequence that it waits for.
  pub run-overwrites :
      ((run half 1 6 (checking w) full).0 ≡ returned sent)
      × (Slot.cell (Channel.slots (run half 1 6 (checking w) full).1 0) ≡ some w)
      × ((n : ℕ) (a : Answer A)
          → (run half 1 n (loading recv) (run half 1 6 (checking w) full).1).0 ≢ returned a)
  run-overwrites =
      subst
        (λ r.
          (r.0 ≡ returned sent)
          × (Slot.cell (Channel.slots r.1 0) ≡ some w)
          × ((n : ℕ) (a : Answer A) → (run half 1 n (loading recv) r.1).0 ≢ returned a))
        (sym sends_again) (refl, refl, λ n a. (receives_never n a).0)
