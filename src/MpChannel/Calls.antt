-- ===== src/MpChannel/Calls.antt =====
-- src/async_std/sync/channel/mp.rs: the calls of try_send and try_recv that run without another between
-- their atomic operations.
use xx_core.Base.{
  ℕ, ◌+◌, ◌<◌, ◌≡◌, ◌∙◌, sym, ap, refl, true, false, some, ◌==◌, if◌then◌else◌, arith, leb,
}
use xx_core.Uint
use xx_core.Uint.Laws.{wrapping_sub_above}
use xx_core.MpChannel.{
  Slot, Channel, Call, send, recv, Answer, Task, checking, loading, reading, exchanging, accessing,
  failed, returned, Event, silent, counter, sent, received, send_closed, wrapped, expected, slot_at,
  advance, run, compared, put_counter, claim_event, failure, success,
}

module _ {A : Type 0} (half capacity : ℕ) (ch : Channel A) where
  abbrev pub after : ℕ → Task A × Channel A × Event A → Task A
  after n x = (run half capacity n x.0 x.1).0

  pub opens :
      (v : A)
      → Channel.tx_closed ch ≡ false
      → advance half capacity false (checking v) ch ≡ (loading (send v), ch, silent)
  unfolding advance
  opens v e = ap (λ b. (if b then returned (send_closed v) else loading (send v), ch, silent)) e

  pub shuts :
      (v : A)
      → Channel.tx_closed ch ≡ true
      → advance half capacity false (checking v) ch ≡ (returned (send_closed v), ch, silent)
  unfolding advance
  shuts v e = ap (λ b. (if b then returned (send_closed v) else loading (send v), ch, silent)) e

  pub stays : (a : Answer A) → (run half capacity 5 (returned a) ch).0 ≡ returned a
  unfolding advance
  stays a = refl

  pub send_shut :
      (v : A) (other : Answer A)
      → Channel.tx_closed ch ≡ true
      → (run half capacity 6 (checking v) ch).0
        ≡ returned (if Channel.tx_closed ch then send_closed v else other)
  send_shut v other e =
      ap (after 5) (shuts v e)
      ∙ (stays (send_closed v) ∙ ap (λ b. returned (if b then send_closed v else other)) (sym e))

  pub loads :
      (c : Call A)
      → advance half capacity false (loading c) ch ≡ (reading c (counter c ch), ch, silent)
  unfolding advance
  loads c = refl

  pub hits :
      (c : Call A) (p : ℕ)
      → Slot.sequence (slot_at half capacity ch p) ≡ expected half capacity c p
      → expected half capacity c p < half + half
      → advance half capacity false (reading c p) ch ≡ (exchanging c p, ch, silent)
  unfolding advance
  hits c p e lt =
      let zero_diff : Uint.wrapping_sub half (Slot.sequence (slot_at half capacity ch p))
            (expected half capacity c p)
          ≡ 0 =
        wrapping_sub_above half _ _ (omega arith) (omega arith) ∙ omega arith in
      ap (λ d. (compared half capacity c p d, ch, silent)) zero_diff

  pub misses :
      (c : Call A) (p d : ℕ)
      → Uint.wrapping_sub half
          (Slot.sequence (slot_at half capacity ch p))
          (expected half capacity c p)
        ≡ d
      → ((d == 0) ≡ false) × (leb half d ≡ true)
      → advance half capacity false (reading c p) ch ≡ (failed c, ch, silent)
  unfolding advance
  misses c p d e (nonzero, negative) =
      ap (λ d. (compared half capacity c p d, ch, silent)) e ∙ rw (nonzero, negative) refl

  pub claims :
      (c : Call A)
      → advance half capacity false (exchanging c (counter c ch)) ch ≡ (
        accessing c (counter c ch),
        put_counter c (wrapped half (counter c ch + 1)) ch,
        claim_event c,
      )
  unfolding advance
  claims c = let same : (counter c ch == counter c ch) ≡ true = ground arith in rw same refl

  pub fails : (c : Call A) → (run half capacity 3 (failed c) ch).0 ≡ returned (failure c ch)
  unfolding advance
  fails c = refl

  pub writes : (v : A) (p : ℕ) → (run half capacity 2 (accessing (send v) p) ch).0 ≡ returned sent
  unfolding advance
  writes v p = refl

  pub takes_value :
      (v : A) (p : ℕ)
      → Slot.cell (slot_at half capacity ch p) ≡ some v
      → (run half capacity 2 (accessing recv p) ch).0 ≡ returned (received v)
  unfolding advance
  takes_value v p e = rw (e, success) refl

  pub start_send :
      (v : A) (t : Task A)
      → Channel.tx_closed ch ≡ false
      → advance half capacity false (reading (send v) (Channel.tail ch)) ch ≡ (t, ch, silent)
      → (run half capacity 6 (checking v) ch).0 ≡ (run half capacity 3 t ch).0
  start_send v t e q = ap (after 5) (opens v e) ∙ (ap (after 4) (loads (send v)) ∙ ap (after 3) q)

  pub start_recv :
      (t : Task A)
      → advance half capacity false (reading recv (Channel.head ch)) ch ≡ (t, ch, silent)
      → (run half capacity 5 (loading recv) ch).0 ≡ (run half capacity 3 t ch).0
  start_recv t q = ap (after 4) (loads recv) ∙ ap (after 3) q
