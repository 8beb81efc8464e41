-- ===== src/MpChannel/Claims.antt =====
-- src/async_std/sync/channel/mp.rs: a sender or a receiver moves its counter, and so has the slot.
use xx_core.Base.{
  ℕ, ◌+◌, ◌%◌, ◌≤◌, ◌<◌, ◌≡◌, ◌≢◌, ◌∙◌, sym, ap, refl, ◌⊎◌, inl, inr, true, false, some, ◌==◌,
  Bool-cases, arith,
}
use mathlib.Core.Path.{subst}
use native.Mathlib.Nat.{add-mod_right}
use xx_core.MpChannel.{
  Slot, Channel, Call, send, recv, Task, exchanging, accessing, History, System, update, counter,
}
use xx_core.MpChannel.Invariant.{
  wants, owned, sequence_at, TaskSound, SlotSound, Vacant, Occupied, Sound,
}
use xx_core.MpChannel.Frame.{counter-le}
use xx_core.MpChannel.Owners.{
  sequence-Serves, not-owned, TaskSound-update, alone-update, accessing-update, owned-update,
}

module _ {A : Type 0} (capacity : ℕ) (two : 2 ≤ capacity) where
  module _ (s : System A) (g : Sound capacity s) (k : ℕ) where
    abbrev ch : Channel A
    ch = System.channel s

    abbrev h : History A
    h = System.history s

    abbrev sender_moved : ℕ → Channel A
    sender_moved p = record ch { tail = p + 1 }

    abbrev receiver_moved : ℕ → Channel A
    receiver_moved p = record ch { head = p + 1 }

    abbrev logged : A → History A
    logged v = record h {
      count = History.count h + 1;
      sent_at = update (History.sent_at h) (History.count h) (some v);
    }

    claimed_here :
        (t : Task A) (p : ℕ)
        → owned capacity t ≡ some (p % capacity)
        → (j : ℕ) × (owned capacity (update (System.tasks s) k t j) ≡ some (p % capacity))
    claimed_here t p o = let b : (k == k) ≡ true = ground arith in (k, rw b o)

    claimed_before :
        (t : Task A) (c : Call A) (p : ℕ)
        → System.tasks s k ≡ exchanging c p
        → (d : Call A) (q : ℕ) → q < counter d ch
        → sequence_at capacity ch h q ≡ wants d q
        → (j : ℕ) × (owned capacity (update (System.tasks s) k t j) ≡ some (q % capacity))
    claimed_before t c p e d q lt f =
        owned-update capacity two s g k (q % capacity) t
          (λ o. let y = sym (ap (owned capacity) e) ∙ o in cc) (Sound.worked g d q lt f)

    worked_send :
        (v : A) (p : ℕ)
        → Channel.tail ch ≡ p
        → System.tasks s k ≡ exchanging (send v) p
        → (d : Call A) (q : ℕ) → q < counter d (sender_moved p)
        → sequence_at capacity ch h q ≡ wants d q
        → (j : ℕ) × (owned capacity (update (System.tasks s) k (accessing (send v) p) j)
            ≡ some (q % capacity))
    worked_send v p at e (send w) q lt f = elim (Bool-cases (q == p)) [
      | inl b ↦
          let same : q ≡ p = ground arith in
          claimed_here (accessing (send v) p) q (ap (λ n. some (n % capacity)) (sym same))
      | inr b ↦ claimed_before (accessing (send v) p) (send v) p e (send w) q (ground arith) f
    ]
    worked_send v p at e recv q lt f =
        claimed_before (accessing (send v) p) (send v) p e recv q lt f

    worked_recv :
        (p : ℕ)
        → Channel.head ch ≡ p
        → System.tasks s k ≡ exchanging recv p
        → (d : Call A) (q : ℕ) → q < counter d (receiver_moved p)
        → sequence_at capacity ch h q ≡ wants d q
        → (j : ℕ) × (owned capacity (update (System.tasks s) k (accessing recv p) j)
            ≡ some (q % capacity))
    worked_recv p at e recv q lt f = elim (Bool-cases (q == p)) [
      | inl b ↦
          let same : q ≡ p = ground arith in
          claimed_here (accessing recv p) q (ap (λ n. some (n % capacity)) (sym same))
      | inr b ↦ claimed_before (accessing recv p) recv p e recv q (ground arith) f
    ]
    worked_recv p at e (send w) q lt f = claimed_before (accessing recv p) recv p e (send w) q lt f

    -- The slot behind the last one that is used is not the next sender's.
    window_moves :
        (p q : ℕ)
        → Channel.tail ch ≡ p
        → sequence_at capacity ch h p ≡ p
        → Channel.tail ch ≤ q + capacity
        → Vacant capacity ch h q ⊎ Occupied capacity ch h q
        → p + 1 ≤ q + capacity
    window_moves p q at e le x = elim (Bool-cases (q + capacity == p)) [
      | inl b ↦
          let last : q + capacity ≡ p = ground arith in
          let i : q % capacity ≡ p % capacity =
            sym (add-mod_right q capacity) ∙ ap (λ n. n % capacity) last in
          let seq : sequence_at capacity ch h q ≡ p =
            ap (λ n. Slot.sequence (Channel.slots ch n)) i ∙ e in
          elim x [
            | inl v ↦ absurd (omega (arith, seq, v.0))
            | inr o ↦ absurd (omega (arith, seq, o.0))
          ]
      | inr b ↦ let other : q + capacity ≢ p = λ z. ground arith in omega arith
    ]

    tail_watched :
        (p : ℕ)
        → Channel.tail ch ≡ p
        → (c : Call A) (q : ℕ) → q ≤ counter c ch
        → counter c (sender_moved p) ≡ q
        → (counter c ch ≡ q → sequence_at capacity ch h q ≡ wants c q)
        → sequence_at capacity ch h q ≡ wants c q
    tail_watched p at (send v) q le z f = absurd (omega arith)
    tail_watched p at recv q le z f = f z

    head_watched :
        (p : ℕ)
        → Channel.head ch ≡ p
        → (c : Call A) (q : ℕ) → q ≤ counter c ch
        → counter c (receiver_moved p) ≡ q
        → (counter c ch ≡ q → sequence_at capacity ch h q ≡ wants c q)
        → sequence_at capacity ch h q ≡ wants c q
    head_watched p at (send v) q le z f = f z
    head_watched p at recv q le z f = absurd (omega arith)

    claim_send-SlotSound :
        (v : A) (p i : ℕ)
        → Channel.tail ch ≡ p
        → sequence_at capacity ch h p ≡ p
        → SlotSound capacity ch h i
        → SlotSound capacity (sender_moved p) (logged v) i
    claim_send-SlotSound v p i at e (q, m, le, inl x) =
        (q, m, window_moves p q at e le (inl x), inl x)
    claim_send-SlotSound v p i at e (q, m, le, inr (x, lt, c)) =
        let counted = Sound.counted g in
        (
          q,
          m,
          window_moves p q at e le (inr (x, lt, c)),
          inr (
            x,
            omega arith,
            λ z. let other : (q == History.count h) ≡ false = ground arith in rw other (c z),
          ),
        )

    -- A sender takes the position at the tail.
    pub claim_send-Sound :
        (v : A) (p : ℕ)
        → Channel.tail ch ≡ p
        → System.tasks s k ≡ exchanging (send v) p
        → Sound capacity (record {
          channel = sender_moved p;
          tasks = update (System.tasks s) k (accessing (send v) p);
          history = logged v;
        })
    claim_send-Sound v p at e =
        let own : TaskSound capacity ch h (exchanging (send v) p) =
          subst (TaskSound capacity ch h) e (Sound.tasks g k) in
        let seq : sequence_at capacity ch h p ≡ p = own.1 at in
        let (vacant, fits) = sequence-Serves capacity two s g (send v) p seq in
        let counted = Sound.counted g in
        let old : (q : ℕ) → q < p → (q == History.count h) ≡ false = λ q lt. ground arith in
        let new : (p == History.count h) ≡ true = ground arith in
        record {
          counted = omega arith;
          ordered = omega (arith, Sound.ordered g);
          room = omega (arith, vacant.2);
          slots = λ i lt. claim_send-SlotSound v p i at seq (Sound.slots g i lt);
          tasks =
              TaskSound-update capacity two s g k (accessing (send v) p) (sender_moved p) (logged v)
                (omega arith, seq, rw (new) refl)
                (λ j apart. record {
                  counters = counter-le _ _ (omega arith) (omega arith);
                  watched = tail_watched p at;
                  mine = λ i o. refl;
                  sents = λ q lt. rw (old q (omega arith)) refl;
                  takens = λ q o. refl;
                });
          alone = alone-update capacity two s g k (accessing (send v) p) (λ j i o z. absurd (
              not-owned capacity two s g (System.tasks s j) (send v) p (Sound.tasks g j)
                (omega arith) seq (o ∙ sym z)));
          sent_all = λ q lt. elim (Bool-cases (q == History.count h)) [
            | inl b ↦ rw b (λ z. cc)
            | inr b ↦ rw b (Sound.sent_all g q (ground arith))
          ];
          not_taken = Sound.not_taken g;
          taken_all = λ q lt. elim (Sound.taken_all g q lt) [
            | inl z ↦ inl (rw (old q (omega (arith, Sound.ordered g))) z)
            | inr z ↦ inr (accessing-update capacity two s g k q (accessing (send v) p) (λ w. cc) z)
          ];
          worked = worked_send v p at e;
        }

    claim_recv-SlotSound :
        (p i : ℕ)
        → Channel.head ch ≡ p
        → sequence_at capacity ch h p ≡ p + 1
        → SlotSound capacity ch h i
        → SlotSound capacity (receiver_moved p) h i
    claim_recv-SlotSound p i at e (q, m, le, inl (x, lo, hi)) = elim (Bool-cases (q == p)) [
      | inl b ↦
          let same : q ≡ p = ground arith in
          absurd (omega (arith, x, ap (sequence_at capacity ch h) same, e))
      | inr b ↦
          let other : q ≢ p = λ z. ground arith in (q, m, le, inl (x, omega arith, omega arith))
    ]
    claim_recv-SlotSound p i at e (q, m, le, inr (x, lt, c)) =
        (q, m, le, inr (x, lt, λ z. c (omega arith)))

    -- A receiver takes the position at the head.
    pub claim_recv-Sound :
        (p : ℕ)
        → Channel.head ch ≡ p
        → System.tasks s k ≡ exchanging recv p
        → Sound capacity (record s {
          channel = receiver_moved p;
          tasks = update (System.tasks s) k (accessing recv p);
        })
    claim_recv-Sound p at e =
        let own : TaskSound capacity ch h (exchanging recv p) =
          subst (TaskSound capacity ch h) e (Sound.tasks g k) in
        let seq : sequence_at capacity ch h p ≡ p + 1 = own.1 at in
        let (full, fits) = sequence-Serves capacity two s g recv p seq in
        record {
          counted = Sound.counted g;
          ordered = omega (arith, full.1);
          room = omega (arith, Sound.room g);
          slots = λ i lt. claim_recv-SlotSound p i at seq (Sound.slots g i lt);
          tasks =
              TaskSound-update capacity two s g k (accessing recv p) (receiver_moved p) h
                (omega arith, seq, (full.2 (omega arith), Sound.not_taken g p (omega arith)))
                (λ j apart. record {
                  counters = counter-le _ _ (omega arith) (omega arith);
                  watched = head_watched p at;
                  mine = λ i o. refl;
                  sents = λ q lt. refl;
                  takens = λ q o. refl;
                });
          alone = alone-update capacity two s g k (accessing recv p) (λ j i o z. absurd (
              not-owned capacity two s g (System.tasks s j) recv p (Sound.tasks g j) (omega arith)
                seq (o ∙ sym z)));
          sent_all = Sound.sent_all g;
          not_taken = λ q le. Sound.not_taken g q (omega arith);
          taken_all = λ q lt. elim (Bool-cases (q == p)) [
            | inl b ↦
                let same : q ≡ p = ground arith in
                let here : (k == k) ≡ true = ground arith in
                inr (k, rw here (ap (λ n. accessing recv n) (sym same)))
            | inr b ↦
                let other : q ≢ p = λ z. ground arith in
                elim (Sound.taken_all g q (omega arith)) [
                  | inl z ↦ inl z
                  | inr z ↦
                      inr (accessing-update capacity two s g k q (accessing recv p) (λ w. cc) z)
                ]
          ];
          worked = worked_recv p at e;
        }
