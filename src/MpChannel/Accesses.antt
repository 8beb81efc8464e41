-- ===== src/MpChannel/Accesses.antt =====
-- src/async_std/sync/channel/mp.rs: the task that has a slot writes or takes the value in it, and
-- then stores the sequence.
use xx_core.Base.{
  ℕ, ◌%◌, ◌≤◌, ◌<◌, ◌≡◌, ◌≢◌, ◌∙◌, sym, ap, refl, inl, inr, true, false, some, ◌==◌, Bool-cases,
  arith,
}
use mathlib.Core.Path.{subst}
use xx_core.MpChannel.{
  Slot, Channel, Call, send, recv, Task, History, System, update, counter, put_slot,
}
use xx_core.MpChannel.Invariant.{wants, owned, sequence_at, SlotSound, Sound}
use xx_core.MpChannel.Frame.{wanted_once, counter-le, Keeps}
use xx_core.MpChannel.Owners.{before_counter, not-owned, owned-update}

module _ {A : Type 0} (capacity : ℕ) (two : 2 ≤ capacity) where
  module _ (s : System A) (g : Sound capacity s) (k p : ℕ) where
    abbrev pub ch : Channel A
    ch = System.channel s

    abbrev pub h : History A
    h = System.history s

    abbrev pub put : Slot A → Channel A
    put x = put_slot (p % capacity) x ch

    abbrev pub taken : ℕ → A → History A
    taken q v = record h { taken_at = update (History.taken_at h) q (some v) }

    put_other :
        (x : Slot A) (i : ℕ) → i ≢ p % capacity → Channel.slots (put x) i ≡ Channel.slots ch i
    put_other x i apart = let other : (i == p % capacity) ≡ false = ground arith in rw other refl

    pub put_same : (x : Slot A) (i : ℕ) → i ≡ p % capacity → Channel.slots (put x) i ≡ x
    put_same x i e = let same : (i == p % capacity) ≡ true = ground arith in rw same refl

    pub put-SlotSound :
        (x : Slot A)
        → SlotSound capacity (put x) h (p % capacity)
        → (i : ℕ) → SlotSound capacity ch h i
        → SlotSound capacity (put x) h i
    put-SlotSound x new i (q, m, le, old) = elim (Bool-cases (i == p % capacity)) [
      | inl b ↦
          let same : i ≡ p % capacity = ground arith in
          subst (SlotSound capacity (put x) h) (sym same) new
      | inr b ↦
          let apart : q % capacity ≢ p % capacity = λ z. ground arith in
          let kept : Channel.slots (put x) (q % capacity) ≡ Channel.slots ch (q % capacity) =
            put_other x (q % capacity) apart in
          (
            q,
            m,
            le,
            elim old [
              | inl v ↦ inl (ap Slot.sequence kept ∙ v.0, v.1, v.2)
              | inr o ↦ inr (ap Slot.sequence kept ∙ o.0, o.1, λ z. ap Slot.cell kept ∙ o.2 z)
            ],
          )
    ]

    module _ (own : owned capacity (System.tasks s k) ≡ some (p % capacity)) where
      pub slot-Keeps :
          (x : Slot A) (h' : History A)
          → ((q : ℕ) → History.sent_at h' q ≡ History.sent_at h q)
          → ((q : ℕ) → q ≢ p → History.taken_at h' q ≡ History.taken_at h q)
          → (j : ℕ) → j ≢ k
          → Keeps capacity ch (put x) h h' (System.tasks s j)
      slot-Keeps x h' same others j apart = record {
        counters = counter-le _ _ (omega arith) (omega arith);
        watched = λ c q le z f.
            let z' : counter c ch ≡ q = counter-put c x ∙ z in
            let outside : q % capacity ≢ p % capacity = λ e.
              not-owned capacity two s g (System.tasks s k) c q (Sound.tasks g k) (omega arith)
                (f z') (own ∙ ap some (sym e)) in
            ap Slot.sequence (put_other x (q % capacity) outside) ∙ f z';
        mine = λ i o. put_other x i (λ e. apart (Sound.alone g j k i o (own ∙ ap some (sym e))));
        sents = λ q lt. same q;
        takens = λ q o. others q (λ e.
            apart (Sound.alone g j k (p % capacity) (o ∙ ap (λ n. some (n % capacity)) e) own));
      }
        where
          counter-put : (c : Call A) (x : Slot A) → counter c ch ≡ counter c (put x)
          counter-put (send v) x = refl
          counter-put recv x = refl

      pub owner-alone :
          (t : Task A)
          → owned capacity t ≡ some (p % capacity)
          → (j i : ℕ) → owned capacity (System.tasks s j) ≡ some i
          → owned capacity t ≡ some i
          → j ≡ k
      owner-alone t e j i o z = Sound.alone g j k i o (own ∙ (sym e ∙ z))

      counter-put : (c : Call A) (x : Slot A) → counter c (put x) ≡ counter c ch
      counter-put (send v) x = refl
      counter-put recv x = refl

      -- Of the other slots nothing changes.
      worked_elsewhere :
          (x : Slot A) (t : Task A) (c : Call A) (q : ℕ)
          → q % capacity ≢ p % capacity
          → q < counter c (put x)
          → sequence_at capacity (put x) h q ≡ wants c q
          → (j : ℕ) × (owned capacity (update (System.tasks s) k t j) ≡ some (q % capacity))
      worked_elsewhere x t c q apart lt e =
          owned-update capacity two s g k (q % capacity) t
            (λ o.
              let y : some (p % capacity) ≡ some (q % capacity) = sym own ∙ o in
              let same : p % capacity ≡ q % capacity = ground arith in absurd (apart (sym same)))
            (Sound.worked g c q (omega (arith, counter-put c x))
              (ap Slot.sequence (sym (put_other x (q % capacity) apart)) ∙ e))

      -- A task that keeps the slot while the sequence stays.
      pub worked_on :
          (x : Slot A) (t : Task A)
          → owned capacity t ≡ some (p % capacity)
          → (c : Call A) (q : ℕ) → q < counter c (put x)
          → sequence_at capacity (put x) h q ≡ wants c q
          → (j : ℕ) × (owned capacity (update (System.tasks s) k t j) ≡ some (q % capacity))
      worked_on x t o c q lt e = elim (Bool-cases (q % capacity == p % capacity)) [
        | inl b ↦
            let same : q % capacity ≡ p % capacity = ground arith in
            let here : (k == k) ≡ true = ground arith in (k, rw here (o ∙ ap some (sym same)))
        | inr b ↦ worked_elsewhere x t c q (λ z. ground arith) lt e
      ]

      -- A slot whose sequence is for a position that is not yet claimed.
      pub worked_off :
          (x : Slot A) (t : Task A) (d : Call A) (r : ℕ)
          → r % capacity ≡ p % capacity
          → Slot.sequence x ≡ wants d r
          → counter d ch ≤ r
          → (c : Call A) (q : ℕ) → q < counter c (put x)
          → sequence_at capacity (put x) h q ≡ wants c q
          → (j : ℕ) × (owned capacity (update (System.tasks s) k t j) ≡ some (q % capacity))
      worked_off x t d r i f le c q lt e = elim (Bool-cases (q % capacity == p % capacity)) [
        | inl b ↦
            let same : q % capacity ≡ p % capacity = ground arith in
            let seq : wants c q ≡ wants d r =
              sym e ∙ (ap Slot.sequence (put_same x (q % capacity) same) ∙ f) in
            absurd (
              before_counter capacity two s g c d r q (omega (arith, counter-put c x)) le
                (wanted_once capacity c d q r two (same ∙ sym i) seq) seq)
        | inr b ↦ worked_elsewhere x t c q (λ z. ground arith) lt e
      ]
