-- ===== src/MpChannel/Frame.antt =====
-- src/async_std/sync/channel/mp.rs: a task keeps what it relies on while another makes a step.
use xx_core.Base.{
  ℕ, ◌+◌, ◌%◌, ◌≤◌, ◌<◌, ◌≡◌, ◌≢◌, ◌∙◌, sym, ap, refl, inl, inr, some, Bool-cases, arith, leb,
}
use native.Mathlib.Nat.{mod-eq_of_lt, mod-add-mod, mod_self, mod-lt}
use xx_core.MpChannel.{
  Slot, Channel, Call, send, recv, Task, idle, checking, loading, reading, exchanging, accessing,
  storing, failed, returned, undefined, History, counter,
}
use xx_core.MpChannel.Invariant.{wants, owned, sequence_at, Before, After, TaskSound}

next_index_at : (r c : ℕ) → 2 ≤ c → r < c → (r + 1) % c ≢ r
next_index_at r c two lt same = elim (Bool-cases (leb (r + 2) c)) [
  | inl b ↦ let fits : r + 1 < c = ground arith in absurd (omega (arith, mod-eq_of_lt fits))
  | inr b ↦
      let last : r + 1 ≡ c = ground arith in
      absurd (omega (arith, ap (λ n. n % c) last, mod_self c))
]

-- Neighbouring positions have different slots.
pub next_index : (c p : ℕ) → 2 ≤ c → (p + 1) % c ≢ p % c
next_index c p two same =
    next_index_at (p % c) c two (mod-lt p (omega arith)) (mod-add-mod p c 1 ∙ same)

module _ {A : Type 0} where
  pub counter-le :
      (ch ch' : Channel A)
      → Channel.head ch ≤ Channel.head ch'
      → Channel.tail ch ≤ Channel.tail ch'
      → (c : Call A) → counter c ch ≤ counter c ch'
  counter-le ch ch' a b (send v) = b
  counter-le ch ch' a b recv = a

module _ {A : Type 0} (capacity : ℕ) where
  -- A slot serves one call at a time.
  pub wanted_once :
      (c d : Call A) (p q : ℕ)
      → 2 ≤ capacity
      → p % capacity ≡ q % capacity
      → wants c p ≡ wants d q
      → p ≡ q
  wanted_once (send v) (send w) p q two i e = e
  wanted_once recv recv p q two i e = omega arith
  wanted_once (send v) recv p q two i e =
      absurd (next_index capacity q two (sym (ap (λ n. n % capacity) e) ∙ i))
  wanted_once recv (send v) p q two i e =
      absurd (next_index capacity p two (ap (λ n. n % capacity) e ∙ sym i))

  module _ (ch ch' : Channel A) (h h' : History A) where
    -- What a step of another has to leave as it is for a task.
    pub record Keeps (t : Task A) : Type 0 where
      pub counters : (c : Call A) → counter c ch ≤ counter c ch'
      pub watched :
          (c : Call A) (p : ℕ)
          → p ≤ counter c ch
          → counter c ch' ≡ p
          → (counter c ch ≡ p → sequence_at capacity ch h p ≡ wants c p)
          → sequence_at capacity ch' h' p ≡ wants c p
      pub mine : (i : ℕ) → owned capacity t ≡ some i → Channel.slots ch' i ≡ Channel.slots ch i
      pub sents : (p : ℕ) → p < Channel.tail ch → History.sent_at h' p ≡ History.sent_at h p
      pub takens :
          (p : ℕ)
          → owned capacity t ≡ some (p % capacity)
          → History.taken_at h' p ≡ History.taken_at h p

    Before-Keeps :
        (c : Call A) (p : ℕ)
        → Channel.head ch ≤ Channel.tail ch
        → p < counter c ch
        → Channel.slots ch' (p % capacity) ≡ Channel.slots ch (p % capacity)
        → (p < Channel.tail ch → History.sent_at h' p ≡ History.sent_at h p)
        → History.taken_at h' p ≡ History.taken_at h p
        → (Before capacity ch h c p → Before capacity ch' h' c p)
          × (After capacity ch h c p → After capacity ch' h' c p)
    Before-Keeps (send v) p o lt s e t = (λ b. e lt ∙ b, λ b. ap Slot.cell s ∙ (b ∙ sym (e lt)))
    Before-Keeps recv p o lt s e t = (
      λ b. (ap Slot.cell s ∙ (b.0 ∙ sym (e (omega arith))), t ∙ b.1),
      λ b. t ∙ (b ∙ sym (e (omega arith))),
    )

    pub TaskSound-Keeps :
        (t : Task A)
        → Channel.head ch ≤ Channel.tail ch
        → Keeps t
        → TaskSound capacity ch h t
        → TaskSound capacity ch' h' t
    TaskSound-Keeps idle o k g = tt
    TaskSound-Keeps (checking v) o k g = tt
    TaskSound-Keeps (loading c) o k g = tt
    TaskSound-Keeps (reading c p) o k g = omega (arith, Keeps.counters k c)
    TaskSound-Keeps (exchanging c p) o k (le, e) =
        (omega (arith, Keeps.counters k c), λ q. Keeps.watched k c p le q e)
    TaskSound-Keeps (accessing c p) o k (lt, e, b) = (
      omega (arith, Keeps.counters k c),
      ap Slot.sequence (Keeps.mine k (p % capacity) refl) ∙ e,
      (Before-Keeps c p o lt (Keeps.mine k (p % capacity) refl) (Keeps.sents k p)
            (Keeps.takens k p refl)).0
          b,
    )
    TaskSound-Keeps (storing c p a) o k (lt, e, b) = (
      omega (arith, Keeps.counters k c),
      ap Slot.sequence (Keeps.mine k (p % capacity) refl) ∙ e,
      (Before-Keeps c p o lt (Keeps.mine k (p % capacity) refl) (Keeps.sents k p)
            (Keeps.takens k p refl)).1
          b,
    )
    TaskSound-Keeps (failed c) o k g = tt
    TaskSound-Keeps (returned a) o k g = tt
    TaskSound-Keeps undefined o k g = absurd g
