-- ===== src/MpChannel/Owners.antt =====
-- src/async_std/sync/channel/mp.rs: the slot of a position, and the task that has it for itself.
use xx_core.Base.{
  ℕ, ◌+◌, ◌%◌, ◌≤◌, ◌<◌, ◌≡◌, ◌≢◌, ◌∙◌, sym, ap, ◌⊎◌, inl, inr, some, ◌==◌, Bool-cases, arith,
}
use mathlib.Core.Path.{subst}
use native.Mathlib.Nat.{mod-lt}
use xx_core.MpChannel.{
  Slot, Channel, Call, send, recv, Task, idle, checking, loading, reading, exchanging, accessing,
  storing, failed, returned, undefined, History, System, update, counter,
}
use xx_core.MpChannel.Invariant.{wants, owned, sequence_at, TaskSound, Vacant, Occupied, Sound}
use xx_core.MpChannel.Frame.{next_index, wanted_once, Keeps, TaskSound-Keeps}

module _ {A : Type 0} (capacity : ℕ) (two : 2 ≤ capacity) where
  module _ (s : System A) (g : Sound capacity s) where
    abbrev pub ch : Channel A
    ch = System.channel s

    abbrev pub h : History A
    h = System.history s

    -- What a slot is for, by its sequence.
    abbrev pub Serves : Call A → ℕ → Type 0
    Serves (send v) p = Vacant capacity ch h p
    Serves recv p = Occupied capacity ch h p

    serves :
        (c : Call A) (p q : ℕ)
        → sequence_at capacity ch h p ≡ wants c p
        → q % capacity ≡ p % capacity
        → Channel.tail ch ≤ q + capacity
        → Vacant capacity ch h q ⊎ Occupied capacity ch h q
        → Serves c p × (Channel.tail ch ≤ p + capacity)
    serves (send v) p q e i le (inl x) =
        let seq : sequence_at capacity ch h p ≡ q =
          ap (λ n. Slot.sequence (Channel.slots ch n)) (sym i) ∙ x.0 in
        let same : q ≡ p = sym seq ∙ e in
        subst (λ n. Vacant capacity ch h n × (Channel.tail ch ≤ n + capacity)) same (x, le)
    serves (send v) p q e i le (inr x) =
        let seq : sequence_at capacity ch h p ≡ q + 1 =
          ap (λ n. Slot.sequence (Channel.slots ch n)) (sym i) ∙ x.0 in
        let same : q ≡ p = wanted_once capacity recv (send v) q p two i (sym seq ∙ e) in
        absurd (omega (arith, seq, e, same))
    serves recv p q e i le (inl x) =
        let seq : sequence_at capacity ch h p ≡ q =
          ap (λ n. Slot.sequence (Channel.slots ch n)) (sym i) ∙ x.0 in
        absurd (next_index capacity p two (ap (λ n. n % capacity) (sym e ∙ seq) ∙ i))
    serves recv p q e i le (inr x) =
        let seq : sequence_at capacity ch h p ≡ q + 1 =
          ap (λ n. Slot.sequence (Channel.slots ch n)) (sym i) ∙ x.0 in
        let same : q ≡ p = omega (arith, seq, e) in
        subst (λ n. Occupied capacity ch h n × (Channel.tail ch ≤ n + capacity)) same (x, le)

    -- The slot that has the sequence that a call wants serves it.
    pub sequence-Serves :
        (c : Call A) (p : ℕ)
        → sequence_at capacity ch h p ≡ wants c p
        → Serves c p × (Channel.tail ch ≤ p + capacity)
    sequence-Serves c p e =
        let (q, i, le, x) = Sound.slots g (p % capacity) (mod-lt p (omega arith)) in
        serves c p q e i le x

    -- Who has a slot for itself has moved the counter past its position.
    pub owned-eq-some :
        (t : Task A) (i : ℕ)
        → TaskSound capacity ch h t
        → owned capacity t ≡ some i
        → (c : Call A) × (q : ℕ) × (q % capacity ≡ i)
          × (q < counter c ch)
          × (sequence_at capacity ch h q ≡ wants c q)
    owned-eq-some idle i x o = cc
    owned-eq-some (checking v) i x o = cc
    owned-eq-some (loading c) i x o = cc
    owned-eq-some (reading c p) i x o = cc
    owned-eq-some (exchanging c p) i x o = cc
    owned-eq-some (accessing c p) i (lt, e, b) o = (c, p, ground arith, lt, e)
    owned-eq-some (storing c p a) i (lt, e, b) o = (c, p, ground arith, lt, e)
    owned-eq-some (failed c) i x o = cc
    owned-eq-some (returned a) i x o = cc
    owned-eq-some undefined i x o = cc

    pub before_counter :
        (c d : Call A) (p q : ℕ)
        → q < counter c ch
        → counter d ch ≤ p
        → q ≡ p
        → wants c q ≡ wants d p
        → ⊥
    before_counter (send v) (send w) p q lt le same e = omega arith
    before_counter recv recv p q lt le same e = omega arith
    before_counter (send v) recv p q lt le same e = omega arith
    before_counter recv (send v) p q lt le same e = omega arith

    -- Nobody has the slot that the next call at the counter is about to take.
    pub not-owned :
        (t : Task A) (d : Call A) (p : ℕ)
        → TaskSound capacity ch h t
        → counter d ch ≤ p
        → sequence_at capacity ch h p ≡ wants d p
        → owned capacity t ≢ some (p % capacity)
    not-owned t d p x le e o =
        let (c, q, i, lt, f) = owned-eq-some t (p % capacity) x o in
        let seq : wants c q ≡ wants d p =
          sym f ∙ (ap (λ n. Slot.sequence (Channel.slots ch n)) i ∙ e) in
        before_counter c d p q lt le (wanted_once capacity c d q p two i seq) seq

    pub TaskSound-update :
        (k : ℕ) (t : Task A) (ch' : Channel A) (h' : History A)
        → TaskSound capacity ch' h' t
        → ((j : ℕ) → j ≢ k → Keeps capacity ch ch' h h' (System.tasks s j))
        → (j : ℕ) → TaskSound capacity ch' h' (update (System.tasks s) k t j)
    TaskSound-update k t ch' h' x keeps j = elim (Bool-cases (j == k)) [
      | inl e ↦ rw e x
      | inr e ↦
          let apart : j ≢ k = λ q. ground arith in
          rw e (
            TaskSound-Keeps capacity ch ch' h h' (System.tasks s j) (Sound.ordered g)
              (keeps j apart) (Sound.tasks g j))
    ]

    pub alone-update :
        (k : ℕ) (t : Task A)
        → ((j i : ℕ)
            → owned capacity (System.tasks s j) ≡ some i
            → owned capacity t ≡ some i
            → j ≡ k)
        → (a b i : ℕ) → owned capacity (update (System.tasks s) k t a) ≡ some i
        → owned capacity (update (System.tasks s) k t b) ≡ some i
        → a ≡ b
    alone-update k t only a b i = elim (Bool-cases (a == k)) [
      | inl e ↦ elim (Bool-cases (b == k)) [
        | inl f ↦ rw (e, f) (λ x y. ground arith)
        | inr f ↦ rw (e, f) (λ x y. let z : b ≡ k = only b i y x in ground arith)
      ]
      | inr e ↦ elim (Bool-cases (b == k)) [
        | inl f ↦ rw (e, f) (λ x y. let z : a ≡ k = only a i x y in ground arith)
        | inr f ↦ rw (e, f) (λ x y. Sound.alone g a b i x y)
      ]
    ]

    -- A task other than `k` that is about to take a value still is.
    pub accessing-update :
        (k p : ℕ) (t : Task A)
        → System.tasks s k ≢ accessing recv p
        → (j : ℕ) × (System.tasks s j ≡ accessing recv p)
        → (j : ℕ) × (update (System.tasks s) k t j ≡ accessing recv p)
    accessing-update k p t other (j, e) = elim (Bool-cases (j == k)) [
      | inl f ↦
          let same : j ≡ k = ground arith in absurd (other (ap (System.tasks s) (sym same) ∙ e))
      | inr f ↦ (j, rw f e)
    ]

    -- A slot that was somebody's still is, if a task that goes on keeps its slot.
    pub owned-update :
        (k i : ℕ) (t : Task A)
        → (owned capacity (System.tasks s k) ≡ some i → owned capacity t ≡ some i)
        → (j : ℕ) × (owned capacity (System.tasks s j) ≡ some i)
        → (j : ℕ) × (owned capacity (update (System.tasks s) k t j) ≡ some i)
    owned-update k i t kept (j, e) = elim (Bool-cases (j == k)) [
      | inl f ↦
          let same : j ≡ k = ground arith in
          (j, rw f (kept (ap (λ n. owned capacity (System.tasks s n)) (sym same) ∙ e)))
      | inr f ↦ (j, rw f e)
    ]
