-- ===== src/MpChannel/Invariant.antt =====
-- src/async_std/sync/channel/mp.rs: what holds of the channel, its tasks and the history.
use xx_core.Base.{ℕ, ◌+◌, ◌%◌, ◌≤◌, ◌<◌, ◌≡◌, ◌≢◌, refl, ◌⊎◌, inl, Option, none, some, arith}
use native.Mathlib.Nat.{mod-eq_of_lt}
use xx_core.MpChannel.{
  Slot, Channel, Call, send, recv, Task, idle, checking, loading, reading, exchanging, accessing,
  storing, failed, returned, undefined, History, System, counter, initial,
}

module _ {A : Type 0} where
  -- `expected` with no wrap.
  abbrev pub wants : Call A → ℕ → ℕ
  wants (send v) p = p
  wants recv p = p + 1

module _ {A : Type 0} (capacity : ℕ) where
  -- The slot that a task has for itself.
  abbrev pub owned : Task A → Option ℕ
  owned idle = none
  owned (checking v) = none
  owned (loading c) = none
  owned (reading c p) = none
  owned (exchanging c p) = none
  owned (accessing c p) = some (p % capacity)
  owned (storing c p a) = some (p % capacity)
  owned (failed c) = none
  owned (returned a) = none
  owned undefined = none

  module _ (ch : Channel A) (h : History A) where
    abbrev pub sequence_at : ℕ → ℕ
    sequence_at p = Slot.sequence (Channel.slots ch (p % capacity))

    abbrev pub cell_at : ℕ → Option A
    cell_at p = Slot.cell (Channel.slots ch (p % capacity))

    abbrev pub Before : Call A → ℕ → Type 0
    Before (send v) p = History.sent_at h p ≡ some v
    Before recv p = (cell_at p ≡ History.sent_at h p) × (History.taken_at h p ≡ none)

    abbrev pub After : Call A → ℕ → Type 0
    After (send v) p = cell_at p ≡ History.sent_at h p
    After recv p = History.taken_at h p ≡ History.sent_at h p

    abbrev pub TaskSound : Task A → Type 0
    TaskSound idle = Unit
    TaskSound (checking v) = Unit
    TaskSound (loading c) = Unit
    TaskSound (reading c p) = p ≤ counter c ch
    TaskSound (exchanging c p) = (p ≤ counter c ch) × (counter c ch ≡ p → sequence_at p ≡ wants c p)
    TaskSound (accessing c p) = (p < counter c ch) × (sequence_at p ≡ wants c p) × Before c p
    TaskSound (storing c p a) = (p < counter c ch) × (sequence_at p ≡ wants c p) × After c p
    TaskSound (failed c) = Unit
    TaskSound (returned a) = Unit
    TaskSound undefined = ⊥

    -- A slot at `p` that waits for a sender, or for a receiver.
    abbrev pub Vacant : ℕ → Type 0
    Vacant p = (sequence_at p ≡ p) × (Channel.head ch ≤ p) × (p < Channel.head ch + capacity)

    abbrev pub Occupied : ℕ → Type 0
    Occupied p =
        (sequence_at p ≡ p + 1)
        × (p < Channel.tail ch)
        × (Channel.head ch ≤ p → cell_at p ≡ History.sent_at h p)

    abbrev pub SlotSound : ℕ → Type 0
    SlotSound i =
        (p : ℕ) × (p % capacity ≡ i) × (Channel.tail ch ≤ p + capacity) × (Vacant p ⊎ Occupied p)

  pub record Sound (s : System A) : Type 0 where
    pub counted : Channel.tail (System.channel s) ≡ History.count (System.history s)
    pub ordered : Channel.head (System.channel s) ≤ Channel.tail (System.channel s)
    pub room : Channel.tail (System.channel s) ≤ Channel.head (System.channel s) + capacity
    pub slots : (i : ℕ) → i < capacity → SlotSound (System.channel s) (System.history s) i
    pub tasks : (k : ℕ) → TaskSound (System.channel s) (System.history s) (System.tasks s k)
    pub alone :
        (j k i : ℕ) → owned (System.tasks s j) ≡ some i → owned (System.tasks s k) ≡ some i → j ≡ k
    pub sent_all :
        (p : ℕ) → p < Channel.tail (System.channel s) → History.sent_at (System.history s) p ≢ none
    pub not_taken :
        (p : ℕ) → Channel.head (System.channel s) ≤ p → History.taken_at (System.history s) p ≡ none
    pub taken_all :
        (p : ℕ)
        → p < Channel.head (System.channel s)
        → (History.taken_at (System.history s) p ≡ History.sent_at (System.history s) p)
          ⊎ ((k : ℕ) × (System.tasks s k ≡ accessing recv p))
    -- A slot that is still as a claimed position wants it is somebody's.
    pub worked :
        (c : Call A) (p : ℕ)
        → p < counter c (System.channel s)
        → sequence_at (System.channel s) (System.history s) p ≡ wants c p
        → (k : ℕ) × (owned (System.tasks s k) ≡ some (p % capacity))

module _ {A : Type 0} (half capacity : ℕ) where
  none_claimed :
      (c : Call A) (p : ℕ) → p < counter c (System.channel (initial {A = A} half capacity)) → ⊥
  none_claimed (send v) p lt = omega arith
  none_claimed recv p lt = omega arith

  pub initial-Sound : Sound {A = A} capacity (initial half capacity)
  initial-Sound = record {
    counted = refl;
    ordered = omega arith;
    room = omega arith;
    slots =
        λ i lt. (i, mod-eq_of_lt lt, omega arith, inl (mod-eq_of_lt lt, omega arith, omega arith));
    tasks = λ k. tt;
    alone = λ j k i a b. cc;
    sent_all = λ p lt. absurd (omega arith);
    not_taken = λ p le. refl;
    taken_all = λ p lt. absurd (omega arith);
    worked = λ c p lt e. absurd (none_claimed c p lt);
  }
