-- ===== src/MpChannel/Fifo.antt =====
-- src/async_std/sync/channel/mp.rs: in all interleavings each value is taken at most once, from the
-- position at which it was sent.
use xx_core.Base.{ℕ, ◌+◌, ◌≤◌, ◌<◌, ◌≡◌, ◌≢◌, ◌⊎◌, inl, inr, none, some, Bool-cases, arith, leb}
use mathlib.Core.Path.{subst}
use xx_core.MpChannel.{Channel, recv, Task, accessing, undefined, History, System, Reachable}
use xx_core.MpChannel.Invariant.{owned, TaskSound, Sound}
use xx_core.MpChannel.Keeps.{Reachable-Sound}

module _ {A : Type 0} (capacity : ℕ) where
  -- No receiver reads a value that is not there; at most as many values as slots are sent and not
  -- claimed; the value taken at a position is the one sent there, and each claimed position is taken
  -- or about to be for the first time; no two tasks have one slot.
  abbrev pub IsFifo : System A → Type 0
  IsFifo s =
      ((k : ℕ) → System.tasks s k ≢ undefined)
      × (Channel.head (System.channel s) ≤ History.count (System.history s))
      × (History.count (System.history s) ≤ Channel.head (System.channel s) + capacity)
      × ((p : ℕ)
          → (History.taken_at (System.history s) p ≡ none)
            ⊎ (History.taken_at (System.history s) p ≡ History.sent_at (System.history s) p))
      × ((p : ℕ)
          → p < Channel.head (System.channel s)
          → (History.taken_at (System.history s) p ≡ History.sent_at (System.history s) p)
            ⊎ ((k : ℕ) × (System.tasks s k ≡ accessing recv p)))
      × ((k p : ℕ)
          → System.tasks s k ≡ accessing recv p
          → History.taken_at (System.history s) p ≡ none)
      × ((j k i : ℕ)
          → owned capacity (System.tasks s j) ≡ some i
          → owned capacity (System.tasks s k) ≡ some i
          → j ≡ k)

module _ {A : Type 0} (half capacity : ℕ) (two : 2 ≤ capacity) where
  -- What was taken at a position is nothing, or the value that was sent there.
  taken-cases :
      (s : System A)
      → Sound capacity s
      → (p : ℕ)
      → (History.taken_at (System.history s) p ≡ none)
        ⊎ (History.taken_at (System.history s) p ≡ History.sent_at (System.history s) p)
  taken-cases s g p = elim (Bool-cases (leb (Channel.head (System.channel s)) p)) [
    | inl b ↦ inl (Sound.not_taken g p (ground arith))
    | inr b ↦ elim (Sound.taken_all g p (ground arith)) [
      | inl z ↦ inr z
      | inr (k, e) ↦
          let mine : TaskSound capacity (System.channel s) (System.history s) (accessing recv p) =
            subst (TaskSound capacity (System.channel s) (System.history s)) e (Sound.tasks g k) in
          inl mine.2.1
    ]
  ]

  -- However any number of senders and receivers of a channel of two slots or more are interleaved,
  -- as long as the numbers of the values sent and of the slots fit half the width: no receiver
  -- reads a value that is not there; at most as many values as slots are sent and not claimed; what
  -- was taken at the n-th position is the n-th value sent; every position that receivers have
  -- claimed was taken or is about to be, which is when nothing was taken at it before; and no two
  -- tasks have one slot.
  pub Reachable-IsFifo :
      (s : System A)
      → Reachable half capacity s
      → History.count (System.history s) + capacity + 1 ≤ half
      → IsFifo capacity s
  Reachable-IsFifo s r fits =
      let g = Reachable-Sound half capacity two s r fits in
      let counted = Sound.counted g in
      let own : (k : ℕ) (t : Task A)
          → System.tasks s k ≡ t
          → TaskSound capacity (System.channel s) (System.history s) t =
        λ k t e.
          subst (TaskSound capacity (System.channel s) (System.history s)) e (Sound.tasks g k) in
      (
        λ k e. own k undefined e,
        omega (arith, Sound.ordered g),
        omega (arith, Sound.room g),
        taken-cases s g,
        Sound.taken_all g,
        λ k p e. (own k (accessing recv p) e).2.1,
        Sound.alone g,
      )
