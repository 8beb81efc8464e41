-- ===== src/MpChannel/Waiting.antt =====
-- src/async_std/sync/channel/mp.rs: the loops of send and recv, and of their blocking forms, around
-- try_send and try_recv. What try_send and try_recv answer at each attempt, the interrupts and the
-- budget come from the surroundings.
mod Tests
use xx_core.Base.{
  ℕ, zero, suc, ◌+◌, ◌<◌, ◌≡◌, ◌≢◌, ◌∙◌, sym, ap, refl, ◌⊎◌, inl, inr, Bool, true, false, not, ◌||◌,
  ◌&&◌, Option, none, some, List, [], ◌∷◌, if◌then◌else◌, Bool-cases, arith,
}
use mathlib.Core.Path.{subst}
use xx_core.Backoff.{snooze, reset, is_completed}
use xx_core.MpChannel.{Answer, sent, full, send_closed, received, empty, recv_closed}

-- What a loop does between two attempts.
pub data Pause : Type 0 where
  waits snoozes : Pause

-- The surroundings of the n-th attempt: the answer of try_send to a value, the answer of try_recv,
-- whether the task is interrupted or cancelled, and whether a cost is granted by the budget.
pub record Round (A : Type 0) : Type 0 where
  pub send_answer : A → Answer A
  pub recv_answer : Answer A
  pub is_interrupted : Bool
  pub acquire_budget : ℕ → Bool

module _ {A : Type 0} where
  abbrev pub is_empty : Answer A → Bool
  is_empty empty = true
  is_empty sent = false
  is_empty (full v) = false
  is_empty (send_closed v) = false
  is_empty (received v) = false
  is_empty recv_closed = false

  -- The pause, and the step of the backoff after it. The blocking forms have no budget, which is
  -- `free`.
  abbrev pub pause : Bool → Round A → ℕ → Pause × ℕ
  pause free r step =
      if is_completed step || not (free || Round.acquire_budget r (step + 1))
      then (waits, (reset step).1)
      else (snoozes, (snooze step).1)

  abbrev pub paused : Pause → Option (Answer A × List Pause) → Option (Answer A × List Pause)
  paused p none = none
  paused p (some (a, ps)) = some (a, p ∷ ps)

  -- `recv`, and its blocking form if `free`, on fuel.
  pub recv_loop : ℕ → Bool → (ℕ → Round A) → ℕ → ℕ → Option (Answer A × List Pause)
  recv_loop zero free rounds n step = none
  recv_loop (suc fuel) free rounds n step =
      let r = rounds n in
      let rest =
        paused (pause free r step).0 (recv_loop fuel free rounds (n + 1) (pause free r step).1) in
      if not (is_empty (Round.recv_answer r)) || Round.is_interrupted r
      then some (Round.recv_answer r, [])
      else rest

  -- After an attempt to send: the answer that is returned, or the value for the next attempt.
  abbrev pub after_send : Answer A → Bool → Answer A ⊎ A
  after_send sent interrupted = inl sent
  after_send (send_closed v) interrupted = inl (send_closed v)
  after_send (full v) interrupted = if interrupted then inl (full v) else inr v
  after_send (received v) interrupted = inl (received v)
  after_send empty interrupted = inl empty
  after_send recv_closed interrupted = inl recv_closed

  abbrev pub sent_again :
      Answer A ⊎ A → (A → Option (Answer A × List Pause)) → Pause → Option (Answer A × List Pause)
  sent_again (inl a) rest p = some (a, [])
  sent_again (inr v) rest p = paused p (rest v)

  -- `send`, and its blocking form if `free`, on fuel.
  pub send_loop : ℕ → Bool → (ℕ → Round A) → ℕ → ℕ → A → Option (Answer A × List Pause)
  send_loop zero free rounds n step v = none
  send_loop (suc fuel) free rounds n step v =
      let r = rounds n in
      sent_again (after_send (Round.send_answer r v) (Round.is_interrupted r))
        (send_loop fuel free rounds (n + 1) (pause free r step).1) (pause free r step).0

module _ {A : Type 0} where
  abbrev pub blocking_recv_cancellable : ℕ → (ℕ → Round A) → Option (Answer A × List Pause)
  blocking_recv_cancellable fuel rounds = recv_loop fuel true rounds 0 0

  abbrev pub blocking_send_cancellable : ℕ → (ℕ → Round A) → A → Option (Answer A × List Pause)
  blocking_send_cancellable fuel rounds v = send_loop fuel true rounds 0 0 v

-- At most 11 pauses in a row are snoozes, that is, no waits.
abbrev pub Snoozed : ℕ → List Pause → Type 0
Snoozed run [] = Unit
Snoozed run (waits ∷ ps) = Snoozed 0 ps
Snoozed run (snoozes ∷ ps) = (run < 11) × Snoozed (run + 1) ps

module _ {A : Type 0} where
  abbrev pub Ends : ℕ → Answer A → Option (Answer A × List Pause) → Type 0
  Ends run a none = ⊥
  Ends run a (some (b, ps)) = (b ≡ a) × Snoozed run ps

  pause-Snoozed :
      (free : Bool) (r : Round A) (step : ℕ) (a : Answer A) (o : Option (Answer A × List Pause))
      → Ends (pause free r step).1 a o
      → Ends step a (paused (pause free r step).0 o)
  unfolding snooze reset
  pause-Snoozed free r step a none d = d
  pause-Snoozed free r step a (some (b, ps)) d =
      elim (Bool-cases (is_completed step || not (free || Round.acquire_budget r (step + 1)))) [
        | inl w ↦ ground arith
        | inr w ↦ ground arith
      ]

  -- Where a receiver stops, and where it goes on.
  abbrev pub RecvStops : Round A → Type 0
  RecvStops r = not (is_empty (Round.recv_answer r)) || Round.is_interrupted r ≡ true

  recv_goes_on :
      (fuel : ℕ) (free : Bool) (rounds : ℕ → Round A) (n step : ℕ) (a : Answer A)
      → Round.recv_answer (rounds n) ≡ empty
      → Round.is_interrupted (rounds n) ≡ false
      → Ends
          (pause free (rounds n) step).1
          a
          (recv_loop fuel free rounds (n + 1) (pause free (rounds n) step).1)
      → Ends step a (recv_loop (suc fuel) free rounds n step)
  unfolding recv_loop
  recv_goes_on fuel free rounds n step a nothing calm later =
      let more : (not (is_empty (Round.recv_answer (rounds n))) || Round.is_interrupted (rounds n))
          ≡ false =
        rw (nothing, calm) refl in
      rw more (pause-Snoozed free (rounds n) step a _ later)

  -- With fuel for the attempts, `recv` and `blocking_recv_cancellable` return at the first attempt that does not find the channel
  -- empty, or at which the receiver is interrupted, with the answer of that attempt; and of the
  -- pauses between the attempts at most 11 in a row are no waits, so at most 12 attempts are made in
  -- a row without a wait.
  pub recv_loop-Ends :
      (k fuel : ℕ) (free : Bool) (rounds : ℕ → Round A) (n step : ℕ)
      → k < fuel
      → ((m : ℕ)
          → m < k
          → (Round.recv_answer (rounds (n + m)) ≡ empty)
            × (Round.is_interrupted (rounds (n + m)) ≡ false))
      → RecvStops (rounds (n + k))
      → Ends step (Round.recv_answer (rounds (n + k))) (recv_loop fuel free rounds n step)
  unfolding recv_loop
  recv_loop-Ends k zero free rounds n step lt goes_on stops = absurd (omega arith)
  recv_loop-Ends zero (suc fuel) free rounds n step lt goes_on stops =
      let e : n + 0 ≡ n = omega arith in
      let now : RecvStops (rounds n) = subst (λ j. RecvStops (rounds j)) e stops in
      rw now (ap (λ j. Round.recv_answer (rounds j)) (sym e), tt)
  recv_loop-Ends (suc k) (suc fuel) free rounds n step lt goes_on stops =
      let e : n + 0 ≡ n = omega arith in
      let f : n + suc k ≡ n + 1 + k = omega arith in
      let (nothing, calm) =
        subst
          (λ j. (Round.recv_answer (rounds j) ≡ empty) × (Round.is_interrupted (rounds j) ≡ false))
          e (goes_on 0 (omega arith)) in
      let later =
        recv_loop-Ends k fuel free rounds (n + 1) (pause free (rounds n) step).1 (omega arith)
          (λ m h.
            let g : n + suc m ≡ n + 1 + m = omega arith in
            subst
              (λ j.
                (Round.recv_answer (rounds j) ≡ empty) × (Round.is_interrupted (rounds j) ≡ false))
              g (goes_on (suc m) (omega arith)))
          (subst (λ j. RecvStops (rounds j)) f stops) in
      subst
        (λ j. Ends step (Round.recv_answer (rounds j)) (recv_loop (suc fuel) free rounds n step))
        (sym f) (recv_goes_on fuel free rounds n step _ nothing calm later)

  send_goes_on :
      (fuel : ℕ) (free : Bool) (rounds : ℕ → Round A) (n step : ℕ) (v : A) (a : Answer A)
      → Round.send_answer (rounds n) v ≡ full v
      → Round.is_interrupted (rounds n) ≡ false
      → Ends
          (pause free (rounds n) step).1
          a
          (send_loop fuel free rounds (n + 1) (pause free (rounds n) step).1 v)
      → Ends step a (send_loop (suc fuel) free rounds n step v)
  unfolding send_loop
  send_goes_on fuel free rounds n step v a no_room calm later =
      rw (no_room, calm) (pause-Snoozed free (rounds n) step a _ later)

  -- With fuel for the attempts, `send` and `blocking_send_cancellable` try with the same value until it is sent, the channel is
  -- closed or the sender is interrupted, and return the answer of that attempt; and of the pauses
  -- between the attempts at most 11 in a row are no waits, so at most 12 attempts are made in a row
  -- without a wait.
  pub send_loop-Ends :
      (k fuel : ℕ) (free : Bool) (rounds : ℕ → Round A) (n step : ℕ) (v : A) (a : Answer A)
      → k < fuel
      → ((m : ℕ)
          → m < k
          → (Round.send_answer (rounds (n + m)) v ≡ full v)
            × (Round.is_interrupted (rounds (n + m)) ≡ false))
      → after_send (Round.send_answer (rounds (n + k)) v) (Round.is_interrupted (rounds (n + k)))
        ≡ inl a
      → Ends step a (send_loop fuel free rounds n step v)
  unfolding send_loop
  send_loop-Ends k zero free rounds n step v a lt goes_on stops = absurd (omega arith)
  send_loop-Ends zero (suc fuel) free rounds n step v a lt goes_on stops =
      let e : n + 0 ≡ n = omega arith in
      let now : after_send (Round.send_answer (rounds n) v) (Round.is_interrupted (rounds n))
          ≡ inl a =
        subst
          (λ j.
            after_send (Round.send_answer (rounds j) v) (Round.is_interrupted (rounds j)) ≡ inl a)
          e stops in
      rw now (refl, tt)
  send_loop-Ends (suc k) (suc fuel) free rounds n step v a lt goes_on stops =
      let e : n + 0 ≡ n = omega arith in
      let f : n + suc k ≡ n + 1 + k = omega arith in
      let (no_room, calm) =
        subst
          (λ j.
            (Round.send_answer (rounds j) v ≡ full v) × (Round.is_interrupted (rounds j) ≡ false))
          e (goes_on 0 (omega arith)) in
      send_goes_on fuel free rounds n step v a no_room calm (
        send_loop-Ends k fuel free rounds (n + 1) (pause free (rounds n) step).1 v a (omega arith)
          (λ m h.
            let g : n + suc m ≡ n + 1 + m = omega arith in
            subst
              (λ j.
                (Round.send_answer (rounds j) v ≡ full v)
                × (Round.is_interrupted (rounds j) ≡ false))
              g (goes_on (suc m) (omega arith)))
          (subst
            (λ j.
              after_send (Round.send_answer (rounds j) v) (Round.is_interrupted (rounds j)) ≡ inl a)
            f stops))
