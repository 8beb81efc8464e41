-- ===== src/MpChannel/Tests.antt =====
-- Runs of the bounded channel.
use xx_core.Base.{
  ℕ, zero, suc, ◌≤◌, ◌<◌, ◌≡◌, ◌≢◌, ◌==◌, ◌∙◌, ap, refl, true, false, Option, none, some, List, [],
  ◌∷◌, arith,
}
use xx_core.MpChannel.{
  Channel, Slot, Answer, idle, checking, loading, recv, returned, sent, received, System, silent,
  advance, advanced, run, initial, Reachable, created, stepped, goes, calls_try_send,
  calls_try_recv, History, drop_all, len, spare_capacity, channel_of, new_sender, drop_sender,
  new_receiver,
}
use xx_core.MpChannel.Invariant.{owned}
use xx_core.MpChannel.Fifo.{IsFifo, Reachable-IsFifo}
use xx_core.MpChannel.Single.{full_one, run-overwrites}
use xx_core.MpChannel.Drops.{Drops, drop_all-Drops}
use xx_core.MpChannel.Settled.{Answers, Reachable-Answers}
use xx_core.MpChannel.Handles.{bounded, bounded_now, drops_sender, rx_closed-Handled}

-- The tasks of a list go on, the last one first.
abbrev scheduled : List ℕ → System ℕ → System ℕ
scheduled [] s = s
scheduled (k ∷ ks) s =
    let t = scheduled ks s in
    advanced 16 2 k (advance 16 2 false (System.tasks t k) (System.channel t)) t

Reachable-scheduled :
    (ks : List ℕ) (s : System ℕ) → Reachable 16 2 s → Reachable 16 2 (scheduled ks s)
Reachable-scheduled [] s r = r
Reachable-scheduled (k ∷ ks) s r = stepped (Reachable-scheduled ks s r) (goes k false)

-- Two senders call, and a receiver.
abbrev called : System ℕ
called =
    advanced 16 2 2 (loading recv, System.channel (initial 16 2), silent)
      (advanced 16 2 1 (checking 8, channel_of 16 2, silent)
        (advanced 16 2 0 (checking 7, channel_of 16 2, silent) (initial 16 2)))

called-Reachable : Reachable 16 2 called
called-Reachable =
    stepped (stepped (stepped created (calls_try_send 0 7 refl)) (calls_try_send 1 8 refl))
      (calls_try_recv 2 refl)

called_idle : (j : ℕ) → 3 ≤ j → System.tasks called j ≡ idle
called_idle j h =
    let a : (j == 0) ≡ false = ground arith in
    let b : (j == 1) ≡ false = ground arith in
    let c : (j == 2) ≡ false = ground arith in rw (a, b, c) refl

abbrev AllBelow : List ℕ → Type 0
AllBelow [] = Unit
AllBelow (k ∷ ks) = (k < 3) × AllBelow ks

-- Of the other tasks none goes on.
tasks-scheduled :
    (j : ℕ) (ks : List ℕ) (s : System ℕ)
    → 3 ≤ j
    → AllBelow ks
    → System.tasks (scheduled ks s) j ≡ System.tasks s j
tasks-scheduled j [] s h few = refl
tasks-scheduled j (k ∷ ks) s h (lt, few) =
    let other : (j == k) ≡ false = ground arith in rw other (tasks-scheduled j ks s h few)

-- The second sender overtakes the first, and the receiver takes its value.
abbrev overtaken : System ℕ
overtaken = scheduled (2 ∷ 2 ∷ 2 ∷ 2 ∷ 1 ∷ 1 ∷ 1 ∷ 1 ∷ 0 ∷ 1 ∷ 1 ∷ 0 ∷ 0 ∷ []) called

overtaken_answer : System.tasks (scheduled (2 ∷ []) overtaken) 2 ≡ returned (received 8)
unfolding advance
overtaken_answer = refl

overtaken-Reachable : Reachable 16 2 overtaken
overtaken-Reachable =
    Reachable-scheduled (2 ∷ 2 ∷ 2 ∷ 2 ∷ 1 ∷ 1 ∷ 1 ∷ 1 ∷ 0 ∷ 1 ∷ 1 ∷ 0 ∷ 0 ∷ []) called
      called-Reachable

Reachable-IsFifo_example : IsFifo 2 overtaken
unfolding advance
Reachable-IsFifo_example =
    Reachable-IsFifo 16 2 (omega arith) overtaken overtaken-Reachable (omega arith)

-- After that both the second sender and the receiver have returned, and the first sender has not yet
-- moved the counter.
abbrev quiet : System ℕ
quiet = scheduled (2 ∷ []) overtaken

quiet-Reachable : Reachable 16 2 quiet
quiet-Reachable = Reachable-scheduled (2 ∷ []) overtaken overtaken-Reachable

quiet-none : (k : ℕ) → owned 2 (System.tasks quiet k) ≡ none
unfolding advance
quiet-none zero = refl
quiet-none (suc zero) = refl
quiet-none (suc (suc zero)) = refl
quiet-none (suc (suc (suc k))) = ap (owned 2) (
    tasks-scheduled (suc (suc (suc k))) (2 ∷ 2 ∷ 2 ∷ 2 ∷ 2 ∷ 1 ∷ 1 ∷ 1 ∷ 1 ∷ 0 ∷ 1 ∷ 1 ∷ 0 ∷ 0 ∷ [])
      called (omega arith) (omega arith)
    ∙ called_idle (suc (suc (suc k))) (omega arith))

Reachable-Answers_example : Answers 16 2 quiet
unfolding advance
Reachable-Answers_example =
    Reachable-Answers 2 (omega arith) 16 quiet quiet-Reachable (omega arith) quiet-none

-- A third value is sent and is dropped with the channel.
abbrev left_over : System ℕ
left_over = scheduled (0 ∷ 0 ∷ 0 ∷ 0 ∷ 0 ∷ 0 ∷ []) quiet

left_over-Reachable : Reachable 16 2 left_over
left_over-Reachable = Reachable-scheduled (0 ∷ 0 ∷ 0 ∷ 0 ∷ 0 ∷ 0 ∷ []) quiet quiet-Reachable

left_over-none : (k : ℕ) → owned 2 (System.tasks left_over k) ≡ none
unfolding advance
left_over-none zero = refl
left_over-none (suc zero) = refl
left_over-none (suc (suc zero)) = refl
left_over-none (suc (suc (suc k))) = ap (owned 2) (
    tasks-scheduled (suc (suc (suc k)))
      (0 ∷ 0 ∷ 0 ∷ 0 ∷ 0 ∷ 0 ∷ 2 ∷ 2 ∷ 2 ∷ 2 ∷ 2 ∷ 1 ∷ 1 ∷ 1 ∷ 1 ∷ 0 ∷ 1 ∷ 1 ∷ 0 ∷ 0 ∷ []) called
      (omega arith) (omega arith)
    ∙ called_idle (suc (suc (suc k))) (omega arith))

drop_all-Drops_example :
    Drops 16 2
      (History.sent_at (System.history left_over))
      (Channel.head (System.channel left_over))
      (History.count (System.history left_over))
      (drop_all 16 2 3 (System.channel left_over))
unfolding advance
drop_all-Drops_example =
    drop_all-Drops 16 2 (omega arith) left_over left_over-Reachable (omega arith) left_over-none 3
      (omega arith)

dropped_value : Option (List ℕ)
dropped_value = elim (drop_all 16 2 3 (System.channel left_over)) [
  | none ↦ none
  | some (vs, ch) ↦ some vs
]

drops_seven : dropped_value ≡ some (7 ∷ [])
unfolding dropped_value drop_all advance
drops_seven = refl

run-overwrites_example :
    ((run {A = ℕ} 16 1 6 (checking 8) (full_one 0 7 false)).0 ≡ returned sent)
    × (Slot.cell (Channel.slots (run {A = ℕ} 16 1 6 (checking 8) (full_one 0 7 false)).1 0)
        ≡ some 8)
    × ((n : ℕ) (a : Answer ℕ)
        → (run 16 1 n (loading recv) (run {A = ℕ} 16 1 6 (checking 8) (full_one 0 7 false)).1).0
          ≢ returned a)
run-overwrites_example = run-overwrites 16 0 (omega arith) 7 8 false

-- `bounded(1)` comes to the full slot by a try_send.
first_send : (run {A = ℕ} 16 1 6 (checking 7) (channel_of 16 1)).0 ≡ returned sent
unfolding advance
first_send = refl

abbrev one_handle : Channel ℕ
one_handle = bounded 16 2

rx_closed-Handled_example :
    (Channel.rx_closed (drop_sender 16 one_handle)
      ≡ (Channel.tx_count (drop_sender 16 one_handle) == 0))
    × (Channel.rx_count (drop_sender 16 one_handle) ≡ 0
        → Channel.tx_closed (drop_sender 16 one_handle) ≡ true)
unfolding new_sender new_receiver
rx_closed-Handled_example =
    rx_closed-Handled 16 2 (omega arith) (drop_sender 16 one_handle)
      (drops_sender one_handle bounded_now (omega arith))

lengths :
    (len 16 (System.channel left_over) ≡ 1) × (spare_capacity 16 2 (System.channel left_over) ≡ 1)
unfolding advance len spare_capacity
lengths = (refl, refl)
