-- ===== src/MpChannel.antt =====
-- src/async_std/sync/channel/mp.rs: the bounded channel of any number of senders and receivers. A
-- task is between two atomic operations of try_send or try_recv. A `usize` has the width given by
-- `half`, 2 ^ (bits - 1); the number of slots is a power of two, so that `& mask` is `% capacity`.
pub mod Invariant
pub mod Frame
pub mod Owners
pub mod Claims
pub mod Accesses
pub mod Turns
pub mod Keeps
pub mod Fifo
pub mod Single
pub mod Calls
pub mod Settled
pub mod Drops
pub mod Handles
pub mod Waiting
mod Tests
use xx_core.Base.{
  ℕ, zero, suc, ◌+◌, ◌-◌, ◌%◌, Bool, true, false, not, ◌||◌, ◌≡◌, Option, none, some, List, [], ◌∷◌,
  ◌==◌, if◌then◌else◌,
}
use xx_core.Uint
use xx_core.Broadcast.{next_power}

-- `cell` is none where the value is not initialized or was moved out.
pub record Slot (A : Type 0) : Type 0 where
  pub sequence : ℕ
  pub cell : Option A

-- `MCChannel`; of the two wait lists only whether they are closed.
pub record Channel (A : Type 0) : Type 0 where
  pub head : ℕ
  pub tail : ℕ
  pub slots : ℕ → Slot A
  pub tx_closed : Bool
  pub rx_closed : Bool
  pub tx_count : ℕ
  pub rx_count : ℕ

-- A call of `next_slot`, by `try_send` or by `try_recv`.
pub data Call (A : Type 0) : Type 0 where
  send : A → Call A
  recv : Call A

-- `SendResult` and `RecvResult`.
pub data Answer (A : Type 0) : Type 0 where
  sent : Answer A
  full : A → Answer A
  send_closed : A → Answer A
  received : A → Answer A
  empty : Answer A
  recv_closed : Answer A

-- Where a task is: before the test whether the sender is closed, the load of the counter, the load
-- of the slot's sequence, the exchange of the counter, the access to the slot, the store of the
-- sequence, or the test of the closed flag after a failure. `undefined` has read a value that is not
-- there.
pub data Task (A : Type 0) : Type 0 where
  idle : Task A
  checking : A → Task A
  loading : Call A → Task A
  reading : Call A → ℕ → Task A
  exchanging : Call A → ℕ → Task A
  accessing : Call A → ℕ → Task A
  storing : Call A → ℕ → Answer A → Task A
  failed : Call A → Task A
  returned : Answer A → Task A
  undefined : Task A

-- What a step adds to the history.
pub data Event (A : Type 0) : Type 0 where
  silent : Event A
  sends : A → Event A
  takes : ℕ → A → Event A

-- How many values were sent, each of them in order, and the value taken at each position.
pub record History (A : Type 0) : Type 0 where
  pub count : ℕ
  pub sent_at : ℕ → Option A
  pub taken_at : ℕ → Option A

pub record System (A : Type 0) : Type 0 where
  pub channel : Channel A
  pub tasks : ℕ → Task A
  pub history : History A

abbrev pub update : {B : Type 0} → (ℕ → B) → ℕ → B → ℕ → B
update f i b j = if j == i then b else f j

module _ {A : Type 0} where
  abbrev pub counter : Call A → Channel A → ℕ
  counter (send v) ch = Channel.tail ch
  counter recv ch = Channel.head ch

  abbrev pub put_counter : Call A → ℕ → Channel A → Channel A
  put_counter (send v) n ch = record ch { tail = n }
  put_counter recv n ch = record ch { head = n }

  abbrev pub put_slot : ℕ → Slot A → Channel A → Channel A
  put_slot i s ch = record ch { slots = update (Channel.slots ch) i s }

  -- The test after a failure: `SendError::new(value, closed)` and `RecvError::new(closed)`.
  abbrev pub failure : Call A → Channel A → Answer A
  failure (send v) ch = if Channel.tx_closed ch then send_closed v else full v
  failure recv ch = if Channel.rx_closed ch then recv_closed else empty

  abbrev pub record_event : Event A → History A → History A
  record_event silent h = h
  record_event (sends v) h = record h {
    count = History.count h + 1;
    sent_at = update (History.sent_at h) (History.count h) (some v);
  }
  record_event (takes p v) h = record h { taken_at = update (History.taken_at h) p (some v) }

  -- The closure `success`, with the slot after it; none is the use of a value that is not there.
  abbrev pub success : Call A → Slot A → Option (Answer A × Slot A)
  success (send v) s = some (sent, record s { cell = some v })
  success recv s = elim (Slot.cell s) [
    | some v ↦ some (received v, record s { cell = none })
    | none ↦ none
  ]

  abbrev pub access_event : ℕ → Answer A → Event A
  access_event p (received v) = takes p v
  access_event p sent = silent
  access_event p (full v) = silent
  access_event p (send_closed v) = silent
  access_event p empty = silent
  access_event p recv_closed = silent

  abbrev pub claim_event : Call A → Event A
  claim_event (send v) = sends v
  claim_event recv = silent

abbrev pub wrapped : ℕ → ℕ → ℕ
wrapped half n = n % (half + half)

-- The handles of the channel: `fetch_add` and `fetch_sub` wrap.
module _ {A : Type 0} (half : ℕ) where
  abbrev pub close_recv : Channel A → Channel A
  close_recv ch = record ch { rx_closed = true }

  abbrev pub close_send : Channel A → Channel A
  close_send ch = record ch { tx_closed = true }

  pub new_sender : Channel A → Channel A
  new_sender ch = record ch { tx_count = wrapped half (Channel.tx_count ch + 1) }

  pub drop_sender : Channel A → Channel A
  drop_sender ch =
      let left = record ch { tx_count = Uint.wrapping_sub half (Channel.tx_count ch) 1 } in
      if Channel.tx_count ch == 1 then close_recv left else left

  pub new_receiver : Channel A → Channel A
  new_receiver ch = record ch { rx_count = wrapped half (Channel.rx_count ch + 1) }

  pub drop_receiver : Channel A → Channel A
  drop_receiver ch =
      let left = record ch { rx_count = Uint.wrapping_sub half (Channel.rx_count ch) 1 } in
      if Channel.rx_count ch == 1 then close_send left else left

  -- `len` and `spare_capacity`.
  pub len : Channel A → ℕ
  len ch = Uint.wrapping_sub half (Channel.tail ch) (Channel.head ch)

  pub spare_capacity : ℕ → Channel A → ℕ
  spare_capacity capacity ch =
      Uint.wrapping_sub half (wrapped half (Channel.head ch + capacity)) (Channel.tail ch)

-- `create_slots`: how many there are; none is a panic.
abbrev pub create_slots : ℕ → ℕ → Option ℕ
create_slots bits size = if size == 0 then none else next_power bits 1 size

module _ {A : Type 0} (half capacity : ℕ) where
  -- The closure `map`: the sequence that the slot has to have, and the one that is stored.
  abbrev pub expected : Call A → ℕ → ℕ
  expected (send v) p = p
  expected recv p = wrapped half (p + 1)

  abbrev pub next : Call A → ℕ → ℕ
  next (send v) p = wrapped half (p + 1)
  next recv p = wrapped half (p + capacity)

  abbrev pub slot_at : Channel A → ℕ → Slot A
  slot_at ch p = Channel.slots ch (p % capacity)

  -- What follows from the difference of the slot's sequence and the expected one.
  abbrev pub compared : Call A → ℕ → ℕ → Task A
  compared c p diff =
      if diff == 0
      then exchanging c p
      else if Uint.is_negative half diff
      then failed c
      else loading c

  abbrev pub accessed :
      Call A → ℕ → Channel A → Option (Answer A × Slot A) → Task A × Channel A × Event A
  accessed c p ch none = (undefined, ch, silent)
  accessed c p ch (some (a, s)) = (storing c p a, put_slot (p % capacity) s ch, access_event p a)

  -- One operation. A weak exchange may fail for no reason, which `spurious` says.
  pub advance : Bool → Task A → Channel A → Task A × Channel A × Event A
  advance spurious idle ch = (idle, ch, silent)
  advance spurious (checking v) ch =
      (if Channel.tx_closed ch then returned (send_closed v) else loading (send v), ch, silent)
  advance spurious (loading c) ch = (reading c (counter c ch), ch, silent)
  advance spurious (reading c p) ch = (
    compared c p (Uint.wrapping_sub half (Slot.sequence (slot_at ch p)) (expected c p)),
    ch,
    silent,
  )
  advance spurious (exchanging c p) ch =
      if not (counter c ch == p) || spurious
      then (loading c, ch, silent)
      else (accessing c p, put_counter c (wrapped half (p + 1)) ch, claim_event c)
  advance spurious (accessing c p) ch = accessed c p ch (success c (slot_at ch p))
  advance spurious (storing c p a) ch = (
    returned a,
    put_slot (p % capacity) (record (slot_at ch p) { sequence = next c p }) ch,
    silent,
  )
  advance spurious (failed c) ch = (returned (failure c ch), ch, silent)
  advance spurious (returned a) ch = (returned a, ch, silent)
  advance spurious undefined ch = (undefined, ch, silent)

  abbrev pub advanced : ℕ → Task A × Channel A × Event A → System A → System A
  advanced k (t, ch, e) s = record {
    channel = ch;
    tasks = update (System.tasks s) k t;
    history = record_event e (System.history s);
  }

  -- One task goes on, one that is idle or has returned calls anew, or the channel is closed for the
  -- senders or the receivers, at any time.
  pub data Step (s : System A) : System A → Type 0 where
    goes :
        (k : ℕ) (spurious : Bool)
        → Step s (advanced k (advance spurious (System.tasks s k) (System.channel s)) s)
    calls_try_send :
        (k : ℕ) (v : A)
        → System.tasks s k ≡ idle
        → Step s (advanced k (checking v, System.channel s, silent) s)
    calls_try_recv :
        (k : ℕ)
        → System.tasks s k ≡ idle
        → Step s (advanced k (loading recv, System.channel s, silent) s)
    returns :
        (k : ℕ) (a : Answer A)
        → System.tasks s k ≡ returned a
        → Step s (advanced k (idle, System.channel s, silent) s)
    closes :
        (tx rx : Bool)
        → Step s (record s {
          channel = record (System.channel s) {
            tx_closed = Channel.tx_closed (System.channel s) || tx;
            rx_closed = Channel.rx_closed (System.channel s) || rx;
          };
        })

  -- `MCChannel::new`, for a power of two.
  abbrev pub channel_of : Channel A
  channel_of = record {
    head = 0;
    tail = 0;
    slots = λ i. record { sequence = i; cell = none };
    tx_closed = false;
    rx_closed = false;
    tx_count = 0;
    rx_count = 0;
  }

  abbrev pub initial : System A
  initial = record {
    channel = channel_of;
    tasks = λ k. idle;
    history = record { count = 0; sent_at = λ p. none; taken_at = λ p. none };
  }

  -- One task alone for some steps, none of which fails for no reason.
  abbrev pub run : ℕ → Task A → Channel A → Task A × Channel A
  run zero t ch = (t, ch)
  run (suc n) t ch = let (t', ch', e) = advance false t ch in run n t' ch'

  abbrev pub dropped :
      ℕ
      → Option A
      → (Channel A → Option (List A × Channel A))
      → Channel A
      → Option (List A × Channel A)
  dropped p none rest ch = none
  dropped p (some v) rest ch =
      elim (rest (
        put_slot (p % capacity) (record (slot_at ch p) { cell = none })
          (record ch { head = wrapped half (p + 1) }))) [
            | none ↦ none
            | some (vs, left) ↦ some (v ∷ vs, left)
          ]

  -- `drop_all`, on fuel, with the values that are dropped; none is the drop of a value that is not
  -- there, or no fuel.
  pub drop_all : ℕ → Channel A → Option (List A × Channel A)
  drop_all zero ch = none
  drop_all (suc fuel) ch =
      let rest =
        dropped (Channel.head ch) (Slot.cell (slot_at ch (Channel.head ch))) (drop_all fuel) ch in
      if Channel.head ch == Channel.tail ch then some ([], ch) else rest

  pub data Reachable : System A → Type 0 where
    created : Reachable initial
    stepped : {s t : System A} → Reachable s → Step s t → Reachable t
