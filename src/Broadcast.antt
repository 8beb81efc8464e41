-- ===== src/Broadcast.antt =====
-- src/async_std/sync/broadcast.rs: the ring of slots, the receivers and the senders. Each
-- operation is taken as one step. A `usize` has the width given by `half`, 2 ^ (bits - 1).
-- The number of slots is a power of two, so that `& mask` is `% size`.
pub mod Indices
pub mod Invariant
pub mod Receive
pub mod Send
pub mod System
mod Tests
use xx_core.Base.{
  ℕ, zero, suc, ◌+◌, ◌-◌, ◌%◌, Bool, true, false, not, Option, none, some, leb, ◌==◌, if◌then◌else◌,
}
use xx_core.Uint

-- `data` is none where the value is not initialized or was moved out.
pub record Slot (A : Type 0) : Type 0 where
  pub sequence : ℕ
  pub remaining : ℕ
  pub data_of : Option A

pub record Channel (A : Type 0) : Type 0 where
  pub tail : ℕ
  pub size : ℕ
  pub slots : ℕ → Slot A
  pub tx_count : ℕ
  pub rx_count : ℕ
  pub is_closed : Bool

-- `RecvError`, the value received, and the use of a value that is not there.
pub data Received (A : Type 0) : Type 0 where
  received : A → Received A
  empty : Received A
  closed : Received A
  lagged : ℕ → Received A
  undefined_receive : Received A

pub data Sent (A : Type 0) : Type 0 where
  sent : Sent A
  send_error : A → Sent A
  undefined_send : Sent A

-- `size.checked_next_power_of_two()`, over the powers that a `usize` holds.
abbrev pub next_power : ℕ → ℕ → ℕ → Option ℕ
next_power zero power size = none
next_power (suc bits) power size =
    let rest = next_power bits (power + power) size in if leb size power then some power else rest

module _ {A : Type 0} where
  abbrev pub channel_of : ℕ → Channel A
  channel_of power = record {
    tail = 0;
    size = power;
    slots = λ i. record { sequence = i; remaining = 0; data_of = none };
    tx_count = 0;
    rx_count = 0;
    is_closed = false;
  }

  -- `Channel::new`; none is a panic.
  abbrev pub channel_new : ℕ → ℕ → Option (Channel A)
  channel_new bits size =
      if size == 0
      then none
      else elim (next_power bits 1 size) [ none ↦ none | some power ↦ some (channel_of power) ]

  abbrev pub put_slot : ℕ → Slot A → Channel A → Channel A
  put_slot i s ch = record ch { slots = λ j. if j == i then s else Channel.slots ch j }

  -- `Receiver::new`, which `subscribe` and `resubscribe` call: the channel and the position.
  pub receiver_new : Channel A → Channel A × ℕ
  receiver_new ch = (record ch { rx_count = suc (Channel.rx_count ch) }, Channel.tail ch)

  pub synchronize : Channel A → ℕ → ℕ
  synchronize ch pos = Channel.tail ch

  pub receiver_drop : Channel A → Channel A
  receiver_drop ch = record ch { rx_count = Channel.rx_count ch - 1 }

  pub sender_new : Channel A → Channel A
  sender_new ch = record ch { tx_count = suc (Channel.tx_count ch) }

  pub sender_drop : Channel A → Channel A
  sender_drop ch =
      let left = record ch { tx_count = Channel.tx_count ch - 1 } in
      if Channel.tx_count ch == 1 then record left { is_closed = true } else left

  -- The value is moved out by the last receiver that it was sent to, and copied by the others.
  abbrev pub take_value : Slot A → Received A × Slot A
  take_value slot =
      let left = record slot { remaining = Slot.remaining slot - 1 } in
      elim (Slot.data_of slot) [
        | none ↦ (undefined_receive, left)
        | some a ↦
            (received a, if Slot.remaining slot == 1 then record left { data_of = none } else left)
      ]

  -- `assume_init_read` of the value that is still wanted, when there is one.
  abbrev pub previous_is_valid : Slot A → Bool
  previous_is_valid slot = elim (Slot.data_of slot) [
    | none ↦ Slot.remaining slot == 0
    | some a ↦ true
  ]

  module _ (half : ℕ) where
    -- The channel, the receiver's position, and the result.
    pub try_recv : Channel A → ℕ → Received A × (Channel A × ℕ)
    try_recv ch pos =
        let index = pos % Channel.size ch in
        let slot = Channel.slots ch index in
        let next = (pos + 1) % Uint.modulus half in
        let diff = Uint.wrapping_sub half (Slot.sequence slot) next in
        if diff == 0
        then (let (result, left) = take_value slot in (result, (put_slot index left ch, next)))
        else if Uint.is_negative half diff
        then (if Channel.is_closed ch then closed else empty, (ch, pos))
        else (let head = Uint.wrapping_sub half (Channel.tail ch) (Channel.size ch) in
            (lagged (Uint.wrapping_sub half head pos), (ch, head)))

    -- `Sender::send`. Waking the waiters changes nothing that is modelled here.
    pub send : Channel A → A → Sent A × Channel A
    send ch value =
        let at = Channel.tail ch in
        let index = at % Channel.size ch in
        let slot = Channel.slots ch index in
        let receivers = Channel.rx_count ch in
        let next = (at + 1) % Uint.modulus half in
        let moved = record ch { tail = next } in
        if not (previous_is_valid slot)
        then (undefined_send, moved)
        else if receivers == 0
        then (
          send_error value,
          put_slot index (record { sequence = next; remaining = 0; data_of = none }) moved,
        )
        else (
          sent,
          put_slot index (record { sequence = next; remaining = receivers; data_of = some value })
              moved,
        )
