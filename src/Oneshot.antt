-- ===== src/Oneshot.antt =====
-- src/async_std/sync/channel/oneshot.rs: the sender's and the receiver's call, each between two
-- atomic operations. The closing of a waiter is one operation; who waits is not modelled here.
pub mod Once
mod Tests
use xx_core.Base.{ℕ, Bool, true, false, Option, none, some, if◌then◌else◌}

-- `value` is none where it is not initialized or was moved out.
pub record Channel (A : Type 0) : Type 0 where
  pub is_sent : Bool
  pub value : Option A
  pub tx_closed : Bool
  pub rx_closed : Bool

-- `try_consume_value`: the value, that there is none, or the use of one that is not there.
pub data Consumed (A : Type 0) : Type 0 where
  took : A → Consumed A
  nothing : Consumed A
  undefined : Consumed A

-- What becomes of a send.
pub data Result (A : Type 0) : Type 0 where
  not_sent sent_ok : Result A
  returned : A → Result A

-- The points of `send`, and of the drop of the sender behind it.
pub data Sender (A : Type 0) : Type 0 where
  tx_send : A → Sender A
  tx_store tx_close_rx tx_check tx_consume tx_undefined : Sender A
  tx_drop tx_drop_rx tx_gone : Result A → Sender A

-- The points of `try_recv`, `close` and the drop of the receiver, with the value that it has. A value
-- that the drop finds is dropped, in `rx_gone`.
pub data Receiver (A : Type 0) : Type 0 where
  rx_idle rx_none rx_close rx_close_rx rx_drop rx_drop_consume : Option A → Receiver A
  rx_took : A → Receiver A
  rx_gone : Option A → Option A → Receiver A
  rx_undefined : Receiver A

-- What the owner of the receiver calls.
pub data Call : Type 0 where
  try_recv close drop_receiver : Call

module _ {A : Type 0} where
  abbrev pub consumed : Option A → Consumed A
  consumed none = undefined
  consumed (some v) = took v

  abbrev pub try_consume_value : Channel A → Consumed A × Channel A
  try_consume_value w =
      if Channel.is_sent w
      then (consumed (Channel.value w), record w { is_sent = false; value = none })
      else (nothing, w)

  abbrev pub tx_consumed : Consumed A → Sender A
  tx_consumed (took v) = tx_drop (returned v)
  tx_consumed nothing = tx_drop sent_ok
  tx_consumed undefined = tx_undefined

  abbrev pub rx_received : Option A → Consumed A → Receiver A
  rx_received got (took v) = rx_took v
  rx_received got nothing = rx_none got
  rx_received got undefined = rx_undefined

  abbrev pub rx_dropped : Option A → Consumed A → Receiver A
  rx_dropped got (took v) = rx_gone got (some v)
  rx_dropped got nothing = rx_gone got none
  rx_dropped got undefined = rx_undefined

  -- One operation of the sender.
  pub advance_tx : Sender A → Channel A → Sender A × Channel A
  advance_tx (tx_send v) w = (tx_store, record w { value = some v })
  advance_tx tx_store w = (tx_close_rx, record w { is_sent = true })
  advance_tx tx_close_rx w = (tx_check, record w { rx_closed = true })
  advance_tx tx_check w = (if Channel.tx_closed w then tx_consume else tx_drop sent_ok, w)
  advance_tx tx_consume w = let (found, now) = try_consume_value w in (tx_consumed found, now)
  advance_tx tx_undefined w = (tx_undefined, w)
  advance_tx (tx_drop r) w = (tx_drop_rx r, record w { tx_closed = true })
  advance_tx (tx_drop_rx r) w = (tx_gone r, record w { rx_closed = true })
  advance_tx (tx_gone r) w = (tx_gone r, w)

  -- One operation of the receiver.
  pub advance_rx : Call → Receiver A → Channel A → Receiver A × Channel A
  advance_rx try_recv (rx_idle got) w =
      let (found, now) = try_consume_value w in (rx_received got found, now)
  advance_rx close (rx_idle got) w = (rx_close got, w)
  advance_rx drop_receiver (rx_idle got) w = (rx_drop got, w)
  advance_rx call (rx_took v) w = (rx_idle (some v), record w { tx_closed = true })
  advance_rx call (rx_none got) w = (rx_idle got, w)
  advance_rx call (rx_close got) w = (rx_close_rx got, record w { tx_closed = true })
  advance_rx call (rx_close_rx got) w = (rx_idle got, record w { rx_closed = true })
  advance_rx call (rx_drop got) w = (rx_drop_consume got, record w { tx_closed = true })
  advance_rx call (rx_drop_consume got) w =
      let (found, now) = try_consume_value w in (rx_dropped got found, now)
  advance_rx call (rx_gone got lost) w = (rx_gone got lost, w)
  advance_rx call rx_undefined w = (rx_undefined, w)

pub record System (A : Type 0) : Type 0 where
  pub sender : Sender A
  pub receiver : Receiver A
  pub channel : Channel A

module _ {A : Type 0} where
  pub data Step : System A → System A → Type 0 where
    sends :
        (t : Sender A) (r : Receiver A) (w : Channel A)
        → Step
            (record { sender = t; receiver = r; channel = w })
            (record { sender = (advance_tx t w).0; receiver = r; channel = (advance_tx t w).1 })
    receives :
        (call : Call) (t : Sender A) (r : Receiver A) (w : Channel A)
        → Step
            (record { sender = t; receiver = r; channel = w })
            (record {
              sender = t;
              receiver = (advance_rx call r w).0;
              channel = (advance_rx call r w).1;
            })

  -- A new channel on which `v` is about to be sent.
  abbrev pub sending : A → System A
  sending v = record {
    sender = tx_send v;
    receiver = rx_idle none;
    channel = record { is_sent = false; value = none; tx_closed = false; rx_closed = false };
  }

  pub data Reachable (v : A) : System A → Type 0 where
    created : Reachable v (sending v)
    stepped : (s t : System A) → Reachable v s → Step s t → Reachable v t
