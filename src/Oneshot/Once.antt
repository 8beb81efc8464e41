-- ===== src/Oneshot/Once.antt =====
-- src/async_std/sync/channel/oneshot.rs: the value that is sent is in one place at any time.
use xx_core.Base.{ℕ, ◌+◌, ◌≡◌, ap, refl, Bool, true, false, Option, none, some, arith}
use xx_core.Oneshot.{
  Result, not_sent, sent_ok, returned, Sender, tx_send, tx_store, tx_close_rx, tx_check, tx_consume,
  tx_undefined, tx_drop, tx_drop_rx, tx_gone, Receiver, rx_idle, rx_none, rx_close, rx_close_rx,
  rx_drop, rx_drop_consume, rx_took, rx_gone, rx_undefined, Call, try_recv, close, drop_receiver,
  advance_tx, advance_rx, System, Step, sends, receives, Reachable, created, stepped,
}

module _ {A : Type 0} (v : A) where
  -- How often a part has the value; one that has another value, or has used one that is not there,
  -- counts as impossible.
  abbrev pub Held : Option A → ℕ → Type 0
  Held none n = n ≡ 0
  Held (some u) n = (u ≡ v) × (n ≡ 1)

  abbrev pub Returned : Result A → ℕ → Type 0
  Returned not_sent n = n ≡ 0
  Returned sent_ok n = n ≡ 0
  Returned (returned u) n = (u ≡ v) × (n ≡ 1)

  -- The sender has the value before it is stored, also in the channel's memory, and when it is
  -- given back.
  abbrev pub SenderHas : Sender A → Option A → ℕ → Type 0
  SenderHas (tx_send u) memory n = (u ≡ v) × (n ≡ 1)
  SenderHas tx_store memory n = (memory ≡ some v) × (n ≡ 1)
  SenderHas tx_close_rx memory n = n ≡ 0
  SenderHas tx_check memory n = n ≡ 0
  SenderHas tx_consume memory n = n ≡ 0
  SenderHas tx_undefined memory n = ⊥
  SenderHas (tx_drop r) memory n = Returned r n
  SenderHas (tx_drop_rx r) memory n = Returned r n
  SenderHas (tx_gone r) memory n = Returned r n

  abbrev pub ChannelHas : Bool → Option A → ℕ → Type 0
  ChannelHas true memory n = (memory ≡ some v) × (n ≡ 1)
  ChannelHas false memory n = n ≡ 0

  abbrev pub ReceiverHas : Receiver A → ℕ → Type 0
  ReceiverHas (rx_idle got) n = Held got n
  ReceiverHas (rx_none got) n = Held got n
  ReceiverHas (rx_close got) n = Held got n
  ReceiverHas (rx_close_rx got) n = Held got n
  ReceiverHas (rx_drop got) n = Held got n
  ReceiverHas (rx_drop_consume got) n = Held got n
  ReceiverHas (rx_took u) n = (u ≡ v) × (n ≡ 1)
  ReceiverHas (rx_gone got lost) n = (i : ℕ) × ((j : ℕ) × (Held got i × Held lost j × (n ≡ i + j)))
  ReceiverHas rx_undefined n = ⊥

  -- The sender, the channel and the receiver have the value once together.
  pub data IsOnce : System A → Type 0 where
    once :
        (t : Sender A) (r : Receiver A) (is_sent : Bool) (memory : Option A) (tx rx : Bool)
        (i j k : ℕ)
        → SenderHas t memory i
        → ChannelHas is_sent memory j
        → ReceiverHas r k
        → i + (j + k) ≡ 1
        → IsOnce (record {
          sender = t;
          receiver = r;
          channel = record { is_sent = is_sent; value = memory; tx_closed = tx; rx_closed = rx };
        })

  sender-IsOnce :
      (t : Sender A) (r : Receiver A) (b : Bool) (m : Option A) (tx rx : Bool) (i j k : ℕ)
      → SenderHas t m i
      → ChannelHas b m j
      → ReceiverHas r k
      → i + (j + k) ≡ 1
      → IsOnce (record {
        sender =
            (advance_tx t (record { is_sent = b; value = m; tx_closed = tx; rx_closed = rx })).0;
        receiver = r;
        channel =
            (advance_tx t (record { is_sent = b; value = m; tx_closed = tx; rx_closed = rx })).1;
      })
  unfolding advance_tx
  sender-IsOnce (tx_send u) r true m tx rx i j k (s, p) (c, q) h e = absurd (omega arith)
  sender-IsOnce (tx_send u) r false m tx rx i j k (s, p) c h e =
      once _ _ _ _ _ _ i j k (ap some s, p) c h e
  sender-IsOnce tx_store r true m tx rx i j k (s, p) (c, q) h e = absurd (omega arith)
  sender-IsOnce tx_store r false m tx rx i j k (s, p) c h e =
      once _ _ _ _ _ _ 0 1 k refl (s, refl) h (omega arith)
  sender-IsOnce tx_close_rx r b m tx rx i j k s c h e = once _ _ _ _ _ _ i j k s c h e
  sender-IsOnce tx_check r b m true rx i j k s c h e = once _ _ _ _ _ _ i j k s c h e
  sender-IsOnce tx_check r b m false rx i j k s c h e = once _ _ _ _ _ _ i j k s c h e
  sender-IsOnce tx_consume r true m tx rx i j k s (c, q) h e =
      rw (c) (once _ _ _ _ _ _ 1 0 k (refl, refl) refl h (omega arith))
  sender-IsOnce tx_consume r false m tx rx i j k s c h e = once _ _ _ _ _ _ i j k s c h e
  sender-IsOnce tx_undefined r b m tx rx i j k s c h e = absurd s
  sender-IsOnce (tx_drop x) r b m tx rx i j k s c h e = once _ _ _ _ _ _ i j k s c h e
  sender-IsOnce (tx_drop_rx x) r b m tx rx i j k s c h e = once _ _ _ _ _ _ i j k s c h e
  sender-IsOnce (tx_gone x) r b m tx rx i j k s c h e = once _ _ _ _ _ _ i j k s c h e

  -- A sender that does not have the value does not rely on the memory.
  sender_apart :
      (t : Sender A) (m m' : Option A) (i : ℕ) → i ≡ 0 → SenderHas t m i → SenderHas t m' i
  sender_apart (tx_send u) m m' i z s = s
  sender_apart tx_store m m' i z (s, p) = absurd (omega arith)
  sender_apart tx_close_rx m m' i z s = s
  sender_apart tx_check m m' i z s = s
  sender_apart tx_consume m m' i z s = s
  sender_apart tx_undefined m m' i z s = s
  sender_apart (tx_drop r) m m' i z s = s
  sender_apart (tx_drop_rx r) m m' i z s = s
  sender_apart (tx_gone r) m m' i z s = s

  receiver-IsOnce :
      (call : Call) (t : Sender A) (r : Receiver A) (b : Bool) (m : Option A) (tx rx : Bool)
      (i j k : ℕ)
      → SenderHas t m i
      → ChannelHas b m j
      → ReceiverHas r k
      → i + (j + k) ≡ 1
      → IsOnce (record {
        sender = t;
        receiver =
            (advance_rx call r
              (record { is_sent = b; value = m; tx_closed = tx; rx_closed = rx })).0;
        channel =
            (advance_rx call r
              (record { is_sent = b; value = m; tx_closed = tx; rx_closed = rx })).1;
      })
  unfolding advance_rx
  receiver-IsOnce try_recv t (rx_idle got) true m tx rx i j k s (c, q) h e = rw (c) (
      once _ _ _ _ _ _ i 0 1 (sender_apart t m none i (omega arith) s) refl (refl, refl)
        (omega arith))
  receiver-IsOnce try_recv t (rx_idle got) false m tx rx i j k s c h e =
      once _ _ _ _ _ _ i j k s c h e
  receiver-IsOnce close t (rx_idle got) b m tx rx i j k s c h e = once _ _ _ _ _ _ i j k s c h e
  receiver-IsOnce drop_receiver t (rx_idle got) b m tx rx i j k s c h e =
      once _ _ _ _ _ _ i j k s c h e
  receiver-IsOnce call t (rx_took u) b m tx rx i j k s c h e = once _ _ _ _ _ _ i j k s c h e
  receiver-IsOnce call t (rx_none got) b m tx rx i j k s c h e = once _ _ _ _ _ _ i j k s c h e
  receiver-IsOnce call t (rx_close got) b m tx rx i j k s c h e = once _ _ _ _ _ _ i j k s c h e
  receiver-IsOnce call t (rx_close_rx got) b m tx rx i j k s c h e = once _ _ _ _ _ _ i j k s c h e
  receiver-IsOnce call t (rx_drop got) b m tx rx i j k s c h e = once _ _ _ _ _ _ i j k s c h e
  receiver-IsOnce call t (rx_drop_consume got) true m tx rx i j k s (c, q) h e = rw (c) (
      once _ _ _ _ _ _ i 0 (k + 1) (sender_apart t m none i (omega arith) s) refl
        (k, (1, (h, (refl, refl), refl))) (omega arith))
  receiver-IsOnce call t (rx_drop_consume got) false m tx rx i j k s c h e =
      once _ _ _ _ _ _ i j k s c (k, (0, (h, refl, omega arith))) e
  receiver-IsOnce call t (rx_gone got lost) b m tx rx i j k s c h e = once _ _ _ _ _ _ i j k s c h e
  receiver-IsOnce call t rx_undefined b m tx rx i j k s c h e = absurd h

  Step-IsOnce : (s t : System A) → Step s t → IsOnce s → IsOnce t
  Step-IsOnce _ _ (sends _ _ _) (once t r b m tx rx i j k s c h e) =
      sender-IsOnce t r b m tx rx i j k s c h e
  Step-IsOnce _ _ (receives call _ _ _) (once t r b m tx rx i j k s c h e) =
      receiver-IsOnce call t r b m tx rx i j k s c h e

  pub Reachable-IsOnce : (s : System A) → Reachable v s → IsOnce s
  Reachable-IsOnce _ created = once _ _ _ _ _ _ 1 0 0 (refl, refl) refl refl refl
  Reachable-IsOnce _ (stepped t u r step) = Step-IsOnce t u step (Reachable-IsOnce t r)

  IsOnce-returned :
      (u : A) (got : Option A) (b : Bool) (m : Option A) (tx rx : Bool)
      → IsOnce (record {
        sender = tx_gone (returned u);
        receiver = rx_idle got;
        channel = record { is_sent = b; value = m; tx_closed = tx; rx_closed = rx };
      })
      → (u ≡ v) × (got ≡ none) × (b ≡ false)
  IsOnce-returned u none true m tx rx (once _ _ _ _ _ _ i j k (s, p) (c, q) h e) =
      absurd (omega arith)
  IsOnce-returned u none false m tx rx (once _ _ _ _ _ _ i j k (s, p) c h e) = (s, refl, refl)
  IsOnce-returned u (some x) b m tx rx (once _ _ _ _ _ _ i j k (s, p) c (h, q) e) =
      absurd (omega arith)

  -- When in some interleaving the call of send has given back a value and is over, that value is v,
  -- and neither the receiver has one nor the channel holds one for it.
  pub returned_alone :
      (u : A) (got : Option A) (b : Bool) (m : Option A) (tx rx : Bool)
      → Reachable v (record {
        sender = tx_gone (returned u);
        receiver = rx_idle got;
        channel = record { is_sent = b; value = m; tx_closed = tx; rx_closed = rx };
      })
      → (u ≡ v) × (got ≡ none) × (b ≡ false)
  returned_alone u got b m tx rx r = IsOnce-returned u got b m tx rx (Reachable-IsOnce _ r)
