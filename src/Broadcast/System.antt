-- ===== src/Broadcast/System.antt =====
-- src/async_std/sync/broadcast.rs: a channel with all its receivers, changed by any operations in
-- any order.
use xx_core.Base.{
  ℕ, zero, suc, ◌+◌, ◌<◌, ◌≡◌, ◌∙◌, inl, inr, none, some, List, [], ◌∷◌, ◌++◌, leb, ◌==◌, arith,
  refl, Bool-cases, Option-cases, sym, true, false, length-append,
}
use native.Mathlib.Nat.{mod-le}
use mathlib.Core.Path.{subst}
use mathlib.Core.Option.{some-injective, none-ne-some}
use xx_core.Broadcast.{
  Channel, send, try_recv, receiver_new, receiver_drop, sender_new, sender_drop, synchronize,
  channel_new, channel_of, next_power,
}
use xx_core.Broadcast.Invariant.{
  waiting_le, waiting_behind, waiting_remove, IsBroadcast, advance-IsBroadcast,
}
use xx_core.Broadcast.Receive.{try_recv-IsReceive}
use xx_core.Broadcast.Send.{with_message, send-IsSend}

next_power_lem : (bits power size n : ℕ) → 0 < power → next_power bits power size ≡ some n → 0 < n
next_power_lem zero power size n h q = absurd (none-ne-some _ q)
next_power_lem (suc bits) power size n h q = elim (Bool-cases (leb size power)) [
  | inl t ↦
      let e : next_power (suc bits) power size ≡ some power = rw (t) refl in
      let same : power ≡ n = some-injective _ _ (sym e ∙ q) in omega (arith, same, h)
  | inr t ↦
      let e : next_power (suc bits) power size ≡ next_power bits (power + power) size =
        rw (t) refl in
      next_power_lem bits (power + power) size n (omega arith) (sym e ∙ q)
]

-- The messages sent, the positions of the receivers, and the channel.
pub record System (A : Type 0) : Type 0 where
  pub log : ℕ → A
  pub positions : List ℕ
  pub channel : Channel A

module _ {A : Type 0} where
  -- One operation of a sender or of a receiver.
  pub data Step (half : ℕ) : System A → System A → Type 0 where
    subscribed :
        (log : ℕ → A) (ps : List ℕ) (ch : Channel A)
        → Step half
            (record { log = log; positions = ps; channel = ch })
            (record {
              log = log;
              positions = (receiver_new ch).1 ∷ ps;
              channel = (receiver_new ch).0;
            })
    dropped :
        (log : ℕ → A) (front back : List ℕ) (p : ℕ) (ch : Channel A)
        → Step half
            (record { log = log; positions = front ++ (p ∷ back); channel = ch })
            (record { log = log; positions = front ++ back; channel = receiver_drop ch })
    synchronized :
        (log : ℕ → A) (front back : List ℕ) (p : ℕ) (ch : Channel A)
        → Step half
            (record { log = log; positions = front ++ (p ∷ back); channel = ch })
            (record { log = log; positions = front ++ (synchronize ch p ∷ back); channel = ch })
    tried :
        (log : ℕ → A) (front back : List ℕ) (p : ℕ) (ch : Channel A)
        → Step half
            (record { log = log; positions = front ++ (p ∷ back); channel = ch })
            (record {
              log = log;
              positions = front ++ ((try_recv half ch p).1.1 ∷ back);
              channel = (try_recv half ch p).1.0;
            })
    was_sent :
        (log : ℕ → A) (ps : List ℕ) (ch : Channel A) (value : A)
        → suc (Channel.tail ch) < half
        → Step half
            (record { log = log; positions = ps; channel = ch })
            (record {
              log = with_message log (Channel.tail ch) value;
              positions = ps;
              channel = (send half ch value).1;
            })
    sender_added :
        (log : ℕ → A) (ps : List ℕ) (ch : Channel A)
        → Step half
            (record { log = log; positions = ps; channel = ch })
            (record { log = log; positions = ps; channel = sender_new ch })
    sender_dropped :
        (log : ℕ → A) (ps : List ℕ) (ch : Channel A)
        → Step half
            (record { log = log; positions = ps; channel = ch })
            (record { log = log; positions = ps; channel = sender_drop ch })

  pub data Reachable (half bits size : ℕ) : System A → Type 0 where
    created :
        (log : ℕ → A) (ch : Channel A)
        → channel_new bits size ≡ some ch
        → Reachable half bits size (record { log = log; positions = []; channel = ch })
    stepped :
        (s t : System A) → Reachable half bits size s → Step half s t → Reachable half bits size t

  abbrev pub IsSystem : ℕ → System A → Type 0
  IsSystem half s = IsBroadcast half (System.log s) (System.positions s) (System.channel s)

  receiver_new-IsBroadcast :
      (half : ℕ) (log : ℕ → A) (ps : List ℕ) (ch : Channel A)
      → IsBroadcast half log ps ch
      → IsBroadcast half log ((receiver_new ch).1 ∷ ps) (receiver_new ch).0
  unfolding receiver_new
  receiver_new-IsBroadcast half log ps ch w = record {
    in_range = IsBroadcast.in_range w;
    has_slots = IsBroadcast.has_slots w;
    counted = omega (arith, IsBroadcast.counted w);
    behind =
        (let t : leb (Channel.tail ch) (Channel.tail ch) ≡ true = ground arith in
          rw (t) (omega (arith, IsBroadcast.behind w)));
    window = λ k a b.
        let t : leb (Channel.tail ch) k ≡ false = ground arith in
        let (q, (r, d)) = IsBroadcast.window w k a b in rw (t) (q, (r, d));
    fresh = IsBroadcast.fresh w;
  }

  receiver_drop-IsBroadcast :
      (half : ℕ) (log : ℕ → A) (front back : List ℕ) (p : ℕ) (ch : Channel A)
      → IsBroadcast half log (front ++ (p ∷ back)) ch
      → IsBroadcast half log (front ++ back) (receiver_drop ch)
  unfolding receiver_drop
  receiver_drop-IsBroadcast half log front back p ch w = record {
    in_range = IsBroadcast.in_range w;
    has_slots = IsBroadcast.has_slots w;
    counted =
        omega
          (arith, IsBroadcast.counted w, length-append front back, length-append front (p ∷ back));
    behind = omega (
      arith,
      IsBroadcast.behind w,
      length-append front back,
      length-append front (p ∷ back),
      (waiting_remove (Channel.tail ch) front back p).1,
      waiting_le (Channel.tail ch) (front ++ back),
    );
    window = λ k a b.
        let (q, (r, d)) = IsBroadcast.window w k a b in
        (q, (omega (arith, (waiting_remove k front back p).0, r), d));
    fresh = IsBroadcast.fresh w;
  }

  channel_of-IsBroadcast :
      (half power : ℕ) (log : ℕ → A)
      → 0 < half
      → 0 < power
      → IsBroadcast half log [] (channel_of power)
  channel_of-IsBroadcast half power log h z = record {
    in_range = h;
    has_slots = z;
    counted = refl;
    behind = refl;
    window = λ k a b. absurd (omega arith);
    fresh = λ k a b. (mod-le k power, inl refl);
  }

  channel_new-IsBroadcast :
      (half bits size : ℕ) (log : ℕ → A) (ch : Channel A)
      → 0 < half
      → channel_new bits size ≡ some ch
      → IsBroadcast half log [] ch
  channel_new-IsBroadcast half bits size log ch h q = elim (Bool-cases (size == 0)) [
    | inl t ↦
        let e : channel_new bits size ≡ none = rw (t) refl in absurd (none-ne-some _ (sym e ∙ q))
    | inr t ↦ elim (Option-cases (next_power bits 1 size)) [
      | inl r ↦
          let e : channel_new bits size ≡ none = rw (t, r) refl in
          absurd (none-ne-some _ (sym e ∙ q))
      | inr (power, r) ↦
          let e : channel_new bits size ≡ some (channel_of power) = rw (t, r) refl in
          subst (IsBroadcast half log []) (some-injective _ _ (sym e ∙ q)) (
            channel_of-IsBroadcast half power log h
              (next_power_lem bits 1 size power (omega arith) r))
    ]
  ]

  sender_drop-IsBroadcast :
      (half : ℕ) (log : ℕ → A) (ps : List ℕ) (ch : Channel A)
      → IsBroadcast half log ps ch
      → IsBroadcast half log ps (sender_drop ch)
  unfolding sender_drop
  sender_drop-IsBroadcast half log ps ch w = elim (Bool-cases (Channel.tx_count ch == 1)) [
    | inl t ↦ rw (t) (record {
      in_range = IsBroadcast.in_range w;
      has_slots = IsBroadcast.has_slots w;
      counted = IsBroadcast.counted w;
      behind = IsBroadcast.behind w;
      window = IsBroadcast.window w;
      fresh = IsBroadcast.fresh w;
    })
    | inr t ↦ rw (t) (record {
      in_range = IsBroadcast.in_range w;
      has_slots = IsBroadcast.has_slots w;
      counted = IsBroadcast.counted w;
      behind = IsBroadcast.behind w;
      window = IsBroadcast.window w;
      fresh = IsBroadcast.fresh w;
    })
  ]

  sender_new-IsBroadcast :
      (half : ℕ) (log : ℕ → A) (ps : List ℕ) (ch : Channel A)
      → IsBroadcast half log ps ch
      → IsBroadcast half log ps (sender_new ch)
  unfolding sender_new
  sender_new-IsBroadcast half log ps ch w = record {
    in_range = IsBroadcast.in_range w;
    has_slots = IsBroadcast.has_slots w;
    counted = IsBroadcast.counted w;
    behind = IsBroadcast.behind w;
    window = IsBroadcast.window w;
    fresh = IsBroadcast.fresh w;
  }

  synchronize-IsBroadcast :
      (half : ℕ) (log : ℕ → A) (front back : List ℕ) (p : ℕ) (ch : Channel A)
      → IsBroadcast half log (front ++ (p ∷ back)) ch
      → IsBroadcast half log (front ++ (synchronize ch p ∷ back)) ch
  unfolding synchronize
  synchronize-IsBroadcast half log front back p ch w =
      advance-IsBroadcast half log front back p (Channel.tail ch) ch
        (waiting_behind (Channel.tail ch) front back p (IsBroadcast.behind w)) (omega arith) w

  Step-IsSystem : (half : ℕ) (s t : System A) → Step half s t → IsSystem half s → IsSystem half t
  Step-IsSystem half s t (subscribed log ps ch) w = receiver_new-IsBroadcast half log ps ch w
  Step-IsSystem half s t (dropped log front back p ch) w =
      receiver_drop-IsBroadcast half log front back p ch w
  Step-IsSystem half s t (synchronized log front back p ch) w =
      synchronize-IsBroadcast half log front back p ch w
  Step-IsSystem half s t (tried log front back p ch) w =
      (try_recv-IsReceive half log front back p ch w).1
  Step-IsSystem half s t (was_sent log ps ch value h) w = (send-IsSend half log ps ch value w h).1
  Step-IsSystem half s t (sender_added log ps ch) w = sender_new-IsBroadcast half log ps ch w
  Step-IsSystem half s t (sender_dropped log ps ch) w = sender_drop-IsBroadcast half log ps ch w

  -- From a new channel and on, in every order of sends, receives, subscriptions, drops and
  -- synchronizations of any number of receivers, as long as fewer than half of the numbers of a
  -- `usize` were sent, the channel stays well-formed: each message that is in it is stored for
  -- every receiver that has yet to take it.
  pub reachable-IsSystem :
      (half bits size : ℕ) (s : System A) → 0 < half → Reachable half bits size s → IsSystem half s
  reachable-IsSystem half bits size s h (created log ch q) =
      channel_new-IsBroadcast half bits size log ch h q
  reachable-IsSystem half bits size s h (stepped u v r step) =
      Step-IsSystem half u s step (reachable-IsSystem half bits size u h r)
