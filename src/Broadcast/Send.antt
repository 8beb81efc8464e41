-- ===== src/Broadcast/Send.antt =====
-- src/async_std/sync/broadcast.rs: `send`, and the receivers that come and go.
use xx_core.Base.{
  ℕ, suc, ◌+◌, ◌%◌, ◌<◌, ◌≡◌, ◌∙◌, ◌⊎◌, inl, inr, List, [], length, length_zero, ◌==◌,
  if◌then◌else◌, arith, refl, Bool-cases, Option-cases, sym, ap, true,
}
use native.Mathlib.Nat.{mod-eq_of_lt, add-mod_right}
use mathlib.Core.Path.{subst}
use xx_core.Uint
use xx_core.Broadcast.{Slot, Channel, put_slot, Sent, sent, send_error, send, previous_is_valid}
use xx_core.Broadcast.Indices.{mod_injective}
use xx_core.Broadcast.Invariant.{waiting_le, Initialized, Stores, IsBroadcast, waiting_new}

module _ {A : Type 0} where
  -- The messages with that of send n.
  abbrev pub with_message : (ℕ → A) → ℕ → A → ℕ → A
  with_message log n value k = if k == n then value else log k

  previous_is_valid_lem : (s : Slot A) → Initialized s → previous_is_valid s ≡ true
  previous_is_valid_lem s (inr (a, q)) = rw (q) refl
  previous_is_valid_lem s (inl z) = elim (Option-cases (Slot.data_of s)) [
    | inl q ↦ let t : (Slot.remaining s == 0) ≡ true = ground arith in rw (q, t) refl
    | inr (a, q) ↦ rw (q) refl
  ]

  module _ (half : ℕ) (log : ℕ → A) (ps : List ℕ) (ch : Channel A) (value : A) where
    -- The channel after a send that put `s` in its slot.
    stored-IsBroadcast :
        IsBroadcast half log ps ch
        → (n : ℕ) → n ≡ Channel.tail ch
        → suc n < half
        → (s : Slot A) → Stores (with_message log n value) ps n s
        → Initialized s
        → IsBroadcast half
            (with_message log n value)
            ps
            (put_slot (n % Channel.size ch) s (record ch { tail = suc n }))
    stored-IsBroadcast w n at bound s stores init = record {
      in_range = bound;
      has_slots = IsBroadcast.has_slots w;
      counted = IsBroadcast.counted w;
      behind = waiting_new (suc n) (Channel.tail ch) ps (omega arith) (IsBroadcast.behind w);
      window = λ k a b. elim (Bool-cases (k == n)) [
        | inl t ↦
            let same : k ≡ n = ground arith in
            let u : (k % Channel.size ch == n % Channel.size ch) ≡ true =
              rw (same) (ground arith) in
            rw (u) (subst (λ j. Stores (with_message log n value) ps j s) (sym same) stores)
        | inr t ↦ elim (Bool-cases (k % Channel.size ch == n % Channel.size ch)) [
          | inl u ↦
              absurd
                (mod_injective k n (Channel.size ch) (ground arith) (omega arith) (ground arith))
          | inr u ↦ rw (u, t) (IsBroadcast.window w k (ground arith) (omega arith))
        ]
      ];
      fresh = λ k a b. elim (Bool-cases (k % Channel.size ch == n % Channel.size ch)) [
        | inl u ↦ rw (u) (omega (arith, stores.0), init)
        | inr u ↦
            let other : k < Channel.tail ch + Channel.size ch =
              elim (Bool-cases (k == n + Channel.size ch)) [
                | inl t ↦
                    let same : k ≡ n + Channel.size ch = ground arith in
                    let shared : k % Channel.size ch ≡ n % Channel.size ch =
                      ap (λ j. j % Channel.size ch) same ∙ add-mod_right n (Channel.size ch) in
                    absurd (ground arith)
                | inr t ↦ ground arith
              ] in
            rw (u) (IsBroadcast.fresh w k (omega arith) other)
      ];
    }

    -- What send promises: every receiver gets the message, unless there is none.
    abbrev pub IsSend : Sent A × Channel A → Type 0
    IsSend (r, ch') =
        (((ps ≡ []) × (r ≡ send_error value)) ⊎ ((0 < length ps) × (r ≡ sent)))
        × IsBroadcast half (with_message log (Channel.tail ch) value) ps ch'

    -- In a well-formed channel that has not come to half of its numbers, send gives the value back
    -- when there is no receiver, and else puts it as the next message before all receivers; the
    -- channel and its receivers are well-formed then, and no value is dropped that is not there.
    pub send-IsSend :
        IsBroadcast half log ps ch → suc (Channel.tail ch) < half → IsSend (send half ch value)
    unfolding send
    send-IsSend w bound =
        let next : (Channel.tail ch + 1) % Uint.modulus half ≡ suc (Channel.tail ch) =
          mod-eq_of_lt {n = Channel.tail ch + 1} (omega arith) ∙ omega arith in
        let valid =
          previous_is_valid_lem (Channel.slots ch (Channel.tail ch % Channel.size ch))
            (IsBroadcast.fresh w (Channel.tail ch) (omega arith)
              (omega (arith, IsBroadcast.has_slots w))).1 in
        let own : (Channel.tail ch == Channel.tail ch) ≡ true = ground arith in
        elim (Bool-cases (Channel.rx_count ch == 0)) [
          | inl t ↦
              let none_left : length ps ≡ 0 = ground arith in
              rw (next, valid, t)
                (
                  inl (length_zero ps none_left, refl),
                  stored-IsBroadcast w _ refl bound _
                      (refl, (omega (arith, waiting_le (Channel.tail ch) ps), inl refl)) (inl refl),
                )
          | inr t ↦
              rw (next, valid, t)
                (
                  inr (ground arith, refl),
                  stored-IsBroadcast w _ refl bound _
                      (
                        refl,
                        (
                          omega (arith, waiting_le (Channel.tail ch) ps, IsBroadcast.counted w),
                          inr (rw (own) refl),
                        ),
                      )
                      (inr (value, refl)),
                )
        ]
