-- ===== src/Broadcast/Receive.antt =====
-- src/async_std/sync/broadcast.rs: `try_recv` on every branch.
use xx_core.Base.{
  ℕ, suc, ◌+◌, ◌-◌, ◌%◌, ◌≤◌, ◌<◌, ◌≡◌, ◌∙◌, ◌⊎◌, inl, inr, List, ◌∷◌, ◌++◌, leb, ltb, ◌==◌,
  if◌then◌else◌, arith, refl, Bool-cases, sym, ap, false,
}
use native.Mathlib.Nat.{mod-eq_of_lt}
use mathlib.Core.Path.{subst}
use xx_core.Uint
use xx_core.Uint.Laws.{wrapping_sub_above, wrapping_sub_sign}
use xx_core.Broadcast.{
  Slot, Channel, put_slot, Received, received, empty, closed, lagged, try_recv, take_value,
}
use xx_core.Broadcast.Indices.{mod_injective, mod_window}
use xx_core.Broadcast.Invariant.{
  waiting_behind, waiting_take, advance-IsBroadcast, Initialized, Stores, IsBroadcast,
}

module _ {A : Type 0} where
  -- What a receiver at p gets from a channel with the given tail and size, and where it is then.
  pub Receives : (ℕ → A) → Channel A → ℕ → Received A → ℕ → Type 0
  Receives log ch p r p' =
      ((p ≡ Channel.tail ch) × ((p' ≡ p) × (r ≡ (if Channel.is_closed ch then closed else empty))))
      ⊎ (((p < Channel.tail ch)
            × ((Channel.tail ch ≤ p + Channel.size ch) × ((p' ≡ suc p) × (r ≡ received (log p)))))
          ⊎ ((p + Channel.size ch < Channel.tail ch)
              × ((p' + Channel.size ch ≡ Channel.tail ch) × (r ≡ lagged (p' - p)))))

  module _ (half : ℕ) (log : ℕ → A) (front back : List ℕ) (p : ℕ) (ch : Channel A) where
    -- The three cases of the position, read off the slot that it looks at.
    Position-cases :
        IsBroadcast half log (front ++ (p ∷ back)) ch
        → ((p ≡ Channel.tail ch) × (Slot.sequence (Channel.slots ch (p % Channel.size ch)) ≤ p))
          ⊎ (((p < Channel.tail ch)
                × ((Channel.tail ch ≤ p + Channel.size ch)
                    × Stores log (front ++ (p ∷ back)) p (Channel.slots ch (p % Channel.size ch))))
              ⊎ ((p + Channel.size ch < Channel.tail ch)
                  × ((suc p < Slot.sequence (Channel.slots ch (p % Channel.size ch)))
                      × (Slot.sequence (Channel.slots ch (p % Channel.size ch))
                          ≤ Channel.tail ch))))
    Position-cases w = elim (Bool-cases (ltb p (Channel.tail ch))) [
      | inr t ↦
          let before : p ≤ Channel.tail ch =
            waiting_behind (Channel.tail ch) front back p (IsBroadcast.behind w) in
          let here : p ≡ Channel.tail ch = ground arith in
          inl
            (here, (IsBroadcast.fresh w p (omega arith) (omega (arith, IsBroadcast.has_slots w))).0)
      | inl t ↦ elim (Bool-cases (leb (Channel.tail ch) (p + Channel.size ch))) [
        | inl u ↦ inr (
            inl
              (ground arith, (ground arith, IsBroadcast.window w p (ground arith) (ground arith))))
        | inr u ↦
            let (k, (a, (b, (e, f)))) =
              mod_window (Channel.tail ch) p (Channel.tail ch) (Channel.size ch) (omega arith)
                (ground arith) (IsBroadcast.has_slots w) in
            let q : Slot.sequence (Channel.slots ch (p % Channel.size ch)) ≡ suc k =
              ap (λ i. Slot.sequence (Channel.slots ch i)) (sym f)
              ∙ (IsBroadcast.window w k b e).0 in
            let far : p + Channel.size ch < Channel.tail ch = ground arith in
            inr (inr (far, rw (q) (omega arith, omega arith)))
      ]
    ]

    -- The slot of a message that one receiver has taken.
    take-IsBroadcast :
        (w : IsBroadcast half log (front ++ (p ∷ back)) ch)
        → p < Channel.tail ch
        → Channel.tail ch ≤ p + Channel.size ch
        → (left : Slot A) → Stores log (front ++ (suc p ∷ back)) p left
        → Initialized left
        → IsBroadcast half log (front ++ (suc p ∷ back)) (put_slot (p % Channel.size ch) left ch)
    take-IsBroadcast w h m left stores init =
        let w' = advance-IsBroadcast half log front back p (suc p) ch (omega arith) h w in
        record {
          in_range = IsBroadcast.in_range w';
          has_slots = IsBroadcast.has_slots w';
          counted = IsBroadcast.counted w';
          behind = IsBroadcast.behind w';
          window = λ k a b. elim (Bool-cases (k % Channel.size ch == p % Channel.size ch)) [
            | inl t ↦
                let same : k ≡ p = elim (Bool-cases (ltb k p)) [
                  | inl c ↦ absurd (
                      mod_injective k p (Channel.size ch) (ground arith) (omega arith)
                        (ground arith))
                  | inr c ↦ elim (Bool-cases (ltb p k)) [
                    | inl d ↦ absurd (
                        mod_injective p k (Channel.size ch) (ground arith) (omega arith)
                          (ground arith))
                    | inr d ↦ ground arith
                  ]
                ] in
                rw (t) (subst (λ j. Stores log (front ++ (suc p ∷ back)) j left) (sym same) stores)
            | inr t ↦ rw (t) (IsBroadcast.window w' k a b)
          ];
          fresh = λ k a b. elim (Bool-cases (k % Channel.size ch == p % Channel.size ch)) [
            | inl t ↦ rw (t) (omega (arith, stores.0), init)
            | inr t ↦ rw (t) (IsBroadcast.fresh w' k a b)
          ];
        }

    -- What the receiver gets, and that the channel and its receivers are as they should be then.
    abbrev pub IsReceive : Received A × (Channel A × ℕ) → Type 0
    IsReceive (r, (ch', p')) =
        Receives log ch p r p' × IsBroadcast half log (front ++ (p' ∷ back)) ch'

    take_value-IsReceive :
        (w : IsBroadcast half log (front ++ (p ∷ back)) ch)
        → p < Channel.tail ch
        → Channel.tail ch ≤ p + Channel.size ch
        → (slot : Slot A) → Stores log (front ++ (p ∷ back)) p slot
        → IsReceive
            ((take_value slot).0, (put_slot (p % Channel.size ch) (take_value slot).1 ch, suc p))
    unfolding Receives
    take_value-IsReceive w h m slot (q, (r, inl d)) =
        absurd (omega (arith, waiting_take front back p, r, d))
    take_value-IsReceive w h m slot (q, (r, inr d)) = elim (Bool-cases (Slot.remaining slot == 1)) [
      | inl t ↦
          let one : Slot.remaining slot ≡ 1 = ground arith in
          rw (d, t)
            (
              inr (inl (h, (m, (refl, refl)))),
              take-IsBroadcast w h m _
                  (q, (omega (arith, waiting_take front back p, r), inl (omega (arith, one))))
                  (inl (omega (arith, one))),
            )
      | inr t ↦
          rw (d, t)
            (
              inr (inl (h, (m, (refl, refl)))),
              take-IsBroadcast w h m _ (q, (omega (arith, waiting_take front back p, r), inr refl))
                  (inr (log p, refl)),
            )
    ]

    -- In a well-formed channel with a receiver at p, try_recv gives message p and moves on by one
    -- when the message is still in the channel; it reports how many messages were lost and moves on
    -- to the oldest one left when it is not; and it reports the empty or closed channel and stays
    -- when p is the tail. The channel and its other receivers are well-formed then, and no value is
    -- read that is not there.
    pub try_recv-IsReceive :
        IsBroadcast half log (front ++ (p ∷ back)) ch → IsReceive (try_recv half ch p)
    unfolding Receives try_recv
    try_recv-IsReceive w =
        let before : p ≤ Channel.tail ch =
          waiting_behind (Channel.tail ch) front back p (IsBroadcast.behind w) in
        let bound : Channel.tail ch < half = IsBroadcast.in_range w in
        let next : (p + 1) % Uint.modulus half ≡ suc p =
          mod-eq_of_lt {n = p + 1} (omega arith) ∙ omega arith in
        elim (Position-cases w) [
          | inl (here, low) ↦
              let (differs, negative) =
                wrapping_sub_sign half (Slot.sequence (Channel.slots ch (p % Channel.size ch)))
                  (suc p) (omega arith) (omega arith) in
              rw (next, differs, negative) (inl (here, (refl, refl)), w)
          | inr (inl (h, (m, stores))) ↦
              let equal : Uint.wrapping_sub half (suc p) (suc p) ≡ 0 =
                wrapping_sub_above half (suc p) (suc p) (omega arith) (omega arith) ∙ omega arith in
              rw (next, stores.0, equal) (take_value-IsReceive w h m _ stores)
          | inr (inr (h, (more, less))) ↦
              let ahead =
                wrapping_sub_above half (Slot.sequence (Channel.slots ch (p % Channel.size ch)))
                  (suc p) (omega arith) (omega arith) in
              let differs : ((Slot.sequence (Channel.slots ch (p % Channel.size ch))) - suc p == 0)
                  ≡ false =
                ground arith in
              let positive : leb half
                    ((Slot.sequence (Channel.slots ch (p % Channel.size ch))) - suc p)
                  ≡ false =
                ground arith in
              let head =
                wrapping_sub_above half (Channel.tail ch) (Channel.size ch) (omega arith)
                  (omega arith) in
              let missed =
                wrapping_sub_above half (Channel.tail ch - Channel.size ch) p (omega arith)
                  (omega arith) in
              rw (next, ahead, differs, positive, head, missed)
                (
                  inr (inr (h, (omega arith, refl))),
                  advance-IsBroadcast half log front back p (Channel.tail ch - Channel.size ch) ch
                      (omega arith) (omega arith) w,
                )
        ]
