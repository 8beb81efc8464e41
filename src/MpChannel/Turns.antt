-- ===== src/MpChannel/Turns.antt =====
-- src/async_std/sync/channel/mp.rs: the access of a slot and the store of its sequence keep all that
-- holds of the channel.
use xx_core.Base.{
  ℕ, ◌+◌, ◌%◌, ◌≤◌, ◌≡◌, ◌≢◌, ◌∙◌, sym, ap, refl, inl, inr, true, false, Option, none, some, ◌==◌,
  Bool-cases, arith,
}
use mathlib.Core.Path.{subst}
use native.Mathlib.Nat.{add-mod_right}
use xx_core.MpChannel.{
  Slot, Channel, send, recv, Answer, Task, accessing, storing, returned, History, System, update,
}
use xx_core.MpChannel.Invariant.{owned, TaskSound, Sound}
use xx_core.MpChannel.Owners.{sequence-Serves, TaskSound-update, alone-update, accessing-update}
use xx_core.MpChannel.Accesses.{
  put, taken, put_same, put-SlotSound, slot-Keeps, owner-alone, worked_on, worked_off,
}

value_of : {A : Type 0} (o : Option A) → o ≢ none → A
value_of none some_value = absurd (some_value refl)
value_of (some v) some_value = v

module _ {A : Type 0} (capacity : ℕ) (two : 2 ≤ capacity) where
  module _ (s : System A) (g : Sound capacity s) (k p : ℕ) where
    abbrev ch : Channel A
    ch = System.channel s

    abbrev h : History A
    h = System.history s

    abbrev at : ℕ
    at = p % capacity

    abbrev slot : Slot A
    slot = Channel.slots ch at

    -- What changes is a slot, a task and what was taken.
    abbrev turned : Slot A → Task A → History A → System A
    turned x t h' = record {
      channel = put capacity two s g k p x;
      tasks = update (System.tasks s) k t;
      history = h';
    }

    here : (x : Slot A) → Channel.slots (put capacity two s g k p x) at ≡ x
    here x = put_same capacity two s g k p x at refl

    -- A sender writes its value.
    pub write-Sound :
        (v : A) (a : Answer A)
        → System.tasks s k ≡ accessing (send v) p
        → Sound capacity (turned (record slot { cell = some v }) (storing (send v) p a) h)
    write-Sound v a e =
        let x : Slot A = record slot { cell = some v } in
        let t : Task A = storing (send v) p a in
        let mine : TaskSound capacity ch h (accessing (send v) p) =
          subst (TaskSound capacity ch h) e (Sound.tasks g k) in
        let own : owned capacity (System.tasks s k) ≡ some at = ap (owned capacity) e in
        let (vacant, fits) = sequence-Serves capacity two s g (send v) p mine.1 in
        record {
          counted = Sound.counted g;
          ordered = Sound.ordered g;
          room = Sound.room g;
          slots = λ i lt.
              put-SlotSound capacity two s g k p x
                (p, refl, fits, inl (ap Slot.sequence (here x) ∙ vacant.0, vacant.1, vacant.2)) i
                (Sound.slots g i lt);
          tasks =
              TaskSound-update capacity two s g k t (put capacity two s g k p x) h
                (mine.0, ap Slot.sequence (here x) ∙ mine.1, ap Slot.cell (here x) ∙ sym mine.2)
                (slot-Keeps capacity two s g k p own x h (λ q. refl) (λ q z. refl));
          alone = alone-update capacity two s g k t (owner-alone capacity two s g k p own t refl);
          sent_all = Sound.sent_all g;
          not_taken = Sound.not_taken g;
          taken_all = λ q lt. elim (Sound.taken_all g q lt) [
            | inl z ↦ inl z
            | inr z ↦ inr (accessing-update capacity two s g k q t (λ w. cc) z)
          ];
          worked = worked_on capacity two s g k p own x t refl;
        }

    same_position : {q : ℕ} → ◌≡◌ {A = Task A} (accessing recv p) (accessing recv q) → q ≡ p
    same_position e = cc

    -- A receiver takes the value.
    pub take-Sound :
        (v : A) (a : Answer A)
        → System.tasks s k ≡ accessing recv p
        → Slot.cell slot ≡ some v
        → Sound capacity (
            turned
              (record slot { cell = none })
              (storing recv p a)
              (taken capacity two s g k p p v))
    take-Sound v a e full =
        let x : Slot A = record slot { cell = none } in
        let t : Task A = storing recv p a in
        let h' : History A = taken capacity two s g k p p v in
        let mine : TaskSound capacity ch h (accessing recv p) =
          subst (TaskSound capacity ch h) e (Sound.tasks g k) in
        let own : owned capacity (System.tasks s k) ≡ some at = ap (owned capacity) e in
        let (occupied, fits) = sequence-Serves capacity two s g recv p mine.1 in
        let this : (p == p) ≡ true = ground arith in
        let got : History.taken_at h' p ≡ History.sent_at h p = rw this (sym full ∙ mine.2.0) in
        let others : (q : ℕ) → q ≢ p → History.taken_at h' q ≡ History.taken_at h q =
          λ q z. let other : (q == p) ≡ false = ground arith in rw other refl in
        record {
          counted = Sound.counted g;
          ordered = Sound.ordered g;
          room = Sound.room g;
          slots = λ i lt.
              put-SlotSound capacity two s g k p x
                (
                  p,
                  refl,
                  fits,
                  inr (
                    ap Slot.sequence (here x) ∙ occupied.0,
                    occupied.1,
                    λ z. absurd (omega (arith, mine.0)),
                  ),
                )
                i (Sound.slots g i lt);
          tasks =
              TaskSound-update capacity two s g k t (put capacity two s g k p x) h'
                (mine.0, ap Slot.sequence (here x) ∙ mine.1, got)
                (slot-Keeps capacity two s g k p own x h' (λ q. refl) others);
          alone = alone-update capacity two s g k t (owner-alone capacity two s g k p own t refl);
          sent_all = Sound.sent_all g;
          not_taken = λ q le. others q (λ z. omega (arith, mine.0)) ∙ Sound.not_taken g q le;
          taken_all = λ q lt. elim (Bool-cases (q == p)) [
            | inl b ↦
                let same : q ≡ p = ground arith in
                inl (subst (λ n. History.taken_at h' n ≡ History.sent_at h n) (sym same) got)
            | inr b ↦
                let apart : q ≢ p = λ z. ground arith in
                elim (Sound.taken_all g q lt) [
                  | inl z ↦ inl (others q apart ∙ z)
                  | inr z ↦ inr (
                      accessing-update capacity two s g k q t
                        (λ w. apart (same_position (sym e ∙ w))) z)
                ]
          ];
          worked = worked_on capacity two s g k p own x t refl;
        }

    -- A sender that has written makes the slot ready for a receiver.
    pub publish-Sound :
        (v : A) (a : Answer A)
        → System.tasks s k ≡ storing (send v) p a
        → Sound capacity (turned (record slot { sequence = p + 1 }) (returned a) h)
    publish-Sound v a e =
        let x : Slot A = record slot { sequence = p + 1 } in
        let mine : TaskSound capacity ch h (storing (send v) p a) =
          subst (TaskSound capacity ch h) e (Sound.tasks g k) in
        let own : owned capacity (System.tasks s k) ≡ some at = ap (owned capacity) e in
        let (vacant, fits) = sequence-Serves capacity two s g (send v) p mine.1 in
        record {
          counted = Sound.counted g;
          ordered = Sound.ordered g;
          room = Sound.room g;
          slots = λ i lt.
              put-SlotSound capacity two s g k p x
                (
                  p,
                  refl,
                  fits,
                  inr (ap Slot.sequence (here x), mine.0, λ z. ap Slot.cell (here x) ∙ mine.2),
                )
                i (Sound.slots g i lt);
          tasks =
              TaskSound-update capacity two s g k (returned a) (put capacity two s g k p x) h tt
                (slot-Keeps capacity two s g k p own x h (λ q. refl) (λ q z. refl));
          alone = alone-update capacity two s g k (returned a) (λ j i o z. cc);
          sent_all = Sound.sent_all g;
          not_taken = Sound.not_taken g;
          taken_all = λ q lt. elim (Sound.taken_all g q lt) [
            | inl z ↦ inl z
            | inr z ↦ inr (accessing-update capacity two s g k q (returned a) (λ w. cc) z)
          ];
          worked = worked_off capacity two s g k p own x (returned a) recv p refl refl vacant.1;
        }

    -- A receiver that has taken makes the slot ready for the next sender.
    pub release-Sound :
        (a : Answer A)
        → System.tasks s k ≡ storing recv p a
        → Sound capacity (turned (record slot { sequence = p + capacity }) (returned a) h)
    release-Sound a e =
        let x : Slot A = record slot { sequence = p + capacity } in
        let mine : TaskSound capacity ch h (storing recv p a) =
          subst (TaskSound capacity ch h) e (Sound.tasks g k) in
        let own : owned capacity (System.tasks s k) ≡ some at = ap (owned capacity) e in
        let (occupied, fits) = sequence-Serves capacity two s g recv p mine.1 in
        let there : Channel.slots (put capacity two s g k p x) ((p + capacity) % capacity) ≡ x =
          put_same capacity two s g k p x ((p + capacity) % capacity) (add-mod_right p capacity) in
        record {
          counted = Sound.counted g;
          ordered = Sound.ordered g;
          room = Sound.room g;
          slots = λ i lt.
              put-SlotSound capacity two s g k p x
                (
                  p + capacity,
                  add-mod_right p capacity,
                  omega (arith, fits),
                  inl (
                    ap Slot.sequence there,
                    omega (arith, fits, Sound.ordered g),
                    omega (arith, mine.0),
                  ),
                )
                i (Sound.slots g i lt);
          tasks =
              TaskSound-update capacity two s g k (returned a) (put capacity two s g k p x) h tt
                (slot-Keeps capacity two s g k p own x h (λ q. refl) (λ q z. refl));
          alone = alone-update capacity two s g k (returned a) (λ j i o z. cc);
          sent_all = Sound.sent_all g;
          not_taken = Sound.not_taken g;
          taken_all = λ q lt. elim (Sound.taken_all g q lt) [
            | inl z ↦ inl z
            | inr z ↦ inr (accessing-update capacity two s g k q (returned a) (λ w. cc) z)
          ];
          worked =
              worked_off capacity two s g k p own x (returned a)
                (send (
                  value_of (History.sent_at h p)
                    (Sound.sent_all g p (omega (arith, mine.0, Sound.ordered g)))))
                (p + capacity) (add-mod_right p capacity) refl fits;
        }
