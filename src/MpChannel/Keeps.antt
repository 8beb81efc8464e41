-- ===== src/MpChannel/Keeps.antt =====
-- src/async_std/sync/channel/mp.rs: every step of a task keeps what `Sound` says of the ring, while the
-- numbers fit the counters.
use xx_core.Base.{
  ℕ, ◌+◌, ◌%◌, ◌≤◌, ◌<◌, ◌≡◌, ◌∙◌, sym, ap, refl, inl, inr, Bool, true, false, not, ◌||◌, Option,
  none, some, ◌==◌, if◌then◌else◌, Bool-cases, arith,
}
use mathlib.Core.Path.{subst}
use native.Mathlib.Nat.{mod-lt, mod-eq_of_lt}
use xx_core.Uint
use xx_core.Uint.Laws.{wrapping_sub-cases}
use xx_core.MpChannel.{
  Slot, Channel, Call, send, recv, Answer, Task, idle, checking, loading, reading, exchanging,
  accessing, storing, failed, returned, undefined, Event, silent, sends, takes, History, System,
  update, counter, put_slot, sent, received, send_closed, wrapped, expected, next, slot_at,
  compared, advance, advanced, success, accessed, failure, Step, goes, calls_try_send,
  calls_try_recv, returns, closes, Reachable, created, stepped, put_counter, claim_event,
  record_event,
}
use xx_core.MpChannel.Invariant.{wants, owned, sequence_at, TaskSound, Sound, initial-Sound}
use xx_core.MpChannel.Frame.{TaskSound-Keeps}
use xx_core.MpChannel.Owners.{TaskSound-update, alone-update, accessing-update, owned-update}
use xx_core.MpChannel.Claims.{claim_send-Sound, claim_recv-Sound}
use xx_core.MpChannel.Turns.{write-Sound, take-Sound, publish-Sound, release-Sound}

wrapping_sub_zero :
    (half a b : ℕ)
    → a < half + half
    → b < half + half
    → (Uint.wrapping_sub half a b == 0) ≡ true
    → a ≡ b
wrapping_sub_zero half a b la lb z =
    let zero_diff : Uint.wrapping_sub half a b ≡ 0 = ground arith in
    elim (wrapping_sub-cases half a b la lb) [
      | inl (le, e) ↦ omega arith
      | inr (lt, e) ↦ absurd (omega arith)
    ]

module _ {A : Type 0} (half capacity : ℕ) (two : 2 ≤ capacity) where
  -- A task that neither has a slot nor gets one.
  quiet-Sound :
      (s : System A) (k : ℕ) (t : Task A)
      → Sound capacity s
      → owned capacity t ≡ none
      → owned capacity (System.tasks s k) ≡ none
      → TaskSound capacity (System.channel s) (System.history s) t
      → Sound capacity (record s { tasks = update (System.tasks s) k t })
  quiet-Sound s k t g free other x = record {
    counted = Sound.counted g;
    ordered = Sound.ordered g;
    room = Sound.room g;
    slots = Sound.slots g;
    tasks =
        TaskSound-update capacity two s g k t (System.channel s) (System.history s) x (λ j apart.
          record {
            counters = λ c. omega arith;
            watched = λ c p le z f. f z;
            mine = λ i o. refl;
            sents = λ p lt. refl;
            takens = λ p o. refl;
          });
    alone = alone-update capacity two s g k t (λ j i o z. cc);
    sent_all = Sound.sent_all g;
    not_taken = Sound.not_taken g;
    taken_all = λ q lt. elim (Sound.taken_all g q lt) [
      | inl z ↦ inl z
      | inr z ↦ inr (
          accessing-update capacity two s g k q t
            (λ w. let y = sym other ∙ ap (owned capacity) w in cc) z)
    ];
    worked = λ c p lt e.
        owned-update capacity two s g k (p % capacity) t (λ o. let y = sym other ∙ o in cc)
          (Sound.worked g c p lt e);
  }

  counter_closed :
      (ch : Channel A) (a b : Bool) (c : Call A)
      → counter c (record ch { tx_closed = a; rx_closed = b }) ≡ counter c ch
  counter_closed ch a b (send v) = refl
  counter_closed ch a b recv = refl

  closed-Sound :
      (s : System A) (a b : Bool)
      → Sound capacity s
      → Sound capacity
          (record s { channel = record (System.channel s) { tx_closed = a; rx_closed = b } })
  closed-Sound s a b g = record {
    counted = Sound.counted g;
    ordered = Sound.ordered g;
    room = Sound.room g;
    slots = Sound.slots g;
    tasks = λ k.
        TaskSound-Keeps capacity (System.channel s)
          (record (System.channel s) { tx_closed = a; rx_closed = b }) (System.history s)
          (System.history s) (System.tasks s k) (Sound.ordered g)
          (record {
            counters = λ c. omega (arith, counter_closed (System.channel s) a b c);
            watched = λ c p le z f. f (sym (counter_closed (System.channel s) a b c) ∙ z);
            mine = λ i o. refl;
            sents = λ p lt. refl;
            takens = λ p o. refl;
          })
          (Sound.tasks g k);
    alone = Sound.alone g;
    sent_all = Sound.sent_all g;
    not_taken = Sound.not_taken g;
    taken_all = Sound.taken_all g;
    worked =
        λ c p lt e. Sound.worked g c p (omega (arith, counter_closed (System.channel s) a b c)) e;
  }

  -- The width is enough for all positions so far and one more round of the slots.
  abbrev pub Fits : System A → Type 0
  Fits s = History.count (System.history s) + capacity + 1 ≤ half

  wants-le : (c : Call A) (p : ℕ) → wants c p ≤ p + 1
  wants-le (send v) p = omega arith
  wants-le recv p = omega arith

  expected_lem : (c : Call A) (p : ℕ) → p + 1 < half + half → expected half capacity c p ≡ wants c p
  expected_lem (send v) p lt = refl
  expected_lem recv p lt = mod-eq_of_lt lt

  module _ (s : System A) (g : Sound capacity s) (fits : Fits s) (k : ℕ) where
    abbrev ch : Channel A
    ch = System.channel s

    abbrev h : History A
    h = System.history s

    counter_fits : (c : Call A) → counter c ch + capacity + 1 ≤ half
    counter_fits (send v) = omega (arith, Sound.counted g)
    counter_fits recv = omega (arith, Sound.counted g, Sound.ordered g)

    sequence_fits : (p : ℕ) → sequence_at capacity ch h p < half + half
    sequence_fits p =
        let (q, i, le, x) = Sound.slots g (p % capacity) (mod-lt p (omega arith)) in
        let same : sequence_at capacity ch h q ≡ sequence_at capacity ch h p =
          ap (λ n. Slot.sequence (Channel.slots ch n)) i in
        let counted = Sound.counted g in
        let ordered = Sound.ordered g in
        elim x [ inl v ↦ omega (arith, same, v.0, v.2) | inr o ↦ omega (arith, same, o.0, o.1) ]

    -- The exchange is tried only if the sequence is the wanted one, which it stays while the counter
    -- does.
    compared-Sound :
        (c : Call A) (p diff : ℕ)
        → System.tasks s k ≡ reading c p
        → p ≤ counter c ch
        → ((diff == 0) ≡ true → sequence_at capacity ch h p ≡ wants c p)
        → Sound capacity
            (record s { tasks = update (System.tasks s) k (compared half capacity c p diff) })
    compared-Sound c p diff e le z = elim (Bool-cases (diff == 0)) [
      | inl b ↦
          rw b (quiet-Sound s k (exchanging c p) g refl (ap (owned capacity) e) (le, λ _. z b))
      | inr b ↦ elim (Bool-cases (Uint.is_negative half diff)) [
        | inl n ↦ rw (b, n) (quiet-Sound s k (failed c) g refl (ap (owned capacity) e) tt)
        | inr n ↦ rw (b, n) (quiet-Sound s k (loading c) g refl (ap (owned capacity) e) tt)
      ]
    ]

    reading-Sound :
        (c : Call A) (p : ℕ)
        → System.tasks s k ≡ reading c p
        → Sound capacity (record s {
          tasks = update (System.tasks s) k (
              compared half capacity c p (
                Uint.wrapping_sub half (sequence_at capacity ch h p) (expected half capacity c p)));
        })
    reading-Sound c p e =
        let le : p ≤ counter c ch = subst (TaskSound capacity ch h) e (Sound.tasks g k) in
        let room = counter_fits c in
        let wanted : expected half capacity c p ≡ wants c p = expected_lem c p (omega arith) in
        compared-Sound c p
          (Uint.wrapping_sub half (sequence_at capacity ch h p) (expected half capacity c p)) e le
          (λ (z : (Uint.wrapping_sub half (sequence_at capacity ch h p) (expected half capacity c p)
                == 0)
              ≡ true).
            wrapping_sub_zero half (sequence_at capacity ch h p) (expected half capacity c p)
              (sequence_fits p) (rw wanted (omega (arith, wants-le c p))) z
            ∙ wanted)

    claim-Sound :
        (c : Call A) (p : ℕ)
        → System.tasks s k ≡ exchanging c p
        → counter c ch ≡ p
        → Sound capacity (record {
          channel = put_counter c (wrapped half (p + 1)) ch;
          tasks = update (System.tasks s) k (accessing c p);
          history = record_event (claim_event c) h;
        })
    claim-Sound (send v) p e at =
        let room = counter_fits (send v) in
        rw (mod-eq_of_lt {n = p + 1} {m = half + half} (omega arith))
          (claim_send-Sound capacity two s g k v p at e)
    claim-Sound recv p e at =
        let room = counter_fits recv in
        rw (mod-eq_of_lt {n = p + 1} {m = half + half} (omega arith))
          (claim_recv-Sound capacity two s g k p at e)

    exchanging-Sound :
        (spurious : Bool) (c : Call A) (p : ℕ)
        → System.tasks s k ≡ exchanging c p
        → Sound capacity
            (advanced half capacity k (advance half capacity spurious (exchanging c p) ch) s)
    unfolding advance
    exchanging-Sound spurious c p e = elim (Bool-cases (not (counter c ch == p) || spurious)) [
      | inl b ↦ rw b (quiet-Sound s k (loading c) g refl (ap (owned capacity) e) tt)
      | inr b ↦ rw b (claim-Sound c p e (ground arith))
    ]

    taken_value :
        (p : ℕ) (o : Option A)
        → Slot.cell (slot_at half capacity ch p) ≡ o
        → System.tasks s k ≡ accessing recv p
        → Sound capacity (
            advanced half capacity k
              (accessed half capacity recv p ch (success recv (slot_at half capacity ch p)))
              s)
    taken_value p none e t =
        let mine : TaskSound capacity ch h (accessing recv p) =
          subst (TaskSound capacity ch h) t (Sound.tasks g k) in
        absurd (Sound.sent_all g p (omega (arith, mine.0, Sound.ordered g)) (sym mine.2.0 ∙ e))
    taken_value p (some v) e t =
        rw (e, success) (take-Sound capacity two s g k p v (received v) t e)

    storing-Sound :
        (c : Call A) (p : ℕ) (a : Answer A)
        → System.tasks s k ≡ storing c p a
        → Sound capacity (record s {
          channel =
              put_slot
                (p % capacity)
                (record (slot_at half capacity ch p) { sequence = next half capacity c p })
                ch;
          tasks = update (System.tasks s) k (returned a);
        })
    storing-Sound (send v) p a e =
        let room = counter_fits (send v) in
        let mine : TaskSound capacity ch h (storing (send v) p a) =
          subst (TaskSound capacity ch h) e (Sound.tasks g k) in
        rw (mod-eq_of_lt {n = p + 1} {m = half + half} (omega (arith, mine.0)))
          (publish-Sound capacity two s g k p v a e)
    storing-Sound recv p a e =
        let room = counter_fits recv in
        let mine : TaskSound capacity ch h (storing recv p a) =
          subst (TaskSound capacity ch h) e (Sound.tasks g k) in
        rw (mod-eq_of_lt {n = p + capacity} {m = half + half} (omega (arith, mine.0)))
          (release-Sound capacity two s g k p a e)

    checked-Sound :
        (v : A)
        → System.tasks s k ≡ checking v
        → (closed : Bool)
        → Sound capacity (record s {
          tasks =
              update
                (System.tasks s)
                k
                (if closed then returned (send_closed v) else loading (send v));
        })
    checked-Sound v e true =
        quiet-Sound s k (returned (send_closed v)) g refl (ap (owned capacity) e) tt
    checked-Sound v e false = quiet-Sound s k (loading (send v)) g refl (ap (owned capacity) e) tt

    advance-Sound :
        (spurious : Bool) (t : Task A)
        → System.tasks s k ≡ t
        → Sound capacity (advanced half capacity k (advance half capacity spurious t ch) s)
    unfolding advance
    advance-Sound spurious idle e = quiet-Sound s k idle g refl (ap (owned capacity) e) tt
    advance-Sound spurious (checking v) e = checked-Sound v e (Channel.tx_closed ch)
    advance-Sound spurious (loading c) e =
        quiet-Sound s k (reading c (counter c ch)) g refl (ap (owned capacity) e) (omega arith)
    advance-Sound spurious (reading c p) e = reading-Sound c p e
    advance-Sound spurious (exchanging c p) e = exchanging-Sound spurious c p e
    advance-Sound spurious (accessing (send v) p) e = write-Sound capacity two s g k p v sent e
    advance-Sound spurious (accessing recv p) e = taken_value p _ refl e
    advance-Sound spurious (storing c p a) e = storing-Sound c p a e
    advance-Sound spurious (failed c) e =
        quiet-Sound s k (returned (failure c ch)) g refl (ap (owned capacity) e) tt
    advance-Sound spurious (returned a) e =
        quiet-Sound s k (returned a) g refl (ap (owned capacity) e) tt
    advance-Sound spurious undefined e =
        absurd (subst (TaskSound capacity ch h) e (Sound.tasks g k))

  Step-Sound :
      (s t : System A) → Step half capacity s t → Fits s → Sound capacity s → Sound capacity t
  Step-Sound s t (goes k spurious) fits g =
      advance-Sound s g fits k spurious (System.tasks s k) refl
  Step-Sound s t (calls_try_send k v e) fits g =
      quiet-Sound s k (checking v) g refl (ap (owned capacity) e) tt
  Step-Sound s t (calls_try_recv k e) fits g =
      quiet-Sound s k (loading recv) g refl (ap (owned capacity) e) tt
  Step-Sound s t (returns k a e) fits g = quiet-Sound s k idle g refl (ap (owned capacity) e) tt
  Step-Sound s t (closes tx rx) fits g = closed-Sound s _ _ g

  count-record_event :
      (e : Event A) (h : History A) → History.count h ≤ History.count (record_event e h)
  count-record_event silent h = omega arith
  count-record_event (sends v) h = omega arith
  count-record_event (takes p v) h = omega arith

  count-Step :
      (s t : System A)
      → Step half capacity s t
      → History.count (System.history s) ≤ History.count (System.history t)
  count-Step s t (goes k spurious) =
      count-record_event (advance half capacity spurious (System.tasks s k) (System.channel s)).2
        (System.history s)
  count-Step s t (calls_try_send k v e) = omega arith
  count-Step s t (calls_try_recv k e) = omega arith
  count-Step s t (returns k a e) = omega arith
  count-Step s t (closes tx rx) = omega arith

  pub Reachable-Sound : (s : System A) → Reachable half capacity s → Fits s → Sound capacity s
  Reachable-Sound s created fits = initial-Sound half capacity
  Reachable-Sound t (stepped {s} r step) fits =
      let before : Fits s = omega (arith, count-Step s t step) in
      Step-Sound s t step before (Reachable-Sound s r before)
