-- ===== src/MpChannel/Handles.antt =====
-- src/async_std/sync/channel/mp.rs: the counts of the handles, and when the channel is closed.
use xx_core.Base.{ℕ, ◌+◌, ◌-◌, ◌≤◌, ◌<◌, ◌≡◌, true, ◌==◌, arith}
use native.Mathlib.Nat.{mod-eq_of_lt}
use xx_core.Uint
use xx_core.Uint.Laws.{wrapping_sub_above}
use xx_core.MpChannel.{
  Channel, channel_of, wrapped, new_sender, drop_sender, new_receiver, drop_receiver, close_send,
}

module _ {A : Type 0} (half capacity : ℕ) where
  -- `bounded`: the channel with a handle of either side.
  abbrev pub bounded : Channel A
  bounded = new_receiver half (new_sender half (channel_of half capacity))

  -- A handle is cloned or dropped only while it exists, and the memory bounds how many there are. A
  -- receiver may close the channel by itself.
  pub data Handled : Channel A → Type 0 where
    bounded_now : Handled bounded
    clones_sender :
        (ch : Channel A)
        → Handled ch
        → 0 < Channel.tx_count ch
        → Channel.tx_count ch + 1 < half
        → Handled (new_sender half ch)
    drops_sender :
        (ch : Channel A) → Handled ch → 0 < Channel.tx_count ch → Handled (drop_sender half ch)
    clones_receiver :
        (ch : Channel A)
        → Handled ch
        → 0 < Channel.rx_count ch
        → Channel.rx_count ch + 1 < half
        → Handled (new_receiver half ch)
    drops_receiver :
        (ch : Channel A) → Handled ch → 0 < Channel.rx_count ch → Handled (drop_receiver half ch)
    closes_send : (ch : Channel A) → Handled ch → Handled (close_send half ch)

  record Counts (ch : Channel A) : Type 0 where
    tx_fits : Channel.tx_count ch < half
    rx_fits : Channel.rx_count ch < half
    no_sender : Channel.rx_closed ch ≡ (Channel.tx_count ch == 0)
    no_receiver : Channel.rx_count ch ≡ 0 → Channel.tx_closed ch ≡ true

  Handled-Counts : 4 ≤ half → (ch : Channel A) → Handled ch → Counts ch
  unfolding new_sender drop_sender new_receiver drop_receiver
  Handled-Counts four ch bounded_now = ground arith
  Handled-Counts four c (clones_sender ch r some_left few) =
      let g = Handled-Counts four ch r in
      let e : wrapped half (Channel.tx_count ch + 1) ≡ Channel.tx_count ch + 1 =
        mod-eq_of_lt (omega arith) in
      ground arith
  Handled-Counts four c (drops_sender ch r some_left) =
      let g = Handled-Counts four ch r in
      let fits = Counts.tx_fits g in
      let e : Uint.wrapping_sub half (Channel.tx_count ch) 1 ≡ Channel.tx_count ch - 1 =
        wrapping_sub_above half (Channel.tx_count ch) 1 (omega arith) (omega arith) in
      ground arith
  Handled-Counts four c (clones_receiver ch r some_left few) =
      let g = Handled-Counts four ch r in
      let e : wrapped half (Channel.rx_count ch + 1) ≡ Channel.rx_count ch + 1 =
        mod-eq_of_lt (omega arith) in
      ground arith
  Handled-Counts four c (drops_receiver ch r some_left) =
      let g = Handled-Counts four ch r in
      let fits = Counts.rx_fits g in
      let e : Uint.wrapping_sub half (Channel.rx_count ch) 1 ≡ Channel.rx_count ch - 1 =
        wrapping_sub_above half (Channel.rx_count ch) 1 (omega arith) (omega arith) in
      ground arith
  Handled-Counts four c (closes_send ch r) = let g = Handled-Counts four ch r in ground arith

  -- In any order of clones, drops and closings of the handles the channel is closed for the
  -- receivers exactly when no sender is left, and it is closed for the senders when no receiver is.
  pub rx_closed-Handled :
      4 ≤ half
      → (ch : Channel A) → Handled ch
      → (Channel.rx_closed ch ≡ (Channel.tx_count ch == 0))
        × (Channel.rx_count ch ≡ 0 → Channel.tx_closed ch ≡ true)
  rx_closed-Handled four ch r =
      let g = Handled-Counts four ch r in (Counts.no_sender g, Counts.no_receiver g)
