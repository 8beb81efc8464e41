-- ===== src/Broadcast/Tests.antt =====
-- Runs of a broadcast channel of four slots with two receivers.
use xx_core.Base.{ℕ, suc, ◌≡◌, ◌<◌, refl, arith, [], ◌∷◌, some}
use xx_core.Broadcast.{Channel, channel_new, channel_of, receiver_new, send, received, try_recv}
use xx_core.Broadcast.Receive.{IsReceive, try_recv-IsReceive}
use xx_core.Broadcast.Send.{with_message}
use xx_core.Broadcast.System.{
  System, subscribed, was_sent, Reachable, created, stepped, IsSystem, reachable-IsSystem,
}

abbrev four : Channel ℕ
four = channel_of 4

four_slots : channel_new 64 3 ≡ some four
four_slots = refl

abbrev nothing : ℕ → ℕ
nothing k = 0

abbrev listened : System ℕ
listened = record {
  log = nothing;
  positions = (receiver_new four).1 ∷ [];
  channel = (receiver_new four).0;
}

abbrev spoken : System ℕ
spoken = record {
  log = with_message nothing (Channel.tail (System.channel listened)) 7;
  positions = System.positions listened;
  channel = (send 128 (System.channel listened) 7).1;
}

listened-Reachable : Reachable 128 64 3 listened
listened-Reachable = stepped _ _ (created nothing four four_slots) (subscribed nothing [] four)

listened_in_range : suc (Channel.tail (System.channel listened)) < 128
unfolding receiver_new
listened_in_range = omega arith

abbrev spoken-Reachable : Reachable 128 64 3 spoken
spoken-Reachable =
    stepped _ _ listened-Reachable
      (was_sent nothing (System.positions listened) (System.channel listened) 7 listened_in_range)

listened-IsSystem : IsSystem 128 listened
listened-IsSystem = reachable-IsSystem 128 64 3 listened (omega arith) listened-Reachable

spoken_received : (try_recv 128 (System.channel spoken) 0).0 ≡ received 7
unfolding try_recv send receiver_new
spoken_received = refl

try_recv-IsReceive_example :
    IsReceive 128
      (System.log spoken)
      []
      []
      (receiver_new four).1
      (System.channel spoken)
      (try_recv 128 (System.channel spoken) (receiver_new four).1)
try_recv-IsReceive_example =
    try_recv-IsReceive 128 (System.log spoken) [] [] (receiver_new four).1 (System.channel spoken)
      (reachable-IsSystem 128 64 3 spoken (omega arith) spoken-Reachable)

reachable-IsSystem_example : IsSystem 128 spoken
reachable-IsSystem_example = reachable-IsSystem 128 64 3 spoken (omega arith) spoken-Reachable
