-- ===== src/MpChannel/Waiting/Tests.antt =====
-- Runs of the loops of send and recv.
use xx_core.Base.{ℕ, ◌+◌, ◌<◌, ◌≡◌, refl, true, false, some, [], ◌∷◌, ltb, if◌then◌else◌, arith}
use xx_core.Backoff.{snooze}
use xx_core.MpChannel.{sent, full, received, empty}
use xx_core.MpChannel.Waiting.{
  Round, Ends, recv_loop, blocking_recv_cancellable, recv_loop-Ends, waits, snoozes,
}

-- There is room, or a value, from the third attempt on; the second is not granted by the budget.
abbrev third : ℕ → Round ℕ
third n = record {
  send_answer = λ v. if ltb n 2 then full v else sent;
  recv_answer = if ltb n 2 then empty else received 4;
  is_interrupted = false;
  acquire_budget = λ cost. ltb cost 2;
}

received_after_two : recv_loop 3 false third 0 0 ≡ some (received 4, snoozes ∷ waits ∷ [])
unfolding recv_loop snooze
received_after_two = refl

recv_loop-Ends_example : Ends 0 (received 4) (recv_loop 3 false third 0 0)
recv_loop-Ends_example =
    recv_loop-Ends 2 3 false third 0 0 (omega arith) (λ m h. third_empty m h) refl
  where
    third_empty :
        (m : ℕ)
        → m < 2
        → (Round.recv_answer (third (0 + m)) ≡ empty)
          × (Round.is_interrupted (third (0 + m)) ≡ false)
    third_empty m h = let b : ltb (0 + m) 2 ≡ true = ground arith in rw b (refl, refl)

-- No budget holds the blocking form back.
blocking_received : blocking_recv_cancellable 3 third ≡ some (received 4, snoozes ∷ snoozes ∷ [])
unfolding recv_loop snooze
blocking_received = refl
