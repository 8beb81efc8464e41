-- ===== src/Oneshot/Tests.antt =====
-- A run in which the receiver closes the channel before the value is sent.
use xx_core.Base.{ℕ, true, false, Option, none}
use xx_core.Oneshot.{tx_gone, returned, rx_idle, System}

abbrev seven : ℕ
seven = 7

abbrev no_value : Option ℕ
no_value = none

abbrev given_back : System ℕ
given_back = record {
  sender = tx_gone (returned 7);
  receiver = rx_idle none;
  channel = record { is_sent = false; value = none; tx_closed = true; rx_closed = true };
}
