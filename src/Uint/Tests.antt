-- ===== src/Uint/Tests.antt =====
-- Runs of the operations of src/impls/uint.rs at a width of eight bits.
use xx_core.Base.{◌≡◌, refl, false}
use xx_core.Uint

byte_diff : Uint.overflowing_signed_diff 128 3 5 ≡ (254, false)
unfolding Uint.overflowing_signed_diff
byte_diff = refl

byte_diff_over : Uint.saturating_signed_diff 128 200 5 ≡ 127
unfolding Uint.saturating_signed_diff Uint.overflowing_signed_diff
byte_diff_over = refl

byte_less_under : Uint.saturating_sub_signed 128 3 5 ≡ 0
unfolding Uint.saturating_sub_signed Uint.overflowing_sub_signed
byte_less_under = refl

byte_less_negative : Uint.wrapping_sub_signed 128 3 254 ≡ 5
unfolding Uint.wrapping_sub_signed
byte_less_negative = refl
