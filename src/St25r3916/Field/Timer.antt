-- ===== src/St25r3916/Field/Timer.antt =====
-- The value of the no-response timer.
use cap_cc1101_nfc.Base.{ℕ, ◌+◌, ◌*◌, ◌≤◌, ◌<◌, ◌≡◌, ◌⊎◌, Bool, true, false, arith, if◌then◌else◌}
use cap_cc1101_nfc.St25r3916.Field.{no_response_timer_value}

-- Carrier periods in a step of the timer.
abbrev pub step_periods : Bool → ℕ
step_periods slow_step = if slow_step then 4096 else 64

-- 2^40 ms, about 35 years.
abbrev pub max_timeout : ℕ
max_timeout = 0x100_0000_0000

-- Carrier periods in a timeout of so many milliseconds.
abbrev pub carrier_periods : ℕ → ℕ
carrier_periods timeout = timeout * 13560

-- For a timeout of one to 2^40 milliseconds, where the product with the carrier's frequency stays
-- below 2^64: the timer's value fits its register and is not zero. It is never shorter than the
-- timeout unless it is the largest value there is, and it is longer by less than a step.
pub no_response_timer_value-bounds :
    (timeout : ℕ) (slow_step : Bool)
    → 1 ≤ timeout
    → timeout ≤ max_timeout
    → let value = no_response_timer_value timeout slow_step in
      (1 ≤ value)
      × (value ≤ 0xFFFF)
      × ((value ≡ 0xFFFF) ⊎ (carrier_periods timeout ≤ value * step_periods slow_step))
      × (value * step_periods slow_step < carrier_periods timeout + step_periods slow_step)
unfolding no_response_timer_value
no_response_timer_value-bounds timeout true h b = ground arith
no_response_timer_value-bounds timeout false h b = ground arith
