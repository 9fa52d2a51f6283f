-- ===== src/St25r3916/Field.antt =====
-- The configuration of the chip for NFC-A and NFC-F, its oscillator and its field, of
-- src/nfc/st25r3916_driver.cpp.
pub mod Frame
pub mod Timer
use cap_cc1101_nfc.Base.{
  ℕ, zero, suc, ◌+◌, ◌-◌, ◌*◌, ◌/◌, ◌%◌, ◌≡◌, Bool, true, false, not, ◌&&◌, ltb, leb, ◌==◌, ◌!=◌,
  if◌then◌else◌, bit_and, bit_or, Bytes, List, [], ◌∷◌, get_or, bytes_eq, u64_mod,
}
use cap_cc1101_nfc.St25r3916.{Driver}
use cap_cc1101_nfc.St25r3916.Action.{
  Transport, Action, ◌>>=◌, ◌>>◌, pure, throw, gets, modify, sleep_for, throw_if_cancelled,
}
use cap_cc1101_nfc.St25r3916.Registers
use cap_cc1101_nfc.St25r3916.Codes
use cap_cc1101_nfc.St25r3916.Bus.{
  minimum, maximum, read_register, read_registers, write_register, write_register16,
  write_register32, write_register_b, command, modify_register,
}
use cap_cc1101_nfc.St25r3916.Interrupts.{clear_interrupts, wait_for_interrupt}

-- noResponseTimerValue, of a timeout that is not negative, in words of 64 bits.
pub no_response_timer_value : ℕ → Bool → ℕ
no_response_timer_value timeout slow_step =
    let step = if slow_step then 4096 else 64 in
    let numerator = maximum 1 timeout * 13560000 % u64_mod in
    let denominator = step * 1000 in
    minimum (maximum ((numerator + denominator - 1) % u64_mod / denominator) 1) 0xFFFF

-- The bits that enableField and both ensure functions name together.
abbrev field_bits : ℕ
field_bits = 0x4F

-- operationReady
abbrev operation_ready : ℕ → Bool
operation_ready operation = bit_and operation 0xCF == 0xC9

module _ {T : Transport} where
  -- The ten tests of the loop in enableOscillator.
  unfoldable pub await_oscillator : ℕ → Action T (Unit {0})
  await_oscillator zero = throw "oscillator did not report stable within 60 ms"
  await_oscillator (suc attempts) = do
    throw_if_cancelled
    auxiliary ← read_register Registers.reg_auxiliary_display
    if bit_and auxiliary Codes.aux_display_oscillator_ok != 0
        then pure tt
        else (sleep_for 1 >> await_oscillator attempts)

  unfoldable pub enable_oscillator : Action T (Unit {0})
  enable_oscillator = do
    modify_register Registers.reg_mask_main_interrupt 0 0x80
    clear_interrupts
    modify_register Registers.reg_operation_control Codes.operation_oscillator 0
    interrupt ← wait_for_interrupt Codes.interrupt_oscillator 50
    await_oscillator 10

  unfoldable pub enable_field : Action T (Unit {0})
  enable_field = do
    command Codes.command_stop_all
    modify_register Registers.reg_operation_control 0 field_bits
    modify_register Registers.reg_operation_control
        Codes.operation_field_detector_collision_avoidance Codes.operation_field_detector
    write_register_b Registers.reg_nfc_field_on_guard_timer 33
    clear_interrupts
    command Codes.command_initial_field_on
    flags ←
        wait_for_interrupt (bit_or Codes.interrupt_field_guard_done Codes.interrupt_field_collision)
          15
    if bit_and flags Codes.interrupt_field_collision != 0
        then throw "external RF field detected during collision avoidance"
        else if bit_and flags Codes.interrupt_field_guard_done == 0
        then throw "NFC field-on guard timer did not complete"
        else do
          modify_register Registers.reg_operation_control Codes.operation_receiver
              Codes.operation_wakeup
          operation ← read_register Registers.reg_operation_control
          auxiliary ← read_register Registers.reg_auxiliary_display
          if bit_and operation Codes.operation_transmitter == 0
              then throw "RF transmitter enable was not retained after field-on guard time"
              else pure tt

  -- The end of both configurations: the two readings only feed the log.
  abbrev begin_field : Action T (Unit {0})
  begin_field = do
    command Codes.command_reset_rx_gain
    write_register32 Registers.reg_mask_main_interrupt 0
    clear_interrupts
    enable_field
    operation ← read_register Registers.reg_operation_control
    auxiliary ← read_register Registers.reg_auxiliary_display
    pure tt

  unfoldable pub configure_nfc_a : Action T (Unit {0})
  configure_nfc_a = do
    throw_if_cancelled
    command Codes.command_stop_all
    modify_register Registers.reg_operation_control 0 Codes.operation_wakeup
    write_register Registers.reg_mode_definition 0x08
    write_register Registers.reg_bitrate_definition 0x00
    write_register Registers.reg_iso14443a_settings 0x00
    modify_register Registers.reg_timer_and_emv_control 0 Codes.timer_nrt_emv
    modify_register Registers.reg_auxiliary_definition 0 Codes.aux_disable_correlator
    write_register_b Registers.reg_b_overshoot_configuration1 0x40
    write_register_b Registers.reg_b_overshoot_configuration2 0x03
    write_register_b Registers.reg_b_undershoot_configuration1 0x40
    write_register_b Registers.reg_b_undershoot_configuration2 0x03
    write_register_b Registers.reg_b_correlator_configuration1 0x47
    write_register_b Registers.reg_b_correlator_configuration2 0x00
    write_register Registers.reg_receiver_configuration1 0x08
    write_register Registers.reg_receiver_configuration2 0x2D
    write_register Registers.reg_receiver_configuration3 0xD8
    write_register Registers.reg_receiver_configuration4 0x22
    begin_field

  unfoldable pub configure_nfc_f : Action T (Unit {0})
  configure_nfc_f = do
    throw_if_cancelled
    command Codes.command_stop_all
    modify_register Registers.reg_operation_control 0
        (bit_or Codes.operation_wakeup Codes.operation_field_detector)
    write_register Registers.reg_mode_definition 0x1C
    write_register Registers.reg_bitrate_definition 0x11
    write_register Registers.reg_felica_settings 0x00
    write_register Registers.reg_auxiliary_definition 0x00
    modify_register Registers.reg_timer_and_emv_control Codes.timer_nrt_emv 0
    write_register_b Registers.reg_b_correlator_configuration1 0x54
    write_register_b Registers.reg_b_correlator_configuration2 0x00
    write_register Registers.reg_receiver_configuration1 0x13
    write_register Registers.reg_receiver_configuration2 0x3D
    write_register Registers.reg_receiver_configuration3 0x00
    write_register Registers.reg_receiver_configuration4 0x00
    begin_field

  -- resetNfcAField and resetNfcFField up to the configuration.
  abbrev drop_field : Action T (Unit {0})
  drop_field = do
    command Codes.command_stop_all
    write_register Registers.reg_operation_control Codes.operation_oscillator
    sleep_for 6

  unfoldable pub reset_nfc_a_field : Action T (Unit {0})
  reset_nfc_a_field = drop_field >> configure_nfc_a

  unfoldable pub reset_nfc_f_field : Action T (Unit {0})
  reset_nfc_f_field = drop_field >> configure_nfc_f

  -- profileReady, with the values that a protocol expects.
  unfoldable pub profile_ready : Bytes → Bytes → Bool → Action T Bool
  profile_ready mode receiver nrt_emv = do
    mode_and_bitrate ← read_registers Registers.reg_mode_definition 2
    receiver_configuration ← read_registers Registers.reg_receiver_configuration1 4
    timer_and_emv ← read_register Registers.reg_timer_and_emv_control
    let emv = bit_and timer_and_emv Codes.timer_nrt_emv != 0
    pure (
        bytes_eq mode_and_bitrate mode
        && bytes_eq receiver_configuration receiver
        && (if nrt_emv then emv else not emv))

  unfoldable pub field_ready : Bytes → Bytes → Bool → ℕ → Action T Bool
  field_ready mode receiver nrt_emv operation =
      if operation_ready operation then profile_ready mode receiver nrt_emv else pure false

  -- The samples after the first, one a millisecond. The answer is the last sample of a field that
  -- is not ready.
  unfoldable pub resample : ℕ → ℕ → Bytes → Bytes → Bool → Action T (Bool × ℕ)
  resample zero last mode receiver nrt_emv = pure (false, last)
  resample (suc more) last mode receiver nrt_emv = do
    sleep_for 1
    operation ← read_register Registers.reg_operation_control
    ready ← field_ready mode receiver nrt_emv operation
    if ready then pure (true, operation) else resample more operation mode receiver nrt_emv

  -- ensureNfcAField and ensureNfcFField, which differ in what they expect and how they repair it.
  unfoldable pub ensure_field : Bytes → Bytes → Bool → Action T (Unit {0}) → Action T (Unit {0})
  ensure_field mode receiver nrt_emv configure = do
    operation ← read_register Registers.reg_operation_control
    ready ← field_ready mode receiver nrt_emv operation
    if ready then pure tt else do
      sampled ← resample 2 operation mode receiver nrt_emv
      if sampled.0 then pure tt else do
        identity ← read_register Registers.reg_ic_identity
        if bit_and sampled.1 Codes.operation_oscillator == 0 then enable_oscillator else pure tt
        configure

  unfoldable pub ensure_nfc_a_field : Action T (Unit {0})
  ensure_nfc_a_field =
      ensure_field (0x08 ∷ 0x00 ∷ []) (0x08 ∷ 0x2D ∷ 0xD8 ∷ 0x22 ∷ []) false configure_nfc_a

  unfoldable pub ensure_nfc_f_field : Action T (Unit {0})
  ensure_nfc_f_field =
      ensure_field (0x1C ∷ 0x11 ∷ []) (0x13 ∷ 0x3D ∷ 0x00 ∷ 0x00 ∷ []) true configure_nfc_f

  unfoldable pub prepare_transceive : Action T (Unit {0})
  prepare_transceive = command Codes.command_stop_all >> command Codes.command_reset_rx_gain

  unfoldable pub set_no_response_timeout : ℕ → Action T (Unit {0})
  set_no_response_timeout timeout = do
    control ← read_register Registers.reg_timer_and_emv_control
    write_register16 Registers.reg_no_response_timer1
        (no_response_timer_value timeout (bit_and control 0x01 != 0))
