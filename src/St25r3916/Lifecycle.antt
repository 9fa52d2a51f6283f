-- ===== src/St25r3916/Lifecycle.antt =====
-- initialize, startNfcA, startNfcF, stopNfcA and stop of src/nfc/st25r3916_driver.cpp.
pub mod Stop
pub mod Discovery
pub mod Ready
use Prim.Native.String.{◌++◌ as str_append, slice}
use cap_cc1101_nfc.Base.{
  ℕ, zero, suc, ◌+◌, ◌-◌, ◌*◌, ◌/◌, ◌%◌, ◌≡◌, String, Bool, true, false, not, ◌&&◌, ◌||◌, ltb, leb,
  ◌==◌, ◌!=◌, if◌then◌else◌, bit_and, bit_or, Bytes, List, [], ◌∷◌, get_or, Option, none, some,
}
use cap_cc1101_nfc.St25r3916.{
  Driver, DriverConfig, ChipInfo, ActiveProtocol, is_nfc_a, nfc_a, nfc_f,
}
use cap_cc1101_nfc.St25r3916.Action.{
  Transport, Action, ◌>>=◌, ◌>>◌, pure, throw, gets, modify, sleep_for, throw_if_cancelled, swallow,
}
use cap_cc1101_nfc.St25r3916.Registers
use cap_cc1101_nfc.St25r3916.Codes
use cap_cc1101_nfc.St25r3916.Bus.{
  read_register, read_register_b, write_register, write_registers, write_register32,
  write_register_b, direct_command, command, modify_register,
}
use cap_cc1101_nfc.St25r3916.Interrupts.{clear_interrupts}
use cap_cc1101_nfc.St25r3916.Field.{enable_oscillator, configure_nfc_a, configure_nfc_f}

-- The message of an unexpected identity, on its two hexadecimal digits.
abbrev identity_digit : ℕ → String
identity_digit n = slice "0123456789ABCDEF" n (suc n)

abbrev identity_message : ℕ → String
identity_message identity = str_append "unexpected IC identity 0x" (
    str_append (identity_digit (identity / 16))
      (str_append (identity_digit (identity % 16)) " (expected ST25R3916 type bits 0x28)"))

abbrev pub is_st25r3916 : ℕ → Bool
is_st25r3916 identity = bit_and identity Codes.identity_type_mask == Codes.st25r3916_identity_type

-- The fields as both stops leave them.
abbrev pub stopped_discovery : Driver → Driver
stopped_discovery d = record d {
  discovery_enabled = false;
  active_protocol = nfc_a;
  field_reset_required = false;
  failed_wakeups = 0;
  consecutive_no_tags = 0;
  consecutive_nfcf_no_tags = 0;
  cached_tag = none;
}

abbrev pub started_nfc_a : Driver → Driver
started_nfc_a d = record d {
  discovery_enabled = true;
  active_protocol = nfc_a;
  field_reset_required = false;
  failed_wakeups = 0;
  consecutive_no_tags = 0;
  consecutive_nfcf_no_tags = 0;
}

abbrev pub started_nfc_f : Driver → Driver
started_nfc_f d = record d {
  discovery_enabled = true;
  active_protocol = nfc_f;
  field_reset_required = false;
  failed_wakeups = 0;
  consecutive_nfcf_no_tags = 0;
}

abbrev io_configuration : DriverConfig → ℕ
io_configuration config = bit_or 0x24 (
    bit_or (if config.miso_pull_when_deselected then 0x08 else 0)
      (if config.miso_pull_when_selected then 0x10 else 0))

module _ {T : Transport} where
  abbrev pub disable_field : Action T (Unit {0})
  disable_field = do
    command Codes.command_stop_all
    modify_register Registers.reg_operation_control 0
        (bit_or Codes.operation_transmitter Codes.operation_receiver)

  unfoldable pub stop_nfc_a : Action T (Unit {0})
  stop_nfc_a = do
    active ← gets (λ d. d.ready && d.discovery_enabled)
    if not active then pure tt else (swallow disable_field >> modify stopped_discovery)

  abbrev pub stop_nfc_f : Action T (Unit {0})
  stop_nfc_f = stop_nfc_a

  unfoldable pub stop : Action T (Unit {0})
  stop = do
    stop_nfc_a
    modify (λ d. record (stopped_discovery d) { ready = false; stored_interrupts = 0 })
    swallow (disable_field >> write_register32 Registers.reg_mask_main_interrupt 0xFFFF_FFFF)

  unfoldable pub start_nfc_a : Action T (Unit {0})
  start_nfc_a = do
    ready ← gets (λ d. d.ready)
    active ← gets (λ d. d.discovery_enabled && is_nfc_a d.active_protocol)
    if not ready
        then throw "ST25R3916 driver is not initialized"
        else if active
        then pure tt
        else (configure_nfc_a >> modify started_nfc_a)

  unfoldable pub start_nfc_f : Action T (Unit {0})
  start_nfc_f = do
    ready ← gets (λ d. d.ready)
    active ← gets (λ d. d.discovery_enabled && not (is_nfc_a d.active_protocol))
    if not ready
        then throw "ST25R3916 driver is not initialized"
        else if active
        then pure tt
        else (configure_nfc_f >> modify started_nfc_f)

  -- The attempts at the identity. The answer is the last one read.
  unfoldable pub probe_identity : ℕ → ℕ → Action T ℕ
  probe_identity zero last = pure last
  probe_identity (suc attempts) last = do
    throw_if_cancelled
    identity ← read_register Registers.reg_ic_identity
    if is_st25r3916 identity
        then pure identity
        else (sleep_for 20 >> probe_identity attempts identity)

  -- From StopAll to the oscillator.
  unfoldable pub apply_defaults : Action T (Unit {0})
  apply_defaults = do
    disable_field
    sleep_for 2
    command Codes.command_set_default
    direct_command Codes.command_test_access (0x04 ∷ 0x10 ∷ [])
    config ← gets (λ d. d.config)
    write_registers Registers.reg_io_configuration1 (0x07 ∷ io_configuration config ∷ [])
    write_register Registers.reg_tx_driver 0xD0
    write_register_b Registers.reg_b_resistive_am_modulation 0x80
    write_register_b Registers.reg_b_resistive_am_modulation 0x00
    write_register Registers.reg_external_field_on 0x13
    write_register Registers.reg_external_field_off 0x02
    modify_register Registers.reg_nfcip_passive_target 0x50 0xF0
    write_register Registers.reg_passive_target_modulation 0x5F
    write_register_b Registers.reg_b_emd_suppression 0x40
    write_register Registers.reg_antenna_tuning_control1 0x82
    write_register Registers.reg_antenna_tuning_control2 0x82
    command Codes.command_clear_fifo
    write_register32 Registers.reg_mask_main_interrupt 0xFFFF_FFFF
    clear_interrupts
    enable_oscillator
    write_register32 Registers.reg_mask_main_interrupt 0

  -- The supply and the regulators, measured.
  unfoldable pub measure : ℕ → Action T ChipInfo
  measure identity = do
    command Codes.command_measure_power_supply
    sleep_for 1
    measured_supply ← read_register Registers.reg_ad_converter_output
    command Codes.command_adjust_regulators
    sleep_for 5
    regulator_display ← read_register_b Registers.reg_b_regulator_display
    pure (record {
      identity = identity;
      type = bit_and identity Codes.identity_type_mask / 8;
      revision = bit_and identity 0x07;
      measured_supply = measured_supply;
      regulator_display = regulator_display;
    })

  unfoldable pub initialize : Action T ChipInfo
  initialize = do
    stop
    throw_if_cancelled
    sleep_for 50
    identity ← probe_identity 5 0
    if not (is_st25r3916 identity) then throw (identity_message identity) else do
      apply_defaults
      chip ← measure identity
      configure_nfc_a
      modify (λ d. record (started_nfc_a d) { ready = true })
      pure chip
