-- ===== src/St25r3916/Codes.antt =====
-- The commands, the bits of registers and interrupts, and the limits of
-- src/nfc/st25r3916_driver.cpp. Durations are in milliseconds.
use cap_cc1101_nfc.Base.{ℕ, [], ◌∷◌, Bytes}

abbrev pub command_set_default : ℕ
command_set_default = 0xC1

abbrev pub command_stop_all : ℕ
command_stop_all = 0xC2

abbrev pub command_transmit_with_crc : ℕ
command_transmit_with_crc = 0xC4

abbrev pub command_transmit_without_crc : ℕ
command_transmit_without_crc = 0xC5

abbrev pub command_transmit_wupa : ℕ
command_transmit_wupa = 0xC7

abbrev pub command_initial_field_on : ℕ
command_initial_field_on = 0xC8

abbrev pub command_reset_rx_gain : ℕ
command_reset_rx_gain = 0xD5

abbrev pub command_adjust_regulators : ℕ
command_adjust_regulators = 0xD6

abbrev pub command_clear_fifo : ℕ
command_clear_fifo = 0xDB

abbrev pub command_measure_power_supply : ℕ
command_measure_power_supply = 0xDF

abbrev pub command_space_b_access : ℕ
command_space_b_access = 0xFB

abbrev pub command_test_access : ℕ
command_test_access = 0xFC

abbrev pub operation_oscillator : ℕ
operation_oscillator = 0x80

abbrev pub operation_receiver : ℕ
operation_receiver = 0x40

abbrev pub operation_transmitter : ℕ
operation_transmitter = 0x08

abbrev pub operation_wakeup : ℕ
operation_wakeup = 0x04

abbrev pub operation_field_detector : ℕ
operation_field_detector = 0x03

abbrev pub operation_field_detector_collision_avoidance : ℕ
operation_field_detector_collision_avoidance = 0x01

abbrev pub aux_no_crc_receive : ℕ
aux_no_crc_receive = 0x80

abbrev pub aux_disable_correlator : ℕ
aux_disable_correlator = 0x04

abbrev pub aux_display_transmitter_on : ℕ
aux_display_transmitter_on = 0x20

abbrev pub aux_display_oscillator_ok : ℕ
aux_display_oscillator_ok = 0x10

abbrev pub timer_nrt_emv : ℕ
timer_nrt_emv = 0x02

abbrev pub interrupt_oscillator : ℕ
interrupt_oscillator = 0x80000000

abbrev pub interrupt_rx_start : ℕ
interrupt_rx_start = 0x20000000

abbrev pub interrupt_rx_end : ℕ
interrupt_rx_end = 0x10000000

abbrev pub interrupt_tx_end : ℕ
interrupt_tx_end = 0x08000000

abbrev pub interrupt_collision : ℕ
interrupt_collision = 0x04000000

abbrev pub interrupt_no_response : ℕ
interrupt_no_response = 0x00400000

abbrev pub interrupt_field_collision : ℕ
interrupt_field_collision = 0x00040000

abbrev pub interrupt_field_guard_done : ℕ
interrupt_field_guard_done = 0x00020000

abbrev pub interrupt_crc_error : ℕ
interrupt_crc_error = 0x00008000

abbrev pub interrupt_parity_error : ℕ
interrupt_parity_error = 0x00004000

abbrev pub interrupt_hard_error : ℕ
interrupt_hard_error = 0x00003000

abbrev pub interrupt_rx_errors : ℕ
interrupt_rx_errors = 0xF000

abbrev pub read_register_operation : ℕ
read_register_operation = 0x40

abbrev pub load_fifo_operation : ℕ
load_fifo_operation = 0x80

abbrev pub read_fifo_operation : ℕ
read_fifo_operation = 0x9F

abbrev pub identity_type_mask : ℕ
identity_type_mask = 0xF8

abbrev pub st25r3916_identity_type : ℕ
st25r3916_identity_type = 0x28

abbrev pub maximum_fifo_size : ℕ
maximum_fifo_size = 512

abbrev pub maximum_ndef_size : ℕ
maximum_ndef_size = 2040

abbrev pub ndef_cache_removal_confirmations : ℕ
ndef_cache_removal_confirmations = 3

abbrev pub nfc_f_response_minimum_size : ℕ
nfc_f_response_minimum_size = 18

abbrev pub nfc_f_response_maximum_size : ℕ
nfc_f_response_maximum_size = 20

abbrev pub nfc_f_four_slot_tsn : ℕ
nfc_f_four_slot_tsn = 0x03

abbrev pub nfc_f_poll_timeout : ℕ
nfc_f_poll_timeout = 40

abbrev pub nfc_f_transmit_drain_guard : ℕ
nfc_f_transmit_drain_guard = 1

abbrev pub nfc_f_fifo_settle_window : ℕ
nfc_f_fifo_settle_window = 3

-- SENSF_REQ without the length byte, which the chip's framing adds.
abbrev pub sensf_request : Bytes
sensf_request = 0x00 ∷ 0xFF ∷ 0xFF ∷ 0x00 ∷ nfc_f_four_slot_tsn ∷ []
