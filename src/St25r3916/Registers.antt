-- ===== src/St25r3916/Registers.antt =====
-- The register addresses of src/nfc/st25r3916_driver.cpp, of space A and, after `reg_b_`, of
-- space B.
use cap_cc1101_nfc.Base.{ℕ}

abbrev pub reg_io_configuration1 : ℕ
reg_io_configuration1 = 0x00

abbrev pub reg_io_configuration2 : ℕ
reg_io_configuration2 = 0x01

abbrev pub reg_operation_control : ℕ
reg_operation_control = 0x02

abbrev pub reg_mode_definition : ℕ
reg_mode_definition = 0x03

abbrev pub reg_bitrate_definition : ℕ
reg_bitrate_definition = 0x04

abbrev pub reg_iso14443a_settings : ℕ
reg_iso14443a_settings = 0x05

abbrev pub reg_felica_settings : ℕ
reg_felica_settings = 0x07

abbrev pub reg_nfcip_passive_target : ℕ
reg_nfcip_passive_target = 0x08

abbrev pub reg_auxiliary_definition : ℕ
reg_auxiliary_definition = 0x0A

abbrev pub reg_receiver_configuration1 : ℕ
reg_receiver_configuration1 = 0x0B

abbrev pub reg_receiver_configuration2 : ℕ
reg_receiver_configuration2 = 0x0C

abbrev pub reg_receiver_configuration3 : ℕ
reg_receiver_configuration3 = 0x0D

abbrev pub reg_receiver_configuration4 : ℕ
reg_receiver_configuration4 = 0x0E

abbrev pub reg_no_response_timer1 : ℕ
reg_no_response_timer1 = 0x10

abbrev pub reg_timer_and_emv_control : ℕ
reg_timer_and_emv_control = 0x12

abbrev pub reg_nfc_field_on_guard_timer : ℕ
reg_nfc_field_on_guard_timer = 0x15

abbrev pub reg_mask_main_interrupt : ℕ
reg_mask_main_interrupt = 0x16

abbrev pub reg_main_interrupt : ℕ
reg_main_interrupt = 0x1A

abbrev pub reg_error_and_wakeup_interrupt : ℕ
reg_error_and_wakeup_interrupt = 0x1C

abbrev pub reg_passive_target_interrupt : ℕ
reg_passive_target_interrupt = 0x1D

abbrev pub reg_fifo_status1 : ℕ
reg_fifo_status1 = 0x1E

abbrev pub reg_collision_display : ℕ
reg_collision_display = 0x20

abbrev pub reg_transmit_bytes1 : ℕ
reg_transmit_bytes1 = 0x22

abbrev pub reg_ad_converter_output : ℕ
reg_ad_converter_output = 0x25

abbrev pub reg_antenna_tuning_control1 : ℕ
reg_antenna_tuning_control1 = 0x26

abbrev pub reg_antenna_tuning_control2 : ℕ
reg_antenna_tuning_control2 = 0x27

abbrev pub reg_tx_driver : ℕ
reg_tx_driver = 0x28

abbrev pub reg_passive_target_modulation : ℕ
reg_passive_target_modulation = 0x29

abbrev pub reg_external_field_on : ℕ
reg_external_field_on = 0x2A

abbrev pub reg_external_field_off : ℕ
reg_external_field_off = 0x2B

abbrev pub reg_auxiliary_display : ℕ
reg_auxiliary_display = 0x31

abbrev pub reg_ic_identity : ℕ
reg_ic_identity = 0x3F

abbrev pub reg_b_emd_suppression : ℕ
reg_b_emd_suppression = 0x05

abbrev pub reg_b_correlator_configuration1 : ℕ
reg_b_correlator_configuration1 = 0x0C

abbrev pub reg_b_correlator_configuration2 : ℕ
reg_b_correlator_configuration2 = 0x0D

abbrev pub reg_b_resistive_am_modulation : ℕ
reg_b_resistive_am_modulation = 0x2A

abbrev pub reg_b_regulator_display : ℕ
reg_b_regulator_display = 0x2C

abbrev pub reg_b_overshoot_configuration1 : ℕ
reg_b_overshoot_configuration1 = 0x30

abbrev pub reg_b_overshoot_configuration2 : ℕ
reg_b_overshoot_configuration2 = 0x31

abbrev pub reg_b_undershoot_configuration1 : ℕ
reg_b_undershoot_configuration1 = 0x32

abbrev pub reg_b_undershoot_configuration2 : ℕ
reg_b_undershoot_configuration2 = 0x33
