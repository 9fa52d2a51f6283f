-- ===== src/Tests/Reader.antt =====
-- The driver over a chip whose registers and whose FIFO hold what the test gives them.
use cap_cc1101_nfc.Base.{
  ◌-◌, length, take, drop, Option, ℕ, ◌+◌, ◌*◌, ◌≤◌, ◌<◌, ◌⊎◌, ◌≡◌, refl, true, false, ◌==◌,
  if◌then◌else◌, Bytes, List, [], ◌∷◌, get_or, bytes_eq, arith, some,
}
use cap_cc1101_nfc.Types.{returned}
use cap_cc1101_nfc.St25r3916.{
  NfcAPollResult, NfcFPollResult, PollKind, new_driver, nfc_f, empty_tag,
}
use cap_cc1101_nfc.St25r3916.Action.{
  Action, Transport, Bus, follow, ◌>>=◌, pure, throw, gets, modify, call, sense, throw_if_cancelled,
  sleep_for, on_value,
}
use cap_cc1101_nfc.St25r3916.Bus.{
  exchange, read_registers, read_register, read_register16, write_registers, write_register,
  write_register16, write_register32, read_register_b, write_register_b, direct_command,
  modify_register, fifo_size, read_fifo, write_fifo, set_transmit_length,
}
use cap_cc1101_nfc.St25r3916.Interrupts.{
  interrupt_asserted, clock, read_interrupts, clear_passes, clear_interrupts, collect_passes,
  collect_if, take_matched, wait_loop, wait_for_interrupt,
}
use cap_cc1101_nfc.St25r3916.Field.{
  no_response_timer_value, profile_ready, field_ready, resample, ensure_field, ensure_nfc_a_field,
  ensure_nfc_f_field, prepare_transceive, set_no_response_timeout,
}
use cap_cc1101_nfc.St25r3916.Exchange.{
  await_fifo, transceive, log_wakeup_diagnostics, request_wakeup, select_level, halt_selected_tag,
}
use cap_cc1101_nfc.St25r3916.Anticollision.{
  Round, first_round, anticollision_loop, anticollision_level,
}
use cap_cc1101_nfc.St25r3916.NfcA.{
  protocol_failure, describe_tag, complete_tag, cascade, switch_to_nfc_a, reset_field_if_required,
  after_wakeup, poll_nfc_a, type_name_for_sak,
}
use cap_cc1101_nfc.St25r3916.NfcF.{
  exchange_loop, inspect_if, has_drained, settle_if, settle_loop, conclude, read_response,
  switch_to_nfc_f, send_request, receive_response, poll_nfc_f,
}
use cap_cc1101_nfc.St25r3916.Lifecycle.{stop}
use cap_cc1101_nfc.St25r3916.Lifecycle.Stop.{stop-new}
use cap_cc1101_nfc.St25r3916.Lifecycle.Discovery.{
  Operation, IsOrderly, discovering, perform_all, perform_all-IsOrderly,
}
use cap_cc1101_nfc.St25r3916.Field.Timer.{no_response_timer_value-bounds}
use cap_cc1101_nfc.St25r3916.Action.Rules.{Ends, Ends-pure}
use cap_cc1101_nfc.St25r3916.Type2.{read_message}
use cap_cc1101_nfc.St25r3916.Type2.Memory.{IsReader, take-part}
use cap_cc1101_nfc.St25r3916.Type2.Found.{
  Block, null, other, short, long, write_area, read_message-Ends,
}
use cap_cc1101_nfc.St25r3916.NfcA.Result.{IsAnswer, poll_nfc_a-IsAnswer}

-- A chip that always answers with the bytes that it has for the first byte of a transfer. Its clock
-- moves by a millisecond at every wait and sleep.
abbrev pub chip : (ℕ → Bytes) → Transport
chip held = record {
  World = ℕ;
  transfer = λ transmit now. (now, returned (λ i. get_or (held (get_or transmit 0 0)) i 0));
  interrupt_asserted = λ now. (now, returned true);
  wait_for_interrupt = λ timeout now. (now + 1000000, returned true);
  sleep_for = λ ms now. (now + 1000000, returned tt);
  clock = λ now. (now, now);
  stop_requested = λ now. (now, false);
}

-- A field that is on for NFC-A, a transmission that has ended in an answer, and five bytes in the
-- FIFO: the UID with its check byte.
abbrev pub classic : ℕ → Bytes
classic code =
    if code == 0x42
    then 0 ∷ 0xC9 ∷ []
    else if code == 0x43
    then 0 ∷ 0x08 ∷ 0x00 ∷ []
    else if code == 0x4B
    then 0 ∷ 0x08 ∷ 0x2D ∷ 0xD8 ∷ 0x22 ∷ []
    else if code == 0x5A
    then 0 ∷ 0x18 ∷ 0x00 ∷ []
    else if code == 0x5E
    then 0 ∷ 5 ∷ 0 ∷ []
    else if code == 0x9F
    then 0 ∷ 0x08 ∷ 0x01 ∷ 0x02 ∷ 0x03 ∷ 0x08 ∷ []
    else []

abbrev pub discovering_bus : Bus (chip classic)
discovering_bus = record {
  driver =
      record (new_driver
        (record { miso_pull_when_deselected = false; miso_pull_when_selected = false })) {
          ready = true;
          discovery_enabled = true;
        };
  world = 0;
}

abbrev classic_result : NfcAPollResult
classic_result = record {
  kind = PollKind.tag;
  tag = some (record empty_tag {
    atqa = 0x08 ∷ 0x01 ∷ [];
    uid = 0x08 ∷ 0x01 ∷ 0x02 ∷ 0x03 ∷ [];
    sak = 0x08;
    type_name = "MIFARE Classic 1K-compatible";
  });
}

poll_classic : (poll_nfc_a discovering_bus).1 ≡ returned classic_result
unfolding poll_nfc_a switch_to_nfc_a reset_field_if_required after_wakeup cascade complete_tag
    describe_tag protocol_failure anticollision_level anticollision_loop request_wakeup
    log_wakeup_diagnostics select_level transceive halt_selected_tag await_fifo
    set_no_response_timeout prepare_transceive ensure_nfc_a_field ensure_field resample field_ready
    profile_ready wait_for_interrupt wait_loop take_matched collect_if collect_passes
    clear_interrupts clear_passes read_interrupts clock interrupt_asserted set_transmit_length
    write_fifo read_fifo fifo_size modify_register direct_command write_register_b read_register_b
    write_register32 write_register16 write_register write_registers read_register16 read_register
    read_registers exchange follow ◌>>=◌ pure throw gets modify call sense throw_if_cancelled
    sleep_for on_value bytes_eq type_name_for_sak
poll_classic = refl

poll_nfc_a-IsAnswer_example : IsAnswer classic_result
poll_nfc_a-IsAnswer_example = poll_nfc_a-IsAnswer discovering_bus classic_result poll_classic

-- A field that is on for NFC-F, and a SENSF_RES in the FIFO.
abbrev felica : ℕ → Bytes
felica code =
    if code == 0x42
    then 0 ∷ 0xC9 ∷ []
    else if code == 0x43
    then 0 ∷ 0x1C ∷ 0x11 ∷ []
    else if code == 0x4B
    then 0 ∷ 0x13 ∷ 0x3D ∷ 0x00 ∷ 0x00 ∷ []
    else if code == 0x52
    then 0 ∷ 0x02 ∷ []
    else if code == 0x5A
    then 0 ∷ 0x18 ∷ 0x00 ∷ []
    else if code == 0x5E
    then 0 ∷ 18 ∷ 0 ∷ []
    else if code == 0x9F
    then 0 ∷ 18 ∷ 0x01 ∷ 1 ∷ 2 ∷ 3 ∷ 4 ∷ 5 ∷ 6 ∷ 7 ∷ 8 ∷ 11 ∷ 12 ∷ 13 ∷ 14 ∷ 15 ∷ 16 ∷ 17 ∷ 18 ∷ []
    else []

abbrev felica_bus : Bus (chip felica)
felica_bus = record {
  driver = record discovering_bus.driver { active_protocol = nfc_f };
  world = 0;
}

abbrev felica_result : NfcFPollResult
felica_result = record {
  kind = PollKind.tag;
  tag = some (record {
    idm = 1 ∷ 2 ∷ 3 ∷ 4 ∷ 5 ∷ 6 ∷ 7 ∷ 8 ∷ [];
    pmm = 11 ∷ 12 ∷ 13 ∷ 14 ∷ 15 ∷ 16 ∷ 17 ∷ 18 ∷ [];
    type_name = "NFC-F / FeliCa (NFC Forum Type 3)";
  });
}

poll_felica : (poll_nfc_f felica_bus).1 ≡ returned felica_result
unfolding poll_nfc_f switch_to_nfc_f reset_field_if_required send_request receive_response
    exchange_loop inspect_if has_drained settle_if settle_loop conclude read_response await_fifo
    set_no_response_timeout prepare_transceive ensure_nfc_f_field ensure_field resample field_ready
    profile_ready wait_for_interrupt wait_loop take_matched collect_if collect_passes
    clear_interrupts clear_passes read_interrupts clock interrupt_asserted set_transmit_length
    write_fifo read_fifo fifo_size modify_register direct_command write_register_b read_register_b
    write_register32 write_register16 write_register write_registers read_register16 read_register
    read_registers exchange follow ◌>>=◌ pure throw gets modify call sense throw_if_cancelled
    sleep_for on_value bytes_eq
poll_felica = refl

stop-new_example :
    ((stop discovering_bus).1 ≡ returned tt)
    × ((stop discovering_bus).0.driver ≡ new_driver discovering_bus.driver.config)
stop-new_example = stop-new discovering_bus

abbrev a_session : List Operation
a_session =
    Operation.initializes ∷ Operation.polls_nfc_a ∷ Operation.polls_nfc_f ∷ Operation.starts_nfc_f
    ∷ Operation.stops_nfc_a ∷ []

perform_all-IsOrderly_example : IsOrderly (perform_all a_session discovering_bus).driver
perform_all-IsOrderly_example =
    perform_all-IsOrderly a_session discovering_bus (discovering refl refl)

-- A collision in the second byte of a UID whose first byte is 4.
abbrev collided : Round
collided = record (first_round 1) { response = 4 ∷ 1 ∷ 0 ∷ 0 ∷ 0 ∷ [] }

abbrev after_collision : Round
after_collision = record {
  frame = 0x93 ∷ 0x34 ∷ 4 ∷ 9 ∷ 0 ∷ 0 ∷ 0 ∷ [];
  response = 4 ∷ 9 ∷ 0 ∷ 0 ∷ 0 ∷ [];
  sent_bytes = 3;
  sent_bits = 4;
  response_offset = 1;
}

no_response_timer_value-bounds_example :
    let value = no_response_timer_value 8 false in
    (1 ≤ value)
    × (value ≤ 0xFFFF)
    × ((value ≡ 0xFFFF) ⊎ (8 * 13560 ≤ value * 64))
    × (value * 64 < 8 * 13560 + 64)
no_response_timer_value-bounds_example =
    no_response_timer_value-bounds 8 false (omega arith) (omega arith)

-- A tag with a null TLV, a lock TLV, a message of two bytes in the long form, and the terminator.
abbrev some_blocks : List Block
some_blocks = null ∷ other 0x01 short (0xA0 ∷ 0x0C ∷ 0x34 ∷ []) ∷ []

abbrev some_area : Bytes
some_area = write_area some_blocks long (0xD0 ∷ 0x00 ∷ []) (0xFE ∷ [])

abbrev read_area : ℕ → Action (chip classic) (Option Bytes)
read_area page = pure (some (take 16 (drop (4 * (page - 4)) some_area)))

classic-calm : Ends {T = chip classic} (λ x. Unit {0}) throw_if_cancelled
unfolding throw_if_cancelled ◌>>=◌ follow sense
classic-calm = record { run = λ s. (tt, refl, tt) }

read_area-IsReader : IsReader read_area some_area
read_area-IsReader = record {
  block_at = λ page low high.
      Ends-pure _ (some (take 16 (drop (4 * (page - 4)) some_area)))
        (take 16 (drop (4 * (page - 4)) some_area), refl, take-part some_area (4 * (page - 4)));
  calm = classic-calm;
}

read_message-Ends_example :
    (read_message read_area (length some_area) [] discovering_bus).1
    ≡ returned (some (0xD0 ∷ 0x00 ∷ []))
read_message-Ends_example =
    read_message-Ends read_area [] some_blocks long (0xD0 ∷ 0x00 ∷ []) (0xFE ∷ [])
      (tt, ((ground arith, ground arith, ground arith, omega arith), tt)) (omega arith)
      (omega arith) read_area-IsReader discovering_bus
