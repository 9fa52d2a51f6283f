-- ===== src/St25r3916/Exchange.antt =====
-- Frames that are sent to an NFC-A tag: transceive, requestWakeup, selectLevel, haltSelectedTag and
-- readType2Block of src/nfc/st25r3916_driver.cpp.
use cap_cc1101_nfc.Base.{
  ℕ, zero, suc, ◌+◌, ◌*◌, ◌%◌, Bool, ◌&&◌, ◌||◌, ltb, ◌==◌, ◌!=◌, if◌then◌else◌, bit_and, bit_or,
  Bytes, [], ◌∷◌, length, get_or, inc64, Option, none, some,
}
use cap_cc1101_nfc.St25r3916.{WakeupResult, no_tag, inconclusive, response}
use cap_cc1101_nfc.St25r3916.Action.{
  on_value, Transport, Action, ◌>>=◌, ◌>>◌, pure, gets, modify, sleep_for, throw_if_cancelled,
}
use cap_cc1101_nfc.St25r3916.Registers
use cap_cc1101_nfc.St25r3916.Codes
use cap_cc1101_nfc.St25r3916.Bus.{
  read_register, write_register, command, modify_register, fifo_size, read_fifo, write_fifo,
  set_transmit_length,
}
use cap_cc1101_nfc.St25r3916.Interrupts.{clear_interrupts, wait_for_interrupt, interrupt_asserted}
use cap_cc1101_nfc.St25r3916.Field.{ensure_nfc_a_field, prepare_transceive, set_no_response_timeout}

-- selectCommand, on a byte
abbrev pub select_command : ℕ → ℕ
select_command level = (0x91 + level * 2) % 256

module _ {T : Transport} where
  -- At most so many sleeps of a millisecond while the FIFO holds fewer bytes.
  unfoldable pub await_fifo : ℕ → ℕ → Action T (Unit {0})
  await_fifo zero size = pure tt
  await_fifo (suc attempts) size = do
    available ← fifo_size
    if ltb available size then (sleep_for 1 >> await_fifo attempts size) else pure tt

  -- The end of a transmission of whole bytes.
  abbrev pub send_with_crc : Bytes → Action T (Unit {0})
  send_with_crc frame = do
    modify_register Registers.reg_auxiliary_definition 0 Codes.aux_no_crc_receive
    clear_interrupts
    command Codes.command_clear_fifo
    write_fifo frame
    set_transmit_length (length frame) 0
    command Codes.command_transmit_with_crc

  -- The bytes received, `none` for `false`. The buffer's size and the fewest bytes that will do are
  -- `capacity` and `minimum_receive`.
  unfoldable pub transceive : Bytes → ℕ → ℕ → ℕ → Action T (Option Bytes)
  transceive transmit capacity timeout minimum_receive =
      if length transmit == 0 || capacity == 0 then pure none else do
        prepare_transceive
        set_no_response_timeout timeout
        write_register Registers.reg_iso14443a_settings 0x00
        send_with_crc transmit
        flags ←
            wait_for_interrupt
              (bit_or (bit_or Codes.interrupt_rx_end Codes.interrupt_no_response)
                Codes.interrupt_rx_errors)
              (timeout + 2)
        if bit_and flags (bit_or Codes.interrupt_no_response Codes.interrupt_rx_errors) != 0
              || bit_and flags Codes.interrupt_rx_end == 0
            then pure none
            else do
              await_fifo 3 minimum_receive
              received ← read_fifo capacity
              if length received == 0 || ltb (length received) minimum_receive
                  then pure none
                  else pure (some received)

  -- logWakeupDiagnostics: the readings feed the log, once and then every hundredth time.
  unfoldable pub log_wakeup_diagnostics : Action T (Unit {0})
  log_wakeup_diagnostics = do
    modify (λ d. record d { failed_wakeups = inc64 d.failed_wakeups })
    failed ← gets (λ d. d.failed_wakeups)
    if failed != 1 && failed % 100 != 0 then pure tt else do
      throw_if_cancelled
      fifo ← fifo_size
      operation ← read_register Registers.reg_operation_control
      auxiliary ← read_register Registers.reg_auxiliary_display
      asserted ← interrupt_asserted
      pure tt

  -- The bytes of ATQA are there when the answer is a response; they are empty otherwise.
  unfoldable pub request_wakeup : Action T (WakeupResult × Bytes)
  request_wakeup = do
    ensure_nfc_a_field
    prepare_transceive
    set_no_response_timeout 4
    write_register Registers.reg_iso14443a_settings 0x00
    modify_register Registers.reg_auxiliary_definition Codes.aux_no_crc_receive 0
    clear_interrupts
    command Codes.command_clear_fifo
    set_transmit_length 0 0
    command Codes.command_transmit_wupa
    flags ←
        wait_for_interrupt
          (bit_or (bit_or Codes.interrupt_rx_end Codes.interrupt_collision)
            (bit_or Codes.interrupt_no_response Codes.interrupt_rx_errors))
          6
    stored ← gets (λ d. d.stored_interrupts)
    let receive_activity = bit_and (bit_or flags stored) (
        bit_or (bit_or Codes.interrupt_rx_start Codes.interrupt_rx_end)
          (bit_or Codes.interrupt_collision Codes.interrupt_rx_errors))
    if bit_and flags Codes.interrupt_rx_errors != 0
          || bit_and flags (bit_or Codes.interrupt_rx_end Codes.interrupt_collision) == 0
        then (log_wakeup_diagnostics
            >> pure (
                if bit_and flags Codes.interrupt_no_response != 0 && receive_activity == 0
                then (no_tag, [])
                else (inconclusive, [])))
        else do
          await_fifo 3 2
          atqa ← read_fifo 2
          if length atqa == 2
              then pure (response, atqa)
              else (log_wakeup_diagnostics >> pure (inconclusive, []))

  -- The SAK, `none` for `false`.
  unfoldable pub select_level : ℕ → Bytes → Action T (Option ℕ)
  select_level level anticollision = do
    received ← transceive (select_command level ∷ 0x70 ∷ anticollision) 3 8 3
    on_value received (pure none)
        (λ bytes. if length bytes != 3 then pure none else pure (some (get_or bytes 0 0)))

  unfoldable pub halt_selected_tag : Action T Bool
  halt_selected_tag = do
    prepare_transceive
    write_register Registers.reg_iso14443a_settings 0x00
    send_with_crc (0x50 ∷ 0x00 ∷ [])
    flags ← wait_for_interrupt Codes.interrupt_tx_end 3
    sleep_for 1
    pure (bit_and flags Codes.interrupt_tx_end != 0)

  -- The sixteen bytes from a page on, `none` for `false`.
  unfoldable pub read_type2_block : ℕ → Action T (Option Bytes)
  read_type2_block page = do
    received ← transceive (0x30 ∷ page ∷ []) 16 12 16
    on_value received (pure none)
        (λ bytes. if length bytes == 16 then pure (some bytes) else pure none)
