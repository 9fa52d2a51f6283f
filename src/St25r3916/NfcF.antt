-- ===== src/St25r3916/NfcF.antt =====
-- pollNfcF of src/nfc/st25r3916_driver.cpp.
pub mod Response
pub mod Fuel
use cap_cc1101_nfc.Base.{
  ℕ, zero, suc, ◌+◌, ◌-◌, ◌*◌, ◌/◌, ◌%◌, ◌≡◌, String, Bool, true, false, not, ◌&&◌, ◌||◌, ltb, leb,
  ◌==◌, ◌!=◌, if◌then◌else◌, bit_and, bit_or, Bytes, List, [], ◌∷◌, ◌++◌, length, get_or, take,
  drop, inc64, Option, none, some,
}
use cap_cc1101_nfc.St25r3916.{
  Driver, NfcFTag, PollKind, NfcFPollResult, ActiveProtocol, is_nfc_a, nfc_a, nfc_f,
}
use cap_cc1101_nfc.St25r3916.Action.{
  Transport, Action, ◌>>=◌, ◌>>◌, pure, throw, gets, modify, sleep_for, throw_if_cancelled,
}
use cap_cc1101_nfc.St25r3916.Registers
use cap_cc1101_nfc.St25r3916.Codes
use cap_cc1101_nfc.St25r3916.Bus.{
  minimum, maximum, command, modify_register, fifo_size, read_fifo, write_fifo, set_transmit_length,
}
use cap_cc1101_nfc.St25r3916.Interrupts.{
  ns_per_ms, deadline_in, remaining_ms, clock, clear_interrupts, wait_for_interrupt,
}
use cap_cc1101_nfc.St25r3916.Field.{
  configure_nfc_f, reset_nfc_f_field, ensure_nfc_f_field, prepare_transceive,
  set_no_response_timeout,
}
use cap_cc1101_nfc.St25r3916.NfcA.{require_discovery, reset_field_if_required}
use cap_cc1101_nfc.St25r3916.Exchange.{await_fifo}

-- Whether any of the bits is set.
abbrev pub has_any : ℕ → ℕ → Bool
has_any flags mask = bit_and flags mask != 0

abbrev receive_faults : ℕ
receive_faults = bit_or Codes.interrupt_rx_errors Codes.interrupt_collision

abbrev receive_activity : ℕ
receive_activity = bit_or (bit_or Codes.interrupt_rx_start Codes.interrupt_rx_end) receive_faults

abbrev exchange_interrupts : ℕ
exchange_interrupts =
    bit_or (bit_or Codes.interrupt_tx_end Codes.interrupt_no_response) receive_activity

-- The variables that the loop of the exchange changes.
pub record Window : Type 0 where
  pub flags : ℕ
  pub frame_ready : Bool
  pub receive_window : Bool
  pub transmit_complete : Bool
  pub fifo_available : ℕ

abbrev pub empty_window : Window
empty_window = record {
  flags = 0;
  frame_ready = false;
  receive_window = false;
  transmit_complete = false;
  fifo_available = 0;
}

-- inspectFifo, on the size of the FIFO. It answers by frame_ready.
abbrev pub note_fifo : ℕ → Window → Window
note_fifo available w = record w {
  fifo_available = available;
  receive_window = w.receive_window || ltb (length Codes.sensf_request) available;
  frame_ready = w.frame_ready || leb Codes.nfc_f_response_minimum_size available;
}

-- The window after a wait that observed these interrupts.
abbrev pub note_interrupts : ℕ → Window → Window
note_interrupts observed w = record w {
  flags = bit_or w.flags observed;
  transmit_complete = w.transmit_complete || has_any observed Codes.interrupt_tx_end;
  receive_window = w.receive_window || has_any observed receive_activity;
}

-- receiveActivity, where `flags` holds all flags that were seen.
abbrev pub is_receiving : ℕ → Window → Bool
is_receiving flags w =
    w.receive_window
    || ltb (length Codes.sensf_request) w.fifo_available
    || has_any flags receive_activity

-- A SENSF_RES that can be read: its length byte, its command byte and the bytes that came.
abbrev pub is_response : Bytes → Bool
is_response frame =
    leb Codes.nfc_f_response_minimum_size (length frame)
    && leb Codes.nfc_f_response_minimum_size (get_or frame 0 0)
    && leb (get_or frame 0 0) Codes.nfc_f_response_maximum_size
    && leb (get_or frame 0 0) (length frame)
    && get_or frame 1 0 == 0x01

abbrev pub tag_of : Bytes → NfcFTag
tag_of frame = record {
  idm = take 8 (drop 2 frame);
  pmm = take 8 (drop 10 frame);
  type_name = "NFC-F / FeliCa (NFC Forum Type 3)";
}

-- Whether a frame is worth a wait: something was received, and without fault.
abbrev may_settle : ℕ → Window → Bool
may_settle flags w =
    not w.frame_ready
    && (w.receive_window
        || has_any flags (bit_or Codes.interrupt_rx_start Codes.interrupt_rx_end)
        || ltb (length Codes.sensf_request) w.fifo_available)
    && not (has_any flags receive_faults)

module _ {T : Transport} where
  -- The FIFO is inspected once the request has left it, by an interrupt or by the clock.
  unfoldable pub inspect_if : Bool → Window → Action T Window
  inspect_if false w = pure w
  inspect_if true w = fifo_size >>= λ available. pure (note_fifo available w)

  -- `transmitComplete || now >= txDrainDeadline`
  unfoldable pub has_drained : ℕ → Window → Action T Bool
  has_drained drained w =
      if w.transmit_complete then pure true else (clock >>= λ now. pure (leb drained now))

  -- The loop of the exchange, on fuel; without fuel it ends as at the deadline.
  unfoldable pub exchange_loop : ℕ → ℕ → ℕ → Window → Action T Window
  exchange_loop zero drained deadline w = pure w
  exchange_loop (suc fuel) drained deadline w = do
    now ← clock
    seen ← inspect_if (w.transmit_complete || leb drained now) w
    if (w.transmit_complete || leb drained now)
          && leb Codes.nfc_f_response_minimum_size seen.fifo_available
        then pure seen
        else if leb deadline now
        then pure seen
        else do
          observed ← wait_for_interrupt exchange_interrupts (maximum (remaining_ms now deadline) 1)
          let noted = note_interrupts observed seen
          if has_any observed receive_faults then pure noted else do
            ready ← has_drained drained noted
            last ← inspect_if ready noted
            if last.frame_ready || has_any last.flags Codes.interrupt_rx_end
                then pure last
                else exchange_loop fuel drained deadline last

  -- The loop of the settling window, on fuel; without fuel it ends as at the deadline.
  unfoldable pub settle_loop : ℕ → ℕ → Window → Action T Window
  settle_loop zero deadline w = pure w
  settle_loop (suc fuel) deadline w = if w.frame_ready then pure w else do
    now ← clock
    if leb deadline now then pure w else do
      sleep_for 1
      settled ← fifo_size
      let available = maximum w.fifo_available settled
      settle_loop fuel deadline (record w {
        fifo_available = available;
        frame_ready = leb Codes.nfc_f_response_minimum_size available;
      })

  unfoldable pub settle_if : Bool → Window → Action T Window
  settle_if false w = pure w
  settle_if true w = do
    now ← clock
    settle_loop (suc (suc (Codes.nfc_f_fifo_settle_window * ns_per_ms)))
        (deadline_in now Codes.nfc_f_fifo_settle_window) w

  abbrev pub incomplete : Action T NfcFPollResult
  incomplete = do
    modify (λ d. record d { field_reset_required = true })
    pure (record { kind = PollKind.inconclusive; tag = none })

  abbrev pub no_response : Action T NfcFPollResult
  no_response = do
    modify (λ d. record d { consecutive_nfcf_no_tags = inc64 d.consecutive_nfcf_no_tags })
    pure (record { kind = PollKind.no_tag; tag = none })

  -- The frame in the FIFO, read and judged.
  unfoldable pub read_response : Action T NfcFPollResult
  read_response = do
    await_fifo 3 Codes.nfc_f_response_minimum_size
    frame ← read_fifo Codes.maximum_fifo_size
    if not (is_response frame) then incomplete else do
      modify (λ d. record d { failed_wakeups = 0; consecutive_nfcf_no_tags = 0 })
      pure (record { kind = PollKind.tag; tag = some (tag_of frame) })

  -- What the exchange comes to, with all flags and with the clock still to be asked.
  unfoldable pub conclude : ℕ → ℕ → Window → Action T NfcFPollResult
  conclude deadline flags w =
      if has_any flags receive_faults
      then incomplete
      else if w.frame_ready
      then read_response
      else if is_receiving flags w
      then incomplete
      else if w.transmit_complete || has_any flags Codes.interrupt_no_response
      then no_response
      else do now ← clock; if leb deadline now then no_response else incomplete

  unfoldable pub switch_to_nfc_f : Action T (Unit {0})
  switch_to_nfc_f = do
    protocol ← gets (λ d. d.active_protocol)
    if not (is_nfc_a protocol) then pure tt else do
      configure_nfc_f
      modify (λ d. record d {
        active_protocol = nfc_f;
        field_reset_required = false;
        failed_wakeups = 0;
        consecutive_nfcf_no_tags = 0;
      })

  -- SENSF_REQ on its way.
  unfoldable pub send_request : Action T (Unit {0})
  send_request = do
    ensure_nfc_f_field
    prepare_transceive
    set_no_response_timeout Codes.nfc_f_poll_timeout
    modify_register Registers.reg_auxiliary_definition 0 Codes.aux_no_crc_receive
    clear_interrupts
    command Codes.command_clear_fifo
    write_fifo Codes.sensf_request
    set_transmit_length (length Codes.sensf_request) 0
    command Codes.command_transmit_with_crc

  -- The exchange behind the request.
  unfoldable pub receive_response : Action T NfcFPollResult
  receive_response = do
    start ← clock
    let deadline = deadline_in start (Codes.nfc_f_poll_timeout + 2)
    w ←
        exchange_loop (suc (suc ((Codes.nfc_f_poll_timeout + 2) * ns_per_ms)))
          (deadline_in start Codes.nfc_f_transmit_drain_guard) deadline empty_window
    stored ← gets (λ d. d.stored_interrupts)
    let flags = bit_or w.flags stored
    available ← fifo_size
    let sampled = record w { fifo_available = maximum w.fifo_available available }
    last ← settle_if (may_settle flags sampled) sampled
    conclude deadline flags last

  unfoldable pub poll_nfc_f : Action T NfcFPollResult
  poll_nfc_f = do
    require_discovery "ST25R3916 NFC-F discovery is not active"
    throw_if_cancelled
    switch_to_nfc_f
    reset_field_if_required reset_nfc_f_field
    send_request
    receive_response
