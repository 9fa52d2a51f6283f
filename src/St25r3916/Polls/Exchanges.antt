-- ===== src/St25r3916/Polls/Exchanges.antt =====
-- The exchanges with an NFC-A tag change neither readiness nor discovery.
use cap_cc1101_nfc.Base.{ℕ, zero, suc, ◌≡◌, Bool, Bytes, Option}
use cap_cc1101_nfc.St25r3916.{Driver, NfcATag}
use cap_cc1101_nfc.St25r3916.Action.{Transport, Action}
use cap_cc1101_nfc.St25r3916.Action.Rules.{Keeps, Keeps-modify}
use cap_cc1101_nfc.St25r3916.Field.Frame.{field_keeps}
use cap_cc1101_nfc.St25r3916.Exchange.{
  await_fifo, send_with_crc, transceive, log_wakeup_diagnostics, request_wakeup, select_level,
  halt_selected_tag, read_type2_block,
}
use cap_cc1101_nfc.St25r3916.Anticollision.{Round, anticollision_loop, anticollision_level}
use cap_cc1101_nfc.St25r3916.Type2.{
  fill, ensure_bytes, take_value, take_length, find_message, read_message, read_ndef,
  read_type2_ndef,
}

-- A driver with these two flags.
abbrev pub IsFixed : Bool → Bool → Driver → Type 0
IsFixed ready discovering d = (d.ready ≡ ready) × (d.discovery_enabled ≡ discovering)

module _ {T : Transport} {ready discovering : Bool} where
  pub await_fifo-Keeps :
      (attempts size : ℕ) → Keeps {T = T} (IsFixed ready discovering) (await_fifo attempts size)
  unfolding await_fifo
  await_fifo-Keeps zero size = search field_keeps
  await_fifo-Keeps (suc attempts) size =
      let kept = await_fifo-Keeps attempts size in search field_keeps

  send_with_crc-Keeps :
      (frame : Bytes) → Keeps {T = T} (IsFixed ready discovering) (send_with_crc frame)
  send_with_crc-Keeps frame = search field_keeps depth 10

  transceive-Keeps :
      (transmit : Bytes) (capacity timeout minimum_receive : ℕ)
      → Keeps {T = T}
          (IsFixed ready discovering)
          (transceive transmit capacity timeout minimum_receive)
  unfolding transceive
  transceive-Keeps transmit capacity timeout minimum_receive =
      search (field_keeps, await_fifo-Keeps, send_with_crc-Keeps) depth 20

  log_wakeup_diagnostics-Keeps : Keeps {T = T} (IsFixed ready discovering) log_wakeup_diagnostics
  unfolding log_wakeup_diagnostics
  log_wakeup_diagnostics-Keeps = search (field_keeps, Keeps-modify) depth 20

  pub request_wakeup-Keeps : Keeps {T = T} (IsFixed ready discovering) request_wakeup
  unfolding request_wakeup
  request_wakeup-Keeps =
      search (field_keeps, log_wakeup_diagnostics-Keeps, await_fifo-Keeps) depth 20

  pub select_level-Keeps :
      (level : ℕ) (anticollision : Bytes)
      → Keeps {T = T} (IsFixed ready discovering) (select_level level anticollision)
  unfolding select_level
  select_level-Keeps level anticollision = search (field_keeps, transceive-Keeps)

  pub halt_selected_tag-Keeps : Keeps {T = T} (IsFixed ready discovering) halt_selected_tag
  unfolding halt_selected_tag
  halt_selected_tag-Keeps = search (field_keeps, send_with_crc-Keeps) depth 10

  read_type2_block-Keeps :
      (page : ℕ) → Keeps {T = T} (IsFixed ready discovering) (read_type2_block page)
  unfolding read_type2_block
  read_type2_block-Keeps page = search (field_keeps, transceive-Keeps)

  anticollision_loop-Keeps :
      (attempts : ℕ) (r : Round)
      → Keeps {T = T} (IsFixed ready discovering) (anticollision_loop attempts r)
  unfolding anticollision_loop
  anticollision_loop-Keeps zero r = search field_keeps
  anticollision_loop-Keeps (suc attempts) r =
      let kept = λ (r : Round). anticollision_loop-Keeps attempts r in search field_keeps depth 30

  pub anticollision_level-Keeps :
      (level : ℕ) → Keeps {T = T} (IsFixed ready discovering) (anticollision_level level)
  unfolding anticollision_level
  anticollision_level-Keeps level = search (field_keeps, anticollision_loop-Keeps) depth 10

module _ {T : Transport} {ready discovering : Bool} (read_block : ℕ → Action T (Option Bytes))
    (capacity : ℕ) (unfound : Bytes)
    (kept_block : (page : ℕ) → Keeps (IsFixed ready discovering) (read_block page)) where
  fill-Keeps :
      (fuel required : ℕ) (memory : Bytes)
      → Keeps {T = T}
          (IsFixed ready discovering)
          (fill read_block capacity unfound fuel required memory)
  unfolding fill
  fill-Keeps zero required memory = search field_keeps
  fill-Keeps (suc fuel) required memory =
      let kept = λ (memory : Bytes). fill-Keeps fuel required memory in search field_keeps depth 10

  ensure_bytes-Keeps :
      (required : ℕ) (memory : Bytes)
      → Keeps {T = T}
          (IsFixed ready discovering)
          (ensure_bytes read_block capacity unfound required memory)
  unfolding ensure_bytes
  ensure_bytes-Keeps required memory = search (field_keeps, fill-Keeps)

  find_message-Keeps :
      (fuel offset : ℕ) (memory : Bytes)
      → Keeps {T = T}
          (IsFixed ready discovering)
          (find_message read_block capacity unfound fuel offset memory)
  unfolding find_message take_length take_value
  find_message-Keeps zero offset memory = search field_keeps
  find_message-Keeps (suc fuel) offset memory =
      let kept = λ (offset : ℕ) (memory : Bytes). find_message-Keeps fuel offset memory in
      search (field_keeps, ensure_bytes-Keeps) depth 20

  read_message-Keeps :
      Keeps {T = T} (IsFixed ready discovering) (read_message read_block capacity unfound)
  unfolding read_message
  read_message-Keeps = search (field_keeps, ensure_bytes-Keeps, find_message-Keeps)

module _ {T : Transport} {ready discovering : Bool} where
  pub read_type2_ndef-Keeps :
      (tag : NfcATag) → Keeps {T = T} (IsFixed ready discovering) (read_type2_ndef tag)
  unfolding read_type2_ndef read_ndef
  read_type2_ndef-Keeps tag =
      search (field_keeps, read_type2_block-Keeps, read_message-Keeps) depth 10
