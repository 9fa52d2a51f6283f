-- ===== src/St25r3916/Anticollision.antt =====
-- anticollisionLevel of src/nfc/st25r3916_driver.cpp.
pub mod Bounds
use cap_cc1101_nfc.Base.{
  ℕ, zero, suc, ◌+◌, ◌-◌, ◌*◌, ◌/◌, ◌%◌, ◌^◌, ◌≡◌, Bool, true, false, not, ◌&&◌, ◌||◌, ltb, leb,
  ◌==◌, ◌!=◌, if◌then◌else◌, bit_and, bit_or, Bytes, List, [], ◌∷◌, ◌++◌, length, get_or, set_at,
  take, drop, Option, none, some,
}
use cap_cc1101_nfc.St25r3916.Action.{on_value, Transport, Action, ◌>>=◌, ◌>>◌, pure}
use cap_cc1101_nfc.St25r3916.Registers
use cap_cc1101_nfc.St25r3916.Codes
use cap_cc1101_nfc.St25r3916.Bus.{
  read_register, write_register, command, modify_register, read_fifo, write_fifo,
  set_transmit_length,
}
use cap_cc1101_nfc.St25r3916.Interrupts.{clear_interrupts, wait_for_interrupt}
use cap_cc1101_nfc.St25r3916.Field.{prepare_transceive, set_no_response_timeout}
use cap_cc1101_nfc.St25r3916.Exchange.{select_command}

-- What a round of the loop starts from: the arrays of seven and of five bytes, and how much of the
-- first is sent.
pub record Round : Type 0 where
  pub frame : Bytes
  pub response : Bytes
  pub sent_bytes : ℕ
  pub sent_bits : ℕ
  pub response_offset : ℕ

abbrev pub first_round : ℕ → Round
first_round level = record {
  frame = select_command level ∷ 0x20 ∷ 0 ∷ 0 ∷ 0 ∷ 0 ∷ 0 ∷ [];
  response = 0 ∷ 0 ∷ 0 ∷ 0 ∷ 0 ∷ [];
  sent_bytes = 2;
  sent_bits = 0;
  response_offset = 0;
}

-- `std::copy_n` into an array, from an index on. As with `set_at`, an index past the end changes
-- nothing here, where the code would write outside the array.
abbrev pub place : Bytes → ℕ → Bytes → Bytes
place array offset [] = array
place array offset (b ∷ bytes) = place (set_at array offset b) (suc offset) bytes

-- The round after a collision in byte `collision_bytes` behind its bit `collision_bits`, where
-- `actual` bytes were received; `none` for `return false`.
unfoldable pub collide : ℕ → ℕ → ℕ → Round → Option Round
collide collision_bytes collision_bits actual r =
    if ltb 5 (r.response_offset + actual) || ltb collision_bytes 2 || ltb 6 collision_bytes
    then none
    else if leb 7 sent_bytes
    then none
    else some (record {
      frame = set_at copied sent_bytes collision_byte;
      response =
          if sent_bits != 0
          then set_at r.response offset
              (bit_or (get_or r.response offset 0 / 2 ^ sent_bits * 2 ^ sent_bits) collision_byte)
          else r.response;
      sent_bytes = sent_bytes;
      sent_bits = sent_bits;
      response_offset = offset;
    })
  where
    collision_byte : ℕ
    collision_byte =
        bit_or (get_or r.response (r.response_offset + actual - 1) 0) (2 ^ collision_bits)

    sent_bytes : ℕ
    sent_bytes = collision_bytes + (if collision_bits == 7 then 1 else 0)

    sent_bits : ℕ
    sent_bits = (collision_bits + 1) % 8

    offset : ℕ
    offset = actual - 1

    copied : Bytes
    copied =
        place (set_at r.frame 1 (bit_or (sent_bytes * 16) sent_bits % 256)) (2 + r.response_offset)
          (take actual (drop r.response_offset r.response))

module _ {T : Transport} where
  -- The loop, with the attempts that are left.
  unfoldable pub anticollision_loop : ℕ → Round → Action T (Option Bytes)
  anticollision_loop zero r = pure none
  anticollision_loop (suc attempts) r = do
    prepare_transceive
    clear_interrupts
    command Codes.command_clear_fifo
    write_fifo (take (r.sent_bytes + (if r.sent_bits != 0 then 1 else 0)) r.frame)
    set_transmit_length r.sent_bytes r.sent_bits
    command Codes.command_transmit_without_crc
    flags ←
        wait_for_interrupt
          (bit_or (bit_or Codes.interrupt_rx_end Codes.interrupt_collision)
            (bit_or Codes.interrupt_no_response Codes.interrupt_rx_errors))
          10
    let collision = bit_and flags Codes.interrupt_collision != 0
    if not collision && bit_and flags Codes.interrupt_rx_end == 0
        then pure none
        else if leb 5 r.response_offset
        then pure none
        else do
          received ← read_fifo (5 - r.response_offset)
          let response = place r.response r.response_offset received
          if length received == 0
              then pure none
              else if not collision
              then pure (some response)
              else do
                display ← read_register Registers.reg_collision_display
                on_value
                    (collide (display / 16 % 16) (display / 2 % 8) (length received)
                      (record r { response = response }))
                    (pure none) (anticollision_loop attempts)

  -- The five bytes of the answer, `none` for `false`.
  unfoldable pub anticollision_level : ℕ → Action T (Option Bytes)
  anticollision_level level = if ltb level 1 || ltb 3 level then pure none else do
    set_no_response_timeout 8
    write_register Registers.reg_iso14443a_settings 0x01
    modify_register Registers.reg_auxiliary_definition 0 Codes.aux_no_crc_receive
    anticollision_loop 32 (first_round level)
