-- ===== src/St25r3916/Bus.antt =====
-- Registers, commands and the FIFO of src/nfc/st25r3916_driver.cpp over SPI.
pub mod Frame
use cap_cc1101_nfc.Base.{
  ℕ, zero, suc, ◌+◌, ◌-◌, ◌*◌, ◌/◌, ◌%◌, ◌≡◌, String, Bool, true, false, not, ◌&&◌, ◌||◌, List, [],
  ◌∷◌, ◌++◌, Bytes, length, get_or, take, drop, replicate, tabulate, ltb, leb, ◌==◌, ◌!=◌,
  if◌then◌else◌, bit_and, bit_or,
}
use cap_cc1101_nfc.St25r3916.Action.{Transport, Action, ◌>>=◌, ◌>>◌, pure, throw, call}
use cap_cc1101_nfc.St25r3916.Registers.{reg_fifo_status1, reg_transmit_bytes1}
use cap_cc1101_nfc.St25r3916.Codes.{
  read_register_operation, load_fifo_operation, read_fifo_operation, maximum_fifo_size,
  command_space_b_access,
}

-- One of two actions, and an action under a guard.
abbrev pub minimum : ℕ → ℕ → ℕ
minimum a b = if ltb b a then b else a

abbrev pub maximum : ℕ → ℕ → ℕ
maximum a b = if ltb a b then b else a

module _ {T : Transport} where
  -- `receive` has the size of `transmit`, and the transfer fills it.
  unfoldable pub exchange : Bytes → Action T Bytes
  exchange [] = throw "ST25R3916 SPI transaction is empty"
  exchange (b ∷ bytes) = call (T.transfer (b ∷ bytes)) >>= λ answer.
      pure (tabulate (λ i. answer i % 256) 0 (length (b ∷ bytes)))

  unfoldable pub read_registers : ℕ → ℕ → Action T Bytes
  read_registers reg size =
      if size == 0 || ltb 255 size
      then throw "invalid ST25R3916 register read size"
      else (exchange (bit_or read_register_operation (bit_and reg 0x3F) ∷ replicate size 0)
          >>= λ receive. pure (drop 1 receive))

  unfoldable pub read_register : ℕ → Action T ℕ
  read_register reg = read_registers reg 1 >>= λ values. pure (get_or values 0 0)

  unfoldable pub read_register16 : ℕ → Action T ℕ
  read_register16 reg =
      read_registers reg 2 >>= λ bytes. pure (get_or bytes 0 0 * 256 + get_or bytes 1 0)

  unfoldable pub write_registers : ℕ → Bytes → Action T (Unit {0})
  write_registers reg values =
      if length values == 0 || ltb 255 (length values)
      then throw "invalid ST25R3916 register write size"
      else (exchange (bit_and reg 0x3F ∷ values) >>= λ receive. pure tt)

  unfoldable pub write_register : ℕ → ℕ → Action T (Unit {0})
  write_register reg value = write_registers reg (value ∷ [])

  unfoldable pub write_register16 : ℕ → ℕ → Action T (Unit {0})
  write_register16 reg value = write_registers reg (value / 256 % 256 ∷ value % 256 ∷ [])

  unfoldable pub write_register32 : ℕ → ℕ → Action T (Unit {0})
  write_register32 reg value =
      write_registers reg
        (value / 0x100_0000 % 256 ∷ value / 0x1_0000 % 256 ∷ value / 256 % 256 ∷ value % 256 ∷ [])

  unfoldable pub read_register_b : ℕ → Action T ℕ
  read_register_b reg =
      exchange (command_space_b_access ∷ bit_or read_register_operation (bit_and reg 0x3F) ∷ 0 ∷ [])
      >>= λ receive. pure (get_or receive 2 0)

  unfoldable pub write_register_b : ℕ → ℕ → Action T (Unit {0})
  write_register_b reg value =
      exchange (command_space_b_access ∷ bit_and reg 0x3F ∷ value ∷ []) >>= λ receive. pure tt

  -- Both overloads; the one without a payload sends the command alone.
  unfoldable pub direct_command : ℕ → Bytes → Action T (Unit {0})
  direct_command command payload =
      if ltb 255 (length payload)
      then throw "invalid ST25R3916 direct command payload"
      else (exchange (command ∷ payload) >>= λ receive. pure tt)

  abbrev pub command : ℕ → Action T (Unit {0})
  command code = direct_command code []

  -- `(current & ~clearMask) | setMask` on bytes.
  unfoldable pub modify_register : ℕ → ℕ → ℕ → Action T (Unit {0})
  modify_register reg set_mask clear_mask = read_register reg >>= λ current.
      (let updated = bit_or (bit_and current (0xFF - clear_mask)) set_mask in
        if updated != current then write_register reg updated else pure tt)

  -- Bits 6 and 7 of the second byte are bits 8 and 9 of the size.
  unfoldable pub fifo_size : Action T ℕ
  fifo_size = read_register16 reg_fifo_status1 >>= λ status.
      pure (bit_or (status / 256) (bit_and status 0x00C0 * 4))

  -- The bytes that were read; none is the C++ `false`, which leaves the buffer as it was.
  unfoldable pub read_fifo : ℕ → Action T Bytes
  read_fifo capacity =
      if capacity == 0
      then pure []
      else (fifo_size >>= λ available.
          if available == 0
          then pure []
          else (exchange (read_fifo_operation ∷ replicate (minimum available capacity) 0)
              >>= λ receive. pure (drop 1 receive)))

  unfoldable pub write_fifo : Bytes → Action T (Unit {0})
  write_fifo values =
      if length values == 0 || ltb maximum_fifo_size (length values)
      then throw "invalid ST25R3916 FIFO write size"
      else (exchange (load_fifo_operation ∷ values) >>= λ receive. pure tt)

  unfoldable pub set_transmit_length : ℕ → ℕ → Action T (Unit {0})
  set_transmit_length bytes trailing_bits =
      if ltb 0x1FF bytes || ltb 7 trailing_bits
      then throw "invalid ST25R3916 transmit length"
      else write_register16 reg_transmit_bytes1 (bit_or (bytes * 8) trailing_bits)
