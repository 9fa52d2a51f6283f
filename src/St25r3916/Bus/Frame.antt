-- ===== src/St25r3916/Bus/Frame.antt =====
-- Registers, commands and the FIFO leave the driver's own state alone.
use cap_cc1101_nfc.Base.{ℕ, Bytes, [], ◌∷◌}
use cap_cc1101_nfc.St25r3916.{Driver}
use cap_cc1101_nfc.St25r3916.Action.{Transport}
use cap_cc1101_nfc.St25r3916.Action.Rules.{
  Keeps, Keeps-bind, Keeps-pure, Keeps-throw, Keeps-call, Keeps-if, Keeps-if_not, Keeps-value,
  Keeps-gets, Keeps-sense, Keeps-swallow, throw_if_cancelled-Keeps, sleep_for-Keeps,
}
use cap_cc1101_nfc.St25r3916.Bus.{
  exchange, read_registers, read_register, read_register16, write_registers, write_register,
  write_register16, write_register32, read_register_b, write_register_b, direct_command,
  modify_register, fifo_size, read_fifo, write_fifo, set_transmit_length,
}

-- The rules for a predicate on the driver's state.
pub ruleset keeps = (
  Keeps-bind, Keeps-pure, Keeps-throw, Keeps-call, Keeps-if, Keeps-if_not, Keeps-value, Keeps-gets,
  Keeps-sense, Keeps-swallow, throw_if_cancelled-Keeps, sleep_for-Keeps,
)

module _ {T : Transport} (P : Driver → Type 0) where
  pub exchange-Keeps : (values : Bytes) → Keeps {T = T} P (exchange values)
  unfolding exchange
  exchange-Keeps [] = search keeps
  exchange-Keeps (b ∷ bytes) = search keeps

  pub read_registers-Keeps : (reg size : ℕ) → Keeps {T = T} P (read_registers reg size)
  unfolding read_registers
  read_registers-Keeps reg size = search (keeps, exchange-Keeps)

  pub read_register-Keeps : (reg : ℕ) → Keeps {T = T} P (read_register reg)
  unfolding read_register
  read_register-Keeps reg = search (keeps, read_registers-Keeps)

  pub read_register16-Keeps : (reg : ℕ) → Keeps {T = T} P (read_register16 reg)
  unfolding read_register16
  read_register16-Keeps reg = search (keeps, read_registers-Keeps)

  pub write_registers-Keeps :
      (reg : ℕ) (values : Bytes) → Keeps {T = T} P (write_registers reg values)
  unfolding write_registers
  write_registers-Keeps reg values = search (keeps, exchange-Keeps)

  pub write_register-Keeps : (reg value : ℕ) → Keeps {T = T} P (write_register reg value)
  unfolding write_register
  write_register-Keeps reg value = search write_registers-Keeps

  pub write_register16-Keeps : (reg value : ℕ) → Keeps {T = T} P (write_register16 reg value)
  unfolding write_register16
  write_register16-Keeps reg value = search write_registers-Keeps

  pub write_register32-Keeps : (reg value : ℕ) → Keeps {T = T} P (write_register32 reg value)
  unfolding write_register32
  write_register32-Keeps reg value = search write_registers-Keeps

  pub read_register_b-Keeps : (reg : ℕ) → Keeps {T = T} P (read_register_b reg)
  unfolding read_register_b
  read_register_b-Keeps reg = search (keeps, exchange-Keeps)

  pub write_register_b-Keeps : (reg value : ℕ) → Keeps {T = T} P (write_register_b reg value)
  unfolding write_register_b
  write_register_b-Keeps reg value = search (keeps, exchange-Keeps)

  pub direct_command-Keeps :
      (code : ℕ) (payload : Bytes) → Keeps {T = T} P (direct_command code payload)
  unfolding direct_command
  direct_command-Keeps code payload = search (keeps, exchange-Keeps)

  pub modify_register-Keeps :
      (reg set_mask clear_mask : ℕ) → Keeps {T = T} P (modify_register reg set_mask clear_mask)
  unfolding modify_register
  modify_register-Keeps reg set_mask clear_mask =
      search (keeps, read_register-Keeps, write_register-Keeps)

  pub fifo_size-Keeps : Keeps {T = T} P fifo_size
  unfolding fifo_size
  fifo_size-Keeps = search (keeps, read_register16-Keeps)

  pub read_fifo-Keeps : (capacity : ℕ) → Keeps {T = T} P (read_fifo capacity)
  unfolding read_fifo
  read_fifo-Keeps capacity = search (keeps, fifo_size-Keeps, exchange-Keeps)

  pub write_fifo-Keeps : (values : Bytes) → Keeps {T = T} P (write_fifo values)
  unfolding write_fifo
  write_fifo-Keeps values = search (keeps, exchange-Keeps)

  pub set_transmit_length-Keeps :
      (bytes trailing_bits : ℕ) → Keeps {T = T} P (set_transmit_length bytes trailing_bits)
  unfolding set_transmit_length
  set_transmit_length-Keeps bytes trailing_bits = search (keeps, write_register16-Keeps)

pub ruleset bus_keeps = (
  keeps, read_registers-Keeps, read_register-Keeps, read_register16-Keeps, write_registers-Keeps,
  write_register-Keeps, write_register16-Keeps, write_register32-Keeps, read_register_b-Keeps,
  write_register_b-Keeps, direct_command-Keeps, modify_register-Keeps, fifo_size-Keeps,
  read_fifo-Keeps, write_fifo-Keeps, set_transmit_length-Keeps,
)
