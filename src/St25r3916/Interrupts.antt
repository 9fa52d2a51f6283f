-- ===== src/St25r3916/Interrupts.antt =====
-- clearInterrupts, readInterrupts and waitForInterrupt of src/nfc/st25r3916_driver.cpp.
pub mod Frame
pub mod Fuel
use cap_cc1101_nfc.Base.{
  ℕ, zero, suc, ◌+◌, ◌-◌, ◌*◌, ◌/◌, ◌%◌, ◌≡◌, Bool, true, false, not, ◌&&◌, ltb, leb, ◌==◌, ◌!=◌,
  if◌then◌else◌, bit_and, bit_or, Bytes, [], ◌∷◌,
}
use cap_cc1101_nfc.St25r3916.{Driver}
use cap_cc1101_nfc.St25r3916.Action.{
  Transport, Action, ◌>>=◌, ◌>>◌, pure, gets, modify, call, sense, throw_if_cancelled,
}
use cap_cc1101_nfc.St25r3916.Registers.{
  reg_error_and_wakeup_interrupt, reg_main_interrupt, reg_passive_target_interrupt,
}
use cap_cc1101_nfc.St25r3916.Bus.{minimum, maximum, read_register, read_register16}

-- A deadline so many milliseconds ahead, and the milliseconds that are left to one.
abbrev pub ns_per_ms : ℕ
ns_per_ms = 1000000

abbrev pub deadline_in : ℕ → ℕ → ℕ
deadline_in now ms = now + ms * ns_per_ms

abbrev pub remaining_ms : ℕ → ℕ → ℕ
remaining_ms now deadline = (deadline - now) / ns_per_ms

module _ {T : Transport} where
  unfoldable pub interrupt_asserted : Action T Bool
  interrupt_asserted = call T.interrupt_asserted

  unfoldable pub clock : Action T ℕ
  clock = sense T.clock

  unfoldable pub read_interrupts : Action T ℕ
  read_interrupts = do
    error ← read_register reg_error_and_wakeup_interrupt
    main_and_timer ← read_register16 reg_main_interrupt
    passive ← read_register reg_passive_target_interrupt
    pure (bit_or (bit_or (main_and_timer * 0x1_0000) (error * 256)) passive)

  abbrev pub store_interrupts : ℕ → Action T (Unit {0})
  store_interrupts flags =
      modify (λ d. record d { stored_interrupts = bit_or d.stored_interrupts flags })

  -- The passes of the loop in clearInterrupts.
  unfoldable pub clear_passes : ℕ → Action T (Unit {0})
  clear_passes zero = pure tt
  clear_passes (suc passes) = do
    cleared ← read_interrupts
    asserted ← interrupt_asserted
    if not asserted then pure tt else clear_passes passes

  unfoldable pub clear_interrupts : Action T (Unit {0})
  clear_interrupts = do modify (λ d. record d { stored_interrupts = 0 }); clear_passes 4

  -- The passes that waitForInterrupt makes over an asserted line.
  unfoldable pub collect_passes : ℕ → Action T (Unit {0})
  collect_passes zero = pure tt
  collect_passes (suc passes) = do
    flags ← read_interrupts
    store_interrupts flags
    asserted ← interrupt_asserted
    if not asserted then pure tt else collect_passes passes

  unfoldable pub collect_if : Bool → Action T (Unit {0})
  collect_if true = collect_passes 4
  collect_if false = pure tt

  -- What is stored of the flags that are waited for, which is taken out of the store.
  unfoldable pub take_matched : ℕ → Action T ℕ
  take_matched flags = do
    stored ← gets (λ d. d.stored_interrupts)
    let matched = bit_and stored flags
    if matched == 0 then pure 0 else do
      modify (λ d. record d { stored_interrupts = bit_and stored (0xFFFF_FFFF - matched) })
      pure matched

  -- The loop of waitForInterrupt, on fuel; without fuel it ends as at the deadline.
  unfoldable pub wait_loop : ℕ → ℕ → ℕ → Action T ℕ
  wait_loop zero flags deadline = pure 0
  wait_loop (suc fuel) flags deadline = do
    throw_if_cancelled
    asserted ← interrupt_asserted
    collect_if asserted
    matched ← take_matched flags
    if matched != 0 then pure matched else do
      now ← clock
      if leb deadline now then pure 0 else do
        edge ← call (T.wait_for_interrupt (maximum (minimum (remaining_ms now deadline) 2) 1))
        observed ← read_interrupts
        store_interrupts observed
        wait_loop fuel flags deadline

  -- A round that does not end takes time, so there are at most as many as nanoseconds to the
  -- deadline.
  unfoldable pub wait_for_interrupt : ℕ → ℕ → Action T ℕ
  wait_for_interrupt flags timeout = do
    now ← clock
    wait_loop (suc (suc (timeout * ns_per_ms))) flags (deadline_in now timeout)
