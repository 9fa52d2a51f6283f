-- ===== src/St25r3916/Interrupts/Frame.antt =====
-- Of the driver's own state, the interrupts change what is stored of them and nothing else.
use cap_cc1101_nfc.Base.{ℕ, zero, suc, Bool, true, false}
use cap_cc1101_nfc.St25r3916.{Driver}
use cap_cc1101_nfc.St25r3916.Action.{Transport}
use cap_cc1101_nfc.St25r3916.Action.Rules.{Keeps, Keeps-modify}
use cap_cc1101_nfc.St25r3916.Bus.Frame.{bus_keeps}
use cap_cc1101_nfc.St25r3916.Interrupts.{
  clock, interrupt_asserted, read_interrupts, store_interrupts, clear_passes, clear_interrupts,
  collect_passes, collect_if, take_matched, wait_loop, wait_for_interrupt,
}

-- A predicate that does not look at the stored interrupts.
abbrev pub IgnoresStore : (Driver → Type 0) → Type 0
IgnoresStore P = (d : Driver) (flags : ℕ) → P d → P (record d { stored_interrupts = flags })

module _ {T : Transport} (P : Driver → Type 0) where
  pub interrupt_asserted-Keeps : Keeps {T = T} P interrupt_asserted
  unfolding interrupt_asserted
  interrupt_asserted-Keeps = search bus_keeps

  pub clock-Keeps : Keeps {T = T} P clock
  unfolding clock
  clock-Keeps = search bus_keeps

  pub read_interrupts-Keeps : Keeps {T = T} P read_interrupts
  unfolding read_interrupts
  read_interrupts-Keeps = search bus_keeps

  clear_passes-Keeps : (passes : ℕ) → Keeps {T = T} P (clear_passes passes)
  unfolding clear_passes
  clear_passes-Keeps zero = search bus_keeps
  clear_passes-Keeps (suc passes) =
      let kept = clear_passes-Keeps passes in
      search (bus_keeps, interrupt_asserted-Keeps, read_interrupts-Keeps)

module _ {T : Transport} (P : Driver → Type 0) (ignores : IgnoresStore P) where
  store_interrupts-Keeps : (flags : ℕ) → Keeps {T = T} P (store_interrupts flags)
  store_interrupts-Keeps flags = search (Keeps-modify, ignores)

  pub clear_interrupts-Keeps : Keeps {T = T} P clear_interrupts
  unfolding clear_interrupts
  clear_interrupts-Keeps = search (bus_keeps, Keeps-modify, ignores, clear_passes-Keeps)

  collect_passes-Keeps : (passes : ℕ) → Keeps {T = T} P (collect_passes passes)
  unfolding collect_passes
  collect_passes-Keeps zero = search bus_keeps
  collect_passes-Keeps (suc passes) =
      let kept = collect_passes-Keeps passes in
      search (bus_keeps, interrupt_asserted-Keeps, read_interrupts-Keeps, store_interrupts-Keeps)

  collect_if-Keeps : (b : Bool) → Keeps {T = T} P (collect_if b)
  unfolding collect_if
  collect_if-Keeps true = search collect_passes-Keeps
  collect_if-Keeps false = search bus_keeps

  take_matched-Keeps : (flags : ℕ) → Keeps {T = T} P (take_matched flags)
  unfolding take_matched
  take_matched-Keeps flags = search (bus_keeps, Keeps-modify, ignores)

  wait_loop-Keeps : (fuel flags deadline : ℕ) → Keeps {T = T} P (wait_loop fuel flags deadline)
  unfolding wait_loop
  wait_loop-Keeps zero flags deadline = search bus_keeps
  wait_loop-Keeps (suc fuel) flags deadline =
      let kept = wait_loop-Keeps fuel flags deadline in
      search
        (
          bus_keeps, interrupt_asserted-Keeps, clock-Keeps, read_interrupts-Keeps,
          store_interrupts-Keeps, collect_if-Keeps, take_matched-Keeps,
        )
        depth 20

  pub wait_for_interrupt-Keeps :
      (flags timeout : ℕ) → Keeps {T = T} P (wait_for_interrupt flags timeout)
  unfolding wait_for_interrupt
  wait_for_interrupt-Keeps flags timeout = search (bus_keeps, clock-Keeps, wait_loop-Keeps)

pub ruleset interrupt_keeps = (
  bus_keeps, interrupt_asserted-Keeps, clock-Keeps, read_interrupts-Keeps, clear_interrupts-Keeps,
  wait_for_interrupt-Keeps,
)
