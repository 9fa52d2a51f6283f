-- ===== src/St25r3916/Interrupts/Fuel.antt =====
-- The loop of waitForInterrupt in time: it ends before its fuel does.
use cap_cc1101_nfc.Base.{
  ℕ, zero, suc, ◌+◌, ◌*◌, ◌≤◌, ◌<◌, ◌≡◌, arith, Bool, true, false, leb, ◌!=◌, Bytes, [], ◌∷◌,
}
use cap_cc1101_nfc.St25r3916.Action.{Transport, ◌>>=◌, Bus}
use cap_cc1101_nfc.St25r3916.Action.Time.{
  Timed, Takes, Agree, takes, Takes-first, Takes-then, Agree-after, Agree-bind, Agree-when,
  Agree-clock, Agree-now, Agree-refl, Takes-modify, asserted-Takes, throw_if_cancelled-Takes,
  wait-Takes,
}
use cap_cc1101_nfc.St25r3916.Bus.{
  exchange, read_registers, read_register, read_register16, fifo_size,
}
use cap_cc1101_nfc.St25r3916.Interrupts.{
  clock, interrupt_asserted, read_interrupts, collect_passes, collect_if, take_matched, wait_loop,
  wait_for_interrupt, ns_per_ms, deadline_in,
}

module _ {T : Transport} {timed : Timed T} where
  exchange-Takes : (values : Bytes) → Takes {T = T} timed 0 (exchange values)
  unfolding exchange
  exchange-Takes [] = search takes
  exchange-Takes (b ∷ bytes) = search takes

  read_registers-Takes : (reg size : ℕ) → Takes {T = T} timed 0 (read_registers reg size)
  unfolding read_registers
  read_registers-Takes reg size = search (takes, exchange-Takes)

  read_register-Takes : (reg : ℕ) → Takes {T = T} timed 0 (read_register reg)
  unfolding read_register
  read_register-Takes reg = search (takes, read_registers-Takes)

  read_register16-Takes : (reg : ℕ) → Takes {T = T} timed 0 (read_register16 reg)
  unfolding read_register16
  read_register16-Takes reg = search (takes, read_registers-Takes)

  pub fifo_size-Takes : Takes {T = T} timed 0 fifo_size
  unfolding fifo_size
  fifo_size-Takes = search (takes, read_register16-Takes)

  pub clock_action-Takes : Takes {T = T} timed 0 clock
  unfolding clock
  clock_action-Takes = search takes

  interrupt_asserted-Takes : Takes {T = T} timed 1 interrupt_asserted
  unfolding interrupt_asserted
  interrupt_asserted-Takes = asserted-Takes

  interrupt_asserted-passes : Takes {T = T} timed 0 interrupt_asserted
  unfolding interrupt_asserted
  interrupt_asserted-passes = search takes

  read_interrupts-Takes : Takes {T = T} timed 0 read_interrupts
  unfolding read_interrupts
  read_interrupts-Takes = search (takes, read_register-Takes, read_register16-Takes)

  collect_passes-Takes : (passes : ℕ) → Takes {T = T} timed 0 (collect_passes passes)
  unfolding collect_passes
  collect_passes-Takes zero = search takes
  collect_passes-Takes (suc passes) =
      let taken = collect_passes-Takes passes in
      search (takes, read_interrupts-Takes, interrupt_asserted-passes) depth 10

  collect_if-Takes : (b : Bool) → Takes {T = T} timed 0 (collect_if b)
  unfolding collect_if
  collect_if-Takes true = search collect_passes-Takes
  collect_if-Takes false = search takes

  take_matched-Takes : (flags : ℕ) → Takes {T = T} timed 0 (take_matched flags)
  unfolding take_matched
  take_matched-Takes flags = search takes

  ruleset round = (
    takes, clock_action-Takes, collect_if-Takes, take_matched-Takes, read_interrupts-Takes,
    interrupt_asserted-passes,
  )

  wait_loop-passes :
      (fuel flags deadline : ℕ) → Takes {T = T} timed 0 (wait_loop fuel flags deadline)
  unfolding wait_loop
  wait_loop-passes zero flags deadline = search takes
  wait_loop-passes (suc fuel) flags deadline =
      let taken = wait_loop-passes fuel flags deadline in search round depth 20

  -- A round looks at the line.
  wait_loop-Takes :
      (fuel flags deadline : ℕ) → Takes {T = T} timed 1 (wait_loop (suc fuel) flags deadline)
  unfolding wait_loop
  wait_loop-Takes fuel flags deadline = Takes-then 1 _ _ throw_if_cancelled-Takes (λ u.
      Takes-first 1 _ _ interrupt_asserted-Takes
        (λ asserted. let taken = wait_loop-passes fuel flags deadline in search round depth 20))

  pub wait_for_interrupt-Takes :
      (flags timeout : ℕ) → Takes {T = T} timed 1 (wait_for_interrupt flags timeout)
  unfolding wait_for_interrupt
  wait_for_interrupt-Takes flags timeout =
      Takes-then 1 _ _ clock_action-Takes (λ now. wait_loop-Takes _ flags (deadline_in now timeout))

  wait_round-Agree :
      (fuel more flags deadline t : ℕ)
      → (suc t < deadline
          → Agree {T = T} timed
              (1 + t)
              (wait_loop more flags deadline)
              (wait_loop fuel flags deadline))
      → Agree {T = T} timed t
          (wait_loop (suc more) flags deadline)
          (wait_loop (suc fuel) flags deadline)
  unfolding wait_loop clock
  wait_round-Agree fuel more flags deadline t next =
      Agree-bind t _ _ _ throw_if_cancelled-Takes (λ u.
        Agree-after 1 t _ _ _ interrupt_asserted-Takes (λ asserted.
          Agree-bind (1 + t) _ _ _ (collect_if-Takes asserted) (λ u.
            Agree-bind (1 + t) _ _ _ (take_matched-Takes flags) (λ matched.
              Agree-when (1 + t) (matched != 0) _ _ _ _ (λ some_matched. Agree-refl (1 + t) _)
                (λ none_matched. Agree-clock (1 + t) _ _ (λ now later.
                  Agree-when (1 + t) (leb deadline now) _ _ _ _ (λ over. Agree-refl (1 + t) _)
                    (λ before. Agree-bind (1 + t) _ _ _ (wait-Takes _) (λ edge.
                      Agree-bind (1 + t) _ _ _ read_interrupts-Takes (λ observed.
                        Agree-bind (1 + t) _ _ _ (Takes-modify _)
                          (λ u. next (ground (arith, later, before))))))))))))

  -- Begun so long before the deadline, the loop ends as it does on more fuel.
  pub wait_loop-Agree :
      (fuel more flags deadline t : ℕ)
      → fuel ≤ more
      → deadline ≤ t + fuel
      → Agree {T = T} timed t
          (wait_loop (suc more) flags deadline)
          (wait_loop (suc fuel) flags deadline)
  wait_loop-Agree zero more flags deadline t le h =
      wait_round-Agree zero more flags deadline t (λ before. ground arith)
  wait_loop-Agree (suc fuel) zero flags deadline t le h = ground arith
  wait_loop-Agree (suc fuel) (suc more) flags deadline t le h =
      let rest = wait_loop-Agree fuel more flags deadline (1 + t) (omega arith) (omega arith) in
      wait_round-Agree (suc fuel) (suc more) flags deadline t (λ before. rest)

module _ {T : Transport} (timed : Timed T) where
  pub wait_loop-more :
      (flags timeout more : ℕ) (s : Bus T)
      → timeout * ns_per_ms ≤ more
      → (clock >>= λ now. wait_loop (suc (suc more)) flags (deadline_in now timeout)) s
        ≡ wait_for_interrupt flags timeout s
  unfolding wait_for_interrupt clock
  wait_loop-more flags timeout more s h =
      Agree-now {timed = timed} _ _
        (λ now.
          wait_loop-Agree (suc (timeout * ns_per_ms)) (suc more) flags (deadline_in now timeout) now
            (omega (arith, h)) (omega arith))
        s
