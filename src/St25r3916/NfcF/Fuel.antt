-- ===== src/St25r3916/NfcF/Fuel.antt =====
-- The driver's loops in time: each ends before its fuel does.
use cap_cc1101_nfc.Base.{
  ℕ, zero, suc, ◌+◌, ◌*◌, ◌≤◌, ◌<◌, ◌≡◌, arith, Bool, true, false, leb, ◌&&◌, ◌||◌,
}
use cap_cc1101_nfc.St25r3916.Action.{Transport, ◌>>=◌, Bus}
use cap_cc1101_nfc.St25r3916.Action.Time.{
  Timed, Takes, Agree, takes, Agree-after, Agree-bind, Agree-when, Agree-clock, Agree-now,
  Agree-refl, sleep_for-Takes,
}
use cap_cc1101_nfc.St25r3916.Codes
use cap_cc1101_nfc.St25r3916.Interrupts.{
  clock, wait_loop, wait_for_interrupt, ns_per_ms, deadline_in,
}
use cap_cc1101_nfc.St25r3916.Interrupts.Fuel.{
  wait_loop-more, wait_for_interrupt-Takes, fifo_size-Takes, clock_action-Takes,
}
use cap_cc1101_nfc.St25r3916.NfcF.{
  Window, inspect_if, has_drained, exchange_loop, settle_loop, settle_if, has_any, receive_faults,
}

module _ {T : Transport} {timed : Timed T} where
  inspect_if-Takes : (b : Bool) (w : Window) → Takes {T = T} timed 0 (inspect_if b w)
  unfolding inspect_if
  inspect_if-Takes true w = search (takes, fifo_size-Takes)
  inspect_if-Takes false w = search takes

  has_drained-Takes : (drained : ℕ) (w : Window) → Takes {T = T} timed 0 (has_drained drained w)
  unfolding has_drained
  has_drained-Takes drained w = search (takes, clock_action-Takes)

  exchange_round-Agree :
      (fuel more drained deadline : ℕ) (w : Window) (t : ℕ)
      → (t < deadline
          → (w : Window)
          → Agree {T = T} timed
              (1 + t)
              (exchange_loop more drained deadline w)
              (exchange_loop fuel drained deadline w))
      → Agree {T = T} timed t
          (exchange_loop (suc more) drained deadline w)
          (exchange_loop (suc fuel) drained deadline w)
  unfolding exchange_loop clock
  exchange_round-Agree fuel more drained deadline w t next = Agree-clock t _ _ (λ now later.
      Agree-bind t _ _ _ (inspect_if-Takes _ w) (λ seen.
        Agree-when t
          ((w.transmit_complete || leb drained now)
            && leb Codes.nfc_f_response_minimum_size seen.fifo_available)
          _ _ _ _ (λ full. Agree-refl t _)
          (λ wanting.
            Agree-when t (leb deadline now) _ _ _ _ (λ over. Agree-refl t _)
              (λ before. Agree-after 1 t _ _ _ (wait_for_interrupt-Takes _ _) (λ observed.
                Agree-when (1 + t) (has_any observed receive_faults) _ _ _ _
                  (λ faulty. Agree-refl (1 + t) _)
                  (λ sound. Agree-bind (1 + t) _ _ _ (has_drained-Takes drained _) (λ ready.
                    Agree-bind (1 + t) _ _ _ (inspect_if-Takes ready _) (λ last.
                      Agree-when (1 + t)
                        (last.frame_ready || has_any last.flags Codes.interrupt_rx_end) _ _ _ _
                        (λ done. Agree-refl (1 + t) _)
                        (λ undone. next (ground (arith, later, before)) last)))))))))

  -- Begun so long before the deadline, the loop ends as it does on more fuel.
  exchange_loop-Agree :
      (fuel more drained deadline : ℕ) (w : Window) (t : ℕ)
      → fuel ≤ more
      → deadline ≤ t + fuel
      → Agree {T = T} timed t
          (exchange_loop (suc more) drained deadline w)
          (exchange_loop (suc fuel) drained deadline w)
  exchange_loop-Agree zero more drained deadline w t le h =
      exchange_round-Agree zero more drained deadline w t (λ before. ground arith)
  exchange_loop-Agree (suc fuel) zero drained deadline w t le h = ground arith
  exchange_loop-Agree (suc fuel) (suc more) drained deadline w t le h =
      let rest = λ (w : Window).
        exchange_loop-Agree fuel more drained deadline w (1 + t) (omega arith) (omega arith) in
      exchange_round-Agree (suc fuel) (suc more) drained deadline w t (λ before. rest)

  settle_round-Agree :
      (fuel more deadline : ℕ) (w : Window) (t : ℕ)
      → (t < deadline
          → (w : Window)
          → Agree {T = T} timed (1 + t) (settle_loop more deadline w) (settle_loop fuel deadline w))
      → Agree {T = T} timed t
          (settle_loop (suc more) deadline w)
          (settle_loop (suc fuel) deadline w)
  unfolding settle_loop clock
  settle_round-Agree fuel more deadline w t next =
      Agree-when t w.frame_ready _ _ _ _ (λ ready. Agree-refl t _)
        (λ wanting. Agree-clock t _ _ (λ now later.
          Agree-when t (leb deadline now) _ _ _ _ (λ over. Agree-refl t _)
            (λ before. Agree-after 1 t _ _ _ sleep_for-Takes (λ u.
              Agree-bind (1 + t) _ _ _ fifo_size-Takes
                (λ settled. next (ground (arith, later, before)) _)))))

  settle_loop-Agree :
      (fuel more deadline : ℕ) (w : Window) (t : ℕ)
      → fuel ≤ more
      → deadline ≤ t + fuel
      → Agree {T = T} timed t
          (settle_loop (suc more) deadline w)
          (settle_loop (suc fuel) deadline w)
  settle_loop-Agree zero more deadline w t le h =
      settle_round-Agree zero more deadline w t (λ before. ground arith)
  settle_loop-Agree (suc fuel) zero deadline w t le h = ground arith
  settle_loop-Agree (suc fuel) (suc more) deadline w t le h =
      let rest = λ (w : Window).
        settle_loop-Agree fuel more deadline w (1 + t) (omega arith) (omega arith) in
      settle_round-Agree (suc fuel) (suc more) deadline w t (λ before. rest)

module _ {T : Transport} (timed : Timed T) where
  exchange_loop-more :
      (drained_in limit more : ℕ) (w : Window) (s : Bus T)
      → limit * ns_per_ms ≤ more
      → (clock >>= λ now.
            exchange_loop (suc (suc more)) (deadline_in now drained_in) (deadline_in now limit) w)
          s
        ≡ (clock >>= λ now.
              exchange_loop
                (suc (suc (limit * ns_per_ms)))
                (deadline_in now drained_in)
                (deadline_in now limit)
                w)
            s
  unfolding clock
  exchange_loop-more drained_in limit more w s h =
      Agree-now {timed = timed} _ _
        (λ now.
          exchange_loop-Agree (suc (limit * ns_per_ms)) (suc more) (deadline_in now drained_in)
            (deadline_in now limit) w now (omega (arith, h)) (omega arith))
        s

  settle_loop-more :
      (more : ℕ) (w : Window) (s : Bus T)
      → Codes.nfc_f_fifo_settle_window * ns_per_ms ≤ more
      → (clock >>= λ now.
            settle_loop (suc (suc more)) (deadline_in now Codes.nfc_f_fifo_settle_window) w)
          s
        ≡ settle_if true w s
  unfolding clock settle_if
  settle_loop-more more w s h =
      Agree-now {timed = timed} _ _
        (λ now.
          settle_loop-Agree (suc (Codes.nfc_f_fifo_settle_window * ns_per_ms)) (suc more)
            (deadline_in now Codes.nfc_f_fifo_settle_window) w now (omega (arith, h)) (omega arith))
        s

  -- Over a transport in time, waitForInterrupt, the exchange of pollNfcF and its settling window do
  -- the same on any more fuel than they are given, which counts the nanoseconds to the deadline: no
  -- loop ends for lack of fuel.
  pub deadline_loops-more :
      (flags timeout drained_in limit more : ℕ) (w : Window) (s : Bus T)
      → timeout * ns_per_ms ≤ more
      → limit * ns_per_ms ≤ more
      → Codes.nfc_f_fifo_settle_window * ns_per_ms ≤ more
      → ((clock >>= λ now. wait_loop (suc (suc more)) flags (deadline_in now timeout)) s
          ≡ wait_for_interrupt flags timeout s)
        × ((clock >>= λ now.
                exchange_loop
                  (suc (suc more))
                  (deadline_in now drained_in)
                  (deadline_in now limit)
                  w)
              s
            ≡ (clock >>= λ now.
                  exchange_loop
                    (suc (suc (limit * ns_per_ms)))
                    (deadline_in now drained_in)
                    (deadline_in now limit)
                    w)
                s)
        × ((clock >>= λ now.
                settle_loop (suc (suc more)) (deadline_in now Codes.nfc_f_fifo_settle_window) w)
              s
            ≡ settle_if true w s)
  deadline_loops-more flags timeout drained_in limit more w s h i j = (
    wait_loop-more timed flags timeout more s h,
    exchange_loop-more drained_in limit more w s i,
    settle_loop-more more w s j,
  )
