-- ===== src/Tests/Loops.antt =====
-- The loops of the driver over a chip whose calls take time.
use cap_cc1101_nfc.Base.{ℕ, suc, ◌+◌, ◌*◌, ◌≡◌, true, false, arith}
use cap_cc1101_nfc.Types.{returned}
use cap_cc1101_nfc.St25r3916.{new_driver}
use cap_cc1101_nfc.St25r3916.Action.{Transport, Bus, ◌>>=◌}
use cap_cc1101_nfc.St25r3916.Action.Time.{Timed}
use cap_cc1101_nfc.St25r3916.Codes
use cap_cc1101_nfc.St25r3916.Interrupts.{
  clock, wait_loop, wait_for_interrupt, ns_per_ms, deadline_in,
}
use cap_cc1101_nfc.St25r3916.NfcF.{empty_window, exchange_loop, settle_loop, settle_if}
use cap_cc1101_nfc.St25r3916.NfcF.Fuel.{deadline_loops-more}

-- A look at the line takes a nanosecond, a wait and a sleep as long as they are told to.
abbrev paced : Transport
paced = record {
  World = ℕ;
  transfer = λ transmit now. (now, returned (λ i. 0));
  interrupt_asserted = λ now. (now + 1, returned false);
  wait_for_interrupt = λ ms now. (now + ms * 1000000, returned false);
  sleep_for = λ ms now. (now + ms * 1000000, returned tt);
  clock = λ now. (now, now);
  stop_requested = λ now. (now, false);
}

abbrev paced_timed : Timed paced
paced_timed = record {
  time = λ now. now;
  clock_reads = λ now. omega arith;
  clock_passes = λ now. omega arith;
  stop_passes = λ now. omega arith;
  transfer_passes = λ bytes now. omega arith;
  asserted_takes = λ now b e. omega arith;
  wait_passes = λ ms now. omega arith;
  sleep_takes = λ now e. omega arith;
}

abbrev paced_bus : Bus paced
paced_bus = record {
  driver =
      new_driver (record { miso_pull_when_deselected = false; miso_pull_when_selected = false });
  world = 5;
}

deadline_loops-more_example :
    ((clock >>= λ now. wait_loop (suc (suc 90000000)) 1 (deadline_in now 3)) paced_bus
      ≡ wait_for_interrupt 1 3 paced_bus)
    × ((clock >>= λ now.
            exchange_loop
              (suc (suc 90000000))
              (deadline_in now 2)
              (deadline_in now 22)
              empty_window)
          paced_bus
        ≡ (clock >>= λ now.
              exchange_loop
                (suc (suc (22 * ns_per_ms)))
                (deadline_in now 2)
                (deadline_in now 22)
                empty_window)
            paced_bus)
    × ((clock >>= λ now.
            settle_loop
              (suc (suc 90000000))
              (deadline_in now Codes.nfc_f_fifo_settle_window)
              empty_window)
          paced_bus
        ≡ settle_if true empty_window paced_bus)
deadline_loops-more_example =
    deadline_loops-more paced_timed 1 3 2 22 90000000 empty_window paced_bus (omega arith)
      (omega arith) (omega arith)
