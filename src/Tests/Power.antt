-- ===== src/Tests/Power.antt =====
-- The Cap's power over a system on which everything works, and one without its LED class.
use cap_cc1101_nfc.Base.{arith, ℕ, suc, ◌+◌, ◌-◌, ◌*◌, ◌≡◌, refl, Bool, true, false, [], ◌∷◌}
use cap_cc1101_nfc.Types.{returned}
use cap_cc1101_nfc.Hal.Power.Pinctrl.{
  pos, Number, PowerSystem, done, ended, running, exited, run_pinctrl, after_spawn, wait_child,
  give_up,
}
use cap_cc1101_nfc.Hal.Power.{
  new_power, yes, enable, enable_now, route_gpio, set_pin, raise_power, or_disable, follow_step,
  read_led_attribute, write_led_value, log_led_class_interface,
}
use cap_cc1101_nfc.Hal.Power.Held.{Silent, Holdings}
use cap_cc1101_nfc.Hal.Power.Fuel.{Timed, after_spawn-more}
use cap_cc1101_nfc.Hal.Power.Settled.{IsAnswered, enable-IsAnswered}

record Machine : Type 0 where
  pub line : Bool
  pub children : ℕ
  pub now : ℕ

abbrev working : PowerSystem
working = record {
  World = Machine;
  exists_file = λ path w. true;
  open_file = λ path b w. (w, done 3);
  read_file = λ fd w. (w, done (b'0' ∷ []));
  write_file = λ fd byte w. (w, done 1);
  close_file = λ fd w. w;
  strtol = λ text. Number.value (pos 0);
  strerror = λ code. "error";
  is_permission_denied = λ code. false;
  spawn = λ arguments w. (record w { children = suc w.children }, done 7);
  wait_no_hang = λ child w. (record w { children = w.children - 1 }, ended (exited 0));
  kill = λ child w. w;
  wait_blocking = λ child w. (record w { children = w.children - 1 }, ended (exited 0));
  cancel_requested = λ w. (w, false);
  clock = λ w. (w, w.now);
  sleep = λ ms w. record w { now = w.now + ms * 1000000 };
  request_output = λ b w. (record w { line = true }, returned tt);
  release_output = λ w. record w { line = false };
}

abbrev line_silent : Silent working (λ w. w.line)
line_silent = record {
  opens = λ path b w. refl;
  reads = λ fd w. refl;
  writes = λ fd byte w. refl;
  closes = λ fd w. refl;
  cancels = λ w. refl;
  clocks = λ w. refl;
  sleeps = λ ms w. refl;
}

abbrev children_silent : Silent working (λ w. w.children)
children_silent = record {
  opens = λ path b w. refl;
  reads = λ fd w. refl;
  writes = λ fd byte w. refl;
  closes = λ fd w. refl;
  cancels = λ w. refl;
  clocks = λ w. refl;
  sleeps = λ ms w. refl;
}

abbrev holdings : Holdings working
holdings = record {
  line = λ w. w.line;
  children = λ w. w.children;
  line_silent = line_silent;
  children_silent = children_silent;
  request_line = λ w. refl;
  release_line = λ w. refl;
  spawn_line = λ arguments w. refl;
  wait_line = λ child w. refl;
  kill_line = λ child w. refl;
  blocking_line = λ child w. refl;
  spawn_children = λ arguments w. refl;
  wait_children = λ child w. refl;
  kill_children = λ child w. refl;
  blocking_children = λ child w. refl;
}

abbrev machine : Machine
machine = record { line = false; children = 0; now = 5 }

enable_works : enable working (new_power, machine) ≡ (
  (
    record new_power { gpio26_pinctrl_high = true; gpio26_requested = true; enabled = true },
    record machine { line = true },
  ),
  yes,
)
unfolding enable enable_now route_gpio set_pin raise_power or_disable follow_step read_led_attribute
    write_led_value log_led_class_interface run_pinctrl wait_child give_up
enable_works = refl

enable-IsAnswered_example : IsAnswered holdings (enable working (new_power, machine))
enable-IsAnswered_example =
    enable-IsAnswered holdings (new_power, machine)
      (record { line = refl; off = λ e. (refl, refl, refl); on = λ e. cc })

-- As `working`, but the child never ends, and every wait for it takes a microsecond.
abbrev hanging : PowerSystem
hanging = record working { wait_no_hang = λ child w. (record w { now = w.now + 1000 }, running) }

abbrev hanging_timed : Timed hanging
hanging_timed = record {
  time = λ w. w.now;
  wait_takes = λ child w. omega arith;
  cancel_passes = λ w. omega arith;
  clock_reads = λ w. omega arith;
  clock_passes = λ w. omega arith;
  sleep_passes = λ ms w. omega arith;
}

after_spawn-more_example :
    wait_child hanging (suc (suc 3000000000)) "pinctrl get" 7 (5 + 2000000000) machine
    ≡ after_spawn hanging "pinctrl get" (machine, done 7)
after_spawn-more_example =
    after_spawn-more hanging_timed 3000000000 "pinctrl get" 7 machine (omega arith)
