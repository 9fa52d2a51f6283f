-- ===== src/Tests/Board.antt =====
-- The Linux backend over a board, and over a system, whose SPI device cannot be opened.
use cap_cc1101_nfc.Base.{ℕ, ◌≡◌, refl, String, Bool, true, false, [], ◌∷◌, none, ◌+◌, ◌*◌}
use cap_cc1101_nfc.Types.{Outcome, returned, failed}
use cap_cc1101_nfc.LinuxBackend.Board.{
  Board, SpiConfig, load_config, env_unsigned, WaitResult, sleep_loop, cancellable_sleep,
  throw_if_cancelled,
}
use cap_cc1101_nfc.LinuxBackend.Opening.{
  ReaderBackend, new_backend, close, open_reader, open_stages, follow_stage, roll_back,
}
use cap_cc1101_nfc.LinuxBackend.Released.Opens.{Opens}
use cap_cc1101_nfc.Hal.Power.Pinctrl.{done, errno, ended, ExitStatus, Number, pos}
use cap_cc1101_nfc.LinuxBackend.Hardware.{Hardware, new_devices, hardware_board}

record Parts : Type 0 where
  pub spi : Bool
  pub line : Bool
  pub power : Bool
  pub now : ℕ

abbrev idle_parts : Parts
idle_parts = record { spi = false; line = false; power = false; now = 0 }

abbrev no_device : String
no_device = "open /dev/spidev0.2: No such file or directory"

abbrev without_spi : Board
without_spi = record {
  World = Parts;
  get_env = λ name w. none;
  strtoul = λ text. none;
  ensure_overlay = λ path w. (w, none);
  request_rising_edge = λ chip offset w. (record w { line = true }, returned tt);
  release_line = λ w. record w { line = false };
  line_value = λ w. (w, returned false);
  wait_for_rising_edge = λ ms w. (w, returned WaitResult.timeout);
  enable_power = λ w. (record w { power = true }, none);
  disable_power = λ w. record w { power = false };
  open_spi = λ config w. (w, failed no_device);
  close_spi = λ w. record w { spi = false };
  transfer = λ bytes w. (w, returned (λ i. 0));
  sleep = λ ms w. record w { now = w.now + ms * 1000000 };
  clock = λ w. (w, w.now);
  stop_requested = λ w. (w, false);
}

abbrev new_reader : ReaderBackend without_spi
new_reader = new_backend idle_parts

abbrev open_failure : Outcome (Unit {0})
open_failure =
    failed
      "ST25R3916 initialization failed at SPI open: open /dev/spidev0.2: No such file or directory"

-- It fails at its fifth stage, after 100 ms.
open_fails : open_reader new_reader ≡ (
  record new_reader { world = record idle_parts { now = 100000000 } },
  failed
      "ST25R3916 initialization failed at SPI open: open /dev/spidev0.2: No such file or directory",
)
unfolding open_reader open_stages follow_stage roll_back close load_config env_unsigned
    cancellable_sleep sleep_loop throw_if_cancelled
open_fails = refl

-- A system on which everything works but the opening of the SPI device.
abbrev bench : Hardware
bench = record {
  World = ℕ;
  get_env = λ name w. none;
  strtoul = λ text. none;
  ensure_overlay = λ path w. (w, none);
  request_edge = λ chip offset w. (w, returned tt);
  release_edge = λ w. w;
  edge_value = λ w. (w, returned false);
  wait_for_edge = λ ms w. (w, returned WaitResult.timeout);
  request_output = λ b w. (w, returned tt);
  release_output = λ w. w;
  exists_file = λ path w. true;
  open_file = λ path b w. (w, done 3);
  read_file = λ fd w. (w, done (b'0' ∷ []));
  write_file = λ fd byte w. (w, done 1);
  close_file = λ fd w. w;
  strtol = λ text. Number.value (pos 0);
  strerror = λ code. "No such file or directory";
  is_permission_denied = λ code. false;
  spawn = λ arguments w. (w, done 7);
  wait_no_hang = λ child w. (w, ended (ExitStatus.exited 0));
  kill = λ child w. w;
  wait_blocking = λ child w. (w, ended (ExitStatus.exited 0));
  open_device = λ path w. (w, errno 2);
  close_device = λ fd w. w;
  write_setting = λ fd setting value w. (w, done tt);
  read_setting = λ fd setting w. (w, done 0);
  message = λ fd tx receives size speed bits w. (w, done (λ i. 0));
  spi_no_cs = 0x40;
  sleep = λ ms w. w + ms * 1000000;
  clock = λ w. (w, w);
  stop_requested = λ w. (w, false);
}

abbrev no_config : SpiConfig
no_config = record { path = ""; speed_hz = 0; mode = 0; bits_per_word = 0; no_kernel_cs = false }

abbrev bench_reader : ReaderBackend (hardware_board bench)
bench_reader = new_backend (new_devices {Y = bench} no_config 0)
