-- ===== src/LinuxBackend/Board.antt =====
-- The hardware below src/nfc/linux_nfc_backend.cpp as an interface, the settings that the backend
-- takes from the environment, cancellableSleep, and LinuxSt25r3916Transport.
use Prim.Native.String.{◌++◌ as str_append, slice}
use package.text.Mathlib.Text.{◌==◌ as str_eq}
use cap_cc1101_nfc.Base.{
  ℕ, zero, suc, ◌/◌, ◌%◌, String, Bool, true, false, ◌||◌, ltb, leb, Option, none, some,
  if◌then◌else◌, Bytes,
}
use cap_cc1101_nfc.Types.{Outcome, returned, cancelled, unavailable, failed}
use cap_cc1101_nfc.Model.Diagnostics.{to_string}
use cap_cc1101_nfc.St25r3916.Action.{Transport}
use cap_cc1101_nfc.St25r3916.Bus.{minimum, maximum}
use cap_cc1101_nfc.St25r3916.Interrupts.{deadline_in, remaining_ms}

-- LinuxGpioLine::WaitResult
pub data WaitResult : Type 0 where
  rising_edge timeout cancelled_wait : WaitResult

-- hal::LinuxSpiDevice::Config
pub record SpiConfig : Type 0 where
  pub path : String
  pub speed_hz : ℕ
  pub mode : ℕ
  pub bits_per_word : ℕ
  pub no_kernel_cs : Bool

-- What the backend calls: the environment, strtoul (`none` where it does not read all of the text or
-- reports a range error), the overlay and the power of the Cap (which answer with an error or with
-- none), the interrupt line, the SPI device, the clock and the stop flag.
pub record Board : Type 1 where
  pub World : Type 0
  pub get_env : String → World → Option String
  pub strtoul : String → Option ℕ
  pub ensure_overlay : String → World → World × Option String
  pub request_rising_edge : String → ℕ → World → World × Outcome (Unit {0})
  pub release_line : World → World
  pub line_value : World → World × Outcome Bool
  pub wait_for_rising_edge : ℕ → World → World × Outcome WaitResult
  pub enable_power : World → World × Option String
  pub disable_power : World → World
  pub open_spi : SpiConfig → World → World × Outcome (Unit {0})
  pub close_spi : World → World
  pub transfer : Bytes → World → World × Outcome (ℕ → ℕ)
  pub sleep : ℕ → World → World
  pub clock : World → World × ℕ
  pub stop_requested : World → World × Bool

pub record LinuxBackendConfig : Type 0 where
  pub spi_device : String
  pub spi_speed_hz : ℕ
  pub gpio_chip : String
  pub irq_gpio : ℕ
  pub miso_pull_mode : ℕ

abbrev pub default_config : LinuxBackendConfig
default_config = record {
  spi_device = "/dev/spidev0.2";
  spi_speed_hz = 5000000;
  gpio_chip = "/dev/gpiochip0";
  irq_gpio = 23;
  miso_pull_mode = 3;
}

abbrev hex_digit : ℕ → String
hex_digit n = slice "0123456789ABCDEF" n (suc n)

-- hexByte
abbrev pub hex_byte : ℕ → String
hex_byte value = str_append "0x" (str_append (hex_digit (value / 16)) (hex_digit (value % 16)))

-- envString
abbrev pub env_string : Option String → String → String
env_string none fallback = fallback
env_string (some value) fallback = if str_eq value "" then fallback else value

abbrev invalid_message : String → String → ℕ → ℕ → String
invalid_message name text low high = str_append "invalid " (
    str_append name (
      str_append "='" (
        str_append text (
          str_append "' (expected "
            (str_append (to_string low) (str_append ".." (str_append (to_string high) ")")))))))

module _ (Y : Board) where
  abbrev in_range : String → String → ℕ → ℕ → Option ℕ → Outcome ℕ
  in_range name text low high none = failed (invalid_message name text low high)
  in_range name text low high (some value) =
      if ltb value low || ltb high value
      then failed (invalid_message name text low high)
      else returned value

  -- envUnsigned
  unfoldable pub env_unsigned : String → ℕ → ℕ → ℕ → Y.World → Outcome ℕ
  env_unsigned name fallback low high w = elim (Y.get_env name w) [
    | none ↦ returned fallback
    | some text ↦
        if str_eq text "" then returned fallback else in_range name text low high (Y.strtoul text)
  ]

  abbrev and_then : {A B : Type 0} → Outcome A → (A → Outcome B) → Outcome B
  and_then (returned a) f = f a
  and_then cancelled f = cancelled
  and_then (unavailable message) f = unavailable message
  and_then (failed message) f = failed message

  unfoldable pub load_config : Y.World → Outcome LinuxBackendConfig
  unfolding env_unsigned
  load_config w =
      and_then (env_unsigned "CAP_NFC_SPI_SPEED_HZ" default_config.spi_speed_hz 100000 10000000 w)
        (λ speed.
          and_then (env_unsigned "CAP_NFC_IRQ_GPIO" default_config.irq_gpio 0 1023 w) (λ irq.
            and_then (env_unsigned "CAP_NFC_MISO_PULL_MODE" default_config.miso_pull_mode 0 3 w)
              (λ pull. returned (record {
                spi_device = default_config.spi_device;
                spi_speed_hz = speed;
                gpio_chip = env_string (Y.get_env "CAP_NFC_GPIO_CHIP" w) default_config.gpio_chip;
                irq_gpio = irq;
                miso_pull_mode = pull;
              }))))

  unfoldable pub throw_if_cancelled : Y.World → Y.World × Outcome (Unit {0})
  throw_if_cancelled w =
      let (v, stop) = Y.stop_requested w in (v, if stop then cancelled else returned tt)

  -- The loop of cancellableSleep, on fuel; without fuel it ends as at the deadline.
  unfoldable pub sleep_loop : ℕ → ℕ → Y.World → Y.World × Outcome (Unit {0})
  unfolding throw_if_cancelled
  sleep_loop zero deadline w = throw_if_cancelled w
  sleep_loop (suc fuel) deadline w =
      let (v, now) = Y.clock w in
      let (u, stop) = Y.stop_requested v in
      let (t, later) = Y.clock u in
      let rest =
        sleep_loop fuel deadline
          (Y.sleep (maximum 1 (minimum (remaining_ms later deadline) 10)) t) in
      if leb deadline now then throw_if_cancelled v else if stop then (u, cancelled) else rest

  -- A round sleeps for a millisecond at least.
  unfoldable pub cancellable_sleep : ℕ → Y.World → Y.World × Outcome (Unit {0})
  unfolding sleep_loop
  cancellable_sleep ms w =
      let (v, now) = Y.clock w in sleep_loop (suc (suc ms)) (deadline_in now ms) v

  -- What waitForInterrupt makes of the wait for an edge.
  abbrev pub seen_edge : Y.World × Outcome WaitResult → Y.World × Outcome Bool
  seen_edge (w, returned WaitResult.rising_edge) = (w, returned true)
  seen_edge (w, returned WaitResult.timeout) = (w, returned false)
  seen_edge (w, returned WaitResult.cancelled_wait) = (w, cancelled)
  seen_edge (w, cancelled) = (w, cancelled)
  seen_edge (w, unavailable message) = (w, unavailable message)
  seen_edge (w, failed message) = (w, failed message)

  -- LinuxSt25r3916Transport
  abbrev pub linux_transport : Transport
  linux_transport = record {
    World = Y.World;
    transfer = Y.transfer;
    interrupt_asserted = Y.line_value;
    wait_for_interrupt = λ ms w. seen_edge (Y.wait_for_rising_edge (minimum ms 0x7FFF_FFFF) w);
    sleep_for = cancellable_sleep;
    clock = Y.clock;
    stop_requested = Y.stop_requested;
  }
