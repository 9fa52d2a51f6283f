-- ===== src/LinuxBackend/Hardware.antt =====
-- The board of the Linux backend as src/hal builds it: CardputerZeroCapPower, LinuxSpiDevice and the
-- release of LinuxGpioLine over one system. The requests of the GPIO lines, which libgpiod serves, and
-- the loader of the overlay are calls of that system.
pub mod Released
use package.text.Mathlib.Text.{◌==◌ as str_eq}
use cap_cc1101_nfc.Base.{
  ℕ, ◌||◌, String, Bool, true, false, Bytes, List, length, Option, none, some, if◌then◌else◌,
}
use cap_cc1101_nfc.Types.{Outcome, returned, cancelled, unavailable, failed}
use cap_cc1101_nfc.Hal.Power.Pinctrl.{SysResult, Number, Waited, PowerSystem}
use cap_cc1101_nfc.Hal.Power.{PowerImpl, new_power, Enabled, yes, no}
use cap_cc1101_nfc.Hal.Power as Power
use cap_cc1101_nfc.Hal.Spi.{Setting, SpiSystem, SpiDevice}
use cap_cc1101_nfc.Hal.Spi as Spi
use cap_cc1101_nfc.LinuxBackend.Board.{Board, SpiConfig, WaitResult}

-- The system below all of src/hal.
pub record Hardware : Type 1 where
  pub World : Type 0
  pub get_env : String → World → Option String
  pub strtoul : String → Option ℕ
  pub ensure_overlay : String → World → World × Option String
  pub request_edge : String → ℕ → World → World × Outcome (Unit {0})
  pub release_edge : World → World
  pub edge_value : World → World × Outcome Bool
  pub wait_for_edge : ℕ → World → World × Outcome WaitResult
  pub request_output : Bool → World → World × Outcome (Unit {0})
  pub release_output : World → World
  pub exists_file : String → World → Bool
  pub open_file : String → Bool → World → World × SysResult ℕ
  pub read_file : ℕ → World → World × SysResult Bytes
  pub write_file : ℕ → ℕ → World → World × SysResult ℕ
  pub close_file : ℕ → World → World
  pub strtol : Bytes → Number
  pub strerror : ℕ → String
  pub is_permission_denied : ℕ → Bool
  pub spawn : List String → World → World × SysResult ℕ
  pub wait_no_hang : ℕ → World → World × Waited
  pub kill : ℕ → World → World
  pub wait_blocking : ℕ → World → World × Waited
  pub open_device : String → World → World × SysResult ℕ
  pub close_device : ℕ → World → World
  pub write_setting : ℕ → Setting → ℕ → World → World × SysResult (Unit {0})
  pub read_setting : ℕ → Setting → World → World × SysResult ℕ
  pub message : ℕ → Option Bytes → Bool → ℕ → ℕ → ℕ → World → World × SysResult (ℕ → ℕ)
  pub spi_no_cs : ℕ
  pub sleep : ℕ → World → World
  pub clock : World → World × ℕ
  pub stop_requested : World → World × Bool

abbrev pub power_system : Hardware → PowerSystem
power_system Y = record {
  World = Y.World;
  exists_file = Y.exists_file;
  open_file = Y.open_file;
  read_file = Y.read_file;
  write_file = Y.write_file;
  close_file = Y.close_file;
  strtol = Y.strtol;
  strerror = Y.strerror;
  is_permission_denied = Y.is_permission_denied;
  spawn = Y.spawn;
  wait_no_hang = Y.wait_no_hang;
  kill = Y.kill;
  wait_blocking = Y.wait_blocking;
  cancel_requested = Y.stop_requested;
  clock = Y.clock;
  sleep = Y.sleep;
  request_output = Y.request_output;
  release_output = Y.release_output;
}

abbrev pub spi_system : Hardware → SpiSystem
spi_system Y = record {
  World = Y.World;
  open_device = Y.open_device;
  close_device = Y.close_device;
  write_setting = Y.write_setting;
  read_setting = Y.read_setting;
  message = Y.message;
  strerror = Y.strerror;
  spi_no_cs = Y.spi_no_cs;
}

-- The members of the backend that hold hardware, and the system. `line_requested` says whether the
-- interrupt line's `_request` is set.
pub record Devices (Y : Hardware) : Type 0 where
  pub world : Y.World
  pub power : PowerImpl
  pub spi : SpiDevice
  pub line_requested : Bool

abbrev pub new_devices : {Y : Hardware} → SpiConfig → Y.World → Devices Y
new_devices config w = record {
  world = w;
  power = new_power;
  spi = record { fd = none; config = config };
  line_requested = false;
}

abbrev is_returned : {A : Type 0} → Outcome A → Bool
is_returned (returned a) = true
is_returned cancelled = false
is_returned (unavailable message) = false
is_returned (failed message) = false

abbrev pub error_of : Enabled → Option String
error_of yes = none
error_of (no message) = some message

module _ {Y : Hardware} where
  -- A call of the system.
  abbrev pub on_world : {A : Type 0} → (Y.World → Y.World × A) → Devices Y → Devices Y × A
  on_world f h = let (w, a) = f h.world in (record h { world = w }, a)

  -- LinuxGpioLine: a line that was just made is requested.
  abbrev pub line_request : String → ℕ → Devices Y → Devices Y × Outcome (Unit {0})
  line_request chip offset h =
      let (w, o) = Y.request_edge chip offset h.world in
      (record h { world = w; line_requested = is_returned o }, o)

  -- LinuxGpioLine::release
  abbrev pub line_release : Devices Y → Devices Y
  line_release h = record h {
    world = if h.line_requested then Y.release_edge h.world else h.world;
    line_requested = false;
  }

  abbrev pub power_on : Devices Y → Devices Y × Option String
  power_on h =
      let ((p, w), answer) = Power.enable (power_system Y) (h.power, h.world) in
      (record h { world = w; power = p }, error_of answer)

  abbrev pub power_off : Devices Y → Devices Y
  power_off h =
      let (p, w) = Power.disable (power_system Y) (h.power, h.world) in
      record h { world = w; power = p }

  abbrev pub spi_open : SpiConfig → Devices Y → Devices Y × Outcome (Unit {0})
  spi_open config h =
      let ((s, w), o) = Spi.open_spi_device (spi_system Y) config (h.spi, h.world) in
      (record h { world = w; spi = s }, o)

  abbrev pub spi_close : Devices Y → Devices Y
  spi_close h =
      let (s, w) = Spi.close (spi_system Y) (h.spi, h.world) in record h { world = w; spi = s }

  abbrev pub spi_transfer : Bytes → Devices Y → Devices Y × Outcome (ℕ → ℕ)
  spi_transfer bytes h =
      on_world (Spi.transfer (spi_system Y) (some bytes) true (length bytes) h.spi) h

abbrev pub hardware_board : Hardware → Board
hardware_board Y = record {
  World = Devices Y;
  get_env = λ name h. Y.get_env name h.world;
  strtoul = Y.strtoul;
  ensure_overlay = λ path. on_world (Y.ensure_overlay path);
  request_rising_edge = line_request;
  release_line = line_release;
  line_value = on_world Y.edge_value;
  wait_for_rising_edge = λ ms. on_world (Y.wait_for_edge ms);
  enable_power = power_on;
  disable_power = power_off;
  open_spi = spi_open;
  close_spi = spi_close;
  transfer = spi_transfer;
  sleep = λ ms h. record h { world = Y.sleep ms h.world };
  clock = on_world Y.clock;
  stop_requested = on_world Y.stop_requested;
}
