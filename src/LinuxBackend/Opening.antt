-- ===== src/LinuxBackend/Opening.antt =====
-- open, close and requireOpen of src/nfc/linux_nfc_backend.cpp, and the backend as a whole.
use Prim.Native.String.{◌++◌ as str_append}
use cap_cc1101_nfc.Base.{
  String, Bool, true, false, ◌!=◌, bit_and, Option, none, some, if◌then◌else◌,
}
use cap_cc1101_nfc.Types.{
  Outcome, returned, cancelled, unavailable, failed, ReaderInfo, DiscoveryPollResult,
}
use cap_cc1101_nfc.Backend.{NfcBackend}
use cap_cc1101_nfc.Model.Diagnostics.{to_string}
use cap_cc1101_nfc.St25r3916.{Driver, DriverConfig, ChipInfo, new_driver}
use cap_cc1101_nfc.St25r3916.Lifecycle.{initialize, stop}
use cap_cc1101_nfc.LinuxBackend.{Arbiter, fresh}
use cap_cc1101_nfc.LinuxBackend.Board.{
  Board, LinuxBackendConfig, default_config, hex_byte, load_config, cancellable_sleep,
  throw_if_cancelled, linux_transport,
}
use cap_cc1101_nfc.LinuxBackend.Polls.{LinuxNfcBackend}
use cap_cc1101_nfc.LinuxBackend.Polls as Polls

-- LinuxNfcBackend with what lies behind it. `has_interrupt` and `has_transport` say whether those
-- pointers are set.
pub record ReaderBackend (Y : Board) : Type 0 where
  pub world : Y.World
  pub config : LinuxBackendConfig
  pub has_interrupt : Bool
  pub has_transport : Bool
  pub driver : Option Driver
  pub opened : Bool
  pub scanning : Bool
  pub arbiter : Arbiter

abbrev pub new_backend : {Y : Board} → Y.World → ReaderBackend Y
new_backend w = record {
  world = w;
  config = default_config;
  has_interrupt = false;
  has_transport = false;
  driver = none;
  opened = false;
  scanning = false;
  arbiter = fresh;
}

abbrev pub driver_config : LinuxBackendConfig → DriverConfig
driver_config config = record {
  miso_pull_when_deselected = bit_and config.miso_pull_mode 1 != 0;
  miso_pull_when_selected = bit_and config.miso_pull_mode 2 != 0;
}

abbrev pub reader_info : LinuxBackendConfig → ChipInfo → ReaderInfo
reader_info config chip = record {
  backend_name = "ST25R3916 Linux";
  chip_name = "ST25R3916";
  chip_version =
      str_append "ID "
        (str_append (hex_byte chip.identity) (str_append " / rev " (to_string chip.revision)));
  transport = str_append config.spi_device (
      str_append " mode 1 @ "
        (str_append (to_string config.spi_speed_hz) " Hz / kernel CS2 GPIO22"));
  irq =
      str_append config.gpio_chip
        (str_append ":" (str_append (to_string config.irq_gpio) " rising edge"));
  power = "ext_5v_out + GPIO26 POWER_EN";
  protocols = "NFC-A / NFC-F UID; Type 2 NDEF for NFC-A";
  mock = false;
}

-- The message that the handler of open gives to an exception.
abbrev pub at_stage : {A : Type 0} → String → Outcome A → Outcome A
at_stage stage (returned a) = returned a
at_stage stage cancelled = cancelled
at_stage stage (unavailable message) =
    failed (
      str_append "ST25R3916 initialization failed at " (str_append stage (str_append ": " message)))
at_stage stage (failed message) =
    failed (
      str_append "ST25R3916 initialization failed at " (str_append stage (str_append ": " message)))

abbrev pub Stage : Board → Type 0 → Type 0
Stage Y A = ReaderBackend Y → ReaderBackend Y × Outcome A

module _ (Y : Board) where
  -- The driver's stop, which always returns.
  abbrev pub stop_driver : Option Driver → Y.World → Y.World
  stop_driver none w = w
  stop_driver (some d) w = (stop {T = linux_transport Y} (record { driver = d; world = w })).0.world

  -- An answer of `false` with its error: a cancellation goes first.
  abbrev pub or_error : String → Y.World × Option String → Y.World × Outcome (Unit {0})
  or_error prefix (w, none) = (w, returned tt)
  or_error prefix (w, some error) =
      let (v, stop) = Y.stop_requested w in
      (v, if stop then cancelled else failed (str_append prefix error))

module _ {Y : Board} where
  -- closeImpl
  unfoldable pub close : ReaderBackend Y → ReaderBackend Y
  close s =
      let stopped = stop_driver Y s.driver s.world in
      let without_spi = Y.close_spi stopped in
      let without_line = if s.has_interrupt then Y.release_line without_spi else without_spi in
      record s {
        world = Y.disable_power without_line;
        has_interrupt = false;
        has_transport = false;
        driver = none;
        opened = false;
        scanning = false;
        arbiter = fresh;
      }

  unfoldable pub follow_stage :
      {A B : Type 0} → (A → Stage Y B) → ReaderBackend Y × Outcome A → ReaderBackend Y × Outcome B
  follow_stage f (s, returned a) = f a s
  follow_stage f (s, cancelled) = (s, cancelled)
  follow_stage f (s, unavailable message) = (s, unavailable message)
  follow_stage f (s, failed message) = (s, failed message)

  infixl 5 ◌>>=◌ ◌>>◌
  abbrev pub ◌>>=◌ : {A B : Type 0} → Stage Y A → (A → Stage Y B) → Stage Y B
  ◌>>=◌ m f s = follow_stage f (m s)

  abbrev pub ◌>>◌ : {B : Type 0} → Stage Y (Unit {0}) → Stage Y B → Stage Y B
  m >> k = m >>= λ u. k

  -- A call of the board.
  abbrev pub call : {A : Type 0} → (Y.World → Y.World × Outcome A) → Stage Y A
  call f s = let (w, o) = f s.world in (record s { world = w }, o)

  abbrev pub staged : {A : Type 0} → String → Stage Y A → Stage Y A
  staged stage m s = let (u, o) = m s in (u, at_stage stage o)

  abbrev pub configured : Outcome LinuxBackendConfig → Stage Y (Unit {0})
  configured (returned config) s = (record s { config = config }, returned tt)
  configured cancelled s = (s, cancelled)
  configured (unavailable message) s = (s, unavailable message)
  configured (failed message) s = (s, failed message)

  abbrev pub configure : Stage Y (Unit {0})
  configure s = configured (load_config Y s.world) s

  abbrev pub load_overlay : Stage Y (Unit {0})
  load_overlay s =
      call
        (λ w. or_error Y "Cap SPI overlay unavailable: " (Y.ensure_overlay s.config.spi_device w)) s

  abbrev pub request_line : Stage Y (Unit {0})
  request_line s =
      call (Y.request_rising_edge s.config.gpio_chip s.config.irq_gpio)
        (record s { has_interrupt = true })

  abbrev pub enable_power : Stage Y (Unit {0})
  enable_power =
      call (λ w. or_error Y "Cap power enable failed: " (Y.enable_power w))
      >> call (cancellable_sleep Y 100)

  abbrev pub open_spi : Stage Y (Unit {0})
  open_spi s =
      call
        (Y.open_spi (record {
          path = s.config.spi_device;
          speed_hz = s.config.spi_speed_hz;
          mode = 1;
          bits_per_word = 8;
          no_kernel_cs = false;
        }))
        s

  -- The driver is made, and stays if its initialization throws.
  unfoldable pub start_driver : Stage Y ReaderInfo
  start_driver s =
      let (bus, o) =
        initialize {T = linux_transport Y}
          (record { driver = new_driver (driver_config s.config); world = s.world }) in
      follow_stage (λ chip s. (record s { opened = true }, returned (reader_info s.config chip)))
        (record s { has_transport = true; world = bus.world; driver = some bus.driver }, o)

  unfoldable pub open_stages : Stage Y ReaderInfo
  unfolding start_driver follow_stage
  open_stages =
      staged "configuration" configure
      >> staged "SPI overlay load" load_overlay
      >> staged "GPIO setup" request_line
      >> staged "Cap power enable" enable_power
      >> staged "SPI open" open_spi
      >> staged "ST25R3916 probe and NFC-A/F setup" start_driver

  -- The handlers of open.
  unfoldable pub roll_back :
      ReaderBackend Y × Outcome ReaderInfo → ReaderBackend Y × Outcome ReaderInfo
  unfolding close
  roll_back (s, returned info) = (s, returned info)
  roll_back (s, cancelled) = (close s, cancelled)
  roll_back (s, unavailable message) = (close s, unavailable message)
  roll_back (s, failed message) = (close s, failed message)

  unfoldable pub open_reader : Stage Y ReaderInfo
  unfolding close open_stages roll_back
  open_reader s = roll_back (open_stages (close s))

  -- What an operation on an open backend sees of it, and what becomes of its answer.
  abbrev pub view_of : Driver → ReaderBackend Y → LinuxNfcBackend (linux_transport Y)
  view_of d s = record {
    bus = record { driver = d; world = s.world };
    opened = s.opened;
    scanning = s.scanning;
    arbiter = s.arbiter;
  }

  abbrev pub put_back : ReaderBackend Y → LinuxNfcBackend (linux_transport Y) → ReaderBackend Y
  put_back s v = record s {
    world = v.bus.world;
    driver = some v.bus.driver;
    opened = v.opened;
    scanning = v.scanning;
    arbiter = v.arbiter;
  }

  -- An operation that needs a driver: throwIfCancellationRequested and requireOpen go first.
  abbrev pub with_driver :
      {A : Type 0}
      → (LinuxNfcBackend (linux_transport Y) → LinuxNfcBackend (linux_transport Y) × Outcome A)
      → Option Driver
      → Stage Y A
  with_driver operation none s =
      let (w, o) = throw_if_cancelled Y s.world in
      follow_stage (λ u s. (s, failed "ST25R3916 Linux backend is not open"))
        (record s { world = w }, o)
  with_driver operation (some d) s = let (v, o) = operation (view_of d s) in (put_back s v, o)

  unfoldable pub start_discovery : Stage Y (Unit {0})
  start_discovery s = with_driver Polls.start_discovery s.driver s

  unfoldable pub poll_discovery : Stage Y DiscoveryPollResult
  poll_discovery s = with_driver Polls.poll_discovery s.driver s

  abbrev pub stop_with : Option Driver → ReaderBackend Y → ReaderBackend Y
  stop_with none s = record s { scanning = false; arbiter = fresh }
  stop_with (some d) s = put_back s (Polls.stop_discovery (view_of d s))

  unfoldable pub stop_discovery : ReaderBackend Y → ReaderBackend Y
  stop_discovery s = stop_with s.driver s

-- The backend that the worker owns. Its surroundings are a part of its state.
abbrev pub linux_backend : Board → NfcBackend
linux_backend Y = record {
  State = ReaderBackend Y;
  World = Unit {0};
  open_reader = λ u s. open_reader s;
  close = close;
  close_immediately = close;
  start_discovery = λ u s. start_discovery s;
  stop_discovery = stop_discovery;
  poll_discovery = λ u s. poll_discovery s;
}
