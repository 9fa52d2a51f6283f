-- ===== src/Hal/Spi.antt =====
-- src/hal/linux_spi_device.hpp and linux_spi_device.cpp over the calls of the system, which are a
-- parameter.
pub mod Configured
pub mod Held
use Prim.Native.String.{◌++◌ as str_append}
use package.text.Mathlib.Text.{◌==◌ as str_eq}
use cap_cc1101_nfc.Base.{
  ℕ, ◌==◌, ◌!=◌, ◌||◌, ◌&&◌, String, Bool, true, false, not, ltb, bit_or, Bytes, List, [], ◌∷◌,
  Option, none, some, if◌then◌else◌,
}
use cap_cc1101_nfc.Types.{Outcome, returned, cancelled, unavailable, failed}
use cap_cc1101_nfc.Model.Diagnostics.{to_string}
use cap_cc1101_nfc.LinuxBackend.Board.{SpiConfig}
use cap_cc1101_nfc.Hal.Power.Pinctrl.{SysResult, done, errno}

-- The settings that ioctl writes and reads back.
pub data Setting : Type 0 where
  spi_mode spi_bits spi_speed : Setting

-- The calls of Linux. `spi_no_cs` is SPI_NO_CS, and a message fills its receive buffer with a byte
-- at every index.
pub record SpiSystem : Type 1 where
  pub World : Type 0
  pub open_device : String → World → World × SysResult ℕ
  pub close_device : ℕ → World → World
  pub write_setting : ℕ → Setting → ℕ → World → World × SysResult (Unit {0})
  pub read_setting : ℕ → Setting → World → World × SysResult ℕ
  pub message : ℕ → Option Bytes → Bool → ℕ → ℕ → ℕ → World → World × SysResult (ℕ → ℕ)
  pub strerror : ℕ → String
  pub spi_no_cs : ℕ

-- `fd` is missing where `_fd` is -1.
pub record SpiDevice : Type 0 where
  pub fd : Option ℕ
  pub config : SpiConfig

abbrev pub is_open : SpiDevice → Bool
is_open s = elim s.fd [ none ↦ false | some fd ↦ true ]

abbrev pub requested_mode : ℕ → SpiConfig → ℕ
requested_mode spi_no_cs config =
    if config.no_kernel_cs then bit_or config.mode spi_no_cs else config.mode

abbrev join : List String → String
join [] = ""
join (s ∷ strings) = str_append s (join strings)

abbrev pub mismatch_message : SpiConfig → ℕ → ℕ → ℕ → ℕ → String
mismatch_message config mode actual_mode actual_bits actual_speed = join (
    "SPI configuration readback mismatch on "
    ∷ config.path
    ∷ " (requested mode="
    ∷ to_string mode
    ∷ ", bits="
    ∷ to_string config.bits_per_word
    ∷ ", speed="
    ∷ to_string config.speed_hz
    ∷ "; actual mode="
    ∷ to_string actual_mode
    ∷ ", bits="
    ∷ to_string actual_bits
    ∷ ", speed="
    ∷ to_string actual_speed
    ∷ ")"
    ∷ [])

module _ (Y : SpiSystem) where
  -- A result of the system, or the system_error of throwSystemError.
  abbrev pub or_system_error : {A : Type 0} → String → Y.World × SysResult A → Y.World × Outcome A
  or_system_error action (w, done a) = (w, returned a)
  or_system_error action (w, errno code) =
      (w, failed (str_append action (str_append ": " (Y.strerror code))))

  unfoldable pub and_then :
      {A B : Type 0}
      → (A → Y.World → Y.World × Outcome B)
      → Y.World × Outcome A
      → Y.World × Outcome B
  and_then f (w, returned a) = f a w
  and_then f (w, cancelled) = (w, cancelled)
  and_then f (w, unavailable message) = (w, unavailable message)
  and_then f (w, failed message) = (w, failed message)

  -- `configure` for a setting that is written, and for one that is read back.
  abbrev pub write : ℕ → String → Setting → ℕ → Y.World → Y.World × Outcome (Unit {0})
  write fd action setting value w = or_system_error action (Y.write_setting fd setting value w)

  abbrev pub read : ℕ → String → Setting → Y.World → Y.World × Outcome ℕ
  read fd action setting w = or_system_error action (Y.read_setting fd setting w)

  abbrev pub compare : SpiConfig → ℕ → ℕ → ℕ → Outcome (Unit {0})
  compare config actual_mode actual_bits actual_speed =
      let mode = requested_mode Y.spi_no_cs config in
      if actual_mode != mode
        || actual_bits != config.bits_per_word
        || actual_speed != config.speed_hz
      then failed (mismatch_message config mode actual_mode actual_bits actual_speed)
      else returned tt

  abbrev pub write_settings : SpiConfig → ℕ → Y.World → Y.World × Outcome (Unit {0})
  write_settings config fd w =
      and_then
        (λ u w.
          and_then
            (λ u w.
              write fd (str_append "configure SPI speed on " config.path) spi_speed config.speed_hz
                w)
            (write fd (str_append "configure SPI bits per word on " config.path) spi_bits
              config.bits_per_word w))
        (write fd (str_append "configure SPI mode on " config.path) spi_mode
          (requested_mode Y.spi_no_cs config) w)

  abbrev pub read_settings : SpiConfig → ℕ → Y.World → Y.World × Outcome (Unit {0})
  read_settings config fd w =
      and_then
        (λ actual_mode w.
          and_then
            (λ actual_bits w.
              and_then (λ actual_speed w. (w, compare config actual_mode actual_bits actual_speed))
                (read fd (str_append "read back SPI speed on " config.path) spi_speed w))
            (read fd (str_append "read back SPI bits per word on " config.path) spi_bits w))
        (read fd (str_append "read back SPI mode on " config.path) spi_mode w)

  -- The `try` of open.
  unfoldable pub settle : SpiConfig → ℕ → Y.World → Y.World × Outcome (Unit {0})
  unfolding and_then
  settle config fd w = and_then (λ u w. read_settings config fd w) (write_settings config fd w)

  unfoldable pub close : SpiDevice × Y.World → SpiDevice × Y.World
  close (s, w) = (record s { fd = none }, elim s.fd [ none ↦ w | some fd ↦ Y.close_device fd w ])

  -- The end of open: a descriptor whose settings fail is closed.
  abbrev pub keep_or_close :
      SpiConfig
      → ℕ
      → SpiDevice
      → Y.World × Outcome (Unit {0})
      → (SpiDevice × Y.World) × Outcome (Unit {0})
  keep_or_close config fd s (w, returned u) =
      ((record { fd = some fd; config = config }, w), returned u)
  keep_or_close config fd s (w, cancelled) = ((s, Y.close_device fd w), cancelled)
  keep_or_close config fd s (w, unavailable message) =
      ((s, Y.close_device fd w), unavailable message)
  keep_or_close config fd s (w, failed message) = ((s, Y.close_device fd w), failed message)

  abbrev pub opened :
      SpiConfig → SpiDevice → Y.World × Outcome ℕ → (SpiDevice × Y.World) × Outcome (Unit {0})
  opened config s (w, returned fd) = keep_or_close config fd s (settle config fd w)
  opened config s (w, cancelled) = ((s, w), cancelled)
  opened config s (w, unavailable message) = ((s, w), unavailable message)
  opened config s (w, failed message) = ((s, w), failed message)

  -- open behind its tests and its close.
  unfoldable pub open_closed :
      SpiConfig → SpiDevice × Y.World → (SpiDevice × Y.World) × Outcome (Unit {0})
  unfolding settle
  open_closed config (s, w) =
      opened config s
        (or_system_error (str_append "open SPI device " config.path) (Y.open_device config.path w))

  unfoldable pub open_spi_device :
      SpiConfig → SpiDevice × Y.World → (SpiDevice × Y.World) × Outcome (Unit {0})
  unfolding close open_closed
  open_spi_device config s =
      if str_eq config.path ""
      then (s, failed "SPI device path must not be empty")
      else if config.speed_hz == 0
      then (s, failed "SPI speed must be greater than zero")
      else if config.bits_per_word == 0
      then (s, failed "SPI bits per word must be greater than zero")
      else open_closed config (close s)

  -- The transfer of `size` bytes from a buffer that may be null, into one if `receives`.
  unfoldable pub transfer :
      Option Bytes → Bool → ℕ → SpiDevice → Y.World → Y.World × Outcome (ℕ → ℕ)
  transfer tx receives size s w = elim s.fd [
    | none ↦ (w, failed "SPI device is not open")
    | some fd ↦
        if size == 0
        then (w, returned (λ i. 0))
        else if is_null tx && not receives
        then (w, failed "SPI transfer needs a transmit or receive buffer")
        else if ltb 0xFFFF_FFFF size
        then (w, failed "SPI transfer exceeds the Linux spidev message size")
        else or_system_error (str_append "SPI transfer on " s.config.path)
            (Y.message fd tx receives size s.config.speed_hz s.config.bits_per_word w)
  ]
    where
      is_null : Option Bytes → Bool
      is_null none = true
      is_null (some bytes) = false
