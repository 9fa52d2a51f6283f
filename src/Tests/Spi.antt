-- ===== src/Tests/Spi.antt =====
-- The SPI device over a system that reads another speed back than was asked for, and over one that
-- reads what was.
use cap_cc1101_nfc.Base.{ℕ, ◌+◌, ◌-◌, ◌≡◌, refl, false, none, some}
use cap_cc1101_nfc.LinuxBackend.Board.{SpiConfig}
use cap_cc1101_nfc.Hal.Power.Pinctrl.{done}
use cap_cc1101_nfc.Hal.Spi.{
  Setting, SpiSystem, SpiDevice, spi_mode, spi_bits, spi_speed, and_then, settle, close,
  open_closed, open_spi_device,
}
use cap_cc1101_nfc.Hal.Spi.Configured.{Readback}
use cap_cc1101_nfc.Hal.Spi.Held.{here, Descriptors, IsHeld, Opened, open_spi_device-IsHeld}

abbrev asked : SpiConfig
asked = record {
  path = "/dev/spidev0.2";
  speed_hz = 5000000;
  mode = 1;
  bits_per_word = 8;
  no_kernel_cs = false;
}

abbrev setting_of : Setting → ℕ
setting_of spi_mode = 1
setting_of spi_bits = 8
setting_of spi_speed = 5000000

done-injective : {m n : ℕ} → done m ≡ done n → m ≡ n
done-injective e = cc

-- The world counts how often each descriptor is open.
abbrev slow : SpiSystem
slow = record {
  World = ℕ → ℕ;
  open_device = λ path w. ((λ x. w x + here x (some 5)), done 5);
  close_device = λ fd w x. w x - here x (some fd);
  write_setting = λ fd setting value w. (w, done tt);
  read_setting = λ fd setting w.
      (w, done (elim setting [ spi_mode ↦ 1 | spi_bits ↦ 8 | spi_speed ↦ 4000000 ]));
  message = λ fd tx receives size speed bits w. (w, done (λ i. 0));
  strerror = λ code. "error";
  spi_no_cs = 0x40;
}

abbrev device_seven : SpiDevice
device_seven = record { fd = some 7; config = asked }

-- Descriptor 7 is the device's, and open once.
abbrev one_open : ℕ → ℕ
one_open x = here x (some 7)

-- The device that was open is closed, and the new descriptor as well.
speed_mismatch :
    (open_spi_device slow asked (device_seven, one_open)).0.0 ≡ record device_seven { fd = none }
unfolding open_spi_device open_closed close settle and_then
speed_mismatch = refl

-- A system that reports what is always set.
abbrev set_up : SpiSystem
set_up = record slow { read_setting = λ fd setting w. (w, done (setting_of setting)) }

abbrev set_up_descriptors : Descriptors set_up
set_up_descriptors = record {
  held = λ x w. w x;
  open_held = λ x path w. refl;
  close_held = λ x fd w. refl;
  write_held = λ x fd setting value w. refl;
  read_held = λ x fd setting w. refl;
}

abbrev set_up_readback : Readback set_up
set_up_readback = record {
  value = λ fd setting w. setting_of setting;
  reported = λ fd setting w n e. done-injective e;
  unchanged = λ fd setting other w. refl;
}

open_spi_device-IsHeld_example :
    let o = open_spi_device set_up asked (device_seven, one_open) in
    IsHeld set_up_descriptors set_up_readback 7 0 o.0
    × Opened set_up_descriptors set_up_readback 7 asked o
open_spi_device-IsHeld_example =
    open_spi_device-IsHeld set_up_descriptors set_up_readback 7 asked 0 (device_seven, one_open)
      refl
