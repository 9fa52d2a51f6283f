-- ===== src/LinuxBackend/Hardware/Released.antt =====
-- What is left of the hardware by open and close, over the drivers of src/hal.
use cap_cc1101_nfc.Base.{refl, ◌||◌}
use cap_cc1101_nfc.Hal.Power.{disable}
use cap_cc1101_nfc.Hal.Spi.{is_open}
use cap_cc1101_nfc.Hal.Spi as Spi
use cap_cc1101_nfc.LinuxBackend.Opening.{close}
use cap_cc1101_nfc.LinuxBackend.Released.{Resources}
use cap_cc1101_nfc.LinuxBackend.Released.Opens.{Opens}
use cap_cc1101_nfc.LinuxBackend.Hardware.{Hardware, hardware_board}

-- What is held: the SPI descriptor, the request of the interrupt line, and of the power the request of
-- its line or its flag. The supply itself is not among it, which disable leaves on.
unfoldable pub devices_held : {Y : Hardware} → Resources (hardware_board Y)
unfolding disable Spi.close
devices_held = record {
  spi_held = λ h. is_open h.spi;
  line_held = λ h. h.line_requested;
  power_held = λ h. h.power.gpio26_requested || h.power.enabled;
  stop_line = λ h. refl;
  overlay_line = λ path h. refl;
  close_spi_spi = λ h. refl;
  close_spi_line = λ h. refl;
  release_spi = λ h. refl;
  release_line = λ h. refl;
  disable_spi = λ h. refl;
  disable_line = λ h. refl;
  disable_power = λ h. refl;
}
