-- ===== src/LinuxBackend/Released.antt =====
-- What the backend holds of the hardware.
pub mod Opens
pub mod Runs
use cap_cc1101_nfc.Base.{
  ℕ, zero, suc, ◌≡◌, refl, ap, sym, subst, ◌∙◌, String, Bool, true, false, List, [], ◌∷◌, Option,
  none, some, if◌then◌else◌, arith,
}
use cap_cc1101_nfc.Types.{Outcome, returned, cancelled, unavailable, failed, ReaderInfo}
use cap_cc1101_nfc.St25r3916.{Driver, ChipInfo, new_driver}
use cap_cc1101_nfc.St25r3916.Action.{Bus}
use cap_cc1101_nfc.St25r3916.Lifecycle.{initialize}
use cap_cc1101_nfc.St25r3916.Lifecycle.Ready.{initialize-ready}
use cap_cc1101_nfc.LinuxBackend.{fresh}
use cap_cc1101_nfc.LinuxBackend.Board.{
  LinuxBackendConfig, Board, SpiConfig, throw_if_cancelled, linux_transport,
}
use cap_cc1101_nfc.LinuxBackend.Opening.{
  ReaderBackend, new_backend, stop_driver, close, Stage, follow_stage, roll_back, open_stages,
  open_reader, start_discovery, poll_discovery, stop_discovery, with_driver, stop_with, at_stage,
  staged, call, configure, configured, or_error, load_overlay, request_line, enable_power, open_spi,
  start_driver, reader_info, driver_config,
}

-- A board that says what of it the backend holds: what each call gives back, and what it leaves
-- alone. Of the power that is what the backend has requested of it, not whether it is on.
pub record Resources (Y : Board) : Type 0 where
  pub spi_held : Y.World → Bool
  pub line_held : Y.World → Bool
  pub power_held : Y.World → Bool
  pub stop_line : (w : Y.World) → line_held (Y.stop_requested w).0 ≡ line_held w
  pub overlay_line :
      (path : String) (w : Y.World) → line_held (Y.ensure_overlay path w).0 ≡ line_held w
  pub close_spi_spi : (w : Y.World) → spi_held (Y.close_spi w) ≡ false
  pub close_spi_line : (w : Y.World) → line_held (Y.close_spi w) ≡ line_held w
  pub release_spi : (w : Y.World) → spi_held (Y.release_line w) ≡ spi_held w
  pub release_line : (w : Y.World) → line_held (Y.release_line w) ≡ false
  pub disable_spi : (w : Y.World) → spi_held (Y.disable_power w) ≡ spi_held w
  pub disable_line : (w : Y.World) → line_held (Y.disable_power w) ≡ line_held w
  pub disable_power : (w : Y.World) → power_held (Y.disable_power w) ≡ false

module _ {Y : Board} (R : Resources Y) where
  -- A backend that has not set up the line does not hold it, and has no driver.
  pub record IsAccounted (s : ReaderBackend Y) : Type 0 where
    pub line : s.has_interrupt ≡ false → R.line_held s.world ≡ false
    pub no_driver : s.has_interrupt ≡ false → s.driver ≡ none

  -- Nothing of the board is held, and nothing is left of the reader.
  pub record IsClosed (s : ReaderBackend Y) : Type 0 where
    pub spi : R.spi_held s.world ≡ false
    pub line : R.line_held s.world ≡ false
    pub power : R.power_held s.world ≡ false
    pub driver : s.driver ≡ none
    pub no_interrupt : s.has_interrupt ≡ false
    pub opened : s.opened ≡ false
    pub scanning : s.scanning ≡ false

  close-spi :
      (b : Bool) (w : Y.World)
      → R.spi_held (Y.disable_power (if b then Y.release_line (Y.close_spi w) else Y.close_spi w))
        ≡ false
  close-spi b w = ground (
    arith,
    R.disable_spi (Y.release_line (Y.close_spi w)),
    R.disable_spi (Y.close_spi w),
    R.release_spi (Y.close_spi w),
    R.close_spi_spi w,
  )

  close-line :
      (b : Bool) (d : Option Driver) (w : Y.World)
      → (b ≡ false → R.line_held w ≡ false)
      → (b ≡ false → d ≡ none)
      → let v = Y.close_spi (stop_driver Y d w) in
        R.line_held (Y.disable_power (if b then Y.release_line v else v)) ≡ false
  close-line true d w h k = R.disable_line _ ∙ R.release_line (Y.close_spi (stop_driver Y d w))
  close-line false none w h k = R.disable_line _ ∙ R.close_spi_line w ∙ h refl
  close-line false (some d) w h k = ground (arith, k refl)

  pub close-IsClosed : (s : ReaderBackend Y) → IsAccounted s → IsClosed (close s)
  unfolding close
  close-IsClosed s h = record {
    spi = close-spi s.has_interrupt (stop_driver Y s.driver s.world);
    line = close-line s.has_interrupt s.driver s.world h.line h.no_driver;
    power = R.disable_power _;
    driver = refl;
    no_interrupt = refl;
    opened = refl;
    scanning = refl;
  }

  pub closed-IsAccounted : (s : ReaderBackend Y) → IsClosed s → IsAccounted s
  closed-IsAccounted s h = record { line = λ e. h.line; no_driver = λ e. h.driver }
