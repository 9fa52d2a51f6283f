-- ===== src/Hal/Spi/Held.antt =====
-- What the SPI device holds: the descriptor that it has, and no other, with the settings asked for.
use cap_cc1101_nfc.Base.{
  ℕ, ◌+◌, ◌-◌, ◌≡◌, ◌∙◌, refl, arith, String, Bool, true, false, Option, none, some, ◌==◌,
  if◌then◌else◌,
}
use package.text.Mathlib.Text.{◌==◌ as str_eq}
use cap_cc1101_nfc.Types.{Outcome, returned, cancelled, unavailable, failed}
use cap_cc1101_nfc.LinuxBackend.Board.{SpiConfig}
use cap_cc1101_nfc.Hal.Power.Pinctrl.{SysResult, done, errno}
use cap_cc1101_nfc.Hal.Spi.Configured.{Readback, Post, IsConfigured, settle-Post}
use cap_cc1101_nfc.Hal.Spi.{
  Setting, SpiSystem, SpiDevice, and_then, or_system_error, write, read, settle, close,
  keep_or_close, opened, open_closed, open_spi_device,
}

-- Whether a number is the device's descriptor, as a number.
abbrev pub here : ℕ → Option ℕ → ℕ
here x none = 0
here x (some fd) = if fd == x then 1 else 0

-- What `open` adds by its result.
abbrev pub added : ℕ → SysResult ℕ → ℕ
added x (done fd) = here x (some fd)
added x (errno code) = 0

-- A system that counts its open descriptors: only `open` and `close` change that.
pub record Descriptors (Y : SpiSystem) : Type 0 where
  pub held : ℕ → Y.World → ℕ
  pub open_held :
      (x : ℕ) (path : String) (w : Y.World)
      → held x (Y.open_device path w).0 ≡ held x w + added x (Y.open_device path w).1
  pub close_held :
      (x fd : ℕ) (w : Y.World) → held x (Y.close_device fd w) ≡ held x w - here x (some fd)
  pub write_held :
      (x fd : ℕ) (setting : Setting) (value : ℕ) (w : Y.World)
      → held x (Y.write_setting fd setting value w).0 ≡ held x w
  pub read_held :
      (x fd : ℕ) (setting : Setting) (w : Y.World)
      → held x (Y.read_setting fd setting w).0 ≡ held x w

module _ {Y : SpiSystem} (D : Descriptors Y) (R : Readback Y) (x : ℕ) where
  -- An end that holds as much as there was.
  abbrev Same : {A : Type 0} → ℕ → Y.World × Outcome A → Type 0
  Same n r = D.held x r.0 ≡ n

  and_then-Same :
      {A B : Type 0} (n : ℕ) (f : A → Y.World → Y.World × Outcome B) (r : Y.World × Outcome A)
      → D.held x r.0 ≡ n
      → ((a : A) (w : Y.World) → D.held x w ≡ n → D.held x (f a w).0 ≡ n)
      → D.held x (and_then Y f r).0 ≡ n
  unfolding and_then
  and_then-Same n f (w, returned a) h g = g a w h
  and_then-Same n f (w, cancelled) h g = h
  and_then-Same n f (w, unavailable message) h g = h
  and_then-Same n f (w, failed message) h g = h

  or_system_error-held :
      {A : Type 0} (action : String) (r : Y.World × SysResult A)
      → D.held x (or_system_error Y action r).0 ≡ D.held x r.0
  or_system_error-held action (w, done a) = refl
  or_system_error-held action (w, errno code) = refl

  write-Same :
      (n fd : ℕ) (action : String) (setting : Setting) (value : ℕ) (w : Y.World)
      → D.held x w ≡ n
      → D.held x (write Y fd action setting value w).0 ≡ n
  write-Same n fd action setting value w h =
      or_system_error-held action (Y.write_setting fd setting value w)
      ∙ D.write_held x fd setting value w
      ∙ h

  read-Same :
      (n fd : ℕ) (action : String) (setting : Setting) (w : Y.World)
      → D.held x w ≡ n
      → D.held x (read Y fd action setting w).0 ≡ n
  read-Same n fd action setting w h =
      or_system_error-held action (Y.read_setting fd setting w) ∙ D.read_held x fd setting w ∙ h

  settle-Same :
      (config : SpiConfig) (fd n : ℕ) (w : Y.World)
      → D.held x w ≡ n
      → D.held x (settle Y config fd w).0 ≡ n
  unfolding settle
  settle-Same config fd n w h = search (and_then-Same, write-Same, read-Same, h) depth 20

  -- The device holds its descriptor, and others hold `n`.
  abbrev pub IsHeld : ℕ → SpiDevice × Y.World → Type 0
  IsHeld n s = D.held x s.1 ≡ n + here x s.0.fd

  -- A device that is open keeps the configuration, and its descriptor has the settings, asked for.
  abbrev pub Opened : SpiConfig → (SpiDevice × Y.World) × Outcome (Unit {0}) → Type 0
  Opened config (s, returned u) =
      (s.0.config ≡ config) × ((fd : ℕ) × (s.0.fd ≡ some fd) × IsConfigured R config fd s.1)
  Opened config (s, cancelled) = Unit
  Opened config (s, unavailable message) = Unit
  Opened config (s, failed message) = Unit

  closed-IsHeld :
      (n fd : ℕ) (s : SpiDevice) (w : Y.World)
      → s.fd ≡ none
      → D.held x w ≡ n + here x (some fd)
      → IsHeld n (s, Y.close_device fd w)
  closed-IsHeld n fd s w none_yet h = ground (arith, none_yet, h, D.close_held x fd w)

  keep_or_close-lem :
      (config : SpiConfig) (n fd : ℕ) (s : SpiDevice) (r : Y.World × Outcome (Unit {0}))
      → s.fd ≡ none
      → D.held x r.0 ≡ n + here x (some fd)
      → Post R (λ u. IsConfigured R config fd) r
      → IsHeld n (keep_or_close Y config fd s r).0 × Opened config (keep_or_close Y config fd s r)
  keep_or_close-lem config n fd s (w, returned u) e h k = (h, (refl, (fd, refl, k)))
  keep_or_close-lem config n fd s (w, cancelled) e h k = (closed-IsHeld n fd s w e h, tt)
  keep_or_close-lem config n fd s (w, unavailable message) e h k = (closed-IsHeld n fd s w e h, tt)
  keep_or_close-lem config n fd s (w, failed message) e h k = (closed-IsHeld n fd s w e h, tt)

  opened-lem :
      (config : SpiConfig) (action : String) (n : ℕ) (s : SpiDevice) (r : Y.World × SysResult ℕ)
      → s.fd ≡ none
      → D.held x r.0 ≡ n + added x r.1
      → let o = opened Y config s (or_system_error Y action r) in IsHeld n o.0 × Opened config o
  opened-lem config action n s (w, errno code) e h = (ground (arith, e, h), tt)
  opened-lem config action n s (w, done fd) e h =
      keep_or_close-lem config n fd s (settle Y config fd w) e
        (settle-Same config fd (n + here x (some fd)) w h) (settle-Post R config fd w)

  open_closed-lem :
      (config : SpiConfig) (n : ℕ) (s : SpiDevice × Y.World)
      → s.0.fd ≡ none
      → IsHeld n s
      → let o = open_closed Y config s in IsHeld n o.0 × Opened config o
  unfolding open_closed
  open_closed-lem config n (s, w) e h =
      opened-lem config _ n s (Y.open_device config.path w) e
        (ground (arith, e, h, D.open_held x config.path w))

  close-IsHeld : (n : ℕ) (s : SpiDevice × Y.World) → IsHeld n s → IsHeld n (close Y s)
  unfolding close
  close-IsHeld n (s, w) h = closed s.fd h
    where
      closed :
          (fd : Option ℕ)
          → D.held x w ≡ n + here x fd
          → D.held x (elim fd as (λ x. Y.World) [ none ↦ w | some fd ↦ Y.close_device fd w ])
            ≡ n + 0
      closed none h = h
      closed (some fd) h = ground (arith, h, D.close_held x fd w)

  -- `open` leaves the system holding the descriptor that the device then has and what others held,
  -- also where a test, the opening, a setting or its read back fails, and where a device was open
  -- before; if it returns, the device is open, keeps the configuration that was asked for, and the mode, the
  -- bits per word and the speed of its descriptor are those of that configuration.
  pub open_spi_device-IsHeld :
      (config : SpiConfig) (n : ℕ) (s : SpiDevice × Y.World)
      → IsHeld n s
      → let o = open_spi_device Y config s in IsHeld n o.0 × Opened config o
  unfolding open_spi_device close
  open_spi_device-IsHeld config n s h =
      refused (str_eq config.path "") "SPI device path must not be empty" _ (
        refused (config.speed_hz == 0) "SPI speed must be greater than zero" _ (
          refused (config.bits_per_word == 0) "SPI bits per word must be greater than zero" _
            (open_closed-lem config n (close Y s) refl (close-IsHeld n s h))))
    where
      refused :
          (b : Bool) (message : String) (o : (SpiDevice × Y.World) × Outcome (Unit {0}))
          → IsHeld n o.0 × Opened config o
          → let r = if b then (s, failed message) else o in IsHeld n r.0 × Opened config r
      refused true message o k = (h, tt)
      refused false message o k = k
