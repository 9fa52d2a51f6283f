-- ===== src/Hal/Spi/Configured.antt =====
-- The settings of a descriptor that settle of src/hal/linux_spi_device.cpp accepts.
use cap_cc1101_nfc.Base.{
  ℕ, ◌!=◌, ◌||◌, ◌≡◌, ◌∙◌, refl, arith, String, Bool, true, false, if◌then◌else◌,
}
use cap_cc1101_nfc.Types.{Outcome, returned, cancelled, unavailable, failed}
use cap_cc1101_nfc.LinuxBackend.Board.{SpiConfig}
use cap_cc1101_nfc.Hal.Power.Pinctrl.{SysResult, done, errno}
use cap_cc1101_nfc.Hal.Spi.{
  Setting, spi_mode, spi_bits, spi_speed, SpiSystem, requested_mode, mismatch_message, compare,
  write_settings, read_settings, and_then, or_system_error, read, settle,
}

-- A system whose read of a setting reports it and changes none.
pub record Readback (Y : SpiSystem) : Type 0 where
  pub value : ℕ → Setting → Y.World → ℕ
  pub reported :
      (fd : ℕ) (setting : Setting) (w : Y.World) (n : ℕ)
      → (Y.read_setting fd setting w).1 ≡ done n
      → value fd setting w ≡ n
  pub unchanged :
      (fd : ℕ) (setting other : Setting) (w : Y.World)
      → value fd other (Y.read_setting fd setting w).0 ≡ value fd other w

-- What a configuration asks of a setting.
abbrev pub wanted : ℕ → SpiConfig → Setting → ℕ
wanted spi_no_cs config spi_mode = requested_mode spi_no_cs config
wanted spi_no_cs config spi_bits = config.bits_per_word
wanted spi_no_cs config spi_speed = config.speed_hz

module _ {Y : SpiSystem} (R : Readback Y) where
  -- What holds of a call's value and of the system after it, if it returns.
  abbrev pub Post : {A : Type 0} → (A → Y.World → Type 0) → Y.World × Outcome A → Type 0
  Post Q (w, returned a) = Q a w
  Post Q (w, cancelled) = Unit
  Post Q (w, unavailable message) = Unit
  Post Q (w, failed message) = Unit

  and_then-Post :
      {A B : Type 0} (P : A → Y.World → Type 0) (Q : B → Y.World → Type 0)
      (f : A → Y.World → Y.World × Outcome B) (r : Y.World × Outcome A)
      → Post P r
      → ((a : A) (w : Y.World) → P a w → Post Q (f a w))
      → Post Q (and_then Y f r)
  unfolding and_then
  and_then-Post P Q f (w, returned a) h g = g a w h
  and_then-Post P Q f (w, cancelled) h g = tt
  and_then-Post P Q f (w, unavailable message) h g = tt
  and_then-Post P Q f (w, failed message) h g = tt

  or_system_error-Post :
      {A : Type 0} (Q : A → Y.World → Type 0) (action : String) (r : Y.World × SysResult A)
      → ((a : A) → r.1 ≡ done a → Q a r.0)
      → Post Q (or_system_error Y action r)
  or_system_error-Post Q action (w, done a) h = h a refl
  or_system_error-Post Q action (w, errno code) h = tt

  -- A read reports its setting and leaves the others.
  abbrev Read : ℕ → Setting → Y.World → ℕ → Y.World → Type 0
  Read fd setting before n w =
      (R.value fd setting before ≡ n)
      × ((other : Setting) → R.value fd other w ≡ R.value fd other before)

  read-Post :
      (fd : ℕ) (action : String) (setting : Setting) (w : Y.World)
      → Post (Read fd setting w) (read Y fd action setting w)
  read-Post fd action setting w =
      or_system_error-Post (Read fd setting w) action (Y.read_setting fd setting w)
        (λ n e. (R.reported fd setting w n e, λ other. R.unchanged fd setting other w))

  -- The settings of a descriptor are those that a configuration asks for.
  abbrev pub IsConfigured : SpiConfig → ℕ → Y.World → Type 0
  IsConfigured config fd w =
      (setting : Setting) → R.value fd setting w ≡ wanted Y.spi_no_cs config setting

  compare-Post :
      (config : SpiConfig) (fd mode bits speed : ℕ) (w : Y.World)
      → R.value fd spi_mode w ≡ mode
      → R.value fd spi_bits w ≡ bits
      → R.value fd spi_speed w ≡ speed
      → Post (λ u. IsConfigured config fd) (w, compare Y config mode bits speed)
  compare-Post config fd mode bits speed w m b s = checked differs refl
    where
      differs : Bool
      differs =
          mode != requested_mode Y.spi_no_cs config
          || bits != config.bits_per_word
          || speed != config.speed_hz

      set : differs ≡ false → IsConfigured config fd w
      set e spi_mode = m ∙ ground (arith, e)
      set e spi_bits = b ∙ ground (arith, e)
      set e spi_speed = s ∙ ground (arith, e)

      checked :
          (c : Bool)
          → differs ≡ c
          → Post
              (λ u. IsConfigured config fd)
              (
                w,
                if c
                    then failed (
                        mismatch_message config (requested_mode Y.spi_no_cs config) mode bits speed)
                    else returned tt,
              )
      checked true e = tt
      checked false e = set e

  read_settings-Post :
      (config : SpiConfig) (fd : ℕ) (w : Y.World)
      → Post (λ u. IsConfigured config fd) (read_settings Y config fd w)
  read_settings-Post config fd w =
      and_then-Post (Read fd spi_mode w) (λ u. IsConfigured config fd) _ _
        (read-Post fd _ spi_mode w)
        (λ mode v a.
          and_then-Post (Read fd spi_bits v) (λ u. IsConfigured config fd) _ _
            (read-Post fd _ spi_bits v)
            (λ bits u b.
              and_then-Post (Read fd spi_speed u) (λ u. IsConfigured config fd) _ _
                (read-Post fd _ spi_speed u)
                (λ speed t c.
                  compare-Post config fd mode bits speed t
                    (c.1 spi_mode ∙ b.1 spi_mode ∙ a.1 spi_mode ∙ a.0)
                    (c.1 spi_bits ∙ b.1 spi_bits ∙ b.0) (c.1 spi_speed ∙ c.0))))

  pub settle-Post :
      (config : SpiConfig) (fd : ℕ) (w : Y.World)
      → Post (λ u. IsConfigured config fd) (settle Y config fd w)
  unfolding settle
  settle-Post config fd w =
      and_then-Post (λ u w. Unit {0}) (λ u. IsConfigured config fd) _ (write_settings Y config fd w)
        (any (write_settings Y config fd w)) (λ u v t. read_settings-Post config fd v)
    where
      any : (r : Y.World × Outcome (Unit {0})) → Post (λ u w. Unit {0}) r
      any (w, returned u) = tt
      any (w, cancelled) = tt
      any (w, unavailable message) = tt
      any (w, failed message) = tt
