-- ===== src/Hal/Power.antt =====
-- src/hal/cardputerzero_cap_power.cpp over the calls of the system, which are a parameter.
pub mod Pinctrl
pub mod Held
pub mod Fuel
pub mod Settled
use Prim.Native.String.{◌++◌ as str_append}
use cap_cc1101_nfc.Base.{
  ℕ, zero, suc, ◌+◌, ◌*◌, ◌==◌, ◌!=◌, String, Bool, true, false, not, leb, Bytes, List, [], ◌∷◌,
  length, if◌then◌else◌, Option, none, some,
}
use cap_cc1101_nfc.Types.{Outcome, returned, cancelled, unavailable, failed}
use cap_cc1101_nfc.Hal.Power.Pinctrl.{
  ℤ, pos, negsuc, SysResult, done, errno, Number, PowerSystem, run_pinctrl,
}

-- What a step that may throw comes to: a value, a system_error of permission_denied, or any other
-- exception, with its message.
pub data Attempt (A : Type 0) : Type 0 where
  succeeded : A → Attempt A
  denied broken : String → Attempt A

-- The flags of CardputerZeroCapPower::Impl; its line is behind the system.
pub record PowerImpl : Type 0 where
  pub gpio26_pinctrl_high : Bool
  pub gpio26_requested : Bool
  pub previous_gpio_fun_brightness : ℤ
  pub gpio_fun_restore_needed : Bool
  pub enabled : Bool

abbrev pub new_power : PowerImpl
new_power = record {
  gpio26_pinctrl_high = false;
  gpio26_requested = false;
  previous_gpio_fun_brightness = pos 0;
  gpio_fun_restore_needed = false;
  enabled = false;
}

abbrev pub ext_5v_led_name : String
ext_5v_led_name = "ext_5v_out"

abbrev pub ext_usb_gpio_fun_led_name : String
ext_usb_gpio_fun_led_name = "ext_usb_gpio_fun"

abbrev pub led_attribute_path : String → String → String
led_attribute_path name attribute =
    str_append "/sys/class/leds" (str_append "/" (str_append name (str_append "/" attribute)))

abbrev pub is_zero : ℤ → Bool
is_zero (pos n) = n == 0
is_zero (negsuc n) = false

abbrev pub is_positive : ℤ → Bool
is_positive (pos n) = n != 0
is_positive (negsuc n) = false

-- The answer of enable, with the error of `false`.
pub data Enabled : Type 0 where
  yes : Enabled
  no : String → Enabled

module _ (Y : PowerSystem) where
  abbrev pub Task : Type 0 → Type 0
  Task A = Y.World → Y.World × Attempt A

  unfoldable pub and_then :
      {A B : Type 0} → (A → Task B) → Y.World × Attempt A → Y.World × Attempt B
  and_then f (w, succeeded a) = f a w
  and_then f (w, denied message) = (w, denied message)
  and_then f (w, broken message) = (w, broken message)

  -- std::system_error
  abbrev pub system_error : {A : Type 0} → ℕ → String → Attempt A
  system_error code what =
      if Y.is_permission_denied code
      then denied (str_append what (str_append ": " (Y.strerror code)))
      else broken (str_append what (str_append ": " (Y.strerror code)))

  abbrev pub led_class_available : String → Y.World → Bool
  led_class_available name w = Y.exists_file (led_attribute_path name "brightness") w

  -- What readLedAttribute makes of the text, and of the size that the read reports.
  abbrev pub parsed : String → Bytes → Attempt ℤ
  parsed path [] = broken (str_append "read " (str_append path " returned no data"))
  parsed path (b ∷ bytes) = elim (Y.strtol (b ∷ bytes)) [
    | Number.value n ↦ succeeded n
    | Number.out_of_range code ↦ system_error code (str_append "parse " path)
    | Number.no_digits ↦ broken (str_append "invalid integer in " path)
  ]

  abbrev pub after_read : String → ℕ → Y.World × SysResult Bytes → Y.World × Attempt ℤ
  after_read path fd (w, errno code) =
      (Y.close_file fd w, system_error code (str_append "read " path))
  after_read path fd (w, done text) = (Y.close_file fd w, parsed path text)

  abbrev pub after_open : String → Y.World × SysResult ℕ → Y.World × Attempt ℤ
  after_open path (w, errno code) = (w, system_error code (str_append "open " path))
  after_open path (w, done fd) = after_read path fd (Y.read_file fd w)

  unfoldable pub read_led_attribute : String → String → Task ℤ
  read_led_attribute name attribute w =
      let path = led_attribute_path name attribute in after_open path (Y.open_file path false w)

  abbrev pub after_write : String → ℕ → Y.World × SysResult ℕ → Y.World × Attempt (Unit {0})
  after_write path fd (w, errno code) =
      (Y.close_file fd w, system_error code (str_append "write " path))
  after_write path fd (w, done size) = (
    Y.close_file fd w,
    if size != 1 then broken (str_append "short write to " path) else succeeded tt,
  )

  abbrev pub after_open_write : String → Bool → Y.World × SysResult ℕ → Y.World × Attempt (Unit {0})
  after_open_write path enabled (w, errno code) =
      (w, system_error code (str_append "open " (str_append path " for writing")))
  after_open_write path enabled (w, done fd) =
      after_write path fd (Y.write_file fd (if enabled then b'1' else b'0') w)

  unfoldable pub write_led_value : String → Bool → Task (Unit {0})
  write_led_value name enabled w =
      let path = led_attribute_path name "brightness" in
      after_open_write path enabled (Y.open_file path true w)

  -- The message for a write that is not permitted.
  abbrev pub explain : String → Y.World × Attempt (Unit {0}) → Y.World × Attempt (Unit {0})
  explain message (w, succeeded u) = (w, succeeded u)
  explain message (w, denied what) = (w, broken message)
  explain message (w, broken what) = (w, broken what)

  abbrev pub selector_message : String
  selector_message =
      str_append "HAT GPIO/USB selector is read-only for this user; grant write access to " (
        str_append (led_attribute_path ext_usb_gpio_fun_led_name "brightness")
          " or run this hardware test as root")

  abbrev pub ext_5v_message : String
  ext_5v_message = str_append "EXT5V LED class is read-only for this user; grant write access to " (
      str_append (led_attribute_path ext_5v_led_name "brightness")
        ", pre-enable it as root, or run this hardware test as root")

  -- A step on the flags and the system.
  abbrev pub Step : Type 0 → Type 0
  Step A = PowerImpl × Y.World → (PowerImpl × Y.World) × Attempt A

  unfoldable pub follow_step :
      {A B : Type 0}
      → (A → Step B)
      → (PowerImpl × Y.World) × Attempt A
      → (PowerImpl × Y.World) × Attempt B
  follow_step f (s, succeeded a) = f a s
  follow_step f (s, denied message) = (s, denied message)
  follow_step f (s, broken message) = (s, broken message)

  abbrev pub task : {A : Type 0} → Task A → Step A
  task m (p, w) = let (v, a) = m w in ((p, v), a)

  -- The selector is asked to route the GPIO, if it does not, and is to be restored then.
  abbrev pub clear_selector : ℤ → Step (Unit {0})
  clear_selector previous s =
      if is_zero previous
      then (s, succeeded tt)
      else follow_step
          (λ u (p, w). ((record p { gpio_fun_restore_needed = true }, w), succeeded tt))
          (task (λ w. explain selector_message (write_led_value ext_usb_gpio_fun_led_name false w))
            s)

  abbrev pub check_selector : Step (Unit {0})
  check_selector s =
      follow_step
        (λ selector s. (
          s,
          if not (is_zero selector)
              then broken "HAT GPIO/USB selector remained in USB mode after requesting GPIO mode"
              else succeeded tt,
        ))
        (task (read_led_attribute ext_usb_gpio_fun_led_name "brightness") s)

  -- The selector is remembered, asked for and checked.
  abbrev pub set_selector : ℤ → Step (Unit {0})
  set_selector previous (p, w) =
      follow_step (λ u s. check_selector s)
        (clear_selector previous (record p { previous_gpio_fun_brightness = previous }, w))

  abbrev pub route_selector : Step (Unit {0})
  route_selector s =
      follow_step set_selector (task (read_led_attribute ext_usb_gpio_fun_led_name "brightness") s)

  -- The first `try` of enable.
  unfoldable pub route_gpio : Step (Unit {0})
  unfolding follow_step
  route_gpio (p, w) =
      if led_class_available ext_usb_gpio_fun_led_name w
      then route_selector (p, w)
      else ((p, w), succeeded tt)

  abbrev pub line_requested :
      PowerImpl → Y.World × Outcome (Unit {0}) → (PowerImpl × Y.World) × Attempt (Unit {0})
  line_requested p (w, returned u) = ((record p { gpio26_requested = true }, w), succeeded tt)
  line_requested p (w, cancelled) = ((p, w), broken "NFC operation cancelled")
  line_requested p (w, unavailable message) = ((p, w), broken message)
  line_requested p (w, failed message) = ((p, w), broken message)

  abbrev pub raise_ext_5v : Step (Unit {0})
  raise_ext_5v s =
      follow_step
        (λ previous s.
          if is_positive previous
          then (s, succeeded tt)
          else task (λ w. explain ext_5v_message (write_led_value ext_5v_led_name true w)) s)
        (task (read_led_attribute ext_5v_led_name "brightness") s)

  -- The read back, whose failure is only logged.
  abbrev pub read_back : Step (Unit {0})
  read_back (p, w) = ((p, (read_led_attribute ext_5v_led_name "brightness" w).0), succeeded tt)

  abbrev pub finish : Step (Unit {0})
  finish (p, w) =
      let (v, cancel) = Y.cancel_requested w in
      if cancel
      then ((p, v), broken "Cap power enable cancelled")
      else ((record p { enabled = true }, v), succeeded tt)

  -- The second `try` of enable.
  unfoldable pub raise_power : Step (Unit {0})
  unfolding follow_step
  raise_power (p, w) =
      follow_step
        (λ u s. follow_step (λ u s. follow_step (λ u s. finish s) (read_back s)) (raise_ext_5v s))
        (line_requested p (Y.request_output true w))

  -- The restoring write of disable, whose failure is only logged.
  unfoldable pub restore_selector : Bool → ℤ → Y.World → Y.World
  unfolding write_led_value
  restore_selector false previous w = w
  restore_selector true previous w =
      (write_led_value ext_usb_gpio_fun_led_name (not (is_zero previous)) w).0

  unfoldable pub disable : PowerImpl × Y.World → PowerImpl × Y.World
  unfolding restore_selector
  disable (p, w) =
      let v = if p.gpio26_requested then Y.release_output w else w in
      (
        record p {
          gpio26_requested = false;
          gpio26_pinctrl_high = false;
          gpio_fun_restore_needed = false;
          enabled = false;
        },
        restore_selector p.gpio_fun_restore_needed p.previous_gpio_fun_brightness v,
      )

  -- An exception ends in disable.
  unfoldable pub or_disable :
      ((PowerImpl × Y.World) → (PowerImpl × Y.World) × Enabled)
      → (PowerImpl × Y.World) × Attempt (Unit {0})
      → (PowerImpl × Y.World) × Enabled
  unfolding disable
  or_disable next (s, succeeded u) = next s
  or_disable next (s, denied message) = (disable s, no message)
  or_disable next (s, broken message) = (disable s, no message)

  -- logLedClassInterface: only what it reads is left of it.
  abbrev pub log_max : String → Y.World × Attempt ℤ → Y.World
  log_max name (w, succeeded brightness) = (read_led_attribute name "max_brightness" w).0
  log_max name (w, denied message) = w
  log_max name (w, broken message) = w

  unfoldable pub log_led_class_interface : String → Y.World → Y.World
  unfolding read_led_attribute
  log_led_class_interface name w =
      if led_class_available name w
      then log_max name (read_led_attribute name "brightness" w)
      else w

  abbrev pub unavailable_message : String
  unavailable_message = str_append "required LED class power control '" (
      str_append ext_5v_led_name (
        str_append "' is unavailable at " (
          str_append (led_attribute_path ext_5v_led_name "brightness")
            "; refusing to request the system-owned legacy GPIO line directly")))

  -- What follows pinctrl.
  abbrev pub pinned : PowerImpl → Y.World × Option String → (PowerImpl × Y.World) × Enabled
  pinned p (w, some error) = (disable (p, w), no error)
  pinned p (w, none) = or_disable (λ s. (s, yes)) (raise_power (p, w))

  -- What follows the routing.
  unfoldable pub set_pin : PowerImpl × Y.World → (PowerImpl × Y.World) × Enabled
  unfolding or_disable raise_power disable
  set_pin (p, w) =
      pinned (record p { gpio26_pinctrl_high = true })
        (run_pinctrl Y ("set" ∷ "26" ∷ "op" ∷ "dh" ∷ []) w)

  -- enable behind its first tests.
  unfoldable pub enable_now : PowerImpl × Y.World → (PowerImpl × Y.World) × Enabled
  unfolding or_disable route_gpio set_pin
  enable_now s = or_disable set_pin (route_gpio s)

  unfoldable pub enable : PowerImpl × Y.World → (PowerImpl × Y.World) × Enabled
  unfolding log_led_class_interface enable_now
  enable (p, w) =
      let logged =
        log_led_class_interface ext_usb_gpio_fun_led_name
          (log_led_class_interface ext_5v_led_name w) in
      let (v, cancel) = Y.cancel_requested logged in
      if p.enabled
      then ((p, w), yes)
      else if not (led_class_available ext_5v_led_name logged)
      then ((p, logged), no unavailable_message)
      else if cancel
      then ((p, v), no "Cap power enable cancelled")
      else enable_now (p, v)
