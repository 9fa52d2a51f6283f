-- ===== src/Hal/Power/Settled.antt =====
-- The flags of the Cap's power and the line of GPIO26 between its operations.
use cap_cc1101_nfc.Base.{
  ◌≡◌, ◌∙◌, refl, sym, ap, arith, String, Bool, true, false, not, Option, none, some, if◌then◌else◌,
  if_branches,
}
use cap_cc1101_nfc.Types.{Outcome, returned, cancelled, unavailable, failed}
use cap_cc1101_nfc.Hal.Power.Pinctrl.{ℤ, PowerSystem, run_pinctrl}
use cap_cc1101_nfc.Hal.Power.{
  unavailable_message, ext_usb_gpio_fun_led_name, ext_5v_led_name, is_zero, is_positive, task,
  selector_message, ext_5v_message, led_class_available, Attempt, succeeded, denied, broken,
  PowerImpl, Enabled, yes, no, read_led_attribute, write_led_value, explain, follow_step,
  set_selector, route_selector, route_gpio, raise_power, restore_selector, disable, or_disable,
  log_max, log_led_class_interface, pinned, set_pin, enable_now, enable, clear_selector,
  check_selector, line_requested, raise_ext_5v, read_back, finish,
}
use cap_cc1101_nfc.Hal.Power.Held.{
  Holdings, with_line, run_pinctrl-line, read_led_attribute-same, write_led_value-same,
}

module _ {Y : PowerSystem} (H : Holdings Y) where
  -- The flag of the line says what is requested.
  record IsTrue (s : PowerImpl × Y.World) : Type 0 where
    pub line : H.line s.1 ≡ s.0.gpio26_requested

  -- The flags and the line of a Cap whose power is not enabled, and of one whose power is.
  pub record IsSettled (s : PowerImpl × Y.World) : Type 0 where
    pub line : H.line s.1 ≡ s.0.gpio26_requested
    pub off :
        s.0.enabled ≡ false
        → (s.0.gpio26_requested ≡ false)
          × (s.0.gpio26_pinctrl_high ≡ false)
          × (s.0.gpio_fun_restore_needed ≡ false)
    pub on : s.0.enabled ≡ true → s.0.gpio26_requested ≡ true

  restore_selector-line :
      (b : Bool) (previous : ℤ) (w : Y.World) → H.line (restore_selector Y b previous w) ≡ H.line w
  unfolding restore_selector
  restore_selector-line false previous w = refl
  restore_selector-line true previous w =
      write_led_value-same H.line_silent ext_usb_gpio_fun_led_name (not (is_zero previous)) w

  -- `disable` releases the line if it is requested, and clears every flag.
  disable-lem :
      (p : PowerImpl) (w : Y.World)
      → H.line w ≡ p.gpio26_requested
      → let s = disable Y (p, w) in
        (H.line s.1 ≡ false)
        × (s.0 ≡ record p {
          gpio26_requested = false;
          gpio26_pinctrl_high = false;
          gpio_fun_restore_needed = false;
          enabled = false;
        })
  unfolding disable
  disable-lem p w h =
      let v = if p.gpio26_requested then Y.release_output w else w in
      (
        restore_selector-line p.gpio_fun_restore_needed p.previous_gpio_fun_brightness v
            ∙ ground (arith, h, H.release_line w),
        refl,
      )

  disable-IsSettled : (s : PowerImpl × Y.World) → IsTrue s → IsSettled (disable Y s)
  unfolding disable
  disable-IsSettled (p, w) h = record {
    line = (disable-lem p w h.line).0;
    off = λ e. (refl, refl, refl);
    on = λ e. cc;
  }

  follow-keeps :
      {A B : Type 0} (P : PowerImpl × Y.World → Type 0)
      (f : A → PowerImpl × Y.World → (PowerImpl × Y.World) × Attempt B)
      (r : (PowerImpl × Y.World) × Attempt A)
      → P r.0
      → ((a : A) (s : PowerImpl × Y.World) → P s → P (f a s).0)
      → P (follow_step Y f r).0
  unfolding follow_step
  follow-keeps P f (s, succeeded a) p h = h a s p
  follow-keeps P f (s, denied message) p h = p
  follow-keeps P f (s, broken message) p h = p

  explain-world :
      (message : String) (r : Y.World × Attempt (Unit {0})) → (explain Y message r).0 ≡ r.0
  explain-world message (w, succeeded u) = refl
  explain-world message (w, denied what) = refl
  explain-world message (w, broken what) = refl

  -- A write behind which the message for its refusal stands.
  explained-line :
      (message name : String) (b : Bool) (w : Y.World)
      → H.line (explain Y message (write_led_value Y name b w)).0 ≡ H.line w
  explained-line message name b w =
      ap H.line (explain-world message (write_led_value Y name b w))
      ∙ write_led_value-same H.line_silent name b w

  -- The power is off, and the line is not requested.
  record IsIdle (s : PowerImpl × Y.World) : Type 0 where
    pub line : H.line s.1 ≡ false
    pub requested : s.0.gpio26_requested ≡ false
    pub off : s.0.enabled ≡ false

  idle-IsTrue : (s : PowerImpl × Y.World) → IsIdle s → IsTrue s
  idle-IsTrue s h = record { line = h.line ∙ sym h.requested }

  -- A call that leaves the line alone leaves an idle state so.
  called-IsIdle :
      (p : PowerImpl) (w v : Y.World) → H.line v ≡ H.line w → IsIdle (p, w) → IsIdle (p, v)
  called-IsIdle p w v e h = record { line = e ∙ h.line; requested = h.requested; off = h.off }

  clear_selector-IsIdle :
      (previous : ℤ) (s : PowerImpl × Y.World) → IsIdle s → IsIdle (clear_selector Y previous s).0
  clear_selector-IsIdle previous (p, w) h =
      if_branches {X = (PowerImpl × Y.World) × Attempt (Unit {0})} (λ r. IsIdle r.0)
        (is_zero previous) h
        (follow-keeps IsIdle _
          (task Y
            (λ w.
              explain Y (selector_message Y) (write_led_value Y ext_usb_gpio_fun_led_name false w))
            (p, w))
          (called-IsIdle p w _
            (explained-line (selector_message Y) ext_usb_gpio_fun_led_name false w) h)
          (λ u s g. record { line = g.line; requested = g.requested; off = g.off }))

  read-IsIdle :
      (name attribute : String) (s : PowerImpl × Y.World)
      → IsIdle s
      → IsIdle (task Y (read_led_attribute Y name attribute) s).0
  read-IsIdle name attribute (p, w) h =
      called-IsIdle p w _ (read_led_attribute-same H.line_silent name attribute w) h

  check_selector-IsIdle : (s : PowerImpl × Y.World) → IsIdle s → IsIdle (check_selector Y s).0
  check_selector-IsIdle s h =
      follow-keeps IsIdle _ _ (read-IsIdle ext_usb_gpio_fun_led_name "brightness" s h) (λ a s g. g)

  set_selector-IsIdle :
      (previous : ℤ) (s : PowerImpl × Y.World) → IsIdle s → IsIdle (set_selector Y previous s).0
  set_selector-IsIdle previous (p, w) h =
      let remembered = record p { previous_gpio_fun_brightness = previous } in
      follow-keeps IsIdle _ (clear_selector Y previous (remembered, w))
        (clear_selector-IsIdle previous (remembered, w)
          (record { line = h.line; requested = h.requested; off = h.off }))
        (λ u s k. check_selector-IsIdle s k)

  route_selector-IsIdle : (s : PowerImpl × Y.World) → IsIdle s → IsIdle (route_selector Y s).0
  route_selector-IsIdle s h =
      follow-keeps IsIdle (set_selector Y) _
        (read-IsIdle ext_usb_gpio_fun_led_name "brightness" s h) set_selector-IsIdle

  route_gpio-IsIdle : (s : PowerImpl × Y.World) → IsIdle s → IsIdle (route_gpio Y s).0
  unfolding route_gpio
  route_gpio-IsIdle (p, w) h =
      if_branches {X = (PowerImpl × Y.World) × Attempt (Unit {0})} (λ r. IsIdle r.0)
        (led_class_available Y ext_usb_gpio_fun_led_name w) (route_selector-IsIdle (p, w) h) h

  -- The line is requested.
  record IsOn (s : PowerImpl × Y.World) : Type 0 where
    pub line : H.line s.1 ≡ true
    pub requested : s.0.gpio26_requested ≡ true

  on-IsTrue : (s : PowerImpl × Y.World) → IsOn s → IsTrue s
  on-IsTrue s h = record { line = h.line ∙ sym h.requested }

  called-IsOn : (p : PowerImpl) (w v : Y.World) → H.line v ≡ H.line w → IsOn (p, w) → IsOn (p, v)
  called-IsOn p w v e h = record { line = e ∙ h.line; requested = h.requested }

  read-IsOn :
      (name attribute : String) (s : PowerImpl × Y.World)
      → IsOn s
      → IsOn (task Y (read_led_attribute Y name attribute) s).0
  read-IsOn name attribute (p, w) h =
      called-IsOn p w _ (read_led_attribute-same H.line_silent name attribute w) h

  write-IsOn :
      (s : PowerImpl × Y.World)
      → IsOn s
      → IsOn
          (task Y
            (λ w. explain Y (ext_5v_message Y) (write_led_value Y ext_5v_led_name true w))
            s).0
  write-IsOn (p, w) h =
      called-IsOn p w _ (explained-line (ext_5v_message Y) ext_5v_led_name true w) h

  raise_ext_5v-IsOn : (s : PowerImpl × Y.World) → IsOn s → IsOn (raise_ext_5v Y s).0
  raise_ext_5v-IsOn s h =
      follow-keeps IsOn _ _ (read-IsOn ext_5v_led_name "brightness" s h) (λ previous s g.
        if_branches {X = (PowerImpl × Y.World) × Attempt (Unit {0})} (λ r. IsOn r.0)
          (is_positive previous) g (write-IsOn s g))

  -- What a step that enables the power comes to.
  abbrev Raised : (PowerImpl × Y.World) × Attempt (Unit {0}) → Type 0
  Raised (s, succeeded u) = IsOn s × (s.0.enabled ≡ true)
  Raised (s, denied message) = IsTrue s
  Raised (s, broken message) = IsTrue s

  follow-Raised :
      {A : Type 0} (f : A → PowerImpl × Y.World → (PowerImpl × Y.World) × Attempt (Unit {0}))
      (r : (PowerImpl × Y.World) × Attempt A)
      → IsOn r.0
      → ((a : A) (s : PowerImpl × Y.World) → IsOn s → Raised (f a s))
      → Raised (follow_step Y f r)
  unfolding follow_step
  follow-Raised f (s, succeeded a) h g = g a s h
  follow-Raised f (s, denied message) h g = on-IsTrue s h
  follow-Raised f (s, broken message) h g = on-IsTrue s h

  finish-Raised : (s : PowerImpl × Y.World) → IsOn s → Raised (finish Y s)
  finish-Raised (p, w) h =
      let v = (Y.cancel_requested w).0 in
      let same = H.line_silent.cancels w in
      if_branches {X = (PowerImpl × Y.World) × Attempt (Unit {0})} Raised (Y.cancel_requested w).1
        (on-IsTrue (p, v) (called-IsOn p w v same h))
        ((record { line = same ∙ h.line; requested = h.requested }, refl))

  read_back-IsOn : (s : PowerImpl × Y.World) → IsOn s → IsOn (read_back Y s).0
  read_back-IsOn (p, w) h =
      called-IsOn p w _ (read_led_attribute-same H.line_silent ext_5v_led_name "brightness" w) h

  requested-Raised :
      (p : PowerImpl) (w : Y.World) (r : Y.World × Outcome (Unit {0}))
      → H.line w ≡ p.gpio26_requested
      → H.line r.0 ≡ with_line r.1 (H.line w)
      → Raised (
          follow_step Y
            (λ u s.
              follow_step Y
                (λ u s. follow_step Y (λ u s. finish Y s) (read_back Y s))
                (raise_ext_5v Y s))
            (line_requested Y p r))
  unfolding follow_step
  requested-Raised p w (v, returned u) h e =
      let on : IsOn (record p { gpio26_requested = true }, v) = record {
        line = e;
        requested = refl;
      } in
      follow-Raised _ (raise_ext_5v Y _) (raise_ext_5v-IsOn _ on)
        (λ u s g. follow-Raised _ (read_back Y s) (read_back-IsOn s g) (λ u s k. finish-Raised s k))
  requested-Raised p w (v, cancelled) h e = record { line = e ∙ h }
  requested-Raised p w (v, unavailable message) h e = record { line = e ∙ h }
  requested-Raised p w (v, failed message) h e = record { line = e ∙ h }

  raise_power-Raised :
      (p : PowerImpl) (w : Y.World) → H.line w ≡ p.gpio26_requested → Raised (raise_power Y (p, w))
  unfolding raise_power
  raise_power-Raised p w h = requested-Raised p w (Y.request_output true w) h (H.request_line w)

  -- What enable comes to: settled, with an answer that says whether the power is enabled.
  abbrev pub is_yes : Enabled → Bool
  is_yes yes = true
  is_yes (no error) = false

  abbrev pub IsAnswered : (PowerImpl × Y.World) × Enabled → Type 0
  IsAnswered r = IsSettled r.0 × (is_yes r.1 ≡ r.0.0.enabled)

  disabled-IsAnswered :
      (s : PowerImpl × Y.World) (message : String) → IsTrue s → IsAnswered (disable Y s, no message)
  unfolding disable
  disabled-IsAnswered s message h = (disable-IsSettled s h, refl)

  Raised-IsAnswered :
      (r : (PowerImpl × Y.World) × Attempt (Unit {0}))
      → Raised r
      → IsAnswered (or_disable Y (λ s. (s, yes)) r)
  unfolding or_disable
  Raised-IsAnswered (s, succeeded u) (on, e) =
      (record { line = on.line ∙ sym on.requested; off = λ g. cc; on = λ g. on.requested }, sym e)
  Raised-IsAnswered (s, denied message) h = disabled-IsAnswered s message h
  Raised-IsAnswered (s, broken message) h = disabled-IsAnswered s message h

  pinned-IsAnswered :
      (p : PowerImpl) (r : Y.World × Option String)
      → H.line r.0 ≡ p.gpio26_requested
      → IsAnswered (pinned Y p r)
  pinned-IsAnswered p (w, some error) h = disabled-IsAnswered (p, w) error (record { line = h })
  pinned-IsAnswered p (w, none) h = Raised-IsAnswered _ (raise_power-Raised p w h)

  set_pin-IsAnswered : (s : PowerImpl × Y.World) → IsTrue s → IsAnswered (set_pin Y s)
  unfolding set_pin
  set_pin-IsAnswered (p, w) h =
      pinned-IsAnswered (record p { gpio26_pinctrl_high = true }) (run_pinctrl Y _ w)
        (run_pinctrl-line H _ w ∙ h.line)

  routed-IsAnswered :
      (r : (PowerImpl × Y.World) × Attempt (Unit {0}))
      → IsTrue r.0
      → IsAnswered (or_disable Y (set_pin Y) r)
  unfolding or_disable
  routed-IsAnswered (s, succeeded u) h = set_pin-IsAnswered s h
  routed-IsAnswered (s, denied message) h = disabled-IsAnswered s message h
  routed-IsAnswered (s, broken message) h = disabled-IsAnswered s message h

  enable_now-IsAnswered : (s : PowerImpl × Y.World) → IsIdle s → IsAnswered (enable_now Y s)
  unfolding enable_now
  enable_now-IsAnswered s h =
      routed-IsAnswered (route_gpio Y s) (idle-IsTrue _ (route_gpio-IsIdle s h))

  log_max-line : (name : String) (r : Y.World × Attempt ℤ) → H.line (log_max Y name r) ≡ H.line r.0
  log_max-line name (w, succeeded brightness) =
      read_led_attribute-same H.line_silent name "max_brightness" w
  log_max-line name (w, denied message) = refl
  log_max-line name (w, broken message) = refl

  log-line : (name : String) (w : Y.World) → H.line (log_led_class_interface Y name w) ≡ H.line w
  unfolding log_led_class_interface
  log-line name w =
      if_branches (λ v. H.line v ≡ H.line w) (led_class_available Y name w)
        (log_max-line name (read_led_attribute Y name "brightness" w)
          ∙ read_led_attribute-same H.line_silent name "brightness" w)
        refl

  idle : (p : PowerImpl) (w : Y.World) → p.enabled ≡ false → IsSettled (p, w) → IsIdle (p, w)
  idle p w e h = record { line = h.line ∙ (h.off e).0; requested = (h.off e).0; off = e }

  settled :
      (p : PowerImpl) (w v : Y.World) → H.line v ≡ H.line w → IsSettled (p, w) → IsSettled (p, v)
  settled p w v e h = record { line = e ∙ h.line; off = h.off; on = h.on }

  chosen :
      (b : Bool) (then_end else_end : (PowerImpl × Y.World) × Enabled)
      → (b ≡ true → IsAnswered then_end)
      → (b ≡ false → IsAnswered else_end)
      → IsAnswered (if b then then_end else else_end)
  chosen true r u h k = h refl
  chosen false r u h k = k refl

  -- Enabling goes from settled flags to settled ones, whatever fails on the way and wherever it is
  -- cancelled, and says yes exactly if the power is enabled then: a Cap whose power is not enabled
  -- has no request of the line, no flag for the pin and no selector to restore.
  pub enable-IsAnswered : (s : PowerImpl × Y.World) → IsSettled s → IsAnswered (enable Y s)
  unfolding enable
  enable-IsAnswered (p, w) h =
      let l = log_led_class_interface Y ext_5v_led_name w in
      let logged = log_led_class_interface Y ext_usb_gpio_fun_led_name l in
      let same = log-line ext_usb_gpio_fun_led_name l ∙ log-line ext_5v_led_name w in
      let v = (Y.cancel_requested logged).0 in
      let calm = settled p w logged same h in
      let asked = settled p logged v (H.line_silent.cancels logged) calm in
      chosen p.enabled ((p, w), yes) _ (λ e. (h, sym e))
        (λ e.
          chosen (not (led_class_available Y ext_5v_led_name logged))
            ((p, logged), no (unavailable_message Y)) _ (λ u. (calm, sym e))
            (λ u.
              chosen (Y.cancel_requested logged).1 ((p, v), no "Cap power enable cancelled") _
                (λ u. (asked, sym e)) (λ u. enable_now-IsAnswered (p, v) (idle p v e asked))))

  -- `disable` leaves the flags settled and the power off.
  pub disable-off :
      (s : PowerImpl × Y.World)
      → IsSettled s
      → IsSettled (disable Y s)
        × ((disable Y s).0.enabled ≡ false)
        × (H.line (disable Y s).1 ≡ false)
  unfolding disable
  disable-off (p, w) h =
      (disable-IsSettled (p, w) (record { line = h.line }), refl, (disable-lem p w h.line).0)
