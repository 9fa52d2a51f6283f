-- ===== src/Keypad/Application.antt =====
-- The keypad under src/main.cpp, whose callback gives every key to NfcApp::onLvglKeyState.
use cap_cc1101_nfc.Base.{
  ℕ, ◌≡◌, refl, ◌∙◌, Bool, true, List, [], ◌∷◌, some, ◌==◌, ◌!=◌, ◌&&◌, if◌then◌else◌, if_branches,
}
use cap_cc1101_nfc.Backend.{NfcBackend}
use cap_cc1101_nfc.Model.{Spawn}
use cap_cc1101_nfc.Ui.App.{NfcApp, on_lvgl_key_state}
use cap_cc1101_nfc.Ui.App.Escape.{IsQuiet, IsHeld, same-IsQuiet, on_lvgl_key_state-IsQuiet}
use cap_cc1101_nfc.Keypad.Codes.{key_leftshift, key_rightshift, KeyCodes, KeypadKeys}
use cap_cc1101_nfc.Keypad.{
  NfcKeypad, InputEvent, KeyCallback, translate_key, offer, push_translated, push_key_event,
  push_events, poll_fds, poll, shift_pressed,
}

module _ {B : NfcBackend} {W : Type 0} (spawn : Spawn) (tick : W → W × ℕ) (codes : KeyCodes)
    (lv : KeypadKeys) where
  -- The callback of main, where `tick` is lv_tick_get. onLvglKeyState consumes every key.
  abbrev pub app_callback : KeyCallback (W × NfcApp B)
  app_callback key utf8 pressed (w, a) =
      let (v, now) = tick w in
      ((v, on_lvgl_key_state lv.base spawn now key (some utf8) pressed a), true)

  -- A step that leaves the queue alone, and does not make the application quit.
  record IsStill (u v : NfcKeypad × (W × NfcApp B)) : Type 0 where
    pub same_queue : v.0.pending_keys ≡ u.0.pending_keys
    pub quiet : IsQuiet u.1.1 v.1.1

  same-IsStill : (u : NfcKeypad × (W × NfcApp B)) → IsStill u u
  same-IsStill u = record { same_queue = refl; quiet = same-IsQuiet u.1.1 }

  then-IsStill : (u v w : NfcKeypad × (W × NfcApp B)) → IsStill u v → IsStill v w → IsStill u w
  then-IsStill u v w h k = record {
    same_queue = k.same_queue ∙ h.same_queue;
    quiet = record {
      same_wish = k.quiet.same_wish ∙ h.quiet.same_wish;
      held = λ g. k.quiet.held (h.quiet.held g);
    };
  }

  push_translated-IsStill :
      (key : ℕ) (pressed : Bool) (u : NfcKeypad × (W × NfcApp B))
      → IsStill u (push_translated codes lv (some app_callback) key pressed u)
  unfolding push_translated offer
  push_translated-IsStill key pressed (k, (w, a)) = record {
    same_queue = refl;
    quiet = on_lvgl_key_state-IsQuiet lv.base spawn (tick w).1 key _ pressed a;
  }

  push_key_event-IsStill :
      (code value : ℕ) (u : NfcKeypad × (W × NfcApp B))
      → IsStill u (push_key_event codes lv (some app_callback) code value u)
  unfolding push_key_event
  push_key_event-IsStill code value (k, s) =
      let still = same-IsStill (k, s) in
      let key = translate_key codes lv (shift_pressed k) code in
      if_branches {yes = (k, s)} (IsStill (k, s)) (value != 0 && value != 1) still (
        if_branches {yes = (record k { left_shift_pressed = value == 1 }, s)} (IsStill (k, s))
          (code == codes.number key_leftshift) (record { same_queue = refl; quiet = still.quiet })
          (if_branches {yes = (record k { right_shift_pressed = value == 1 }, s)} (IsStill (k, s))
            (code == codes.number key_rightshift)
            (record { same_queue = refl; quiet = still.quiet })
            (if_branches {yes = (k, s)} (IsStill (k, s)) (key == 0) still
              (push_translated-IsStill key (value == 1) (k, s)))))

  push_events-IsStill :
      (events : List InputEvent) (u : NfcKeypad × (W × NfcApp B))
      → IsStill u (push_events codes lv (some app_callback) events u)
  unfolding push_events
  push_events-IsStill [] u = same-IsStill u
  push_events-IsStill (e ∷ events) u =
      let next =
        if e.type == codes.ev_key
        then push_key_event codes lv (some app_callback) e.code e.value u
        else u in
      then-IsStill u next _
        (if_branches (IsStill u) _ (push_key_event-IsStill e.code e.value u) (same-IsStill u))
        (push_events-IsStill events next)

  poll_fds-IsStill :
      (queued : ℕ → List InputEvent) (fds : List ℕ) (u : NfcKeypad × (W × NfcApp B))
      → IsStill u (poll_fds codes lv (some app_callback) queued fds u)
  unfolding poll_fds
  poll_fds-IsStill queued [] u = same-IsStill u
  poll_fds-IsStill queued (fd ∷ fds) u =
      then-IsStill u _ _ (push_events-IsStill (queued fd) u) (poll_fds-IsStill queued fds _)

  -- A poll of the keypad in the running application, whatever the devices report and the clock says,
  -- queues nothing for LVGL, does not ask the application to quit nor takes such a wish back, and
  -- leaves a hold of ESC that counts only with ESC down.
  pub poll-IsQuiet :
      (queued : ℕ → List InputEvent) (k : NfcKeypad) (w : W) (a : NfcApp B)
      → let u = poll codes lv (some app_callback) queued (k, (w, a)) in
        (u.0.pending_keys ≡ k.pending_keys)
        × (u.1.1.quit_requested ≡ a.quit_requested)
        × (IsHeld a → IsHeld u.1.1)
  unfolding poll
  poll-IsQuiet queued k w a =
      let still = poll_fds-IsStill queued k.event_fds (k, (w, a)) in
      (still.same_queue, still.quiet.same_wish, still.quiet.held)
