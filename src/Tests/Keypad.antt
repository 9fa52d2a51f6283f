-- ===== src/Tests/Keypad.antt =====
-- The keypad over a system that opens every file, with a shifted letter and an arrow on its device.
use cap_cc1101_nfc.Base.{
  ℕ, ◌+◌, ◌-◌, ◌<◌, ◌≡◌, ◌≢◌, ◌↔◌, refl, arith, true, false, List, [], ◌∷◌, length, Option, none,
  some, ◌==◌, if◌then◌else◌,
}
use cap_cc1101_nfc.Ui.App.Escape.{IsHeld}
use cap_cc1101_nfc.Keypad.Codes.{
  KeyCodes, KeypadKeys, key_leftshift, key_rightshift, key_a, key_up, key_esc,
}
use cap_cc1101_nfc.Keypad.{
  NfcKeypad, new_keypad, InputEvent, IndevData, translate_key, poll, InputSystem, open_default,
  close,
}
use cap_cc1101_nfc.Keypad.Events.{
  queue_of, decoded, decoded_all, offer_all, reads, answers_of, last_of, reads-poll,
}
use cap_cc1101_nfc.Keypad.Descriptors.{count, Descriptors, open_default-close}
use cap_cc1101_nfc.Keypad.Application.{app_callback, poll-IsQuiet}
use cap_cc1101_nfc.Model.{spawned}
use cap_cc1101_nfc.Tests.Ui.{app, lv_keys}

abbrev codes : KeyCodes
codes = record {
  number = λ name. elim name [
    | key_esc ↦ 1
    | key_a ↦ 30
    | key_leftshift ↦ 42
    | key_rightshift ↦ 54
    | key_up ↦ 103
    | _ ↦ 1000
  ];
  name = λ code.
      if code == 1
      then some key_esc
      else if code == 30
      then some key_a
      else if code == 103
      then some key_up
      else none;
  ev_key = 1;
}

abbrev keys : KeypadKeys
keys = record { base = lv_keys; backspace = 8; del = 127; home = 2; end_key = 3 }

abbrev two_devices : NfcKeypad
two_devices = record new_keypad {
  has_indev = true;
  event_fds = 5 ∷ 6 ∷ [];
  left_shift_pressed = true;
}

-- A press of A with its repetition, and on the other device a synchronization and a press of UP.
abbrev queued : ℕ → List InputEvent
queued fd =
    if fd == 5
    then record { type = 1; code = 30; value = 1 } ∷ record { type = 1; code = 30; value = 2 } ∷ []
    else record { type = 0; code = 0; value = 0 } ∷ record { type = 1; code = 103; value = 1 } ∷ []

abbrev data_ : IndevData
data_ = record { key = 0; is_pressed = false; continue_reading = false }

two_keys :
    decoded_all codes keys true (queue_of codes keys queued (5 ∷ 6 ∷ []))
    ≡ record { key = b'A'; pressed = true } ∷ record { key = 17; pressed = true } ∷ []
unfolding decoded_all queue_of decoded translate_key
two_keys = refl

reads-poll_example :
    let r =
      offer_all {S = Unit {0}} none
        (decoded_all codes keys true (queue_of codes keys queued (5 ∷ 6 ∷ [])))
        tt in
    let polled = poll codes keys none queued (two_devices, tt) in
    (polled.1 ≡ r.0)
    × (reads (length r.1) data_ polled.0
        ≡ (record two_devices { pending_keys = []; last_key = last_of 0 r.1 }, answers_of r.1))
unfolding queue_of
reads-poll_example =
    let plain : 30 ≢ 42 × 30 ≢ 54 = ((λ e. omega (arith, e)), λ e. omega (arith, e)) in
    let zero_plain : 0 ≢ 42 × 0 ≢ 54 = ((λ e. omega (arith, e)), λ e. omega (arith, e)) in
    let up_plain : 103 ≢ 42 × 103 ≢ 54 = ((λ e. omega (arith, e)), λ e. omega (arith, e)) in
    reads-poll codes keys none queued data_ two_devices tt
      (plain, (plain, (zero_plain, (up_plain, tt))))

-- The world counts how often each descriptor is open; every file opens as descriptor 5.
abbrev system : InputSystem
system = record {
  World = ℕ → ℕ;
  get_env = λ name w. none;
  open_file = λ path w. ((λ x. w x + count x (5 ∷ [])), some 5);
  key_bits = λ fd w. (w, none);
  grab = λ fd w. (w, true);
  ungrab = λ fd w. w;
  close_file = λ fd w x. w x - count x (fd ∷ []);
  create_indev = λ w. (w, true);
  delete_indev = λ w. w;
}

opened-five :
    (x n fd : ℕ)
    → ◌≡◌ {A = Option ℕ} (some 5) (some fd)
    → n + count x (5 ∷ []) ≡ n + count x (fd ∷ [])
opened-five x n fd e = ground (arith, e)

never-opened : (x : ℕ) (w : ℕ → ℕ) → ◌≡◌ {A = Option ℕ} (some 5) none → w x + count x (5 ∷ []) ≡ w x
never-opened x w e = cc

abbrev counted : Descriptors system
counted = record {
  held = λ x w. w x;
  open_held = λ x path w fd e. opened-five x (w x) fd e;
  open_failed = λ x path w e. never-opened x w e;
  close_held = λ x fd w. refl;
  key_bits_held = λ x fd w. refl;
  grab_held = λ x fd w. refl;
  ungrab_held = λ x fd w. refl;
  create_held = λ x w. refl;
  delete_held = λ x w. refl;
}

open_default-close_example :
    let r = open_default codes system (new_keypad, λ x. 0) in
    ((r.1 ≡ true) ↔ (0 < length r.0.0.event_fds))
    × ((close codes system r.0).1 5 ≡ 0)
    × ((close codes system r.0).0.event_fds ≡ [])
open_default-close_example = open_default-close codes counted 5 (λ x. 0)

poll-IsQuiet_example :
    let u =
      poll codes keys
        (some (app_callback spawned (λ (now : ℕ). (now + 1, now)) codes keys))
        queued
        (two_devices, (7, app)) in
    (u.0.pending_keys ≡ [])
    × (u.1.1.quit_requested ≡ app.quit_requested)
    × (IsHeld app → IsHeld u.1.1)
poll-IsQuiet_example =
    poll-IsQuiet spawned (λ (now : ℕ). (now + 1, now)) codes keys queued two_devices 7 app
