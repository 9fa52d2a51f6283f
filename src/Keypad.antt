-- ===== src/Keypad.antt =====
-- src/input/nfc_keypad.hpp and nfc_keypad.cpp: NfcKeypad as the device build has it. The system's
-- calls are a parameter, and the key callback works on a state of its own.
pub mod Codes
pub mod Events
pub mod Descriptors
pub mod Application
use package.text.Mathlib.Text.{◌==◌ as str_eq}
use Prim.Native.String.{◌++◌ as str_append}
use cap_cc1101_nfc.Base.{
  ℕ, zero, suc, ◌+◌, ◌-◌, ◌/◌, ◌%◌, ◌^◌, ◌≡◌, String, Bool, true, false, not, ◌&&◌, ◌||◌, List, [],
  ◌∷◌, ◌++◌, Bytes, length, get_or, any, Option, none, some, ltb, leb, ◌==◌, ◌!=◌, if◌then◌else◌,
  bit_and,
}
use cap_cc1101_nfc.Model.Diagnostics.{to_string}
use cap_cc1101_nfc.Keypad.Codes.{
  KeyName, KeyCodes, KeypadKeys, translate_named, tca8418_utf8, key_leftshift, key_rightshift,
  key_esc, key_enter, key_kpenter, key_up, key_down, key_left, key_right, key_f, key_x, key_z,
  key_c, key_space, key_a, key_backspace, key_0, key_tab, key_help, key_1, key_2, key_3, key_4,
  key_5, key_6, key_7, key_8, key_9,
}

pub record KeyEvent : Type 0 where
  pub key : ℕ
  pub pressed : Bool

-- `has_indev` says whether `_indev` is set.
pub record NfcKeypad : Type 0 where
  pub has_indev : Bool
  pub event_fds : List ℕ
  pub pending_keys : List KeyEvent
  pub last_key : ℕ
  pub left_shift_pressed : Bool
  pub right_shift_pressed : Bool

abbrev pub new_keypad : NfcKeypad
new_keypad = record {
  has_indev = false;
  event_fds = [];
  pending_keys = [];
  last_key = 0;
  left_shift_pressed = false;
  right_shift_pressed = false;
}

-- `input_event`; its value is of 32 bits, and only compared with 0 and 1.
pub record InputEvent : Type 0 where
  pub type : ℕ
  pub code : ℕ
  pub value : ℕ

-- What LVGL is told by the read callback.
pub record IndevData : Type 0 where
  pub key : ℕ
  pub is_pressed : Bool
  pub continue_reading : Bool

abbrev pub shift_pressed : NfcKeypad → Bool
shift_pressed k = k.left_shift_pressed || k.right_shift_pressed

-- A C string of one printable character, or of none.
abbrev pub key_utf8 : ℕ → Bytes
key_utf8 key = if leb 0x20 key && ltb key 0x7f then key ∷ [] else []

abbrev pub is_empty : List KeyEvent → Bool
is_empty [] = true
is_empty (e ∷ events) = false

-- readCb, for a keypad and a record that are given.
unfoldable pub read_cb : IndevData → NfcKeypad → NfcKeypad × IndevData
read_cb data_ k = elim k.pending_keys [
  | event ∷ events ↦ (
    record k { pending_keys = events; last_key = event.key },
    record {
      key = event.key;
      is_pressed = event.pressed;
      continue_reading = not (is_empty events);
    },
  )
  | [] ↦ (k, record data_ { key = k.last_key; is_pressed = false })
]

-- The callback, which says whether it consumed the key.
abbrev pub KeyCallback : Type 0 → Type 0
KeyCallback S = ℕ → Bytes → Bool → S → S × Bool

-- The call of the callback, if there is one.
unfoldable pub offer : {S : Type 0} → Option (KeyCallback S) → ℕ → Bool → S → S × Bool
offer none key pressed s = (s, false)
offer (some callback) key pressed s = callback key (key_utf8 key) pressed s

module _ (codes : KeyCodes) (lv : KeypadKeys) where
  -- The switch of translateKey, whose default is 0.
  abbrev pub translate_name : Bool → Option KeyName → ℕ
  translate_name shifted none = 0
  translate_name shifted (some name) = translate_named lv shifted name

  unfoldable pub translate_key : Bool → ℕ → ℕ
  translate_key shifted code =
      if tca8418_utf8 code != 0 then tca8418_utf8 code else translate_name shifted (codes.name code)

  module _ {S : Type 0} (callback : Option (KeyCallback S)) where
    -- The end of pushKeyEvent.
    unfoldable pub push_translated : ℕ → Bool → NfcKeypad × S → NfcKeypad × S
    unfolding offer
    push_translated key pressed (k, s) =
        let (u, consumed) = offer callback key pressed s in
        (
          if consumed then k else record k {
            pending_keys = k.pending_keys ++ record { key = key; pressed = pressed } ∷ [];
          },
          u,
        )

    unfoldable pub push_key_event : ℕ → ℕ → NfcKeypad × S → NfcKeypad × S
    unfolding translate_key push_translated
    push_key_event code value (k, s) =
        if value != 0 && value != 1
        then (k, s)
        else if code == codes.number key_leftshift
        then (record k { left_shift_pressed = value == 1 }, s)
        else if code == codes.number key_rightshift
        then (record k { right_shift_pressed = value == 1 }, s)
        else if translate_key (shift_pressed k) code == 0
        then (k, s)
        else push_translated (translate_key (shift_pressed k) code) (value == 1) (k, s)

    -- The events that one descriptor has, up to the read that yields none.
    unfoldable pub push_events : List InputEvent → NfcKeypad × S → NfcKeypad × S
    push_events [] ks = ks
    push_events (e ∷ events) ks =
        push_events events (if e.type == codes.ev_key then push_key_event e.code e.value ks else ks)

    unfoldable pub poll_fds : (ℕ → List InputEvent) → List ℕ → NfcKeypad × S → NfcKeypad × S
    poll_fds queued [] ks = ks
    poll_fds queued (fd ∷ fds) ks = poll_fds queued fds (push_events (queued fd) ks)

    -- `queued` has what the reads of this poll yield on each descriptor.
    unfoldable pub poll : (ℕ → List InputEvent) → NfcKeypad × S → NfcKeypad × S
    poll queued (k, s) = poll_fds queued k.event_fds (k, s)

-- The calls of Linux and of LVGL. A descriptor is a number; `none` is an error.
pub record InputSystem : Type 1 where
  pub World : Type 0
  pub get_env : String → World → Option String
  pub open_file : String → World → World × Option ℕ
  pub key_bits : ℕ → World → World × Option (List ℕ)
  pub grab : ℕ → World → World × Bool
  pub ungrab : ℕ → World → World
  pub close_file : ℕ → World → World
  pub create_indev : World → World × Bool
  pub delete_indev : World → World

-- `unsigned long` has 64 bits.
abbrev pub test_bit : List ℕ → ℕ → Bool
test_bit bits bit =
    ltb (bit / 64) (length bits) && bit_and (get_or bits (bit / 64) 0 / 2 ^ (bit % 64)) 1 != 0

-- The keys that make a device one for the application.
abbrev pub app_keys : List KeyName
app_keys =
    key_esc ∷ key_enter ∷ key_kpenter ∷ key_up ∷ key_down ∷ key_left ∷ key_right ∷ key_f ∷ key_x
    ∷ key_z ∷ key_c ∷ key_space ∷ key_a ∷ key_backspace ∷ key_0 ∷ key_tab ∷ key_help ∷ key_1 ∷ key_2
    ∷ key_3 ∷ key_4 ∷ key_5 ∷ key_6 ∷ key_7 ∷ key_8 ∷ key_9 ∷ []

-- envEnabled
abbrev pub env_enabled : Option String → Bool → Bool
env_enabled none fallback = fallback
env_enabled (some value) fallback =
    if str_eq value ""
    then fallback
    else not (
        str_eq value "0"
        || str_eq value "false"
        || str_eq value "False"
        || str_eq value "off"
        || str_eq value "OFF")

module _ (codes : KeyCodes) (Y : InputSystem) where
  abbrev pub has_app_keys : ℕ → Y.World → Y.World × Bool
  has_app_keys fd w =
      let (v, bits) = Y.key_bits fd w in
      (
        v,
        elim bits [ none ↦ false | some bits ↦ any (λ k. test_bit bits (codes.number k)) app_keys ],
      )

  unfoldable pub ensure_indev : NfcKeypad × Y.World → (NfcKeypad × Y.World) × Bool
  ensure_indev (k, w) =
      if k.has_indev
      then ((k, w), true)
      else let (v, created) = Y.create_indev w in ((record k { has_indev = created }, v), created)

  -- openDevice behind `open`: a descriptor that is not kept is closed.
  unfoldable pub keep_fd : Bool → ℕ → NfcKeypad × Y.World → (NfcKeypad × Y.World) × Bool
  keep_fd require_app_keys fd (k, w) =
      let (v, fits) = if require_app_keys then has_app_keys fd w else (w, true) in
      if not fits
      then ((k, Y.close_file fd v), false)
      else let grab_input = env_enabled (Y.get_env "CAP_NFC_KEYBOARD_GRAB" v) false in
        let (u, grabbed) = if grab_input then Y.grab fd v else (v, true) in
        if not grabbed
        then ((k, Y.close_file fd u), false)
        else ((record k { event_fds = k.event_fds ++ fd ∷ [] }, u), true)

  unfoldable pub keep_opened : Bool → Option ℕ → NfcKeypad × Y.World → (NfcKeypad × Y.World) × Bool
  unfolding keep_fd
  keep_opened require_app_keys none kw = (kw, false)
  keep_opened require_app_keys (some fd) kw = keep_fd require_app_keys fd kw

  -- openDevice where the indev is there.
  unfoldable pub open_ready : String → Bool → NfcKeypad × Y.World → (NfcKeypad × Y.World) × Bool
  unfolding keep_opened
  open_ready path require_app_keys (k, w) =
      let (v, fd) = Y.open_file path w in keep_opened require_app_keys fd (k, v)

  unfoldable pub open_device : String → Bool → NfcKeypad × Y.World → (NfcKeypad × Y.World) × Bool
  unfolding ensure_indev open_ready
  open_device path require_app_keys kw =
      let (kv, ready) = ensure_indev kw in
      if not ready then (kv, false) else open_ready path require_app_keys kv

  -- The loop of openDefault over so many numbers from one on.
  unfoldable pub open_events : ℕ → ℕ → NfcKeypad × Y.World → (NfcKeypad × Y.World) × Bool
  unfolding open_device
  open_events zero index kw = (kw, false)
  open_events (suc count) index kw =
      let (kv, opened) = open_device (str_append "/dev/input/event" (to_string index)) true kw in
      let (ku, later) = open_events count (suc index) kv in (ku, opened || later)

  abbrev pub first_set : List (Option String) → Option String
  first_set [] = none
  first_set (none ∷ names) = first_set names
  first_set (some path ∷ names) = some path

  -- openDefault, behind the variables.
  unfoldable pub open_first : Option String → NfcKeypad × Y.World → (NfcKeypad × Y.World) × Bool
  unfolding open_device open_events
  open_first (some path) kw = open_device path false kw
  open_first none kw =
      let (kv, opened) = open_device "/dev/input/by-path/platform-3f804000.i2c-event" false kw in
      if opened then (kv, true) else open_events 32 0 kv

  unfoldable pub open_default : NfcKeypad × Y.World → (NfcKeypad × Y.World) × Bool
  unfolding open_first
  open_default (k, w) =
      let path = first_set (
        Y.get_env "CAP_NFC_KEYBOARD_DEVICE" w
        ∷ Y.get_env "APPLAUNCH_LINUX_KEYBOARD_DEVICE" w
        ∷ Y.get_env "LV_LINUX_KEYBOARD_DEVICE" w
        ∷ []) in
      open_first path (k, w)

  unfoldable pub close_fds : List ℕ → Y.World → Y.World
  close_fds [] w = w
  close_fds (fd ∷ fds) w = close_fds fds (Y.close_file fd (Y.ungrab fd w))

  unfoldable pub close : NfcKeypad × Y.World → NfcKeypad × Y.World
  unfolding close_fds
  close (k, w) =
      let v = close_fds k.event_fds w in
      (
        record k { has_indev = false; event_fds = []; pending_keys = [] },
        if k.has_indev then Y.delete_indev v else v,
      )
