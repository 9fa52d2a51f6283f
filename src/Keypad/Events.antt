-- ===== src/Keypad/Events.antt =====
-- The way of a key event from the device to LVGL.
use mathlib.Core.List.{append-nil, append_assoc}
use cap_cc1101_nfc.Base.{
  ◌∙◌, sym, ℕ, zero, suc, ◌+◌, ◌≡◌, ◌≢◌, refl, ap, arith, Bool, true, false, not, List, [], ◌∷◌,
  ◌++◌, All, length, length-append, Option, none, some, ◌==◌, ◌!=◌, ◌&&◌, leb, if◌then◌else◌,
}
use cap_cc1101_nfc.Keypad.Codes.{
  KeyName, KeyCodes, KeypadKeys, translate_named, tca8418_utf8, key_leftshift, key_rightshift,
}
use cap_cc1101_nfc.Keypad.{
  NfcKeypad, KeyEvent, InputEvent, IndevData, shift_pressed, translate_name, translate_key,
  KeyCallback, offer, push_translated, push_key_event, push_events, poll_fds, poll, read_cb,
  is_empty,
}

translate_named-shift :
    (lv : KeypadKeys) (name : KeyName)
    → (translate_named lv true name == 0) ≡ (translate_named lv false name == 0)
translate_named-shift lv name = ground arith

choice-zero :
    (b : Bool) (m n k : ℕ)
    → (n == 0) ≡ (k == 0)
    → ((if b then m else n) == 0) ≡ ((if b then m else k) == 0)
choice-zero true m n k e = refl
choice-zero false m n k e = e

translate_name-shift :
    (codes : KeyCodes) (lv : KeypadKeys) (name : Option KeyName)
    → (translate_name codes lv true name == 0) ≡ (translate_name codes lv false name == 0)
translate_name-shift codes lv none = refl
translate_name-shift codes lv (some name) = translate_named-shift lv name

-- Whether a code is that of a key does not depend on the shift keys.
translate_key-shift :
    (codes : KeyCodes) (lv : KeypadKeys) (code : ℕ)
    → (translate_key codes lv true code == 0) ≡ (translate_key codes lv false code == 0)
unfolding translate_key
translate_key-shift codes lv code =
    choice-zero (tca8418_utf8 code != 0) (tca8418_utf8 code) _ _
      (translate_name-shift codes lv (codes.name code))

if_append :
    (b : Bool) (e : KeyEvent) (xs ys : List KeyEvent)
    → (if b then xs ++ ys else e ∷ (xs ++ ys)) ≡ (if b then xs else e ∷ xs) ++ ys
if_append true e xs ys = refl
if_append false e xs ys = refl

-- Keys that are offered to the callback in order, and those that it does not consume.
pub offer_all : {S : Type 0} → Option (KeyCallback S) → List KeyEvent → S → S × List KeyEvent
offer_all callback [] s = (s, [])
offer_all callback (e ∷ events) s =
    let (u, consumed) = offer callback e.key e.pressed s in
    let (v, rest) = offer_all callback events u in (v, if consumed then rest else e ∷ rest)

offer_all-append :
    {S : Type 0} (callback : Option (KeyCallback S)) (events later : List KeyEvent) (s : S)
    → let r = offer_all callback events s in
      let t = offer_all callback later r.0 in
      offer_all callback (events ++ later) s ≡ (t.0, r.1 ++ t.1)
unfolding offer_all
offer_all-append callback [] later s = refl
offer_all-append callback (e ∷ events) later s =
    let (u, consumed) = offer callback e.key e.pressed s in
    let hyp = offer_all-append callback events later u in
    ap (λ r. (r.0, if consumed then r.1 else e ∷ r.1)) hyp
    ∙ ap (λ q. ((offer_all callback later (offer_all callback events u).0).0, q))
        (if_append consumed e _ _)

module _ (codes : KeyCodes) (lv : KeypadKeys) where
  -- What a device's event is to LVGL under a state of the shift keys, if it is of a key.
  unfoldable pub decoded : Bool → InputEvent → List KeyEvent
  decoded shifted e =
      if e.type == codes.ev_key && leb e.value 1 && translate_key codes lv shifted e.code != 0
      then record { key = translate_key codes lv shifted e.code; pressed = e.value == 1 } ∷ []
      else []

  unfoldable pub decoded_all : Bool → List InputEvent → List KeyEvent
  decoded_all shifted [] = []
  decoded_all shifted (e ∷ events) = decoded shifted e ++ decoded_all shifted events

  -- An event that is of neither shift key.
  abbrev pub IsPlain : InputEvent → Type 0
  IsPlain e = (e.code ≢ codes.number key_leftshift) × (e.code ≢ codes.number key_rightshift)

  offered_pending :
      (consumed : Bool) (k : NfcKeypad) (e : KeyEvent)
      → (if consumed then k else record k { pending_keys = k.pending_keys ++ e ∷ [] })
        ≡ record k { pending_keys = k.pending_keys ++ (if consumed then [] else e ∷ []) }
  offered_pending true k e =
      ap (λ q. record k { pending_keys = q }) (sym (append-nil k.pending_keys))
  offered_pending false k e = refl

  push_translated-offered :
      {S : Type 0} (callback : Option (KeyCallback S)) (e : KeyEvent) (k : NfcKeypad) (s : S)
      → let r = offer_all callback (e ∷ []) s in
        push_translated codes lv callback e.key e.pressed (k, s)
        ≡ (record k { pending_keys = k.pending_keys ++ r.1 }, r.0)
  unfolding push_translated offer_all
  push_translated-offered callback e k s =
      let (u, consumed) = offer callback e.key e.pressed s in
      ap (λ v. (v, u)) (offered_pending consumed k e)

  offer_none :
      {S : Type 0} (callback : Option (KeyCallback S)) (k : NfcKeypad) (s : S)
      → let r = offer_all callback [] s in
        ◌≡◌ {A = NfcKeypad × S} (k, s) (record k { pending_keys = k.pending_keys ++ r.1 }, r.0)
  unfolding offer_all
  offer_none callback k s =
      ap (λ q. (record k { pending_keys = q }, s)) (sym (append-nil k.pending_keys))

  push_event-decoded :
      {S : Type 0} (callback : Option (KeyCallback S)) (e : InputEvent) (k : NfcKeypad) (s : S)
      → IsPlain e
      → let r = offer_all callback (decoded (shift_pressed k) e) s in
        (if e.type == codes.ev_key
          then push_key_event codes lv callback e.code e.value (k, s)
          else (k, s))
        ≡ (record k { pending_keys = k.pending_keys ++ r.1 }, r.0)
  unfolding push_key_event decoded
  push_event-decoded callback e k s plain =
      let event : KeyEvent = record {
        key = translate_key codes lv (shift_pressed k) e.code;
        pressed = e.value == 1;
      } in
      ground (arith, plain, offer_none callback k s, push_translated-offered callback event k s)

  push_events-decoded :
      {S : Type 0} (callback : Option (KeyCallback S)) (events : List InputEvent) (k : NfcKeypad)
      (s : S)
      → All IsPlain events
      → let r = offer_all callback (decoded_all (shift_pressed k) events) s in
        push_events codes lv callback events (k, s)
        ≡ (record k { pending_keys = k.pending_keys ++ r.1 }, r.0)
  unfolding push_events decoded_all offer_all
  push_events-decoded callback [] k s plain =
      ap (λ q. (record k { pending_keys = q }, s)) (sym (append-nil k.pending_keys))
  push_events-decoded callback (e ∷ events) k s (plain, plains) =
      let sh = shift_pressed k in
      let first = offer_all callback (decoded sh e) s in
      let later = offer_all callback (decoded_all sh events) first.0 in
      ap (push_events codes lv callback events) (push_event-decoded callback e k s plain)
      ∙ push_events-decoded callback events _ first.0 plains
      ∙ ap (λ q. (record k { pending_keys = q }, later.0))
          (append_assoc k.pending_keys first.1 later.1)
      ∙ ap (λ r. (record k { pending_keys = k.pending_keys ++ r.1 }, r.0))
          (sym (offer_all-append callback (decoded sh e) (decoded_all sh events) s))

  -- One poll's events on the descriptors, in the order in which they are read.
  unfoldable pub queue_of : (ℕ → List InputEvent) → List ℕ → List InputEvent
  queue_of queued [] = []
  queue_of queued (fd ∷ fds) = queued fd ++ queue_of queued fds

  push_events-append :
      {S : Type 0} (callback : Option (KeyCallback S)) (events later : List InputEvent)
      (ks : NfcKeypad × S)
      → push_events codes lv callback (events ++ later) ks
        ≡ push_events codes lv callback later (push_events codes lv callback events ks)
  unfolding push_events
  push_events-append callback [] later ks = refl
  push_events-append callback (e ∷ events) later ks = push_events-append callback events later _

  pub poll_fds-lem :
      {S : Type 0} (callback : Option (KeyCallback S)) (queued : ℕ → List InputEvent) (fds : List ℕ)
      (ks : NfcKeypad × S)
      → poll_fds codes lv callback queued fds ks
        ≡ push_events codes lv callback (queue_of queued fds) ks
  unfolding poll_fds queue_of push_events
  poll_fds-lem callback queued [] ks = refl
  poll_fds-lem callback queued (fd ∷ fds) ks =
      poll_fds-lem callback queued fds (push_events codes lv callback (queued fd) ks)
      ∙ sym (push_events-append callback (queued fd) (queue_of queued fds) ks)

-- LVGL reads while it is told to continue, and so many times at most.
pub reads : ℕ → IndevData → NfcKeypad → NfcKeypad × List IndevData
unfolding read_cb
reads zero data_ k = (k, [])
reads (suc n) data_ k =
    let (u, answer) = read_cb data_ k in
    let (v, answers) = reads n data_ u in
    if answer.continue_reading then (v, answer ∷ answers) else (u, answer ∷ [])

-- The answers to be expected for events in this order.
pub answers_of : List KeyEvent → List IndevData
answers_of [] = []
answers_of (e ∷ events) =
    record { key = e.key; is_pressed = e.pressed; continue_reading = not (is_empty events) }
    ∷ answers_of events

pub last_of : ℕ → List KeyEvent → ℕ
last_of key [] = key
last_of key (e ∷ events) = last_of e.key events

reads-pending :
    (q : List KeyEvent) (data_ : IndevData) (k : NfcKeypad)
    → reads (length q) data_ (record k { pending_keys = q })
      ≡ (record k { pending_keys = []; last_key = last_of k.last_key q }, answers_of q)
unfolding reads read_cb answers_of last_of
reads-pending [] data_ k = refl
reads-pending (e ∷ []) data_ k = refl
reads-pending (e ∷ f ∷ events) data_ k =
    ap (λ r. (r.0, record { key = e.key; is_pressed = e.pressed; continue_reading = true } ∷ r.1))
      (reads-pending (f ∷ events) data_ (record k { last_key = e.key }))

module _ (codes : KeyCodes) (lv : KeypadKeys) where
  -- A poll whose events are of no shift key offers to the callback, in the order in which the devices
  -- were read, the keys that the events mean under the state of the shift keys; LVGL then reads the
  -- keys that were pending and those that the callback did not consume, each once and in order, is
  -- told to continue exactly before the last, and leaves none.
  pub reads-poll :
      {S : Type 0} (callback : Option (KeyCallback S)) (queued : ℕ → List InputEvent)
      (data_ : IndevData) (k : NfcKeypad) (s : S)
      → All (IsPlain codes lv) (queue_of codes lv queued k.event_fds)
      → let r =
          offer_all callback
            (decoded_all codes lv (shift_pressed k) (queue_of codes lv queued k.event_fds))
            s in
        let q = k.pending_keys ++ r.1 in
        let polled = poll codes lv callback queued (k, s) in
        (polled.1 ≡ r.0)
        × (reads (length q) data_ polled.0
            ≡ (record k { pending_keys = []; last_key = last_of k.last_key q }, answers_of q))
  unfolding poll
  reads-poll callback queued data_ k s plain =
      let e =
        poll_fds-lem codes lv callback queued k.event_fds (k, s)
        ∙ push_events-decoded codes lv callback (queue_of codes lv queued k.event_fds) k s plain in
      let q =
        k.pending_keys
        ++ (offer_all callback
            (decoded_all codes lv (shift_pressed k) (queue_of codes lv queued k.event_fds)) s).1 in
      (ap (λ r. r.1) e, ap (λ r. reads (length q) data_ r.0) e ∙ reads-pending q data_ k)

  any_shift :
      (a b : Bool) (code : ℕ)
      → (translate_key codes lv a code == 0) ≡ (translate_key codes lv b code == 0)
  any_shift true true code = refl
  any_shift true false code = translate_key-shift codes lv code
  any_shift false true code = sym (translate_key-shift codes lv code)
  any_shift false false code = refl

  -- Without a callback a press and a release of one key are both queued or neither is, whatever the
  -- keypads' states at the two, also those of the shift keys: no key stays pressed for want of the
  -- event of its release.
  pub push_key_event-paired :
      {S : Type 0} (code : ℕ) (k l : NfcKeypad) (s t : S)
      → length (push_key_event codes lv none code 1 (k, s)).0.pending_keys + length l.pending_keys
        ≡ length (push_key_event codes lv none code 0 (l, t)).0.pending_keys + length k.pending_keys
  unfolding push_key_event push_translated offer
  push_key_event-paired code k l s t =
      let same = any_shift (shift_pressed k) (shift_pressed l) code in
      ground (
        arith,
        same,
        length-append k.pending_keys
            (record { key = translate_key codes lv (shift_pressed k) code; pressed = true } ∷ []),
        length-append l.pending_keys
            (record { key = translate_key codes lv (shift_pressed l) code; pressed = false } ∷ []),
      )
