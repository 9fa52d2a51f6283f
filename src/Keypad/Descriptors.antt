-- ===== src/Keypad/Descriptors.antt =====
-- The descriptors that the keypad holds: each is of a device that it opened, and none is lost.
use cap_cc1101_nfc.Base.{
  ℕ, zero, suc, ◌+◌, ◌-◌, ◌<◌, ◌≤◌, ◌≡◌, ◌↔◌, refl, arith, String, Bool, true, false, not, List, [],
  ◌∷◌, length, count_if, Option, none, some, ◌==◌, if◌then◌else◌, ◌||◌, length-append,
  count_if-append,
}
use cap_cc1101_nfc.Keypad.Codes.{KeyCodes}
use cap_cc1101_nfc.Keypad.{
  NfcKeypad, new_keypad, InputSystem, ensure_indev, keep_fd, keep_opened, open_ready, open_device,
  open_events, open_first, open_default, close_fds, close,
}

-- How often a number stands in a list.
abbrev pub count : ℕ → List ℕ → ℕ
count x fds = count_if (λ fd. fd == x) fds

-- A system that counts its open descriptors: `open` adds the one that it answers, `close` takes its
-- argument away, and no other call opens or closes one.
pub record Descriptors (Y : InputSystem) : Type 0 where
  pub held : ℕ → Y.World → ℕ
  pub open_held :
      (x : ℕ) (path : String) (w : Y.World) (fd : ℕ)
      → (Y.open_file path w).1 ≡ some fd
      → held x (Y.open_file path w).0 ≡ held x w + count x (fd ∷ [])
  pub open_failed :
      (x : ℕ) (path : String) (w : Y.World)
      → (Y.open_file path w).1 ≡ none
      → held x (Y.open_file path w).0 ≡ held x w
  pub close_held :
      (x fd : ℕ) (w : Y.World) → held x (Y.close_file fd w) ≡ held x w - count x (fd ∷ [])
  pub key_bits_held : (x fd : ℕ) (w : Y.World) → held x (Y.key_bits fd w).0 ≡ held x w
  pub grab_held : (x fd : ℕ) (w : Y.World) → held x (Y.grab fd w).0 ≡ held x w
  pub ungrab_held : (x fd : ℕ) (w : Y.World) → held x (Y.ungrab fd w) ≡ held x w
  pub create_held : (x : ℕ) (w : Y.World) → held x (Y.create_indev w).0 ≡ held x w
  pub delete_held : (x : ℕ) (w : Y.World) → held x (Y.delete_indev w) ≡ held x w

module _ (codes : KeyCodes) {Y : InputSystem} (D : Descriptors Y) (x : ℕ) where
  -- A step of the keypad that opens what it keeps, and says whether it keeps something more.
  record IsKept (kw : NfcKeypad × Y.World) (r : (NfcKeypad × Y.World) × Bool) : Type 0 where
    pub balance : D.held x r.0.1 + count x kw.0.event_fds ≡ D.held x kw.1 + count x r.0.0.event_fds
    pub grows : length kw.0.event_fds ≤ length r.0.0.event_fds
    pub opened_iff : (r.1 ≡ true) ↔ (length kw.0.event_fds < length r.0.0.event_fds)

  keep_fd-lem :
      (require_app_keys : Bool) (fd : ℕ) (k : NfcKeypad) (v : Y.World) (h : ℕ)
      → D.held x v ≡ h + count x (fd ∷ [])
      → let r = keep_fd codes Y require_app_keys fd (k, v) in
        (D.held x r.0.1 + count x k.event_fds ≡ h + count x r.0.0.event_fds)
        × (length k.event_fds ≤ length r.0.0.event_fds)
        × ((r.1 ≡ true) ↔ (length k.event_fds < length r.0.0.event_fds))
  unfolding keep_fd
  keep_fd-lem require_app_keys fd k v h e =
      let searched = (Y.key_bits fd v).0 in
      ground (
        arith,
        e,
        D.key_bits_held x fd v,
        D.close_held x fd searched,
        D.grab_held x fd v,
        D.grab_held x fd searched,
        D.close_held x fd (Y.grab fd v).0,
        D.close_held x fd (Y.grab fd searched).0,
        count_if-append (λ y. y == x) k.event_fds (fd ∷ []),
        length-append k.event_fds (fd ∷ []),
      )

  ensure_indev-lem :
      (k : NfcKeypad) (w : Y.World)
      → let r = ensure_indev codes Y (k, w) in
        (D.held x r.0.1 ≡ D.held x w) × (r.0.0.event_fds ≡ k.event_fds)
  unfolding ensure_indev
  ensure_indev-lem k w = ground (arith, D.create_held x w)

  keep_opened-IsKept :
      (path : String) (require_app_keys : Bool) (k : NfcKeypad) (w : Y.World) (fd : Option ℕ)
      → (Y.open_file path w).1 ≡ fd
      → IsKept (k, w) (keep_opened codes Y require_app_keys fd (k, (Y.open_file path w).0))
  unfolding keep_opened
  keep_opened-IsKept path require_app_keys k w none e = record {
    balance = ground (arith, D.open_failed x path w e);
    grows = omega arith;
    opened_iff = ground arith;
  }
  keep_opened-IsKept path require_app_keys k w (some fd) e =
      let (balance, grows, opened_iff) =
        keep_fd-lem require_app_keys fd k (Y.open_file path w).0 (D.held x w)
          (D.open_held x path w fd e) in
      record { balance = balance; grows = grows; opened_iff = opened_iff }

  open_ready-IsKept :
      (path : String) (require_app_keys : Bool) (k : NfcKeypad) (w : Y.World)
      → IsKept (k, w) (open_ready codes Y path require_app_keys (k, w))
  unfolding open_ready
  open_ready-IsKept path require_app_keys k w =
      keep_opened-IsKept path require_app_keys k w (Y.open_file path w).1 refl

  -- A step that may be left out, behind one that keeps the descriptors.
  behind-IsKept :
      (ready : Bool) (kw kv : NfcKeypad × Y.World) (r : (NfcKeypad × Y.World) × Bool)
      → D.held x kv.1 ≡ D.held x kw.1
      → kv.0.event_fds ≡ kw.0.event_fds
      → IsKept kv r
      → IsKept kw (if not ready then (kv, false) else r)
  behind-IsKept ready kw kv r same fds kept = record {
    balance = ground (arith, same, fds, kept.balance);
    grows = ground (arith, fds, kept.grows);
    opened_iff = ground (arith, fds, kept.opened_iff);
  }

  open_device-IsKept :
      (path : String) (require_app_keys : Bool) (kw : NfcKeypad × Y.World)
      → IsKept kw (open_device codes Y path require_app_keys kw)
  unfolding open_device
  open_device-IsKept path require_app_keys (k, w) =
      let (same, fds) = ensure_indev-lem k w in
      let (kv, ready) = ensure_indev codes Y (k, w) in
      behind-IsKept ready (k, w) kv _ same fds (open_ready-IsKept path require_app_keys kv.0 kv.1)

  -- Two steps, of which the second is tried in any case.
  then-IsKept :
      (kw : NfcKeypad × Y.World) (r u : (NfcKeypad × Y.World) × Bool)
      → IsKept kw r
      → IsKept r.0 u
      → IsKept kw (u.0, r.1 || u.1)
  then-IsKept kw r u first second = record {
    balance = omega (arith, first.balance, second.balance);
    grows = omega (arith, first.grows, second.grows);
    opened_iff = ground (arith, first.grows, first.opened_iff, second.grows, second.opened_iff);
  }

  -- Two steps, of which the second is tried if the first fails.
  else-IsKept :
      (kw : NfcKeypad × Y.World) (r u : (NfcKeypad × Y.World) × Bool)
      → IsKept kw r
      → IsKept r.0 u
      → IsKept kw (if r.1 then (r.0, true) else u)
  else-IsKept kw (kv, true) u first second = first
  else-IsKept kw (kv, false) u first second = record {
    balance = omega (arith, first.balance, second.balance);
    grows = omega (arith, first.grows, second.grows);
    opened_iff = ground (arith, first.grows, first.opened_iff, second.grows, second.opened_iff);
  }

  open_events-IsKept :
      (n index : ℕ) (kw : NfcKeypad × Y.World) → IsKept kw (open_events codes Y n index kw)
  unfolding open_events
  open_events-IsKept zero index kw = record {
    balance = omega arith;
    grows = omega arith;
    opened_iff = ground arith;
  }
  open_events-IsKept (suc n) index kw =
      then-IsKept kw _ _ (open_device-IsKept _ true kw) (open_events-IsKept n (suc index) _)

  default-IsKept :
      (path : Option String) (k : NfcKeypad) (w : Y.World)
      → IsKept (k, w) (open_first codes Y path (k, w))
  unfolding open_first
  default-IsKept (some path) k w = open_device-IsKept path false (k, w)
  default-IsKept none k w =
      else-IsKept (k, w) _ _ (open_device-IsKept _ false (k, w)) (open_events-IsKept 32 0 _)

  open_default-IsKept : (kw : NfcKeypad × Y.World) → IsKept kw (open_default codes Y kw)
  unfolding open_default
  open_default-IsKept (k, w) = default-IsKept _ k w

  close_fds-held :
      (fds : List ℕ) (w : Y.World) → D.held x (close_fds codes Y fds w) ≡ D.held x w - count x fds
  unfolding close_fds
  close_fds-held [] w = omega arith
  close_fds-held (fd ∷ fds) w = ground (
    arith,
    close_fds-held fds (Y.close_file fd (Y.ungrab fd w)),
    D.close_held x fd (Y.ungrab fd w),
    D.ungrab_held x fd w,
  )

  close-held :
      (k : NfcKeypad) (w : Y.World)
      → D.held x (close codes Y (k, w)).1 ≡ D.held x w - count x k.event_fds
  unfolding close
  close-held k w =
      ground
        (arith, close_fds-held k.event_fds w, D.delete_held x (close_fds codes Y k.event_fds w))

  -- openDefault of a keypad that has no descriptor says yes exactly if it has one then, and after
  -- close, whichever it said, the system holds every descriptor as often as before.
  pub open_default-close :
      (w : Y.World)
      → let r = open_default codes Y (new_keypad, w) in
        ((r.1 ≡ true) ↔ (0 < length r.0.0.event_fds))
        × (D.held x (close codes Y r.0).1 ≡ D.held x w)
        × ((close codes Y r.0).0.event_fds ≡ [])
  unfolding close
  open_default-close w =
      let kept = open_default-IsKept (new_keypad, w) in
      let r = open_default codes Y (new_keypad, w) in
      (kept.opened_iff, omega (arith, kept.balance, close-held r.0.0 r.0.1), refl)
