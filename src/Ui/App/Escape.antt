-- ===== src/Ui/App/Escape.antt =====
-- When NfcApp asks to quit.
use cap_cc1101_nfc.Base.{
  ℕ, ◌≤◌, ◌≡◌, ◌≢◌, ◌↔◌, ◌⊎◌, inl, refl, sym, ◌∙◌, if_branches, Bool, true, false, not, ◌&&◌, ◌||◌,
  [], ◌∷◌, Option, none, some, Bytes, ltb, leb, if◌then◌else◌, sub32, arith,
}
use cap_cc1101_nfc.Backend.{NfcBackend}
use cap_cc1101_nfc.Model.{Spawn}
use cap_cc1101_nfc.Model as Model
use cap_cc1101_nfc.Ui.ViewModel as ViewModel
use cap_cc1101_nfc.Ui.ViewModel.{
  NfcViewModel, is_scan, key_help, key_escape, key_enter, key_up, key_down, key_left, key_right,
  notify_dialog_hidden,
}
use cap_cc1101_nfc.Ui.App.{
  NfcApp, LvKeys, is_visible, at_root, on_key, help_state, esc_state, text_key, on_lvgl_key_state,
  tick_hold, is_nfc, tick_view_model, tick_view, tick, forward_key, esc_exit_delay_ms,
}

printable-escape : (c : ℕ) → (leb 0x20 c && ltb c 0x7f) ≡ true → c ≢ key_escape
printable-escape c h = ground arith

module _ {B : NfcBackend} where
  -- A hold that counts is one of a key that is down.
  abbrev pub IsHeld : NfcApp B → Type 0
  IsHeld a = a.esc_hold_active ≡ true → a.esc_pressed ≡ true

  -- A step from `a` to `u` that does not ask to quit, nor takes the wish to quit back.
  pub record IsQuiet (a u : NfcApp B) : Type 0 where
    pub same_wish : u.quit_requested ≡ a.quit_requested
    pub held : IsHeld a → IsHeld u

  pub same-IsQuiet : (a : NfcApp B) → IsQuiet a a
  same-IsQuiet a = record { same_wish = refl; held = λ h. h }

  -- A key does nothing to the state of ESC.
  on_key-hold :
      (spawn : Spawn) (key : ℕ) (a : NfcApp B)
      → let u = on_key spawn key a in
        (u.esc_hold_active ≡ a.esc_hold_active)
        × (u.esc_pressed ≡ a.esc_pressed)
        × (u.help_pressed ≡ a.help_pressed)
  unfolding on_key forward_key
  on_key-hold spawn key a = ground arith

  -- Only ESC asks to quit, and only where nothing is open.
  on_key-quit :
      (spawn : Spawn) (key : ℕ) (a : NfcApp B)
      → (key ≢ key_escape) ⊎ ((is_visible a.help_visible || not (at_root a.router a.nfc_vm)) ≡ true)
      → (on_key spawn key a).quit_requested ≡ a.quit_requested
  unfolding on_key forward_key
  on_key-quit spawn key a h = ground arith

  on_key-IsQuiet :
      (spawn : Spawn) (key : ℕ) (a : NfcApp B) → key ≢ key_escape → IsQuiet a (on_key spawn key a)
  on_key-IsQuiet spawn key a h =
      let k = on_key-hold spawn key a in
      record { same_wish = on_key-quit spawn key a (inl h); held = λ g e. k.1 ∙ g (sym k.0 ∙ e) }

  help_state-IsQuiet :
      (spawn : Spawn) (pressed : Bool) (a : NfcApp B) → IsQuiet a (help_state spawn pressed a)
  unfolding help_state
  help_state-IsQuiet spawn pressed a =
      ground (arith, on_key-quit spawn key_help a (inl (omega arith)), on_key-hold spawn key_help a)

  esc_state-IsQuiet :
      (spawn : Spawn) (now : ℕ) (pressed : Bool) (a : NfcApp B)
      → IsQuiet a (esc_state spawn now pressed a)
  unfolding esc_state
  esc_state-IsQuiet spawn now pressed a = ground (
    arith,
    on_key-quit spawn key_escape (record a { esc_pressed = true }),
    on_key-hold spawn key_escape (record a { esc_pressed = true }),
  )

  character-IsQuiet :
      (spawn : Spawn) (c : ℕ) (a : NfcApp B) (b : Bool)
      → (b ≡ true → c ≢ key_escape)
      → IsQuiet a (elim (if b then some c else none) as (λ x. NfcApp B) [
        | none ↦ a
        | some c ↦ on_key spawn c a
      ])
  character-IsQuiet spawn c a true h = on_key-IsQuiet spawn c a (h refl)
  character-IsQuiet spawn c a false h = same-IsQuiet a

  text_key-IsQuiet :
      (spawn : Spawn) (utf8 : Option Bytes) (a : NfcApp B) → IsQuiet a (text_key spawn utf8 a)
  unfolding text_key
  text_key-IsQuiet spawn none a = same-IsQuiet a
  text_key-IsQuiet spawn (some []) a = same-IsQuiet a
  text_key-IsQuiet spawn (some (c ∷ d ∷ cs)) a = same-IsQuiet a
  text_key-IsQuiet spawn (some (c ∷ [])) a =
      if_branches (IsQuiet a) _ (on_key-IsQuiet spawn key_up a (omega arith)) (
        if_branches (IsQuiet a) _ (on_key-IsQuiet spawn key_down a (omega arith)) (
          if_branches (IsQuiet a) _ (on_key-IsQuiet spawn key_left a (omega arith)) (
            if_branches (IsQuiet a) _ (on_key-IsQuiet spawn key_right a (omega arith))
              (character-IsQuiet spawn c a _ (printable-escape c)))))

  -- A key event, whatever the key, its text and the state, does not ask to quit: quitting takes the
  -- clock. A hold of ESC still counts only while ESC is down.
  pub on_lvgl_key_state-IsQuiet :
      (lv : LvKeys) (spawn : Spawn) (now lv_key : ℕ) (utf8 : Option Bytes) (pressed : Bool)
      (a : NfcApp B)
      → IsQuiet a (on_lvgl_key_state lv spawn now lv_key utf8 pressed a)
  unfolding on_lvgl_key_state
  on_lvgl_key_state-IsQuiet lv spawn now lv_key utf8 pressed a =
      if_branches (IsQuiet a) _ (help_state-IsQuiet spawn pressed a) (
        if_branches (IsQuiet a) _ (esc_state-IsQuiet spawn now pressed a) (
          if_branches (IsQuiet a) _ (same-IsQuiet a) (
            if_branches (IsQuiet a) _ (on_key-IsQuiet spawn key_enter a (omega arith)) (
              if_branches (IsQuiet a) _ (on_key-IsQuiet spawn key_up a (omega arith)) (
                if_branches (IsQuiet a) _ (on_key-IsQuiet spawn key_down a (omega arith)) (
                  if_branches (IsQuiet a) _ (on_key-IsQuiet spawn key_left a (omega arith)) (
                    if_branches (IsQuiet a) _ (on_key-IsQuiet spawn key_right a (omega arith))
                      (text_key-IsQuiet spawn utf8 a))))))))

  -- `tick` keeps it that a hold counts only while ESC is down.
  pub tick-IsHeld :
      (spawn : Spawn) (hidden : Bool) (now : ℕ) (a : NfcApp B)
      → IsHeld a
      → IsHeld (tick spawn hidden now a)
  unfolding tick tick_hold tick_view_model tick_view notify_dialog_hidden on_key forward_key
  tick-IsHeld spawn hidden now a h = ground arith

  -- The view model behind its tick.
  abbrev pub ticked : NfcApp B → NfcViewModel
  ticked a =
      if a.has_view_model then (ViewModel.tick (a.nfc_vm, Model.tick a.model)).0 else a.nfc_vm

  -- Nothing is open behind the ticks: the page is that of the reader, in its section for scanning,
  -- and the dialog is not modal, or it is neither active nor visible any more.
  abbrev pub nothing_open : Bool → NfcApp B → Bool
  nothing_open hidden a =
      is_nfc a.router.current_page
      && is_scan (ticked a).section
      && (not (ticked a).initialization_dialog_modal_active
          || a.has_view_model && hidden && not (ticked a).initialization_dialog_active)

  -- A tick asks to quit exactly if ESC is held, has been for at least three seconds of the 32-bit
  -- clock, and nothing is open once the model and the view model have ticked: no
  -- help, the reader's page in its section for scanning, and no modal dialog but one that is inactive
  -- and that the view finds hidden.
  pub tick-quit_iff :
      (spawn : Spawn) (hidden : Bool) (now : ℕ) (a : NfcApp B)
      → a.quit_requested ≡ false
      → let u = tick spawn hidden now a in
        (u.quit_requested ≡ true) ↔ (
          (a.esc_hold_active ≡ true)
          × (esc_exit_delay_ms ≤ sub32 now a.esc_down_ms)
          × (is_visible a.help_visible ≡ false)
          × (nothing_open hidden a ≡ true))
  unfolding tick tick_hold tick_view_model tick_view notify_dialog_hidden on_key forward_key
  tick-quit_iff spawn hidden now a h = ground arith
