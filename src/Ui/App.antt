-- ===== src/Ui/App.antt =====
-- src/core/nfc_app.cpp: NfcApp, its keys and its clock, as the device build has them (LV_USE_SDL is
-- 0 there), and NfcView::tick of src/views/nfc_view.cpp. The numbers of LVGL's keys are parameters.
-- What is drawn is left out, except whether the help is visible and whether the dialog has gone.
pub mod Escape
use cap_cc1101_nfc.Base.{
  ℕ, zero, suc, ◌-◌, Bool, true, false, not, ◌&&◌, ◌||◌, List, [], ◌∷◌, Option, none, some, Bytes,
  ◌==◌, ltb, leb, if◌then◌else◌, sub32,
}
use cap_cc1101_nfc.Backend.{NfcBackend}
use cap_cc1101_nfc.Worker.Thread.{Reading}
use cap_cc1101_nfc.Model.{NfcModel, Spawn}
use cap_cc1101_nfc.Model as Model
use cap_cc1101_nfc.Ui.Router.{PageId, nfc, page_eq, NfcRouter}
use cap_cc1101_nfc.Ui.ViewModel.{
  NfcViewModel, is_scan, key_up, key_down, key_left, key_right, key_help, key_escape, key_enter,
}
use cap_cc1101_nfc.Ui.ViewModel as ViewModel

abbrev pub esc_exit_delay_ms : ℕ
esc_exit_delay_ms = 3000

abbrev pub esc_hint_delay_ms : ℕ
esc_hint_delay_ms = 500

-- LVGL's key constants.
pub record LvKeys : Type 0 where
  pub esc : ℕ
  pub enter : ℕ
  pub up : ℕ
  pub down : ℕ
  pub left : ℕ
  pub prev : ℕ
  pub right : ℕ
  pub next : ℕ

-- `help_visible` is `none` while there is no help view, and `has_view_model` says whether
-- `_current_vm` and `_current_view` are set, which is done together; they are the NFC page's then.
pub record NfcApp (B : NfcBackend) : Type 0 where
  pub router : NfcRouter
  pub model : NfcModel B
  pub nfc_vm : NfcViewModel
  pub has_view_model : Bool
  pub help_visible : Option Bool
  pub started : Bool
  pub quit_requested : Bool
  pub help_pressed : Bool
  pub esc_pressed : Bool
  pub esc_hold_active : Bool
  pub esc_hold_hint_shown : Bool
  pub esc_down_ms : ℕ

-- A C string, or a null pointer, of one letter in either case.
abbrev is_text_key : Option Bytes → ℕ → Bool
is_text_key none expected = false
is_text_key (some []) expected = false
is_text_key (some (c ∷ [])) expected = c == expected || c == expected - 32
is_text_key (some (c ∷ d ∷ cs)) expected = false

-- A printable character that stands alone.
abbrev printable : Option Bytes → Option ℕ
printable (some (c ∷ [])) = if leb 0x20 c && ltb c 0x7f then some c else none
printable _ = none

abbrev pub is_visible : Option Bool → Bool
is_visible none = false
is_visible (some b) = b

abbrev toggle_help : Option Bool → Option Bool
toggle_help none = none
toggle_help (some b) = some (not b)

abbrev hide_help : Option Bool → Option Bool
hide_help none = none
hide_help (some b) = some false

abbrev pub is_nfc : PageId → Bool
is_nfc page = page_eq page nfc

-- Where nothing is open, so that ESC leads out of the program.
abbrev pub at_root : NfcRouter → NfcViewModel → Bool
at_root router vm =
    is_nfc router.current_page && is_scan vm.section && not vm.initialization_dialog_modal_active

module _ {B : NfcBackend} where
  abbrev pub end_hold : NfcApp B → NfcApp B
  end_hold a = record a { esc_hold_active = false; esc_hold_hint_shown = false }

  abbrev set_page : NfcViewModel × NfcModel B → NfcApp B → NfcApp B
  set_page (vm, model) a = record a { nfc_vm = vm; model = model }

  forward_key : Spawn → ℕ → NfcApp B → NfcApp B
  forward_key spawn key a =
      if a.has_view_model then set_page (ViewModel.on_key spawn key (a.nfc_vm, a.model)) a else a

  unfoldable pub on_key : Spawn → ℕ → NfcApp B → NfcApp B
  unfolding forward_key
  on_key spawn key a =
      if key == key_help && has_help a.help_visible
      then record a { help_visible = toggle_help a.help_visible }
      else if is_visible a.help_visible
      then (if key == key_escape then record a { help_visible = hide_help a.help_visible } else a)
      else if key == key_escape && at_root a.router a.nfc_vm
      then record a { quit_requested = true }
      else forward_key spawn key a
    where
      has_help : Option Bool → Bool
      has_help none = false
      has_help (some b) = true

  help_state : Spawn → Bool → NfcApp B → NfcApp B
  unfolding on_key
  help_state spawn pressed a =
      let u = if pressed && not a.help_pressed then on_key spawn key_help a else a in
      record u { help_pressed = pressed }

  -- LV_KEY_ESC, where `now` is lv_tick_get().
  esc_state : Spawn → ℕ → Bool → NfcApp B → NfcApp B
  unfolding on_key
  esc_state spawn now pressed a =
      if not pressed
      then (let u = record a { esc_pressed = false } in if u.esc_hold_active then end_hold u else u)
      else if a.esc_pressed
      then a
      else esc_down (record a { esc_pressed = true })
    where
      esc_down : NfcApp B → NfcApp B
      esc_down u =
          if is_visible u.help_visible
          then on_key spawn key_escape u
          else if at_root u.router u.nfc_vm
          then record u { esc_hold_active = true; esc_hold_hint_shown = false; esc_down_ms = now }
          else on_key spawn key_escape u

  -- The keys that arrive as text.
  text_key : Spawn → Option Bytes → NfcApp B → NfcApp B
  unfolding on_key
  text_key spawn utf8 a =
      if is_text_key utf8 b'f'
      then on_key spawn key_up a
      else if is_text_key utf8 b'x'
      then on_key spawn key_down a
      else if is_text_key utf8 b'z'
      then on_key spawn key_left a
      else if is_text_key utf8 b'c'
      then on_key spawn key_right a
      else elim (printable utf8) as (λ x. NfcApp B) [ none ↦ a | some c ↦ on_key spawn c a ]

  unfoldable pub on_lvgl_key_state :
      LvKeys → Spawn → ℕ → ℕ → Option Bytes → Bool → NfcApp B → NfcApp B
  unfolding help_state esc_state text_key
  on_lvgl_key_state lv spawn now lv_key utf8 pressed a =
      if lv_key == key_help
      then help_state spawn pressed a
      else if lv_key == lv.esc
      then esc_state spawn now pressed a
      else if not pressed
      then a
      else if lv_key == lv.enter
      then on_key spawn key_enter a
      else if lv_key == lv.up
      then on_key spawn key_up a
      else if lv_key == lv.down
      then on_key spawn key_down a
      else if lv_key == lv.left || lv_key == lv.prev
      then on_key spawn key_left a
      else if lv_key == lv.right || lv_key == lv.next
      then on_key spawn key_right a
      else text_key spawn utf8 a

  -- The end of `tick`, for a hold of ESC.
  tick_hold : Spawn → ℕ → NfcApp B → NfcApp B
  unfolding on_key
  tick_hold spawn now a =
      if not a.esc_hold_active
      then a
      else if is_visible a.help_visible || not (at_root a.router a.nfc_vm)
      then end_hold a
      else if leb esc_exit_delay_ms (sub32 now a.esc_down_ms)
      then on_key spawn key_escape (end_hold a)
      else if not a.esc_hold_hint_shown && leb esc_hint_delay_ms (sub32 now a.esc_down_ms)
      then record a { esc_hold_hint_shown = true }
      else a

  tick_view_model : NfcApp B → NfcApp B
  tick_view_model a =
      if a.has_view_model then set_page (ViewModel.tick (a.nfc_vm, a.model)) a else a

  -- NfcView::tick, as far as it tells the view model that its dialog has gone. `hidden` is what the
  -- pager answers once it has had its turn.
  tick_view : Bool → NfcApp B → NfcApp B
  tick_view hidden a =
      if a.has_view_model && not a.nfc_vm.initialization_dialog_active && hidden
      then record a { nfc_vm = ViewModel.notify_dialog_hidden a.nfc_vm }
      else a

  unfoldable pub tick : Spawn → Bool → ℕ → NfcApp B → NfcApp B
  unfolding tick_hold tick_view_model tick_view
  tick spawn hidden now a =
      tick_hold spawn now
        (tick_view hidden (tick_view_model (record a { model = Model.tick a.model })))

  -- `setCurrentPage`, for the page that there is.
  enter_page : NfcApp B → NfcApp B
  enter_page a =
      if a.has_view_model || not (is_nfc a.router.current_page)
      then a
      else set_page (ViewModel.on_enter (a.nfc_vm, a.model)) (record a { has_view_model = true })

  unfoldable pub start : Spawn → NfcApp B → NfcApp B
  unfolding enter_page
  start spawn a =
      if a.started
      then a
      else enter_page (record a {
        started = true;
        quit_requested = false;
        help_pressed = false;
        esc_pressed = false;
        esc_hold_active = false;
        esc_hold_hint_shown = false;
        esc_down_ms = 0;
        help_visible = some false;
        model = Model.start spawn a.model;
      })

  unfoldable pub stop : List (Reading B) → NfcApp B → NfcApp B
  stop readings a =
      if not a.started
      then a
      else let model = Model.stop readings a.model in
        let p =
          if a.has_view_model then ViewModel.on_exit (a.nfc_vm, model) else (a.nfc_vm, model) in
        record (set_page p a) {
          has_view_model = false;
          help_visible = none;
          started = false;
          help_pressed = false;
          esc_pressed = false;
          esc_hold_active = false;
          esc_hold_hint_shown = false;
          esc_down_ms = 0;
        }
