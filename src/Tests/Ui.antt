-- ===== src/Tests/Ui.antt =====
-- The pages and the keys.
use cap_cc1101_nfc.Base.{none, ◌≡◌, refl, ◌↔◌, ◌≤◌, [], some, true, false, arith, sub32}
use cap_cc1101_nfc.Model.{NfcModel, spawned}
use cap_cc1101_nfc.Ui.Router.{nfc, scan, NfcRouter}
use cap_cc1101_nfc.Ui.ViewModel.{
  NfcViewModel, ScrollRequest, pos, key_enter, dismiss_dialog, notify_dialog_hidden, on_enter,
  on_exit, on_key, retry_reader,
}
use cap_cc1101_nfc.Ui.ViewModel as ViewModel
use cap_cc1101_nfc.Ui.ViewModel.Dialog.{IsModal, operations-IsModal}
use cap_cc1101_nfc.Ui.App.{NfcApp, LvKeys, is_visible, tick, esc_exit_delay_ms}
use cap_cc1101_nfc.Ui.App.Escape.{nothing_open, tick-quit_iff}
use cap_cc1101_nfc.Tests.Worker.{scripted}
use cap_cc1101_nfc.Tests.Model.{model}

abbrev router : NfcRouter
router = record { current_page = nfc; history = [] }

-- The dialog is shown.
abbrev dialog : NfcViewModel
dialog = record {
  section = scan;
  scroll_request = record { serial = 0; amount = pos 0 };
  initialization_dialog_active = true;
  scroll_serial = 0;
  last_failed_attempt = 1;
  initialization_dialog_modal_active = true;
}

dialog-IsModal : IsModal dialog
dialog-IsModal = ground arith

operations-IsModal_example :
    IsModal (on_enter (dialog, model)).0
    × IsModal (on_exit (dialog, model)).0
    × IsModal (on_key spawned key_enter (dialog, model)).0
    × IsModal (ViewModel.tick (dialog, model)).0
    × IsModal (retry_reader spawned (dialog, model)).0
    × IsModal (dismiss_dialog dialog)
    × IsModal (notify_dialog_hidden dialog)
operations-IsModal_example = operations-IsModal spawned key_enter (dialog, model) dialog-IsModal

-- The second attempt to open the reader has failed.
abbrev failing : NfcModel scripted
failing = record model {
  shown = record {
    reader_status = record model.shown.reader_status {
      initialization_failed = true;
      failed_attempt = 2;
    };
    tag_session = none;
  };
}

-- ESC has been down since 4294967000 on the clock, which has wrapped around since.
abbrev pub app : NfcApp scripted
app = record {
  router = router;
  model = model;
  nfc_vm = record dialog {
    initialization_dialog_active = false;
    initialization_dialog_modal_active = false;
  };
  has_view_model = true;
  help_visible = some false;
  started = true;
  quit_requested = false;
  help_pressed = false;
  esc_pressed = true;
  esc_hold_active = true;
  esc_hold_hint_shown = true;
  esc_down_ms = 4294967000;
}

abbrev pub lv_keys : LvKeys
lv_keys = record {
  esc = 27;
  enter = 10;
  up = 17;
  down = 18;
  left = 20;
  prev = 11;
  right = 19;
  next = 9;
}

tick-quit_iff_example :
    let u = tick spawned true 5000 app in
    (u.quit_requested ≡ true) ↔ (
      (app.esc_hold_active ≡ true)
      × (esc_exit_delay_ms ≤ sub32 5000 app.esc_down_ms)
      × (is_visible app.help_visible ≡ false)
      × (nothing_open true app ≡ true))
tick-quit_iff_example = tick-quit_iff spawned true 5000 app refl
