-- ===== src/Ui/ViewModel/Dialog.antt =====
-- The dialog of the view model, and what the keys do while it is there.
use cap_cc1101_nfc.Base.{ℕ, ◌≡◌, ◌≢◌, true, arith}
use cap_cc1101_nfc.Backend.{NfcBackend}
use cap_cc1101_nfc.Model.{NfcModel, Spawn}
use cap_cc1101_nfc.Ui.Router.{NfcSection}
use cap_cc1101_nfc.Ui.ViewModel.{
  NfcViewModel, dismiss_dialog, notify_dialog_hidden, retry_reader, on_enter, on_exit, on_key, tick,
}

-- A dialog that is shown is modal, and a section is shown.
pub record IsModal (v : NfcViewModel) : Type 0 where
  pub shown_modal :
      v.initialization_dialog_active ≡ true → v.initialization_dialog_modal_active ≡ true
  pub section_shown : v.section ≢ NfcSection.count

module _ {B : NfcBackend} where
  -- Every operation of the view model, and those of its dialog, keep a shown dialog modal and the
  -- section one that can be shown.
  pub operations-IsModal :
      (spawn : Spawn) (key : ℕ) (p : NfcViewModel × NfcModel B)
      → IsModal p.0
      → IsModal (on_enter p).0
        × IsModal (on_exit p).0
        × IsModal (on_key spawn key p).0
        × IsModal (tick p).0
        × IsModal (retry_reader spawn p).0
        × IsModal (dismiss_dialog p.0)
        × IsModal (notify_dialog_hidden p.0)
  unfolding on_enter on_exit on_key tick retry_reader dismiss_dialog notify_dialog_hidden
  operations-IsModal spawn key (v, m) h = (
    ground arith,
    ground arith,
    ground arith,
    ground arith,
    ground arith,
    ground arith,
    ground arith,
  )

  -- While the dialog is modal, no key changes the section or scrolls the page, and the dialog stays
  -- modal: only its view ends that.
  pub on_key-modal :
      (spawn : Spawn) (key : ℕ) (p : NfcViewModel × NfcModel B)
      → p.0.initialization_dialog_modal_active ≡ true
      → let u = (on_key spawn key p).0 in
        (u.section ≡ p.0.section)
        × (u.scroll_request ≡ p.0.scroll_request)
        × (u.initialization_dialog_modal_active ≡ true)
  unfolding on_key retry_reader dismiss_dialog
  on_key-modal spawn key (v, m) h = ground arith
