-- ===== src/Ui/ViewModel.antt =====
-- src/view_models/nfc_view_model.cpp: NfcViewModel, with the model that it reads and retries.
pub mod Dialog
use cap_cc1101_nfc.Base.{
  ℕ, zero, suc, ◌-◌, Bool, true, false, not, ◌&&◌, ◌||◌, Option, none, some, ◌==◌, ◌!=◌,
  if◌then◌else◌, inc32, is_some,
}
use cap_cc1101_nfc.Types.{ReaderState, ReaderStatus}
use cap_cc1101_nfc.Backend.{NfcBackend}
use cap_cc1101_nfc.Model.{NfcModel, Spawn, retry, is_error}
use cap_cc1101_nfc.Ui.Router.{NfcSection, scan, tag_detail, reader_info}

-- Keys: those of nfc_key, and characters.
abbrev pub key_up : ℕ
key_up = 0x10001

abbrev pub key_down : ℕ
key_down = 0x10002

abbrev pub key_left : ℕ
key_left = 0x10003

abbrev pub key_right : ℕ
key_right = 0x10004

abbrev pub key_help : ℕ
key_help = 0x10005

abbrev pub key_escape : ℕ
key_escape = 27

abbrev pub key_enter : ℕ
key_enter = 13

pub data ℤ : Type 0 where
  pos negsuc : ℕ → ℤ

pub record ScrollRequest : Type 0 where
  pub serial : ℕ
  pub amount : ℤ

-- kDetailScrollStep and its negation
abbrev pub detail_scroll_step : ℤ
detail_scroll_step = pos 38

abbrev pub minus_detail_scroll_step : ℤ
minus_detail_scroll_step = negsuc 37

pub record NfcViewModel : Type 0 where
  pub section : NfcSection
  pub scroll_request : ScrollRequest
  pub initialization_dialog_active : Bool
  pub scroll_serial : ℕ
  pub last_failed_attempt : ℕ
  pub initialization_dialog_modal_active : Bool

abbrev is_previous_key : ℕ → Bool
is_previous_key key = key == key_left || key == b'z' || key == b'Z'

abbrev is_next_key : ℕ → Bool
is_next_key key = key == key_right || key == b'c' || key == b'C'

abbrev is_retry_key : ℕ → Bool
is_retry_key key = key == key_enter || key == b'r' || key == b'R'

abbrev pub is_scan : NfcSection → Bool
is_scan scan = true
is_scan _ = false

abbrev pub section_index : NfcSection → ℕ
section_index scan = 0
section_index tag_detail = 1
section_index reader_info = 2
section_index NfcSection.count = 3

pub show_dialog : NfcViewModel → NfcViewModel
show_dialog v = record v {
  initialization_dialog_modal_active = true;
  initialization_dialog_active = true;
}

unfoldable pub dismiss_dialog : NfcViewModel → NfcViewModel
dismiss_dialog v =
    if not v.initialization_dialog_modal_active
    then v
    else record v { initialization_dialog_active = false }

unfoldable pub notify_dialog_hidden : NfcViewModel → NfcViewModel
notify_dialog_hidden v =
    if v.initialization_dialog_modal_active && not v.initialization_dialog_active
    then record v { initialization_dialog_modal_active = false }
    else v

-- Setting the section that is shown, or Count, is no change.
set_section : NfcSection → NfcViewModel → NfcViewModel
set_section NfcSection.count v = v
set_section section v =
    if section_index v.section == section_index section then v else record v { section = section }

-- The sections by max(current - 1, 0) and min(current + 1, last).
abbrev previous_section : NfcSection → NfcSection
previous_section scan = scan
previous_section tag_detail = scan
previous_section reader_info = tag_detail
previous_section NfcSection.count = reader_info

abbrev next_section : NfcSection → NfcSection
next_section scan = tag_detail
next_section tag_detail = reader_info
next_section reader_info = reader_info
next_section NfcSection.count = reader_info

request_scroll : ℤ → NfcViewModel → NfcViewModel
request_scroll amount v =
    let serial = inc32 v.scroll_serial in
    record v {
      scroll_serial = serial;
      scroll_request = record { serial = serial; amount = amount };
    }

abbrev pub can_retry : ReaderStatus → Bool
can_retry s = is_error s.state && not s.ready && not s.backend_unavailable

-- What `retryReader` does with the model's answer.
retried : Bool → NfcViewModel → NfcViewModel
unfolding show_dialog dismiss_dialog
retried true v = if v.initialization_dialog_modal_active then dismiss_dialog v else v
retried false v = show_dialog v

-- The first test of `tick`: a failure that was not shown yet.
note_failure : ReaderStatus → NfcViewModel → NfcViewModel
unfolding show_dialog
note_failure s v =
    if s.initialization_failed && s.failed_attempt != 0 && s.failed_attempt != v.last_failed_attempt
    then show_dialog (record v { last_failed_attempt = s.failed_attempt; section = scan })
    else v

module _ {B : NfcBackend} where
  unfoldable pub on_enter : NfcViewModel × NfcModel B → NfcViewModel × NfcModel B
  unfolding show_dialog
  on_enter (v, m) =
      let s = m.shown.reader_status in
      let u = record v { section = scan; last_failed_attempt = s.failed_attempt } in
      if s.initialization_failed && s.failed_attempt != 0 then (show_dialog u, m) else (
        record u {
          initialization_dialog_active = false;
          initialization_dialog_modal_active = false;
        },
        m,
      )

  unfoldable pub on_exit : NfcViewModel × NfcModel B → NfcViewModel × NfcModel B
  on_exit (v, m) = (
    record v { initialization_dialog_active = false; initialization_dialog_modal_active = false },
    m,
  )

  unfoldable pub retry_reader : Spawn → NfcViewModel × NfcModel B → NfcViewModel × NfcModel B
  unfolding retried
  retry_reader spawn (v, m) =
      if not (can_retry m.shown.reader_status)
      then (v, m)
      else let (model, answer) = retry spawn m in (retried answer v, model)

  -- The keys while the dialog is modal.
  on_modal_key : Spawn → ℕ → NfcViewModel × NfcModel B → NfcViewModel × NfcModel B
  unfolding retry_reader dismiss_dialog
  on_modal_key spawn key (v, m) =
      if v.initialization_dialog_active && key == key_escape
      then (dismiss_dialog v, m)
      else if v.initialization_dialog_active && is_retry_key key && can_retry m.shown.reader_status
      then retry_reader spawn (v, m)
      else (v, m)

  -- The switch on the section.
  on_section_key : Spawn → ℕ → NfcSection → NfcViewModel × NfcModel B → NfcViewModel × NfcModel B
  unfolding retry_reader set_section
  on_section_key spawn key scan (v, m) =
      if not (key == key_enter)
      then (v, m)
      else if can_retry m.shown.reader_status
      then retry_reader spawn (v, m)
      else if is_some m.shown.tag_session
      then (set_section tag_detail v, m)
      else (v, m)
  on_section_key spawn key reader_info (v, m) =
      if is_retry_key key && can_retry m.shown.reader_status
      then retry_reader spawn (v, m)
      else (v, m)
  on_section_key spawn key _ (v, m) = (v, m)

  unfoldable pub on_key : Spawn → ℕ → NfcViewModel × NfcModel B → NfcViewModel × NfcModel B
  unfolding on_modal_key on_section_key set_section request_scroll
  on_key spawn key (v, m) =
      if v.initialization_dialog_modal_active
      then on_modal_key spawn key (v, m)
      else if key == key_escape
      then (if not (is_scan v.section) then set_section scan v else v, m)
      else if is_previous_key key
      then (set_section (previous_section v.section) v, m)
      else if is_next_key key
      then (set_section (next_section v.section) v, m)
      else if not (is_scan v.section) && key == key_up
      then (request_scroll detail_scroll_step v, m)
      else if not (is_scan v.section) && key == key_down
      then (request_scroll minus_detail_scroll_step v, m)
      else on_section_key spawn key v.section (v, m)

  unfoldable pub tick : NfcViewModel × NfcModel B → NfcViewModel × NfcModel B
  unfolding note_failure dismiss_dialog
  tick (v, m) =
      let s = m.shown.reader_status in
      let u = note_failure s v in
      (if s.ready && u.initialization_dialog_active then dismiss_dialog u else u, m)
