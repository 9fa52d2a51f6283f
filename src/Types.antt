-- ===== src/Types.antt =====
-- src/nfc/nfc_types.hpp and src/nfc/nfc_types.cpp: the values that the reader's parts exchange. A
-- `std::string` that holds raw bytes is a list of bytes, and one that holds a message is a
-- `String`. Time stamps and counters are 64-bit.
pub mod Identity
use package.text.Mathlib.Text.{◌==◌ as str_eq}
use cap_cc1101_nfc.Base.{
  ℕ, String, Bool, true, false, ◌&&◌, List, [], ◌∷◌, Option, Bytes, bytes_eq, ◌==◌, if◌then◌else◌,
  ◌!=◌, not, ◌||◌, length, ◌++◌, ◌+◌, ◌-◌, ◌/◌, ◌%◌, ltb,
}

pub data ReaderState : Type 0 where
  stopped initializing scanning idle error stopping : ReaderState

pub data TagTechnology : Type 0 where
  unknown nfc_a nfc_b nfc_f nfc_v : TagTechnology

pub data NdefRecordKind : Type 0 where
  text uri mime unknown : NdefRecordKind

pub record NdefRecord : Type 0 where
  pub kind : NdefRecordKind
  pub type : Bytes
  pub value : Bytes
  pub payload : Bytes

pub record TagSnapshot : Type 0 where
  pub technology : TagTechnology
  pub uid : Bytes
  pub atqa : Bytes
  pub sak : ℕ
  pub type_name : String
  pub ndef_supported : Bool
  pub ndef_readable : Bool
  pub ndef_capacity : ℕ
  pub records : List NdefRecord

pub record TagSession : Type 0 where
  pub session_id : ℕ
  pub present : Bool
  pub first_seen_ms : ℕ
  pub last_seen_ms : ℕ
  pub snapshot : TagSnapshot

pub record ReaderInfo : Type 0 where
  pub backend_name : String
  pub chip_name : String
  pub chip_version : String
  pub transport : String
  pub irq : String
  pub power : String
  pub protocols : String
  pub mock : Bool

pub record ReaderStatus : Type 0 where
  pub state : ReaderState
  pub ready : Bool
  pub initialization_failed : Bool
  pub backend_unavailable : Bool
  pub attempt : ℕ
  pub failed_attempt : ℕ
  pub scan_count : ℕ
  pub dropped_event_count : ℕ
  pub info : ReaderInfo
  pub diagnostics : String

pub data DiscoveryPollKind : Type 0 where
  no_observation no_tag tag : DiscoveryPollKind

pub record DiscoveryPollResult : Type 0 where
  pub kind : DiscoveryPollKind
  pub tag : Option TagSnapshot

-- How a backend call ends: it returns, or throws NfcCancelled, NfcBackendUnavailable or another
-- std::exception, the last two with their message.
pub data Outcome {ℓ} (A : Type ℓ) : Type ℓ where
  returned : A → Outcome A
  cancelled : Outcome A
  unavailable failed : String → Outcome A

pub data NfcCommand : Type 0 where
  retry : NfcCommand
  set_scanning : Bool → NfcCommand
  shutdown : NfcCommand

-- The alternatives of the variant, each with the fields of its struct in their order.
pub data NfcEvent : Type 0 where
  state_event : ReaderState → ℕ → String → NfcEvent
  initialized : ℕ → ReaderInfo → NfcEvent
  initialization_failed : ℕ → String → String → Bool → NfcEvent
  tag_presented tag_updated : ℕ → ℕ → TagSnapshot → NfcEvent
  tag_removed : ℕ → ℕ → ℕ → TagSnapshot → NfcEvent
  worker_error : String → String → Bool → NfcEvent
  queue_overflow : ℕ → NfcEvent

pub reader_state_name : ReaderState → String
reader_state_name stopped = "Stopped"
reader_state_name initializing = "Initializing"
reader_state_name scanning = "Scanning"
reader_state_name idle = "Idle"
reader_state_name error = "Error"
reader_state_name stopping = "Stopping"

pub tag_technology_name : TagTechnology → String
tag_technology_name nfc_a = "NFC-A"
tag_technology_name nfc_b = "NFC-B"
tag_technology_name nfc_f = "NFC-F"
tag_technology_name nfc_v = "NFC-V"
tag_technology_name TagTechnology.unknown = "Unknown"

pub ndef_record_kind_name : NdefRecordKind → String
ndef_record_kind_name text = "TEXT"
ndef_record_kind_name uri = "URI"
ndef_record_kind_name mime = "MIME"
ndef_record_kind_name NdefRecordKind.unknown = "RAW"

-- The enumerators' values, by which `==` compares them.
technology_value : TagTechnology → ℕ
technology_value TagTechnology.unknown = 0
technology_value nfc_a = 1
technology_value nfc_b = 2
technology_value nfc_f = 3
technology_value nfc_v = 4

kind_value : NdefRecordKind → ℕ
kind_value text = 0
kind_value uri = 1
kind_value mime = 2
kind_value NdefRecordKind.unknown = 3

bool_eq : Bool → Bool → Bool
bool_eq true b = b
bool_eq false b = not b

same_record : NdefRecord → NdefRecord → Bool
unfolding kind_value
same_record left right =
    kind_value left.kind == kind_value right.kind
    && bytes_eq left.type right.type
    && bytes_eq left.value right.value
    && bytes_eq left.payload right.payload

-- The loop over the records, whose numbers were compared before it.
same_records : List NdefRecord → List NdefRecord → Bool
same_records [] right = true
same_records (l ∷ left) [] = false
same_records (l ∷ left) (r ∷ right) =
    if not (same_record l r) then false else same_records left right

pub same_tag_identity : TagSnapshot → TagSnapshot → Bool
unfolding technology_value
same_tag_identity left right =
    technology_value left.technology == technology_value right.technology
    && bytes_eq left.uid right.uid

pub same_tag_snapshot : TagSnapshot → TagSnapshot → Bool
unfolding bool_eq
same_tag_snapshot left right =
    if not (same_tag_identity left right)
      || not (bytes_eq left.atqa right.atqa)
      || left.sak != right.sak
      || not (str_eq left.type_name right.type_name)
      || not (bool_eq left.ndef_supported right.ndef_supported)
      || not (bool_eq left.ndef_readable right.ndef_readable)
      || left.ndef_capacity != right.ndef_capacity
      || length left.records != length right.records
    then false
    else same_records left.records right.records

-- One upper-case hexadecimal digit, and a byte as two of them (`setw(2)`, `setfill('0')`).
hex_digit : ℕ → ℕ
hex_digit n = if ltb n 10 then b'0' + n else b'A' + (n - 10)

hex_byte : ℕ → Bytes
unfolding hex_digit
hex_byte b = hex_digit (b / 16 % 16) ∷ hex_digit (b % 16) ∷ []

-- The bytes after the first, each behind the separator.
hex_rest : Bytes → Bytes → Bytes
unfolding hex_byte
hex_rest separator [] = []
hex_rest separator (b ∷ bytes) = separator ++ (hex_byte b ++ hex_rest separator bytes)

pub bytes_to_hex : Bytes → Bytes → Bytes
unfolding hex_rest hex_byte
bytes_to_hex [] separator = b'-' ∷ b'-' ∷ []
bytes_to_hex (b ∷ bytes) separator = hex_byte b ++ hex_rest separator bytes
