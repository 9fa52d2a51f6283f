-- ===== src/St25r3916.antt =====
-- src/nfc/st25r3916_driver.hpp: the driver of the reader chip, its state and what it answers. The
-- operations stand in the children.
pub mod Action
pub mod Registers
pub mod Codes
pub mod Bus
pub mod Interrupts
pub mod Field
pub mod Exchange
pub mod Anticollision
pub mod Type2
pub mod NfcA
pub mod NfcF
pub mod Lifecycle
pub mod Polls
use cap_cc1101_nfc.Base.{ℕ, String, Bool, true, false, Option, none, some, Bytes, []}

pub record ChipInfo : Type 0 where
  pub identity : ℕ
  pub type : ℕ
  pub revision : ℕ
  pub measured_supply : ℕ
  pub regulator_display : ℕ

pub record NfcATag : Type 0 where
  pub atqa : Bytes
  pub uid : Bytes
  pub sak : ℕ
  pub type_name : String
  pub ndef_supported : Bool
  pub ndef_readable : Bool
  pub ndef_capacity : ℕ
  pub ndef_message : Bytes

pub record NfcFTag : Type 0 where
  pub idm : Bytes
  pub pmm : Bytes
  pub type_name : String

-- St25r3916NfcAPollKind and St25r3916NfcFPollKind, which have the same enumerators.
pub data PollKind : Type 0 where
  no_tag inconclusive tag : PollKind

pub record NfcAPollResult : Type 0 where
  pub kind : PollKind
  pub tag : Option NfcATag

pub record NfcFPollResult : Type 0 where
  pub kind : PollKind
  pub tag : Option NfcFTag

pub record DriverConfig : Type 0 where
  pub miso_pull_when_deselected : Bool
  pub miso_pull_when_selected : Bool

pub data ActiveProtocol : Type 0 where
  nfc_a nfc_f : ActiveProtocol

abbrev pub is_nfc_a : ActiveProtocol → Bool
is_nfc_a nfc_a = true
is_nfc_a nfc_f = false

pub data WakeupResult : Type 0 where
  no_tag inconclusive response : WakeupResult

pub record Driver : Type 0 where
  pub config : DriverConfig
  pub ready : Bool
  pub discovery_enabled : Bool
  pub active_protocol : ActiveProtocol
  pub field_reset_required : Bool
  pub stored_interrupts : ℕ
  pub failed_wakeups : ℕ
  pub consecutive_no_tags : ℕ
  pub consecutive_nfcf_no_tags : ℕ
  pub cached_tag : Option NfcATag

-- The members' initial values.
abbrev pub new_driver : DriverConfig → Driver
new_driver config = record {
  config = config;
  ready = false;
  discovery_enabled = false;
  active_protocol = nfc_a;
  field_reset_required = false;
  stored_interrupts = 0;
  failed_wakeups = 0;
  consecutive_no_tags = 0;
  consecutive_nfcf_no_tags = 0;
  cached_tag = none;
}

abbrev pub empty_tag : NfcATag
empty_tag = record {
  atqa = [];
  uid = [];
  sak = 0;
  type_name = "";
  ndef_supported = false;
  ndef_readable = false;
  ndef_capacity = 0;
  ndef_message = [];
}
