-- ===== src/LinuxBackend/Polls.antt =====
-- The polls of src/nfc/linux_nfc_backend.cpp over the driver, and startDiscovery, stopDiscovery and
-- pollDiscovery.
use cap_cc1101_nfc.Base.{
  Bool, true, false, ◌&&◌, if◌then◌else◌, Option, some, none, Bytes, List, [], ◌∷◌,
}
use cap_cc1101_nfc.Types.{
  TagTechnology, TagSnapshot, NdefRecord, DiscoveryPollKind, DiscoveryPollResult, Outcome, returned,
  cancelled, unavailable, failed,
}
use cap_cc1101_nfc.Ndef.Parser.{parse_ndef_message}
use cap_cc1101_nfc.St25r3916.{NfcATag, NfcFTag, PollKind, NfcAPollResult, NfcFPollResult}
use cap_cc1101_nfc.St25r3916.Action.{
  Transport, Bus, Action, ◌>>=◌, ◌>>◌, pure, gets, throw, throw_if_cancelled,
}
use cap_cc1101_nfc.St25r3916.NfcA.{poll_nfc_a}
use cap_cc1101_nfc.St25r3916.NfcF.{poll_nfc_f}
use cap_cc1101_nfc.St25r3916.Lifecycle.{start_nfc_f, stop_nfc_a}
use cap_cc1101_nfc.LinuxBackend.{DiscoveryProtocol, Arbiter, fresh, nothing, arbitrate}

-- The records of a message that parses.
abbrev pub parsed_records : Bytes → List NdefRecord
parsed_records [] = []
parsed_records (b ∷ bytes) =
    let parsed = parse_ndef_message (b ∷ bytes) in if parsed.success then parsed.records else []

abbrev pub snapshot_of_a : NfcATag → TagSnapshot
snapshot_of_a tag = record {
  technology = TagTechnology.nfc_a;
  uid = tag.uid;
  atqa = tag.atqa;
  sak = tag.sak;
  type_name = tag.type_name;
  ndef_supported = tag.ndef_supported;
  ndef_readable = tag.ndef_readable;
  ndef_capacity = tag.ndef_capacity;
  records = parsed_records tag.ndef_message;
}

abbrev pub snapshot_of_f : NfcFTag → TagSnapshot
snapshot_of_f tag = record {
  technology = TagTechnology.nfc_f;
  uid = tag.idm;
  atqa = [];
  sak = 0;
  type_name = tag.type_name;
  ndef_supported = false;
  ndef_readable = false;
  ndef_capacity = 0;
  records = [];
}

-- A poll's kind and snapshot as the backend reports them.
abbrev pub reported : PollKind → Option TagSnapshot → DiscoveryPollResult
reported PollKind.tag (some snapshot) = record { kind = DiscoveryPollKind.tag; tag = some snapshot }
reported PollKind.tag none = nothing DiscoveryPollKind.no_observation
reported PollKind.no_tag snapshot = nothing DiscoveryPollKind.no_tag
reported PollKind.inconclusive snapshot = nothing DiscoveryPollKind.no_observation

abbrev pub report_of_a : NfcAPollResult → DiscoveryPollResult
report_of_a observed =
    reported observed.kind (elim observed.tag [ none ↦ none | some tag ↦ some (snapshot_of_a tag) ])

abbrev pub report_of_f : NfcFPollResult → DiscoveryPollResult
report_of_f observed =
    reported observed.kind (elim observed.tag [ none ↦ none | some tag ↦ some (snapshot_of_f tag) ])

module _ {T : Transport} where
  unfoldable pub poll_f : Action T DiscoveryPollResult
  poll_f = poll_nfc_f >>= λ observed. pure (report_of_f observed)

  unfoldable pub poll_a : Action T DiscoveryPollResult
  poll_a = poll_nfc_a >>= λ observed. pure (report_of_a observed)

  unfoldable pub poll_protocol : DiscoveryProtocol → Action T DiscoveryPollResult
  poll_protocol DiscoveryProtocol.nfc_f = poll_f
  poll_protocol DiscoveryProtocol.nfc_a = poll_a

-- LinuxNfcBackend, once its driver is there.
pub record LinuxNfcBackend (T : Transport) : Type 0 where
  pub bus : Bus T
  pub opened : Bool
  pub scanning : Bool
  pub arbiter : Arbiter

module _ {T : Transport} where
  -- throwIfCancellationRequested and requireOpen.
  unfoldable pub require_open : Bool → Action T (Unit {0})
  require_open opened = do
    throw_if_cancelled
    ready ← gets (λ d. d.ready)
    if opened && ready then pure tt else throw "ST25R3916 Linux backend is not open"

  unfoldable pub after_start :
      LinuxNfcBackend T → Bus T × Outcome (Unit {0}) → LinuxNfcBackend T × Outcome (Unit {0})
  after_start s (bus, returned a) =
      (record s { bus = bus; arbiter = fresh; scanning = true }, returned a)
  after_start s (bus, cancelled) = (record s { bus = bus }, cancelled)
  after_start s (bus, unavailable message) = (record s { bus = bus }, unavailable message)
  after_start s (bus, failed message) = (record s { bus = bus }, failed message)

  unfoldable pub start_discovery : LinuxNfcBackend T → LinuxNfcBackend T × Outcome (Unit {0})
  unfolding after_start
  start_discovery s = after_start s ((require_open s.opened >>= λ x. start_nfc_f) s.bus)

  unfoldable pub stop_discovery : LinuxNfcBackend T → LinuxNfcBackend T
  stop_discovery s = record s { bus = (stop_nfc_a s.bus).0; scanning = false; arbiter = fresh }

  unfoldable pub scan :
      LinuxNfcBackend T
      → Bus T × Outcome (Unit {0})
      → LinuxNfcBackend T × Outcome DiscoveryPollResult
  scan s (bus, returned a) =
      if s.scanning
      then (let (arbiter, bus, answer) = arbitrate poll_protocol s.arbiter bus in
          (record s { bus = bus; arbiter = arbiter }, answer))
      else (record s { bus = bus }, returned (nothing DiscoveryPollKind.no_observation))
  scan s (bus, cancelled) = (record s { bus = bus }, cancelled)
  scan s (bus, unavailable message) = (record s { bus = bus }, unavailable message)
  scan s (bus, failed message) = (record s { bus = bus }, failed message)

  unfoldable pub poll_discovery :
      LinuxNfcBackend T → LinuxNfcBackend T × Outcome DiscoveryPollResult
  unfolding scan
  poll_discovery s = scan s (require_open s.opened s.bus)
