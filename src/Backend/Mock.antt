-- ===== src/Backend/Mock.antt =====
-- src/nfc/mock_nfc_backend.cpp: the desktop backend. A call is given what it reads of its
-- surroundings: whether the stop flag is seen during its sleeps, the clock behind them, the two
-- environment variables, and for the first of them the number that strtol reads from it.
use package.text.Mathlib.Text.{◌==◌ as str_eq}
use cap_cc1101_nfc.Base.{
  ℕ, ◌-◌, ◌%◌, String, Bool, true, false, not, ◌&&◌, [], ◌∷◌, Option, none, some, leb, ltb, codes,
  if◌then◌else◌, inc64,
}
use cap_cc1101_nfc.Types.{
  ReaderInfo, TagSnapshot, nfc_a, uri, DiscoveryPollKind, no_observation, no_tag, NdefRecordKind,
  DiscoveryPollResult, Outcome, returned, cancelled, failed,
}
use cap_cc1101_nfc.Backend.{NfcBackend}

pub record MockWorld : Type 0 where
  pub stop_requested : Bool
  pub now_ms : ℕ
  pub init_fail_count : Option ℕ
  pub scenario : Option String

pub record MockNfcBackend : Type 0 where
  pub open_attempts : ℕ
  pub opened : Bool
  pub scanning : Bool
  pub scenario : String
  pub opened_at : ℕ

-- envLong at the fallback 0 and the range of 0 to 1000; `none` is a variable that is unset, empty
-- or no number. A negative number is given as 0, which is where std::clamp puts it.
pub init_failures : Option ℕ → ℕ
init_failures none = 0
init_failures (some value) = if ltb 1000 value then 1000 else value

-- envString at the fallback "cycle".
pub env_scenario : Option String → String
env_scenario none = "cycle"
env_scenario (some text) = if str_eq text "" then "cycle" else text

abbrev pub make_text_tag : TagSnapshot
make_text_tag = record {
  technology = nfc_a;
  uid = 0x04 ∷ 0xA1 ∷ 0x6B ∷ 0x7C ∷ 0x92 ∷ 0x64 ∷ 0x80 ∷ [];
  atqa = 0x00 ∷ 0x44 ∷ [];
  sak = 0x00;
  type_name = "Type 2 / NTAG-compatible";
  ndef_supported = true;
  ndef_readable = true;
  ndef_capacity = 144;
  records =
      record {
        kind = NdefRecordKind.text;
        type = codes "text/plain";
        value = codes "Cardputer Zero NFC demo";
        payload = codes "en";
      }
      ∷ [];
}

abbrev pub make_uri_tag : TagSnapshot
make_uri_tag = record {
  technology = nfc_a;
  uid = 0x04 ∷ 0x73 ∷ 0x2B ∷ 0x1A ∷ 0x9C ∷ 0x72 ∷ 0x81 ∷ [];
  atqa = 0x03 ∷ 0x44 ∷ [];
  sak = 0x20;
  type_name = "NFC-A / ISO-DEP (Type 4-compatible)";
  ndef_supported = true;
  ndef_readable = true;
  ndef_capacity = 512;
  records =
      record {
        kind = uri;
        type = codes "text/uri-list";
        value = codes "https://m5stack.com";
        payload = 0x04 ∷ [];
      }
      ∷ [];
}

abbrev pub mock_info : ReaderInfo
mock_info = record {
  backend_name = "SDL mock";
  chip_name = "ST25R3916";
  chip_version = "mock v1";
  transport = "/dev/spidev0.0 (simulated)";
  irq = "simulated";
  power = "EXT5V + G26 (simulated)";
  protocols = "NFC-A / B / F / V";
  mock = true;
}

unfoldable pub close : MockNfcBackend → MockNfcBackend
close s = record s { opened = false; scanning = false }

unfoldable pub open_reader : MockWorld → MockNfcBackend → MockNfcBackend × Outcome ReaderInfo
unfolding close init_failures env_scenario
open_reader w s =
    let t = record (close s) { open_attempts = inc64 s.open_attempts } in
    if w.stop_requested
    then (t, cancelled)
    else if leb t.open_attempts (init_failures w.init_fail_count)
    then (t, failed "mock initialization failure requested by NFC_MOCK_INIT_FAIL_COUNT")
    else (
      record t { scenario = env_scenario w.scenario; opened = true; opened_at = w.now_ms },
      returned mock_info,
    )

abbrev not_open : String
not_open = "mock NFC reader is not open"

unfoldable pub start_discovery : MockWorld → MockNfcBackend → MockNfcBackend × Outcome (Unit {0})
start_discovery w s =
    if w.stop_requested
    then (s, cancelled)
    else if not s.opened
    then (s, failed not_open)
    else (record s { scanning = true }, returned tt)

unfoldable pub stop_discovery : MockNfcBackend → MockNfcBackend
stop_discovery s = record s { scanning = false }

abbrev pub cycle_ms : ℕ
cycle_ms = 15000

abbrev nothing_seen : DiscoveryPollResult
nothing_seen = record { kind = no_tag; tag = none }

abbrev seen : TagSnapshot → DiscoveryPollResult
seen tag = record { kind = DiscoveryPollKind.tag; tag = some tag }

-- The part of the cycle in which a poll falls; the clock is not behind the opening.
pub cycle_result : ℕ → DiscoveryPollResult
cycle_result phase =
    if leb 2000 phase && ltb phase 7500
    then seen make_text_tag
    else if leb 9500 phase && ltb phase 13500
    then seen make_uri_tag
    else nothing_seen

-- What the scenario shows.
pub scenario_result : MockWorld → MockNfcBackend → DiscoveryPollResult
unfolding cycle_result
scenario_result w s =
    if str_eq s.scenario "empty"
    then nothing_seen
    else if str_eq s.scenario "text"
    then seen make_text_tag
    else if str_eq s.scenario "uri"
    then seen make_uri_tag
    else cycle_result ((w.now_ms - s.opened_at) % cycle_ms)

unfoldable pub poll_discovery :
    MockWorld → MockNfcBackend → MockNfcBackend × Outcome DiscoveryPollResult
unfolding scenario_result
poll_discovery w s =
    if w.stop_requested
    then (s, cancelled)
    else if not s.opened
    then (s, failed not_open)
    else if not s.scanning
    then (s, returned (record { kind = no_observation; tag = none }))
    else (s, returned (scenario_result w s))

unfoldable pub mock_nfc_backend : NfcBackend
unfolding close open_reader start_discovery stop_discovery poll_discovery
mock_nfc_backend = record {
  State = MockNfcBackend;
  World = MockWorld;
  open_reader = open_reader;
  close = close;
  close_immediately = close;
  start_discovery = start_discovery;
  stop_discovery = stop_discovery;
  poll_discovery = poll_discovery;
}
