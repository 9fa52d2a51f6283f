-- ===== src/Backend/Unavailable.antt =====
-- src/nfc/unavailable_nfc_backend.cpp: the backend of a build with no hardware.
use cap_cc1101_nfc.Base.{String, Bool, if◌then◌else◌}
use cap_cc1101_nfc.Types.{Outcome, cancelled, unavailable}
use cap_cc1101_nfc.Backend.{NfcBackend}

abbrev unavailable_message : String
unavailable_message = "ST25R3916 Linux backend is not available in this build"

-- Each fallible call: `throwIfCancellationRequested`, then the throw.
refuse {ℓ} : {A : Type ℓ} → Bool → Outcome A
refuse stop_requested = if stop_requested then cancelled else unavailable unavailable_message

unfoldable pub unavailable_nfc_backend : NfcBackend
unfolding refuse
unavailable_nfc_backend = record {
  State = Unit {0};
  World = Bool;
  open_reader = λ stop s. (s, refuse stop);
  close = λ s. s;
  close_immediately = λ s. s;
  start_discovery = λ stop s. (s, refuse stop);
  stop_discovery = λ s. s;
  poll_discovery = λ stop s. (s, refuse stop);
}
