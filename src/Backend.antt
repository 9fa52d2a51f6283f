-- ===== src/Backend.antt =====
-- src/nfc/nfc_backend.hpp: the interface of a reader backend. `State` is the object, and `World`
-- what the surroundings supply to one call: the clock, the environment, the hardware's answers,
-- and whether the stop flag is seen by the cancellation token.
pub mod Mock
pub mod Unavailable
use cap_cc1101_nfc.Base.{ℕ}
use cap_cc1101_nfc.Types.{ReaderInfo, DiscoveryPollResult, Outcome}

pub record NfcBackend : Type 1 where
  pub State : Type 0
  pub World : Type 0
  pub open_reader : World → State → State × Outcome ReaderInfo
  pub close : State → State
  pub close_immediately : State → State
  pub start_discovery : World → State → State × Outcome (Unit {0})
  pub stop_discovery : State → State
  pub poll_discovery : World → State → State × Outcome DiscoveryPollResult
