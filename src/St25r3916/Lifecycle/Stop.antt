-- ===== src/St25r3916/Lifecycle/Stop.antt =====
-- stop.
use cap_cc1101_nfc.Base.{arith, ◌∙◌, ap, ◌≡◌, refl, false}
use cap_cc1101_nfc.Types.{returned}
use cap_cc1101_nfc.St25r3916.{Driver, new_driver}
use cap_cc1101_nfc.St25r3916.Action.{
  Transport, Bus, Action, follow, ◌>>=◌, ◌>>◌, pure, gets, modify, swallow,
}
use cap_cc1101_nfc.St25r3916.Action.Rules.{Keeps, bind-returned, Keeps-modify}
use cap_cc1101_nfc.St25r3916.Bus.Frame.{bus_keeps}
use cap_cc1101_nfc.St25r3916.Registers.{reg_mask_main_interrupt}
use cap_cc1101_nfc.St25r3916.Bus.{write_register32}
use cap_cc1101_nfc.St25r3916.Lifecycle.{stop, stop_nfc_a, disable_field, stopped_discovery}

-- What `stop` does to the driver's state.
abbrev erase : Driver → Driver
erase d = record (stopped_discovery d) { ready = false; stored_interrupts = 0 }

module _ {T : Transport} where
  disable_field-Keeps : (P : Driver → Type 0) → Keeps {T = T} P disable_field
  disable_field-Keeps P = search bus_keeps

  stop_nfc_a-returns : (s : Bus T) → (stop_nfc_a s).1 ≡ returned tt
  unfolding stop_nfc_a ◌>>=◌ follow gets swallow modify pure
  stop_nfc_a-returns s = ground arith

  stop_nfc_a-config : (s : Bus T) → (stop_nfc_a s).0.driver.config ≡ s.driver.config
  unfolding stop_nfc_a
  stop_nfc_a-config s = kept.run s refl
    where
      kept : Keeps {T = T} (λ d. d.config ≡ s.driver.config) stop_nfc_a
      kept = search (bus_keeps, Keeps-modify, disable_field-Keeps)

  abbrev silence : Action T (Unit {0})
  silence = disable_field >> write_register32 reg_mask_main_interrupt 0xFFFF_FFFF

  abbrev erased : Bus T → Bus T
  erased s = record s { driver = erase s.driver }

  stop_steps : (s : Bus T) → stop s ≡ swallow silence (erased (stop_nfc_a s).0)
  unfolding stop ◌>>=◌ follow modify
  stop_steps s =
      bind-returned stop_nfc_a (λ x. modify erase >> swallow silence) s tt (stop_nfc_a-returns s)

  -- `stop` always returns, whatever the transport does, and leaves the driver as one that was just
  -- constructed with the same configuration.
  pub stop-new :
      (s : Bus T) → ((stop s).1 ≡ returned tt) × ((stop s).0.driver ≡ new_driver s.driver.config)
  unfolding swallow
  stop-new s = (ap (λ r. r.1) (stop_steps s), ap (λ r. r.0.driver) (stop_steps s) ∙ kept)
    where
      silence-Keeps : Keeps {T = T} (λ d. d ≡ new_driver s.driver.config) silence
      silence-Keeps = search (bus_keeps, disable_field-Keeps)

      kept : (silence (erased (stop_nfc_a s).0)).0.driver ≡ new_driver s.driver.config
      kept = silence-Keeps.run (erased (stop_nfc_a s).0) (ap new_driver (stop_nfc_a-config s))
