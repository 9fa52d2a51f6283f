-- ===== src/St25r3916/Lifecycle/Discovery.antt =====
-- The driver between its operations.
use cap_cc1101_nfc.Base.{
  ℕ, zero, suc, ◌≡◌, refl, ap, subst, sym, inl, inr, true, false, arith, List, [], ◌∷◌, Bool-cases,
}
use cap_cc1101_nfc.St25r3916.{Driver}
use cap_cc1101_nfc.St25r3916.Action.{Transport, Bus, Action, ◌>>=◌, follow, gets, throw}
use cap_cc1101_nfc.St25r3916.Action.Rules.{Keeps, Keeps-modify}
use cap_cc1101_nfc.St25r3916.Interrupts.Frame.{IgnoresStore}
use cap_cc1101_nfc.St25r3916.Field.Frame.{field_keeps}
use cap_cc1101_nfc.St25r3916.NfcA.{poll_nfc_a}
use cap_cc1101_nfc.St25r3916.NfcF.{poll_nfc_f}
use cap_cc1101_nfc.St25r3916.Polls.{poll_nfc_a-Keeps}
use cap_cc1101_nfc.St25r3916.Polls.Exchanges.{IsFixed}
use cap_cc1101_nfc.St25r3916.Polls.NfcF.{poll_nfc_f-Keeps}
use cap_cc1101_nfc.St25r3916.Lifecycle.{
  stopped_discovery, started_nfc_a, started_nfc_f, start_nfc_a, start_nfc_f, stop_nfc_a, stop_nfc_f,
  stop, initialize, probe_identity, apply_defaults, measure,
}
use cap_cc1101_nfc.St25r3916.Lifecycle.Stop.{stop-new}

-- The public operations of the driver.
pub data Operation : Type 0 where
  initializes starts_nfc_a starts_nfc_f polls_nfc_a polls_nfc_f stops_nfc_a stops_nfc_f stops :
      Operation

-- The state that an operation leaves, whether it returns or throws.
abbrev pub perform : {T : Transport} → Operation → Bus T → Bus T
perform Operation.initializes s = (initialize s).0
perform Operation.starts_nfc_a s = (start_nfc_a s).0
perform Operation.starts_nfc_f s = (start_nfc_f s).0
perform Operation.polls_nfc_a s = (poll_nfc_a s).0
perform Operation.polls_nfc_f s = (poll_nfc_f s).0
perform Operation.stops_nfc_a s = (stop_nfc_a s).0
perform Operation.stops_nfc_f s = (stop_nfc_f s).0
perform Operation.stops s = (stop s).0

abbrev pub perform_all : {T : Transport} → List Operation → Bus T → Bus T
perform_all [] s = s
perform_all (operation ∷ operations) s = perform_all operations (perform operation s)

-- Discovery is active, in a driver that is initialized; or nothing is left of it.
pub data IsOrderly (d : Driver) : Type 0 where
  discovering : d.ready ≡ true → d.discovery_enabled ≡ true → IsOrderly d
  idle : d ≡ stopped_discovery d → IsOrderly d

abbrev IsStartable : Driver → Type 0
IsStartable d = IsOrderly d × (d.ready ≡ true)

stopped-IsOrderly : (d : Driver) → IsOrderly d → IsOrderly (stopped_discovery d)
stopped-IsOrderly d h = idle refl

ignores : IgnoresStore IsOrderly
ignores d flags (discovering r e) = discovering r e
ignores d flags (idle h) = idle (ap {A = Driver} (λ d. record d { stored_interrupts = flags }) h)

ready-ignores : IgnoresStore IsStartable
ready-ignores d flags (h, r) = (ignores d flags h, r)

nfc_a-IsOrderly : (d : Driver) → IsStartable d → IsStartable (started_nfc_a d)
nfc_a-IsOrderly d (h, r) = (discovering r refl, r)

nfc_f-IsOrderly : (d : Driver) → IsStartable d → IsStartable (started_nfc_f d)
nfc_f-IsOrderly d (h, r) = (discovering r refl, r)

begun-IsOrderly : (d : Driver) → IsOrderly d → IsOrderly (record (started_nfc_a d) { ready = true })
begun-IsOrderly d h = discovering refl refl

module _ {T : Transport} where
  start_nfc_a-ready : Keeps {T = T} IsStartable start_nfc_a
  unfolding start_nfc_a
  start_nfc_a-ready = search (field_keeps, Keeps-modify, nfc_a-IsOrderly, ready-ignores) depth 10

  start_nfc_f-ready : Keeps {T = T} IsStartable start_nfc_f
  unfolding start_nfc_f
  start_nfc_f-ready = search (field_keeps, Keeps-modify, nfc_f-IsOrderly, ready-ignores) depth 10

  start_nfc_a-refused : (s : Bus T) → s.driver.ready ≡ false → (start_nfc_a s).0 ≡ s
  unfolding start_nfc_a ◌>>=◌ follow gets throw
  start_nfc_a-refused s h = ground arith

  start_nfc_f-refused : (s : Bus T) → s.driver.ready ≡ false → (start_nfc_f s).0 ≡ s
  unfolding start_nfc_f ◌>>=◌ follow gets throw
  start_nfc_f-refused s h = ground arith

  poll_nfc_a-refused : (s : Bus T) → s.driver.discovery_enabled ≡ false → (poll_nfc_a s).0 ≡ s
  unfolding poll_nfc_a ◌>>=◌ follow gets throw
  poll_nfc_a-refused s h = ground arith

  poll_nfc_f-refused : (s : Bus T) → s.driver.discovery_enabled ≡ false → (poll_nfc_f s).0 ≡ s
  unfolding poll_nfc_f ◌>>=◌ follow gets throw
  poll_nfc_f-refused s h = ground arith

  stop_nfc_a-Keeps : Keeps {T = T} IsOrderly stop_nfc_a
  unfolding stop_nfc_a
  stop_nfc_a-Keeps = search (field_keeps, Keeps-modify, stopped-IsOrderly) depth 10

  stop-Keeps : Keeps {T = T} IsOrderly stop
  stop-Keeps = record { run = λ s h. subst IsOrderly (sym (stop-new s).1) (idle refl) }

  probe_identity-Keeps :
      (attempts last : ℕ) → Keeps {T = T} IsOrderly (probe_identity attempts last)
  unfolding probe_identity
  probe_identity-Keeps zero last = search field_keeps
  probe_identity-Keeps (suc attempts) last =
      let kept = λ (last : ℕ). probe_identity-Keeps attempts last in search field_keeps

  apply_defaults-Keeps : Keeps {T = T} IsOrderly apply_defaults
  unfolding apply_defaults
  apply_defaults-Keeps = search (field_keeps, ignores) depth 40

  measure-Keeps : (identity : ℕ) → Keeps {T = T} IsOrderly (measure identity)
  unfolding measure
  measure-Keeps identity = search field_keeps depth 10

  initialize-Keeps : Keeps {T = T} IsOrderly initialize
  unfolding initialize
  initialize-Keeps =
      search
        (
          field_keeps, ignores, Keeps-modify, stop-Keeps, probe_identity-Keeps,
          apply_defaults-Keeps, measure-Keeps, begun-IsOrderly,
        )
        depth 20

  -- An operation that keeps the driver orderly if it may start, and is refused otherwise.
  if_ready :
      (m : Action T (Unit {0})) (s : Bus T)
      → Keeps IsStartable m
      → (s.driver.ready ≡ false → (m s).0 ≡ s)
      → IsOrderly s.driver
      → IsOrderly (m s).0.driver
  if_ready m s kept refused h = elim (Bool-cases s.driver.ready) [
    | inl ready ↦ (kept.run s (h, ready)).0
    | inr unready ↦ subst (λ t. IsOrderly t.driver) (sym (refused unready)) h
  ]

  -- An operation that keeps both flags, and is refused unless discovery is active.
  if_discovering :
      {A : Type 0} (m : Action T A) (s : Bus T)
      → Keeps (IsFixed true true) m
      → (s.driver.discovery_enabled ≡ false → (m s).0 ≡ s)
      → IsOrderly s.driver
      → IsOrderly (m s).0.driver
  if_discovering m s kept refused (discovering r e) =
      let fixed = kept.run s (r, e) in discovering fixed.0 fixed.1
  if_discovering m s kept refused (idle h) =
      subst (λ t. IsOrderly t.driver) (sym (refused (ap (λ d. d.discovery_enabled) h))) (idle h)

  perform-IsOrderly :
      (operation : Operation) (s : Bus T)
      → IsOrderly s.driver
      → IsOrderly (perform operation s).driver
  perform-IsOrderly Operation.initializes s h = initialize-Keeps.run s h
  perform-IsOrderly Operation.starts_nfc_a s h =
      if_ready start_nfc_a s start_nfc_a-ready (start_nfc_a-refused s) h
  perform-IsOrderly Operation.starts_nfc_f s h =
      if_ready start_nfc_f s start_nfc_f-ready (start_nfc_f-refused s) h
  perform-IsOrderly Operation.polls_nfc_a s h =
      if_discovering poll_nfc_a s poll_nfc_a-Keeps (poll_nfc_a-refused s) h
  perform-IsOrderly Operation.polls_nfc_f s h =
      if_discovering poll_nfc_f s poll_nfc_f-Keeps (poll_nfc_f-refused s) h
  perform-IsOrderly Operation.stops_nfc_a s h = stop_nfc_a-Keeps.run s h
  perform-IsOrderly Operation.stops_nfc_f s h = stop_nfc_a-Keeps.run s h
  perform-IsOrderly Operation.stops s h = stop-Keeps.run s h

  -- From any orderly driver, such as a new one, every sequence of the public operations leads to an
  -- orderly one, whichever of them throw and whatever the transport answers: either discovery is
  -- active and the driver is initialized, or discovery is off and its protocol, its counters, its
  -- pending reset of the field and its cached tag are as in a stopped one.
  pub perform_all-IsOrderly :
      (operations : List Operation) (s : Bus T)
      → IsOrderly s.driver
      → IsOrderly (perform_all operations s).driver
  perform_all-IsOrderly [] s h = h
  perform_all-IsOrderly (operation ∷ operations) s h =
      perform_all-IsOrderly operations (perform operation s) (perform-IsOrderly operation s h)
