-- ===== src/Model/Status.antt =====
-- What the model shows of the reader: its state, whether it is ready, and why it failed.
use cap_cc1101_nfc.Base.{
  ℕ, zero, suc, ◌≡◌, ◌⊎◌, String, Bool, true, false, List, Option, none, some, arith,
}
use cap_cc1101_nfc.Types.{
  ReaderState, initializing, scanning, idle, error, NfcEvent, state_event, worker_error,
}
use cap_cc1101_nfc.Backend.{NfcBackend}
use cap_cc1101_nfc.Worker.Commands.{post}
use cap_cc1101_nfc.Worker.Thread.{Reading}
use cap_cc1101_nfc.Worker.Lifecycle.{post_command, pop_event}
use cap_cc1101_nfc.Worker.Lifecycle as Lifecycle
use cap_cc1101_nfc.Model.Diagnostics.{has_colon-detail}
use cap_cc1101_nfc.Model.Session.{session_view}
use cap_cc1101_nfc.Model.{
  Shown, NfcModel, Spawn, apply_event, apply_state, started_status, start, stop, tick_events, tick,
  retry, retry_worker, restarted, posted,
}

abbrev pub is_ready : ReaderState → Bool
is_ready scanning = true
is_ready idle = true
is_ready _ = false

-- The reader is shown as ready exactly in the two states in which it works.
abbrev pub IsCoherent : Shown → Type 0
IsCoherent o = o.reader_status.ready ≡ is_ready o.reader_status.state

pub apply_event-IsCoherent :
    (e : NfcEvent) (o : Shown) → IsCoherent o → IsCoherent (apply_event e o)
unfolding apply_event
apply_event-IsCoherent e o h = ground arith

-- The state that the worker reports behind an error keeps the message of the error, which has the
-- operation and the cause, and shows the reader as failed.
pub error_message-kept :
    (operation message detail : String) (recoverable : Bool) (attempt : ℕ) (o : Shown)
    → let shown = apply_event (worker_error operation message recoverable) o in
      let u = apply_event (state_event error attempt detail) shown in
      (u.reader_status.diagnostics ≡ shown.reader_status.diagnostics)
      × (u.reader_status.state ≡ error)
      × (u.reader_status.ready ≡ false)
      × (u.tag_session ≡ o.tag_session)
unfolding apply_event apply_state
error_message-kept operation message detail recoverable attempt o =
    ground (arith, has_colon-detail operation message)

module _ {B : NfcBackend} where
  tick_events-IsCoherent :
      (rounds : ℕ) (m : NfcModel B) → IsCoherent m.shown → IsCoherent (tick_events rounds m).shown
  unfolding tick_events
  tick_events-IsCoherent zero m h = h
  tick_events-IsCoherent (suc rounds) m h =
      by_event (tick_events-IsCoherent rounds) (pop_event m.worker).1
    where
      u : NfcModel B
      u = record m { worker = (pop_event m.worker).0 }

      by_event :
          ((n : NfcModel B) → IsCoherent n.shown → IsCoherent (tick_events rounds n).shown)
          → (o : Option NfcEvent)
          → IsCoherent
              (elim o as (λ x. NfcModel B) [
                | none ↦ u
                | some e ↦ tick_events rounds (record u { shown = apply_event e m.shown })
              ]).shown
      by_event ih none = h
      by_event ih (some e) =
          ih (record u { shown = apply_event e m.shown }) (apply_event-IsCoherent e m.shown h)

  -- Every operation of the model shows the reader as ready exactly while it scans or is idle.
  pub operations-IsCoherent :
      (spawn : Spawn) (readings : List (Reading B)) (m : NfcModel B)
      → IsCoherent m.shown
      → IsCoherent (start spawn m).shown
        × IsCoherent (stop readings m).shown
        × IsCoherent (tick m).shown
        × IsCoherent (retry spawn m).0.shown
  unfolding start stop tick retry retry_worker restarted posted started_status
  operations-IsCoherent spawn readings m h =
      (ground arith, ground arith, ground (arith, tick_events-IsCoherent 24 m h), ground arith)

  -- A retry that answers yes shows no tag, shows the reader as starting, and leaves a worker whose
  -- thread runs or is starting.
  pub retry-accepted :
      (spawn : Spawn) (m : NfcModel B)
      → (retry spawn m).1 ≡ true
      → let u = (retry spawn m).0 in
        (u.shown.reader_status.state ≡ initializing)
        × (session_view u.shown.tag_session ≡ none)
        × (u.worker.control.running ≡ true)
  unfolding retry retry_worker restarted posted Lifecycle.start post_command post
  retry-accepted spawn m h = ground arith

  -- A retry that answers no changes nothing, or shows an error and no tag.
  pub retry-refused :
      (spawn : Spawn) (m : NfcModel B)
      → (retry spawn m).1 ≡ false
      → let u = (retry spawn m).0 in
        (u ≡ m)
        ⊎ ((u.shown.reader_status.state ≡ error)
            × (u.shown.reader_status.ready ≡ false)
            × (session_view u.shown.tag_session ≡ none))
  unfolding retry retry_worker restarted posted Lifecycle.start post_command post
  retry-refused spawn m h = ground arith
