-- ===== src/Worker/Thread.antt =====
-- The thread of NfcWorker: run, initializeBackend and handleCommand, and the calls that start and
-- stop it. The backend is a parameter.
--
-- `run` is a machine of small steps, so that calls of the other thread can stand between them: the
-- body of initializeBackend is two steps, as the flag `_initialization_in_progress` is seen from
-- outside between them, and the end of `run` is two steps, as `_running` is. A wait on the condition variable is a step that changes nothing.
pub mod Output
pub mod Sessions
pub mod Invariant
pub mod Control
pub mod Shutdown
use package.text.Mathlib.Text.{◌==◌ as str_eq}
use cap_cc1101_nfc.Base.{
  ℕ, zero, suc, String, Bool, true, false, not, ◌&&◌, ◌||◌, List, [], ◌∷◌, ◌++◌, Option, none, some,
  inc64, if◌then◌else◌,
}
use cap_cc1101_nfc.Types.{
  ReaderState, stopped, initializing, scanning, idle, error, stopping, ReaderInfo, NfcCommand,
  retry, set_scanning, shutdown, NfcEvent, state_event, initialized, initialization_failed,
  worker_error, DiscoveryPollResult, Outcome, returned, cancelled, unavailable, failed,
}
use cap_cc1101_nfc.Backend.{NfcBackend}
use cap_cc1101_nfc.Worker.Events.{EventQueue, push_events}
use cap_cc1101_nfc.Worker.Commands.{CommandQueue, try_pop_command, NfcPostResult}
use cap_cc1101_nfc.Worker.Commands as Commands
use cap_cc1101_nfc.Worker.Presence.{Presence, clear_presence, handle_discovery_result}

-- Where the thread stands: before its start and after its end, at the head of initializeBackend,
-- behind `_backend->close()` there, at the head of the loop, behind the loop, and where `_running`
-- is cleared but the backend is still to be closed.
pub data Phase : Type 0 where
  not_started beginning opening looping closing leaving exited : Phase

pub record NfcWorker (B : NfcBackend) : Type 0 where
  pub phase : Phase
  pub backend : B.State
  pub control : CommandQueue
  pub queue : EventQueue
  pub presence : Presence
  pub scan_on_start : Bool
  pub attempt : ℕ
  -- the local variables of `run`
  pub is_initialized : Bool
  pub scan_requested : Bool

-- What one step of the thread reads: two clock readings, and what its backend calls are given.
pub record Reading (B : NfcBackend) : Type 0 where
  pub now_ms : ℕ
  pub removed_at_ms : ℕ
  pub first_call : B.World
  pub second_call : B.World

abbrev pub exception_message : String → String
exception_message message = if str_eq message "" then "unknown NFC error" else message

module _ {B : NfcBackend} where
  abbrev pub push : NfcWorker B → List NfcEvent → NfcWorker B
  push w events = record w { queue = push_events events w.queue }

  -- pushState
  abbrev pub state_of : NfcWorker B → ReaderState → String → NfcEvent
  state_of w state detail = state_event state w.attempt detail

  -- clearPresence(true), with the events before it and behind it.
  abbrev pub cleared : ℕ → NfcWorker B → NfcWorker B
  cleared removed_at w =
      let r = clear_presence true removed_at w.presence in push (record w { presence = r.0 }) r.1

  abbrev pub set_initializing : Bool → NfcWorker B → NfcWorker B
  set_initializing active w = record w {
    control = record w.control { initialization_in_progress = active };
  }

  -- initializeBackend up to `_backend->close()`.
  initialize_begin : Reading B → NfcWorker B → NfcWorker B
  initialize_begin r w =
      let u = set_initializing true (record w { attempt = inc64 w.attempt }) in
      let v = push u (state_of u initializing "Initializing ST25R3916" ∷ []) in
      let c = cleared r.removed_at_ms v in record c { backend = B.close c.backend; phase = opening }

  -- The two handlers of a failure, which differ in the flag and the detail.
  initialize_failed : String → String → Bool → String → NfcWorker B → NfcWorker B
  initialize_failed stage message no_hardware detail w =
      push
        (set_initializing false (record w {
          backend = B.close_immediately w.backend;
          is_initialized = false;
          phase = looping;
        }))
        (initialization_failed w.attempt stage (exception_message message) no_hardware
          ∷ state_of w error detail
          ∷ [])

  -- NfcCancelled leaves `run` past the loop; the guard clears the flag.
  initialize_cancelled : NfcWorker B → NfcWorker B
  initialize_cancelled w = set_initializing false (record w { phase = closing })

  initialize_ready : ReaderInfo → NfcWorker B → NfcWorker B
  initialize_ready info w =
      push (set_initializing false (record w { is_initialized = true; phase = looping })) (
        initialized w.attempt info
        ∷ (if w.scan_requested
            then state_of w scanning "Scanning for NFC tags"
            else state_of w idle "Reader idle")
        ∷ [])

  -- The call of startDiscovery in initializeBackend, once it has returned or thrown.
  initialize_started : ReaderInfo → Outcome (Unit {0}) → NfcWorker B → NfcWorker B
  unfolding initialize_ready initialize_cancelled initialize_failed
  initialize_started info (returned _) w = initialize_ready info w
  initialize_started info cancelled w = initialize_cancelled w
  initialize_started info (unavailable message) w =
      initialize_failed "start discovery" message true "Hardware backend unavailable" w
  initialize_started info (failed message) w =
      initialize_failed "start discovery" message false "Initialization failed; retry required" w

  start_reader : Reading B → ReaderInfo → NfcWorker B → NfcWorker B
  unfolding initialize_started
  start_reader r info w =
      let (backend, outcome) = B.start_discovery r.second_call w.backend in
      initialize_started info outcome (record w { backend = backend })

  -- The call of open.
  initialize_opened : Reading B → Outcome ReaderInfo → NfcWorker B → NfcWorker B
  unfolding initialize_ready initialize_cancelled initialize_failed start_reader
  initialize_opened r (returned info) w =
      if w.scan_requested then start_reader r info w else initialize_ready info w
  initialize_opened r cancelled w = initialize_cancelled w
  initialize_opened r (unavailable message) w =
      initialize_failed "open" message true "Hardware backend unavailable" w
  initialize_opened r (failed message) w =
      initialize_failed "open" message false "Initialization failed; retry required" w

  -- initializeBackend from `_backend->open` on.
  initialize_finish : Reading B → NfcWorker B → NfcWorker B
  unfolding initialize_opened
  initialize_finish r w =
      let (backend, outcome) = B.open_reader r.first_call w.backend in
      initialize_opened r outcome (record w { backend = backend })

  -- A backend failure in the loop: the tag is given up and the reader closed until a retry.
  lose_reader : Reading B → String → String → String → NfcWorker B → NfcWorker B
  lose_reader r operation message detail w =
      let u =
        cleared r.removed_at_ms
          (push w (worker_error operation (exception_message message) true ∷ [])) in
      push (record u { backend = B.close_immediately u.backend; is_initialized = false })
        (state_of u error detail ∷ [])

  scan_started : Reading B → Outcome (Unit {0}) → NfcWorker B → NfcWorker B
  unfolding lose_reader
  scan_started r (returned _) w = push w (state_of w scanning "Scanning for NFC tags" ∷ [])
  scan_started r cancelled w = record w { phase = closing }
  scan_started r (unavailable message) w =
      lose_reader r "set scanning" message "Scan mode change failed; retry required" w
  scan_started r (failed message) w =
      lose_reader r "set scanning" message "Scan mode change failed; retry required" w

  handle_set_scanning : Reading B → Bool → NfcWorker B → NfcWorker B
  unfolding scan_started
  handle_set_scanning r true w =
      let (backend, outcome) = B.start_discovery r.first_call w.backend in
      scan_started r outcome (record w { backend = backend })
  handle_set_scanning r false w =
      let c = cleared r.removed_at_ms (record w { backend = B.stop_discovery w.backend }) in
      push c (state_of c idle "Reader idle" ∷ [])

  -- A retry goes on at the head of initializeBackend.
  handle_command : Reading B → NfcCommand → NfcWorker B → NfcWorker B
  unfolding handle_set_scanning
  handle_command r retry w = record w { phase = beginning }
  handle_command r (set_scanning enabled) w =
      let u = record w { scan_requested = enabled } in
      if not u.is_initialized then u else handle_set_scanning r enabled u
  handle_command r shutdown w = w

  discovered : Reading B → Outcome DiscoveryPollResult → NfcWorker B → NfcWorker B
  unfolding lose_reader
  discovered r (returned result) w =
      let e = handle_discovery_result r.now_ms r.removed_at_ms result w.presence in
      push (record w { presence = e.0 }) e.1
  discovered r cancelled w = record w { phase = closing }
  discovered r (unavailable message) w =
      lose_reader r "discovery" message "Discovery failed; retry required" w
  discovered r (failed message) w =
      lose_reader r "discovery" message "Discovery failed; retry required" w

  -- The body of the loop behind the command queue.
  poll : Reading B → NfcWorker B → NfcWorker B
  unfolding discovered
  poll r w =
      if not w.is_initialized
      then w
      else if not w.scan_requested
      then w
      else let (backend, outcome) = B.poll_discovery r.first_call w.backend in
        discovered r outcome (record w { backend = backend })

  -- A round of the loop, on what tryPopCommand found.
  loop_body : Reading B → Option NfcCommand → NfcWorker B → NfcWorker B
  unfolding poll handle_command
  loop_body r none w = poll r w
  loop_body r (some command) w = handle_command r command w

  loop_step : Reading B → NfcWorker B → NfcWorker B
  unfolding loop_body
  loop_step r w =
      if w.control.stop_requested
      then record w { phase = closing }
      else let (control, command) = try_pop_command w.control in
        loop_body r command (record w { control = control })

  -- `run` clears `_running` behind the loop, while its thread goes on.
  leave_loop : NfcWorker B → NfcWorker B
  leave_loop w = record w { control = record w.control { running = false }; phase = leaving }

  -- The rest of `run`.
  finish_run : ℕ → NfcWorker B → NfcWorker B
  finish_run removed_at w =
      let u = push w (state_of w stopping "Stopping NFC reader" ∷ []) in
      let c = cleared removed_at u in
      push (record c { backend = B.close c.backend; phase = exited })
        (state_of c stopped "NFC reader stopped" ∷ [])

  -- One step of the thread.
  step_in : Phase → Reading B → NfcWorker B → NfcWorker B
  unfolding initialize_begin initialize_finish loop_step leave_loop finish_run
  step_in not_started r w = w
  step_in beginning r w = initialize_begin r w
  step_in opening r w = initialize_finish r w
  step_in looping r w = loop_step r w
  step_in closing r w = leave_loop w
  step_in leaving r w = finish_run r.removed_at_ms w
  step_in exited r w = w

  unfoldable pub thread_step : Reading B → NfcWorker B → NfcWorker B
  unfolding step_in
  thread_step r w = step_in w.phase r w

  -- The join of a thread that has left its loop or ended, as far as it shows once `start` has reset
  -- what the thread reports: its reading of the clock does not.
  unfoldable pub join_thread : NfcWorker B → NfcWorker B
  unfolding finish_run
  join_thread w = elim w.phase as (λ p. NfcWorker B) [ leaving ↦ finish_run 0 w | _ ↦ w ]
