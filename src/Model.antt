-- ===== src/Model.antt =====
-- src/models/nfc_model.cpp: NfcModel, the consumer of the worker's events. It keeps what the pages
-- show. The two observables are plain fields, as no subscriber changes them.
pub mod Diagnostics
pub mod Session
pub mod Running
pub mod Status
use package.text.Mathlib.Text.{◌==◌ as str_eq}
use Prim.Native.String.{◌++◌ as str_append}
use cap_cc1101_nfc.Base.{
  ℕ, zero, suc, String, Bool, true, false, not, ◌&&◌, ◌||◌, List, Option, none, some, ◌==◌, inc64,
  ◌+◌, ◌%◌, u64_mod, if◌then◌else◌,
}
use cap_cc1101_nfc.Types.{
  ReaderState, stopped, initializing, scanning, idle, error, stopping, ReaderInfo, ReaderStatus,
  TagSession, TagSnapshot, NfcCommand, NfcEvent, state_event, initialized, initialization_failed,
  tag_presented, tag_updated, tag_removed, worker_error, queue_overflow,
}
use cap_cc1101_nfc.Backend.{NfcBackend}
use cap_cc1101_nfc.Worker.Commands.{NfcPostResult, accepted, not_running, queue_full}
use cap_cc1101_nfc.Worker.Thread.{NfcWorker, Reading}
use cap_cc1101_nfc.Worker.Lifecycle.{post_command, pop_event}
use cap_cc1101_nfc.Worker.Lifecycle as Lifecycle
use cap_cc1101_nfc.Model.Diagnostics.{has_colon, to_string}

-- kMaxEventsPerTick
abbrev pub max_events_per_tick : ℕ
max_events_per_tick = 24

-- The observables of the model.
pub record Shown : Type 0 where
  pub reader_status : ReaderStatus
  pub tag_session : Option TagSession

pub record NfcModel (B : NfcBackend) : Type 0 where
  pub worker : NfcWorker B
  pub shown : Shown
  pub started : Bool

-- What the construction of the worker's thread does: it succeeds, or throws with a message.
pub data Spawn : Type 0 where
  spawned : Spawn
  throws : String → Spawn

abbrev pub post_result_text : NfcPostResult → String
post_result_text accepted = ""
post_result_text not_running = "NFC worker is not running"
post_result_text queue_full = "NFC command queue is full"

abbrev pub empty_info : ReaderInfo
empty_info = record {
  backend_name = "";
  chip_name = "";
  chip_version = "";
  transport = "";
  irq = "";
  power = "";
  protocols = "";
  mock = false;
}

-- A ReaderStatus with the initial values of its members.
abbrev pub initial_status : ReaderStatus
initial_status = record {
  state = stopped;
  ready = false;
  initialization_failed = false;
  backend_unavailable = false;
  attempt = 0;
  failed_attempt = 0;
  scan_count = 0;
  dropped_event_count = 0;
  info = empty_info;
  diagnostics = "Reader stopped";
}

abbrev pub starting_status : ReaderStatus
starting_status = record initial_status {
  state = initializing;
  diagnostics = "Starting NFC reader";
}

abbrev pub is_error : ReaderState → Bool
is_error error = true
is_error _ = false

abbrev pub is_stopped : ReaderState → Bool
is_stopped stopped = true
is_stopped _ = false

abbrev pub set_status : ReaderStatus → Shown → Shown
set_status status o = record o { reader_status = status }

abbrev pub set_session : TagSession → Shown → Shown
set_session session o = record o { tag_session = some session }

-- The switch on the state of a StateEvent; `preserve` is preserveDetailedError.
state_status : Bool → ReaderState → String → ReaderStatus → ReaderStatus
state_status preserve initializing detail s = record s {
  ready = false;
  initialization_failed = false;
  backend_unavailable = false;
  diagnostics = detail;
}
state_status preserve scanning detail s = record s {
  ready = true;
  initialization_failed = false;
  backend_unavailable = false;
  diagnostics = detail;
}
state_status preserve idle detail s = record s {
  ready = true;
  initialization_failed = false;
  backend_unavailable = false;
  diagnostics = detail;
}
state_status preserve error detail s =
    if not preserve
    then record s { ready = false; diagnostics = detail }
    else record s { ready = false }
state_status preserve _ detail s =
    if not (str_eq detail "")
    then record s { ready = false; diagnostics = detail }
    else record s { ready = false }

apply_state : ReaderState → ℕ → String → ReaderStatus → ReaderStatus
unfolding state_status
apply_state state attempt detail s =
    let preserve = is_error state && (s.initialization_failed || has_colon s.diagnostics) in
    state_status preserve state detail (record s { state = state; attempt = attempt })

apply_updated : ℕ → ℕ → TagSnapshot → Option TagSession → Option TagSession
apply_updated id ms snapshot none = none
apply_updated id ms snapshot (some session) =
    if session.session_id == id && session.present
    then some (record session { last_seen_ms = ms; snapshot = snapshot })
    else some session

apply_removed : ℕ → ℕ → TagSnapshot → Option TagSession → Option TagSession
apply_removed id last_seen_ms snapshot none = none
apply_removed id last_seen_ms snapshot (some session) =
    if session.session_id == id
    then some (record session { present = false; last_seen_ms = last_seen_ms; snapshot = snapshot })
    else some session

-- The visitor of `tick`.
unfoldable pub apply_event : NfcEvent → Shown → Shown
unfolding apply_state apply_updated apply_removed
apply_event (state_event state attempt detail) o =
    set_status (apply_state state attempt detail o.reader_status) o
apply_event (initialized attempt info) o =
    set_status
      (record o.reader_status {
        state = scanning;
        attempt = attempt;
        ready = true;
        initialization_failed = false;
        backend_unavailable = false;
        info = info;
        diagnostics = if info.mock then "SDL mock reader ready" else "ST25R3916 ready";
      })
      o
apply_event (initialization_failed attempt stage message no_hardware) o =
    set_status
      (record o.reader_status {
        state = error;
        ready = false;
        initialization_failed = true;
        backend_unavailable = no_hardware;
        attempt = attempt;
        failed_attempt = attempt;
        diagnostics = str_append stage (str_append ": " message);
      })
      o
apply_event (tag_presented id ms snapshot) o =
    let session : TagSession = record {
      session_id = id;
      present = true;
      first_seen_ms = ms;
      last_seen_ms = ms;
      snapshot = snapshot;
    } in
    let s = o.reader_status in
    record {
      reader_status = record s { scan_count = inc64 s.scan_count; diagnostics = "Tag detected" };
      tag_session = some session;
    }
apply_event (tag_updated id ms snapshot) o = record o {
  tag_session = apply_updated id ms snapshot o.tag_session;
}
apply_event (tag_removed id ms last_seen_ms snapshot) o =
    let s = o.reader_status in
    record {
      reader_status =
          if not (is_error s.state) then record s { diagnostics = "Tag removed" } else s;
      tag_session = apply_removed id last_seen_ms snapshot o.tag_session;
    }
apply_event (worker_error operation message recoverable) o =
    set_status
      (record o.reader_status {
        state = error;
        ready = false;
        diagnostics = str_append operation (str_append ": " message);
      })
      o
apply_event (queue_overflow dropped) o =
    let s = o.reader_status in
    let counted = record s { dropped_event_count = (s.dropped_event_count + dropped) % u64_mod } in
    set_status
      (if not (is_error s.state)
        then record counted {
          diagnostics = str_append "Dropped " (str_append (to_string dropped) " NFC events");
        }
        else counted)
      o

-- A session that is present is shown as gone.
abbrev pub hide : Option TagSession → Option TagSession
hide none = none
hide (some session) =
    if session.present then some (record session { present = false }) else some session

abbrev error_status : String → ReaderStatus → ReaderStatus
error_status diagnostics s = record s { state = error; ready = false; diagnostics = diagnostics }

abbrev is_spawned : Spawn → Bool
is_spawned spawned = true
is_spawned (throws what) = false

abbrev what : Spawn → String
what spawned = ""
what (throws message) = message

-- How `_worker->start(true)` ended in `start`.
started_status : Option Bool → String → ReaderStatus → ReaderStatus
started_status (some true) message s = s
started_status (some false) message s = record s {
  state = error;
  initialization_failed = false;
  diagnostics = "NFC worker is already running";
}
started_status none message s = record s {
  state = error;
  ready = false;
  initialization_failed = true;
  failed_attempt = 1;
  diagnostics = message;
}

-- What `retry` shows before it calls the worker.
abbrev retrying : Shown → Shown
retrying o = record {
  reader_status = record o.reader_status {
    state = initializing;
    ready = false;
    initialization_failed = false;
    backend_unavailable = false;
    diagnostics = "Retrying NFC reader";
  };
  tag_session = hide o.tag_session;
}

module _ {B : NfcBackend} where
  unfoldable pub start : Spawn → NfcModel B → NfcModel B
  unfolding started_status
  start spawn m =
      if m.started
      then m
      else let (worker, answer) = Lifecycle.start (is_spawned spawn) true m.worker in
        record {
          worker = worker;
          shown = record {
            reader_status = started_status answer (what spawn) starting_status;
            tag_session = none;
          };
          started = true;
        }

  -- The readings are what the worker's thread sees until it has ended.
  pub stop : List (Reading B) → NfcModel B → NfcModel B
  stop readings m = if not m.started then m else record {
    worker = Lifecycle.stop readings m.worker;
    shown = record {
      reader_status = record m.shown.reader_status {
        state = stopped;
        ready = false;
        diagnostics = "NFC reader stopped";
      };
      tag_session = hide m.shown.tag_session;
    };
    started = false;
  }

  -- The loop of `tick` over what the worker's queue holds, with the rounds that are left.
  unfoldable pub tick_events : ℕ → NfcModel B → NfcModel B
  tick_events zero m = m
  tick_events (suc rounds) m =
      let (worker, event) = pop_event m.worker in
      elim event [
        | none ↦ record m { worker = worker }
        | some e ↦ tick_events rounds (record m { worker = worker; shown = apply_event e m.shown })
      ]

  unfoldable pub tick : NfcModel B → NfcModel B
  tick m = if not m.started then m else tick_events max_events_per_tick m

  abbrev show_error : String → NfcModel B → NfcModel B
  show_error message m = record m {
    shown = set_status (error_status message m.shown.reader_status) m.shown;
  }

  -- `_worker->start(true)` in `retry`, which returns its answer.
  unfoldable pub restarted : String → Option Bool → NfcModel B → NfcModel B × Bool
  restarted message (some answer) m = (m, answer)
  restarted message none m = (show_error message m, false)

  -- `_worker->post(RetryCommand{})` in `retry`.
  unfoldable pub posted : NfcPostResult → NfcModel B → NfcModel B × Bool
  posted accepted m = (m, true)
  posted result m = (show_error (post_result_text result) m, false)

  -- `retry` behind its guards.
  unfoldable pub retry_worker : Spawn → NfcModel B → NfcModel B × Bool
  unfolding restarted posted
  retry_worker spawn m =
      if not m.worker.control.running
      then (let (worker, answer) = Lifecycle.start (is_spawned spawn) true m.worker in
          restarted (what spawn) answer (record m { worker = worker }))
      else let (worker, result) = post_command NfcCommand.retry m.worker in
        posted result (record m { worker = worker })

  unfoldable pub retry : Spawn → NfcModel B → NfcModel B × Bool
  unfolding retry_worker
  retry spawn m =
      if not m.started
      then (m, false)
      else if m.shown.reader_status.backend_unavailable
      then (m, false)
      else if not (is_error m.shown.reader_status.state)
          && not (is_stopped m.shown.reader_status.state)
      then (m, false)
      else retry_worker spawn (record m { shown = retrying m.shown })
