-- ===== src/Worker/Lifecycle.antt =====
-- The calls of NfcWorker from the other thread: the constructor, start, stop, post and
-- tryPopEvent, on the whole worker.
pub mod Shutdown
use cap_cc1101_nfc.Base.{ℕ, Bool, true, false, List, [], ◌∷◌, Option, none, some, if◌then◌else◌}
use cap_cc1101_nfc.Types.{NfcCommand, NfcEvent}
use cap_cc1101_nfc.Backend.{NfcBackend}
use cap_cc1101_nfc.Worker.Events.{EventQueue, try_pop_event}
use cap_cc1101_nfc.Worker.Commands.{CommandQueue, NfcPostResult, post}
use cap_cc1101_nfc.Worker.Presence.{Presence, clear_presence}
use cap_cc1101_nfc.Worker.Thread.{
  NfcWorker, Reading, Phase, not_started, beginning, exited, thread_step, join_thread,
}

-- The members' initial values.
abbrev pub initial_presence : Presence
initial_presence = record {
  present_tag = none;
  candidate_tag = none;
  candidate_confirmations = 0;
  explicit_no_tag_count = 0;
  active_session_id = 0;
  next_session_id = 1;
  first_explicit_no_tag_ms = 0;
  last_present_observation_ms = 0;
}

abbrev pub initial_control : CommandQueue
initial_control = record {
  running = false;
  stop_requested = false;
  initialization_in_progress = false;
  commands = [];
}

module _ {B : NfcBackend} where
  -- NfcWorker(backend) over a backend that is there.
  unfoldable pub new_worker : B.State → NfcWorker B
  new_worker backend = record {
    phase = not_started;
    backend = backend;
    control = initial_control;
    queue = record { events = []; pending_dropped_events = 0 };
    presence = initial_presence;
    scan_on_start = true;
    attempt = 0;
    is_initialized = false;
    scan_requested = true;
  }

  -- The worker that `start` leaves behind the reset of its members. The readings of the clock do
  -- not matter to clearPresence(false).
  unfoldable pub start_reset : Bool → NfcWorker B → NfcWorker B
  start_reset scan_on_start w = record w {
    control = record w.control { commands = []; stop_requested = false; running = true };
    queue = record { events = []; pending_dropped_events = 0 };
    scan_on_start = scan_on_start;
    attempt = 0;
    presence = (clear_presence false 0 (record w.presence { next_session_id = 1 })).0;
  }

  -- Whether std::thread can be constructed is `spawned`; if not, `start` throws, which is `none`.
  unfoldable pub start : Bool → Bool → NfcWorker B → NfcWorker B × Option Bool
  unfolding start_reset join_thread
  start spawned scan_on_start w =
      if w.control.running
      then (w, some false)
      else let u = start_reset scan_on_start (join_thread w) in
        if spawned
        then (
          record u { phase = beginning; is_initialized = false; scan_requested = scan_on_start },
          some true,
        )
        else (record u { control = record u.control { running = false } }, none)

  -- The steps of the thread while the other waits in `join`.
  unfoldable pub thread_steps : List (Reading B) → NfcWorker B → NfcWorker B
  thread_steps [] w = w
  thread_steps (r ∷ rs) w = thread_steps rs (thread_step r w)

  abbrev pub request_stop : NfcWorker B → NfcWorker B
  request_stop w = record w { control = record w.control { stop_requested = true } }

  -- `stop`, where the readings are what the thread sees until it ends.
  unfoldable pub stop : List (Reading B) → NfcWorker B → NfcWorker B
  unfolding thread_steps
  stop readings w =
      let u = thread_steps readings (request_stop w) in
      record u { control = record u.control { running = false } }

  unfoldable pub post_command : NfcCommand → NfcWorker B → NfcWorker B × NfcPostResult
  post_command command w =
      let (control, result) = post command w.control in (record w { control = control }, result)

  unfoldable pub pop_event : NfcWorker B → NfcWorker B × Option NfcEvent
  pop_event w = let (queue, event) = try_pop_event w.queue in (record w { queue = queue }, event)
