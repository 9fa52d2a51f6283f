-- ===== src/Tests/Model.antt =====
-- The model over the worker of the other tests.
use cap_cc1101_nfc.Base.{◌≡◌, ◌≤◌, ◌<◌, ◌+◌, length, refl, [], ◌∷◌, none, some, true, false, arith}
use cap_cc1101_nfc.Types.{state_event, tag_presented, scanning, initializing}
use cap_cc1101_nfc.Backend.Mock.{make_text_tag}
use cap_cc1101_nfc.Worker.Events.{event_queue_capacity, push_event, push_events}
use cap_cc1101_nfc.Worker.Commands.{post}
use cap_cc1101_nfc.Worker.Presence.{Presence, clear_presence}
use cap_cc1101_nfc.Worker.Presence.Session.{view}
use cap_cc1101_nfc.Worker.Thread.{NfcWorker, looping, thread_step}
use cap_cc1101_nfc.Worker.Lifecycle.{initial_control, initial_presence, new_worker}
use cap_cc1101_nfc.Worker.Lifecycle as Lifecycle
use cap_cc1101_nfc.Model.{
  NfcModel, max_events_per_tick, spawned, initial_status, start, stop, tick, retry, retry_worker,
  restarted, posted,
}
use cap_cc1101_nfc.Model.Session.{IsSynced, session_view, thread_step-IsSynced}
use cap_cc1101_nfc.Model.Running.{Running, launched, stepped, Running-shows}
use cap_cc1101_nfc.Model.Status.{IsCoherent, operations-IsCoherent, retry-accepted}
use cap_cc1101_nfc.Tests.Worker.{scripted, one_tag}

-- The worker holds the text tag as session 4, which the model has not heard of yet.
abbrev holding : Presence
holding = record initial_presence {
  present_tag = some make_text_tag;
  active_session_id = 4;
  next_session_id = 5;
}

abbrev working : NfcWorker scripted
working = record {
  phase = looping;
  backend = tt;
  control = record initial_control { running = true };
  queue = record {
    events =
        state_event scanning 1 "Scanning for NFC tags" ∷ tag_presented 4 900 make_text_tag ∷ [];
    pending_dropped_events = 2;
  };
  presence = holding;
  scan_on_start = true;
  attempt = 1;
  is_initialized = true;
  scan_requested = true;
}

abbrev pub model : NfcModel scripted
model = record {
  worker = working;
  shown = record { reader_status = initial_status; tag_session = none };
  started = true;
}

model-IsSynced : IsSynced model
model-IsSynced = refl

thread_step-IsSynced_example : IsSynced (record model { worker = thread_step one_tag model.worker })
thread_step-IsSynced_example = thread_step-IsSynced one_tag model (omega arith) model-IsSynced

-- A model that was just made is started, its worker's thread takes a step, and a retry is posted.
abbrev idle_model : NfcModel scripted
idle_model = record {
  worker = new_worker tt;
  shown = record { reader_status = initial_status; tag_session = none };
  started = false;
}

abbrev begun : NfcModel scripted
begun = start spawned idle_model

idle-flag : idle_model.worker.control.running ≡ false
unfolding new_worker
idle-flag = refl

begun-room : length begun.worker.queue.events + 3 ≤ event_queue_capacity
unfolding start Lifecycle.start Lifecycle.start_reset new_worker
begun-room = omega arith

abbrev opened_model : NfcModel scripted
opened_model = record begun { worker = thread_step one_tag begun.worker }

opened-Running : Running opened_model
opened-Running = stepped one_tag (launched spawned idle_model refl idle-flag) begun-room

opened-few : length opened_model.worker.queue.events < max_events_per_tick
unfolding thread_step start Lifecycle.start Lifecycle.start_reset new_worker clear_presence
    push_events push_event
opened-few = omega arith

Running-shows_example :
    session_view (tick opened_model).shown.tag_session ≡ view opened_model.worker.presence
Running-shows_example = Running-shows opened_model opened-Running opened-few

operations-IsCoherent_example :
    IsCoherent (start spawned model).shown
    × IsCoherent (stop (one_tag ∷ []) model).shown
    × IsCoherent (tick model).shown
    × IsCoherent (retry spawned model).0.shown
operations-IsCoherent_example = operations-IsCoherent spawned (one_tag ∷ []) model refl

model-retries : (retry spawned model).1 ≡ true
unfolding retry retry_worker restarted posted Lifecycle.post_command post
model-retries = refl

retry-accepted_example :
    let u = (retry spawned model).0 in
    (u.shown.reader_status.state ≡ initializing)
    × (session_view u.shown.tag_session ≡ none)
    × (u.worker.control.running ≡ true)
retry-accepted_example = retry-accepted spawned model model-retries

-- The worker is to stop.
abbrev ending : NfcModel scripted
ending = record model { worker = Lifecycle.request_stop working }

ending-retries : (retry spawned ending).1 ≡ false
unfolding retry retry_worker restarted posted Lifecycle.post_command post
ending-retries = refl
