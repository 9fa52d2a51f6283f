-- ===== src/Tests/Worker.antt =====
-- The worker over a backend that answers what the test gives it.
use cap_cc1101_nfc.Base.{
  ℕ, ◌≡◌, refl, sym, ◌∙◌, ◌≢◌, ◌↔◌, ◌≤◌, ◌+◌, List, [], ◌∷◌, ◌++◌, none, some, true, false, arith,
  sub64,
}
use cap_cc1101_nfc.Types.{
  TagSnapshot, DiscoveryPollKind, no_tag, DiscoveryPollResult, Outcome, returned, retry,
  state_event, tag_updated, scanning, error,
}
use cap_cc1101_nfc.Types.Identity.{same_tag_identity_iff}
use cap_cc1101_nfc.Backend.{NfcBackend}
use cap_cc1101_nfc.Backend.Mock.{make_text_tag, make_uri_tag, mock_info}
use cap_cc1101_nfc.Worker.Events.{EventQueue, push_event}
use cap_cc1101_nfc.Worker.Events.Bounds.{
  accounted, accounted-push_event, critical, critical-push_event,
}
use cap_cc1101_nfc.Worker.Commands.{CommandQueue, accepted, post}
use cap_cc1101_nfc.Worker.Commands.Bounds.{IsTidy, post-IsTidy}
use cap_cc1101_nfc.Worker.Presence.{
  Presence, clear_presence, handle_discovery_result, forget, matches, remove_debounce_ms,
}
use cap_cc1101_nfc.Worker.Presence.Session.{view, follow_all, handle_discovery_result-follow}
use cap_cc1101_nfc.Worker.Presence.Debounce.{
  Poll, handle_all, last_seen, absences, absent_since, presented_iff, removed_iff,
}
use cap_cc1101_nfc.Worker.Thread.{NfcWorker, Reading, not_started, exited, thread_step}
use cap_cc1101_nfc.Worker.Thread.Sessions.{StepEmits, thread_step-Emits}
use cap_cc1101_nfc.Worker.Lifecycle.{new_worker, start, stop, initial_presence}
use cap_cc1101_nfc.Worker.System.{
  Reach, here, next, threaded, started, IsSound, Reach-IsSound, Reach-stop,
}

-- A reader that opens, and whose polls answer what the step is given.
abbrev pub scripted : NfcBackend
scripted = record {
  State = Unit {0};
  World = Outcome DiscoveryPollResult;
  open_reader = λ w s. (s, returned mock_info);
  close = λ s. s;
  close_immediately = λ s. s;
  start_discovery = λ w s. (s, returned tt);
  stop_discovery = λ s. s;
  poll_discovery = λ w s. (s, w);
}

abbrev pub seen : TagSnapshot → DiscoveryPollResult
seen tag = record { kind = DiscoveryPollKind.tag; tag = some tag }

abbrev pub reading : ℕ → Outcome DiscoveryPollResult → Reading scripted
reading ms answer = record {
  now_ms = ms;
  removed_at_ms = ms + 1;
  first_call = answer;
  second_call = answer;
}

abbrev pub fresh : NfcWorker scripted
fresh = (start true true (new_worker tt)).0

fresh-Reach : Reach (new_worker tt) fresh
fresh-Reach = next here (started true true (new_worker tt))

abbrev pub one_tag : Reading scripted
one_tag = reading 1000 (returned (seen make_text_tag))

Reach-IsSound_example : IsSound (thread_step one_tag fresh)
Reach-IsSound_example = Reach-IsSound tt (next fresh-Reach (threaded one_tag fresh))

fresh-begun : fresh.phase ≢ not_started
unfolding start new_worker
fresh-begun = ground arith

Reach-stop_example :
    let u = stop (one_tag ∷ one_tag ∷ one_tag ∷ one_tag ∷ one_tag ∷ []) fresh in
    (u.phase ≡ exited) × (u.control.running ≡ false) × (u.presence.present_tag ≡ none)
Reach-stop_example =
    Reach-stop tt fresh-Reach fresh-begun (one_tag ∷ one_tag ∷ one_tag ∷ one_tag ∷ one_tag ∷ [])
      (omega arith)

thread_step-Emits_example : StepEmits fresh (thread_step one_tag fresh)
thread_step-Emits_example = thread_step-Emits one_tag fresh

-- Polls of the debounce, one every 100 ms from 1000 on.
abbrev poll_at : ℕ → DiscoveryPollResult → Poll
poll_at ms result = record { now = ms; removed_at = ms + 1; result = result }

abbrev absent : DiscoveryPollResult
absent = record { kind = no_tag; tag = none }

abbrev once : List Poll
once = poll_at 1000 (seen make_text_tag) ∷ []

once-absent : (handle_all once (forget initial_presence)).present_tag ≡ none
unfolding handle_discovery_result
once-absent = refl

presented_iff_example :
    ((handle_all (poll_at 1100 (seen make_text_tag) ∷ once) (forget initial_presence)).present_tag
      ≡ some make_text_tag)
    ↔ (((seen make_text_tag).kind ≡ DiscoveryPollKind.tag)
        × ((seen make_text_tag).tag ≡ some make_text_tag)
        × (matches (last_seen once) make_text_tag ≡ true))
presented_iff_example =
    presented_iff once (poll_at 1100 (seen make_text_tag)) initial_presence make_text_tag
      (omega arith) once-absent

-- Present since the second poll, and not seen by the last two.
abbrev fading_polls : List Poll
fading_polls = poll_at 1300 absent ∷ poll_at 1200 absent ∷ poll_at 1100 (seen make_text_tag) ∷ once

fading-tag : (handle_all fading_polls (forget initial_presence)).present_tag ≡ some make_text_tag
unfolding handle_discovery_result clear_presence
fading-tag = ground (arith, (same_tag_identity_iff make_text_tag make_text_tag).1 (refl, refl))

fading-present : (handle_all fading_polls (forget initial_presence)).present_tag ≢ none
fading-present e = ground (arith, sym fading-tag ∙ e)

removed_iff_example :
    ((handle_all (poll_at 1400 absent ∷ fading_polls) (forget initial_presence)).present_tag ≡ none)
    ↔ ((absent.kind ≡ no_tag)
        × (2 ≤ absences fading_polls)
        × (remove_debounce_ms ≤ sub64 1400 (absent_since fading_polls)))
removed_iff_example =
    removed_iff fading_polls (poll_at 1400 absent) initial_presence (omega arith) fading-present

-- A text tag is present, and two polls saw none.
abbrev fading : Presence
fading = record {
  present_tag = some make_text_tag;
  candidate_tag = none;
  candidate_confirmations = 0;
  explicit_no_tag_count = 2;
  active_session_id = 4;
  next_session_id = 5;
  first_explicit_no_tag_ms = 1000;
  last_present_observation_ms = 900;
}

handle_discovery_result-follow_example :
    let r = handle_discovery_result 100 101 (seen make_uri_tag) fading in
    follow_all (view fading) r.1 ≡ some (view r.0)
handle_discovery_result-follow_example =
    handle_discovery_result-follow 100 101 (seen make_uri_tag) fading

-- The events of a present tag.
abbrev queue : EventQueue
queue = record {
  events = state_event scanning 1 "Scanning for NFC tags" ∷ tag_updated 4 900 make_text_tag ∷ [];
  pending_dropped_events = 3;
}

critical-push_event_example :
    critical (push_event (state_event error 1 "") queue).events
    ≡ critical queue.events ++ critical (state_event error 1 "" ∷ [])
critical-push_event_example = critical-push_event (state_event error 1 "") queue refl

accounted-push_event_example :
    accounted (push_event (state_event error 1 "") queue) ≡ accounted queue + 1
accounted-push_event_example = accounted-push_event (state_event error 1 "") queue (omega arith)

abbrev idle_queue : CommandQueue
idle_queue = record {
  running = false;
  stop_requested = false;
  initialization_in_progress = false;
  commands = retry ∷ [];
}

idle_queue-IsTidy : IsTidy idle_queue.commands
idle_queue-IsTidy = ground arith

post-IsTidy_example : IsTidy (post retry idle_queue).0.commands
post-IsTidy_example = post-IsTidy retry idle_queue idle_queue-IsTidy

idle_queue-refuses : (post retry idle_queue).1 ≢ accepted
unfolding post
idle_queue-refuses = ground arith
