-- ===== src/Worker/Thread/Sessions.antt =====
-- What a step of the thread pushes: events that follow the session protocol, from the tag that the
-- worker held before the step to the one that it holds after it.
use cap_cc1101_nfc.Base.{
  ℕ, refl, String, Bool, true, false, Option, none, some, not, arith, if◌then◌else◌,
}
use cap_cc1101_nfc.Types.{
  scanning, idle, ReaderInfo, NfcCommand, retry, set_scanning, shutdown, state_event, Outcome,
  returned, cancelled, unavailable, failed, DiscoveryPollResult,
}
use cap_cc1101_nfc.Backend.{NfcBackend}
use cap_cc1101_nfc.Worker.Commands.{try_pop_command}
use cap_cc1101_nfc.Worker.Presence.{handle_discovery_result}
use cap_cc1101_nfc.Worker.Presence.Session.{
  handle_discovery_result-follow, handle_discovery_result-few,
}
use cap_cc1101_nfc.Worker.Thread.Output.{
  Emits, Emits-refl, Emits-le, Emits-trans, IsNeutral, state_event-IsNeutral, initialized-IsNeutral,
  initialization_failed-IsNeutral, worker_error-IsNeutral, push_one, push_two, push_state,
  push_cleared,
}
use cap_cc1101_nfc.Worker.Thread.{
  NfcWorker, Reading, Phase, not_started, beginning, opening, looping, closing, leaving, exited,
  initialize_begin, initialize_opened, start_reader, initialize_started, initialize_ready,
  initialize_failed, initialize_cancelled, lose_reader, scan_started, handle_set_scanning,
  handle_command, discovered, poll, loop_body, loop_step, leave_loop, finish_run, step_in,
  thread_step,
}

module _ {B : NfcBackend} where
  -- A step from `w` to `w'` emits at most three events, which lead from the tag of the one to the tag of the other.
  abbrev pub StepEmits : NfcWorker B → NfcWorker B → Type 0
  StepEmits w w' = Emits 3 w.queue w.presence w'.queue w'.presence

  initialize_begin-Emits : (r : Reading B) (w : NfcWorker B) → StepEmits w (initialize_begin r w)
  unfolding initialize_begin
  initialize_begin-Emits r w =
      Emits-le
        (Emits-trans (push_state w.queue w.presence _ _ _)
          (push_cleared r.removed_at_ms _ w.presence))
        (omega arith)

  failed-Emits :
      (stage message : String) (gone : Bool) (detail : String) (w : NfcWorker B)
      → StepEmits w (initialize_failed stage message gone detail w)
  unfolding initialize_failed
  failed-Emits stage message gone detail w =
      Emits-le
        (push_two w.queue w.presence _ _ (initialization_failed-IsNeutral _ _ _ _)
          (state_event-IsNeutral _ _ _))
        (omega arith)

  ready-Emits : (info : ReaderInfo) (w : NfcWorker B) → StepEmits w (initialize_ready info w)
  unfolding initialize_ready
  ready-Emits info w =
      Emits-le
        (push_two w.queue w.presence _ _ (initialized-IsNeutral _ _) (neutral w.scan_requested))
        (omega arith)
    where
      neutral :
          (b : Bool)
          → IsNeutral (
              if b
              then state_event scanning w.attempt "Scanning for NFC tags"
              else state_event idle w.attempt "Reader idle")
      neutral true = state_event-IsNeutral _ _ _
      neutral false = state_event-IsNeutral _ _ _

  started-Emits :
      (info : ReaderInfo) (o : Outcome (Unit {0})) (w : NfcWorker B)
      → StepEmits w (initialize_started info o w)
  unfolding initialize_started initialize_cancelled
  started-Emits info (returned _) w = ready-Emits info w
  started-Emits info cancelled w = Emits-refl w.queue w.presence
  started-Emits info (unavailable m) w = failed-Emits "start discovery" m _ _ w
  started-Emits info (failed m) w = failed-Emits "start discovery" m _ _ w

  opened-Emits :
      (r : Reading B) (o : Outcome ReaderInfo) (w : NfcWorker B)
      → StepEmits w (initialize_opened r o w)
  unfolding initialize_opened start_reader initialize_cancelled
  opened-Emits r (returned info) w = by_scan w.scan_requested
    where
      by_scan :
          (b : Bool) → StepEmits w (if b then start_reader r info w else initialize_ready info w)
      by_scan true =
          started-Emits info _
            (record w { backend = (B.start_discovery r.second_call w.backend).0 })
      by_scan false = ready-Emits info w
  opened-Emits r cancelled w = Emits-refl w.queue w.presence
  opened-Emits r (unavailable m) w = failed-Emits "open" m _ _ w
  opened-Emits r (failed m) w = failed-Emits "open" m _ _ w

  lose_reader-Emits :
      (r : Reading B) (operation message detail : String) (w : NfcWorker B)
      → StepEmits w (lose_reader r operation message detail w)
  unfolding lose_reader
  lose_reader-Emits r operation message detail w =
      Emits-trans (push_one w.queue w.presence _ (worker_error-IsNeutral _ _ _))
        (Emits-trans (push_cleared r.removed_at_ms _ w.presence) (push_state _ _ _ _ _))

  scan_started-Emits :
      (r : Reading B) (o : Outcome (Unit {0})) (w : NfcWorker B) → StepEmits w (scan_started r o w)
  unfolding scan_started
  scan_started-Emits r (returned _) w = Emits-le (push_state w.queue w.presence _ _ _) (omega arith)
  scan_started-Emits r cancelled w = Emits-refl w.queue w.presence
  scan_started-Emits r (unavailable m) w = lose_reader-Emits r "set scanning" m _ w
  scan_started-Emits r (failed m) w = lose_reader-Emits r "set scanning" m _ w

  set_scanning-Emits :
      (r : Reading B) (enabled : Bool) (w : NfcWorker B)
      → StepEmits w (handle_set_scanning r enabled w)
  unfolding handle_set_scanning
  set_scanning-Emits r true w =
      scan_started-Emits r _ (record w { backend = (B.start_discovery r.first_call w.backend).0 })
  set_scanning-Emits r false w =
      Emits-le
        (Emits-trans (push_cleared r.removed_at_ms w.queue w.presence) (push_state _ _ _ _ _))
        (omega arith)

  command-Emits :
      (r : Reading B) (c : NfcCommand) (w : NfcWorker B) → StepEmits w (handle_command r c w)
  unfolding handle_command
  command-Emits r retry w = Emits-refl w.queue w.presence
  command-Emits r shutdown w = Emits-refl w.queue w.presence
  command-Emits r (set_scanning enabled) w = by_state w.is_initialized
    where
      u : NfcWorker B
      u = record w { scan_requested = enabled }

      by_state : (b : Bool) → StepEmits w (if not b then u else handle_set_scanning r enabled u)
      by_state true = set_scanning-Emits r enabled u
      by_state false = Emits-refl w.queue w.presence

  discovered-Emits :
      (r : Reading B) (o : Outcome DiscoveryPollResult) (w : NfcWorker B)
      → StepEmits w (discovered r o w)
  unfolding discovered
  discovered-Emits r (returned result) w = record {
    events = (handle_discovery_result r.now_ms r.removed_at_ms result w.presence).1;
    pushed = refl;
    follows = handle_discovery_result-follow r.now_ms r.removed_at_ms result w.presence;
    few = omega (arith, handle_discovery_result-few r.now_ms r.removed_at_ms result w.presence);
  }
  discovered-Emits r cancelled w = Emits-refl w.queue w.presence
  discovered-Emits r (unavailable m) w = lose_reader-Emits r "discovery" m _ w
  discovered-Emits r (failed m) w = lose_reader-Emits r "discovery" m _ w

  poll-Emits : (r : Reading B) (w : NfcWorker B) → StepEmits w (poll r w)
  unfolding poll
  poll-Emits r w = by_state w.is_initialized w.scan_requested
    where
      u : NfcWorker B
      u = record w { backend = (B.poll_discovery r.first_call w.backend).0 }

      by_state :
          (b c : Bool)
          → StepEmits w (
              if not b
              then w
              else if not c
              then w
              else discovered r (B.poll_discovery r.first_call w.backend).1 u)
      by_state false c = Emits-refl w.queue w.presence
      by_state true false = Emits-refl w.queue w.presence
      by_state true true = discovered-Emits r _ u

  loop_body-Emits :
      (r : Reading B) (c : Option NfcCommand) (w : NfcWorker B) → StepEmits w (loop_body r c w)
  unfolding loop_body
  loop_body-Emits r none w = poll-Emits r w
  loop_body-Emits r (some c) w = command-Emits r c w

  loop_step-Emits : (r : Reading B) (w : NfcWorker B) → StepEmits w (loop_step r w)
  unfolding loop_step
  loop_step-Emits r w = by_flag w.control.stop_requested
    where
      by_flag :
          (b : Bool)
          → StepEmits w (
              if b
              then record w { phase = closing }
              else loop_body r
                  (try_pop_command w.control).1
                  (record w { control = (try_pop_command w.control).0 }))
      by_flag true = Emits-refl w.queue w.presence
      by_flag false = loop_body-Emits r _ (record w { control = (try_pop_command w.control).0 })

  leave_loop-Emits : (w : NfcWorker B) → StepEmits w (leave_loop w)
  unfolding leave_loop
  leave_loop-Emits w = Emits-refl w.queue w.presence

  finish_run-Emits : (removed_at : ℕ) (w : NfcWorker B) → StepEmits w (finish_run removed_at w)
  unfolding finish_run
  finish_run-Emits removed_at w =
      Emits-trans (push_state w.queue w.presence _ _ _)
        (Emits-trans (push_cleared removed_at _ w.presence) (push_state _ _ _ _ _))

  -- Every step of the worker's thread, in every state and with every outcome of the backend's
  -- calls, pushes at most three events, which follow the session protocol from the tag that was present before the
  -- step to the tag that is present after it.
  pub thread_step-Emits : (r : Reading B) (w : NfcWorker B) → StepEmits w (thread_step r w)
  unfolding thread_step
  thread_step-Emits r w = by_phase w.phase
    where
      by_phase : (p : Phase) → StepEmits w (step_in p r w)
      by_phase not_started = Emits-refl w.queue w.presence
      by_phase beginning = initialize_begin-Emits r w
      by_phase opening =
          opened-Emits r _ (record w { backend = (B.open_reader r.first_call w.backend).0 })
      by_phase looping = loop_step-Emits r w
      by_phase closing = leave_loop-Emits w
      by_phase leaving = finish_run-Emits r.removed_at_ms w
      by_phase exited = Emits-refl w.queue w.presence
