-- ===== src/Worker/Thread/Invariant.antt =====
-- What holds of the worker between any two steps of its thread and of the other thread.
use cap_cc1101_nfc.Base.{
  ℕ, ◌≡◌, ◌≢◌, refl, String, Bool, true, false, not, List, [], ◌∷◌, Option, none, some, arith,
  if◌then◌else◌,
}
use cap_cc1101_nfc.Types.{
  ReaderInfo, NfcCommand, retry, set_scanning, shutdown, Outcome, returned, DiscoveryPollResult,
}
use cap_cc1101_nfc.Backend.{NfcBackend}
use cap_cc1101_nfc.Worker.Commands.{CommandQueue, try_pop_command, pop_command}
use cap_cc1101_nfc.Worker.Presence.{clear_presence}
use cap_cc1101_nfc.Worker.Presence.Debounce.{IsSettled, handle_discovery_result-IsSettled}
use cap_cc1101_nfc.Worker.Thread.{
  NfcWorker, Reading, Phase, not_started, beginning, opening, looping, closing, leaving, exited,
  initialize_begin, initialize_opened, start_reader, lose_reader, handle_command, discovered, poll,
  loop_body, loop_step, leave_loop, finish_run, step_in, thread_step,
}

pop_command-flag :
    (cs : List NfcCommand) (q : CommandQueue)
    → (pop_command cs q).0.initialization_in_progress ≡ q.initialization_in_progress
unfolding pop_command
pop_command-flag [] q = refl
pop_command-flag (c ∷ cs) q = refl

try_pop_command-flag :
    (q : CommandQueue)
    → (try_pop_command q).0.initialization_in_progress ≡ q.initialization_in_progress
unfolding try_pop_command
try_pop_command-flag q = pop_command-flag q.commands q

module _ {B : NfcBackend} where
  -- The flag of initializeBackend is set exactly while the reader is being opened; no tag is
  -- present then, and one is present only over an initialized reader; the debounce is well-formed.
  pub record IsConsistent (w : NfcWorker B) : Type 0 where
    pub settled : IsSettled w.presence
    pub flag_set : w.phase ≡ opening → w.control.initialization_in_progress ≡ true
    pub flag_clear : w.phase ≢ opening → w.control.initialization_in_progress ≡ false
    pub no_tag_yet : w.phase ≡ opening → w.presence.present_tag ≡ none
    pub tag_over_reader : w.presence.present_tag ≢ none → w.is_initialized ≡ true

  begin-IsConsistent : (r : Reading B) (w : NfcWorker B) → IsConsistent (initialize_begin r w)
  unfolding initialize_begin clear_presence
  begin-IsConsistent r w = ground arith

  opened-IsConsistent :
      (r : Reading B) (o : Outcome ReaderInfo) (w : NfcWorker B)
      → IsSettled w.presence
      → w.presence.present_tag ≡ none
      → IsConsistent (initialize_opened r o w)
  unfolding initialize_opened start_reader
  opened-IsConsistent r o w s n = ground arith

  lose_reader-IsConsistent :
      (r : Reading B) (operation message detail : String) (w : NfcWorker B)
      → w.phase ≡ looping
      → IsConsistent w
      → IsConsistent (lose_reader r operation message detail w)
  unfolding lose_reader clear_presence
  lose_reader-IsConsistent r operation message detail w l c = ground arith

  command-IsConsistent :
      (r : Reading B) (c : NfcCommand) (w : NfcWorker B)
      → w.phase ≡ looping
      → IsConsistent w
      → IsConsistent (handle_command r c w)
  unfolding handle_command clear_presence
  command-IsConsistent r retry w l v = ground arith
  command-IsConsistent r shutdown w l v = ground arith
  command-IsConsistent r (set_scanning enabled) w l v = ground arith

  discovered-IsConsistent :
      (r : Reading B) (o : Outcome DiscoveryPollResult) (w : NfcWorker B)
      → w.phase ≡ looping
      → w.is_initialized ≡ true
      → IsConsistent w
      → IsConsistent (discovered r o w)
  unfolding discovered clear_presence
  discovered-IsConsistent r (returned result) w l i v = ground (
    arith,
    handle_discovery_result-IsSettled r.now_ms r.removed_at_ms result w.presence v.settled,
  )
  discovered-IsConsistent r _ w l i v = ground arith

  leave-IsConsistent :
      (w : NfcWorker B) → w.phase ≡ closing → IsConsistent w → IsConsistent (leave_loop w)
  unfolding leave_loop
  leave-IsConsistent w l v = ground arith

  finish-IsConsistent :
      (removed_at : ℕ) (w : NfcWorker B)
      → w.phase ≡ leaving
      → IsConsistent w
      → IsConsistent (finish_run removed_at w)
  unfolding finish_run clear_presence
  finish-IsConsistent removed_at w l v = ground arith

  with_backend :
      (b : B.State) (w : NfcWorker B) → IsConsistent w → IsConsistent (record w { backend = b })
  with_backend b w v = ground arith

  pub with_control :
      (c : CommandQueue) (w : NfcWorker B)
      → c.initialization_in_progress ≡ w.control.initialization_in_progress
      → IsConsistent w
      → IsConsistent (record w { control = c })
  with_control c w e v = ground arith

  poll-IsConsistent :
      (r : Reading B) (w : NfcWorker B)
      → w.phase ≡ looping
      → IsConsistent w
      → IsConsistent (poll r w)
  unfolding poll
  poll-IsConsistent r w l v = by_state w.is_initialized w.scan_requested refl
    where
      u : NfcWorker B
      u = record w { backend = (B.poll_discovery r.first_call w.backend).0 }

      by_state :
          (b c : Bool)
          → w.is_initialized ≡ b
          → IsConsistent (
              if not b
              then w
              else if not c
              then w
              else discovered r (B.poll_discovery r.first_call w.backend).1 u)
      by_state false c e = v
      by_state true false e = v
      by_state true true e = discovered-IsConsistent r _ u l e (with_backend _ w v)

  loop_body-IsConsistent :
      (r : Reading B) (c : Option NfcCommand) (w : NfcWorker B)
      → w.phase ≡ looping
      → IsConsistent w
      → IsConsistent (loop_body r c w)
  unfolding loop_body
  loop_body-IsConsistent r none w l v = poll-IsConsistent r w l v
  loop_body-IsConsistent r (some c) w l v = command-IsConsistent r c w l v

  close_loop-IsConsistent :
      (w : NfcWorker B)
      → w.phase ≡ looping
      → IsConsistent w
      → IsConsistent (record w { phase = closing })
  close_loop-IsConsistent w l v = ground arith

  loop_step-IsConsistent :
      (r : Reading B) (w : NfcWorker B)
      → w.phase ≡ looping
      → IsConsistent w
      → IsConsistent (loop_step r w)
  unfolding loop_step
  loop_step-IsConsistent r w l v = by_flag w.control.stop_requested
    where
      u : NfcWorker B
      u = record w { control = (try_pop_command w.control).0 }

      by_flag :
          (b : Bool)
          → IsConsistent (
              if b
              then record w { phase = closing }
              else loop_body r (try_pop_command w.control).1 u)
      by_flag true = close_loop-IsConsistent w l v
      by_flag false =
          loop_body-IsConsistent r _ u l (with_control _ w (try_pop_command-flag w.control) v)

  -- Every step of the thread, whatever the backend does, keeps the worker consistent.
  pub thread_step-IsConsistent :
      (r : Reading B) (w : NfcWorker B) → IsConsistent w → IsConsistent (thread_step r w)
  unfolding thread_step
  thread_step-IsConsistent r w v = by_phase w.phase refl
    where
      by_phase : (p : Phase) → w.phase ≡ p → IsConsistent (step_in p r w)
      by_phase not_started e = v
      by_phase beginning e = begin-IsConsistent r w
      by_phase opening e =
          opened-IsConsistent r _ (record w { backend = (B.open_reader r.first_call w.backend).0 })
            v.settled (v.no_tag_yet e)
      by_phase looping e = loop_step-IsConsistent r w e v
      by_phase closing e = leave-IsConsistent w e v
      by_phase leaving e = finish-IsConsistent r.removed_at_ms w e v
      by_phase exited e = v
