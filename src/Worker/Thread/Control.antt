-- ===== src/Worker/Thread/Control.antt =====
-- What a step of the thread does to the command queue and the running flag.
use cap_cc1101_nfc.Base.{
  ℕ, ◌≡◌, refl, ◌∙◌, Bool, true, false, not, List, [], ◌∷◌, Option, none, some, arith,
  if◌then◌else◌,
}
use cap_cc1101_nfc.Types.{
  ReaderInfo, NfcCommand, retry, set_scanning, shutdown, Outcome, returned, DiscoveryPollResult,
}
use cap_cc1101_nfc.Backend.{NfcBackend}
use cap_cc1101_nfc.Worker.Commands.{CommandQueue, try_pop_command, pop_command}
use cap_cc1101_nfc.Worker.Commands.Bounds.{IsTidy, try_pop_command-IsTidy}
use cap_cc1101_nfc.Worker.Presence.{clear_presence}
use cap_cc1101_nfc.Worker.Thread.{
  NfcWorker, Reading, Phase, not_started, beginning, opening, looping, closing, leaving, exited,
  initialize_begin, initialize_opened, start_reader, lose_reader, handle_command, discovered, poll,
  loop_body, loop_step, leave_loop, finish_run, step_in, thread_step,
}

-- Whether a thread is at work: from its start until it has left its loop.
abbrev pub is_active : Phase → Bool
is_active not_started = false
is_active leaving = false
is_active exited = false
is_active _ = true

-- Whether there is no thread to wait for.
abbrev pub has_ended : Phase → Bool
has_ended not_started = true
has_ended exited = true
has_ended _ = false

popped_running :
    (cs : List NfcCommand) (q : CommandQueue) → (pop_command cs q).0.running ≡ q.running
unfolding pop_command
popped_running [] q = refl
popped_running (c ∷ cs) q = refl

module _ {B : NfcBackend} where
  -- The flag says whether the thread is at work, the command queue is well-formed, and no tag is
  -- present without a thread.
  pub record IsOrderly (w : NfcWorker B) : Type 0 where
    pub live : w.control.running ≡ is_active w.phase
    pub tidy : IsTidy w.control.commands
    pub gone : has_ended w.phase ≡ true → w.presence.present_tag ≡ none

  begin-IsOrderly :
      (r : Reading B) (w : NfcWorker B)
      → w.phase ≡ beginning
      → IsOrderly w
      → IsOrderly (initialize_begin r w)
  unfolding initialize_begin clear_presence
  begin-IsOrderly r w e v = ground arith

  opened-IsOrderly :
      (r : Reading B) (o : Outcome ReaderInfo) (w : NfcWorker B)
      → w.phase ≡ opening
      → IsOrderly w
      → IsOrderly (initialize_opened r o w)
  unfolding initialize_opened start_reader
  opened-IsOrderly r o w e v = ground arith

  command-IsOrderly :
      (r : Reading B) (c : NfcCommand) (w : NfcWorker B)
      → w.phase ≡ looping
      → IsOrderly w
      → IsOrderly (handle_command r c w)
  unfolding handle_command lose_reader clear_presence
  command-IsOrderly r retry w e v = ground arith
  command-IsOrderly r shutdown w e v = ground arith
  command-IsOrderly r (set_scanning enabled) w e v = ground arith

  discovered-IsOrderly :
      (r : Reading B) (o : Outcome DiscoveryPollResult) (w : NfcWorker B)
      → w.phase ≡ looping
      → IsOrderly w
      → IsOrderly (discovered r o w)
  unfolding discovered lose_reader clear_presence
  discovered-IsOrderly r (returned result) w e v = ground arith
  discovered-IsOrderly r _ w e v = ground arith

  leave-IsOrderly : (w : NfcWorker B) → IsOrderly w → IsOrderly (leave_loop w)
  unfolding leave_loop
  leave-IsOrderly w v = ground arith

  finish-IsOrderly :
      (removed_at : ℕ) (w : NfcWorker B)
      → w.phase ≡ leaving
      → IsOrderly w
      → IsOrderly (finish_run removed_at w)
  unfolding finish_run clear_presence
  finish-IsOrderly removed_at w e v = ground arith

  poll-IsOrderly :
      (r : Reading B) (w : NfcWorker B) → w.phase ≡ looping → IsOrderly w → IsOrderly (poll r w)
  unfolding poll
  poll-IsOrderly r w e v = by_state w.is_initialized w.scan_requested
    where
      u : NfcWorker B
      u = record w { backend = (B.poll_discovery r.first_call w.backend).0 }

      by_state :
          (b c : Bool)
          → IsOrderly (
              if not b
              then w
              else if not c
              then w
              else discovered r (B.poll_discovery r.first_call w.backend).1 u)
      by_state false c = v
      by_state true false = v
      by_state true true =
          discovered-IsOrderly r _ u e (record { live = v.live; tidy = v.tidy; gone = v.gone })

  loop_body-IsOrderly :
      (r : Reading B) (c : Option NfcCommand) (w : NfcWorker B)
      → w.phase ≡ looping
      → IsOrderly w
      → IsOrderly (loop_body r c w)
  unfolding loop_body
  loop_body-IsOrderly r none w e v = poll-IsOrderly r w e v
  loop_body-IsOrderly r (some c) w e v = command-IsOrderly r c w e v

  close_loop-IsOrderly :
      (w : NfcWorker B) → w.phase ≡ looping → IsOrderly w → IsOrderly (record w { phase = closing })
  close_loop-IsOrderly w e v = ground arith

  loop_step-IsOrderly :
      (r : Reading B) (w : NfcWorker B)
      → w.phase ≡ looping
      → IsOrderly w
      → IsOrderly (loop_step r w)
  unfolding loop_step try_pop_command
  loop_step-IsOrderly r w e v = by_flag w.control.stop_requested
    where
      u : NfcWorker B
      u = record w { control = (try_pop_command w.control).0 }

      orderly : IsOrderly u
      orderly = record {
        live = popped_running w.control.commands w.control ∙ v.live;
        tidy = try_pop_command-IsTidy w.control.commands w.control refl v.tidy;
        gone = v.gone;
      }

      by_flag :
          (b : Bool)
          → IsOrderly (
              if b
              then record w { phase = closing }
              else loop_body r (try_pop_command w.control).1 u)
      by_flag true = close_loop-IsOrderly w e v
      by_flag false = loop_body-IsOrderly r _ u e orderly

  -- Every step of the thread keeps the flag, the queue and the end in order.
  pub thread_step-IsOrderly :
      (r : Reading B) (w : NfcWorker B) → IsOrderly w → IsOrderly (thread_step r w)
  unfolding thread_step
  thread_step-IsOrderly r w v = by_phase w.phase refl
    where
      by_phase : (p : Phase) → w.phase ≡ p → IsOrderly (step_in p r w)
      by_phase not_started e = v
      by_phase beginning e = begin-IsOrderly r w e v
      by_phase opening e =
          opened-IsOrderly r _ (record w { backend = (B.open_reader r.first_call w.backend).0 }) e
            (record { live = v.live; tidy = v.tidy; gone = v.gone })
      by_phase looping e = loop_step-IsOrderly r w e v
      by_phase closing e = leave-IsOrderly w v
      by_phase leaving e = finish-IsOrderly r.removed_at_ms w e v
      by_phase exited e = v
