-- ===== src/Worker/System.antt =====
-- The worker under every interleaving of its thread with the calls of the other thread: a step
-- relation. A call holds its mutex, so it stands between two steps of the thread.
use cap_cc1101_nfc.Base.{
  ◌≤◌, length, ◌≡◌, ◌≢◌, refl, sym, ap, ◌∙◌, Bool, true, false, List, Option, none, some, arith,
  if◌then◌else◌, subst,
}
use cap_cc1101_nfc.Types.{NfcCommand}
use cap_cc1101_nfc.Backend.{NfcBackend}
use cap_cc1101_nfc.Worker.Events.Bounds.{IsBounded, push_events-IsBounded, try_pop_event-IsBounded}
use cap_cc1101_nfc.Worker.Commands.{post}
use cap_cc1101_nfc.Worker.Commands.Bounds.{post-IsTidy, post-flags}
use cap_cc1101_nfc.Worker.Presence.{clear_presence}
use cap_cc1101_nfc.Worker.Thread.{
  NfcWorker, Reading, Phase, not_started, beginning, exited, opening, thread_step, join_thread,
}
use cap_cc1101_nfc.Worker.Thread.Sessions.{thread_step-Emits}
use cap_cc1101_nfc.Worker.Thread.Invariant.{IsConsistent, with_control, thread_step-IsConsistent}
use cap_cc1101_nfc.Worker.Thread.Control.{is_active, has_ended, IsOrderly, thread_step-IsOrderly}
use cap_cc1101_nfc.Worker.Lifecycle.{
  new_worker, start, start_reset, request_stop, stop, post_command, pop_event,
}
use cap_cc1101_nfc.Worker.Lifecycle.Shutdown.{stop-exited}

idle_phase : (p : Phase) → is_active p ≡ false → p ≢ opening
idle_phase p h = ground arith

ended_phase : (p : Phase) → has_ended p ≡ true → is_active p ≡ false
ended_phase p h = ground arith

module _ {B : NfcBackend} where
  pub data Step : NfcWorker B → NfcWorker B → Type 0 where
    threaded : (r : Reading B) (w : NfcWorker B) → Step w (thread_step r w)
    posted : (command : NfcCommand) (w : NfcWorker B) → Step w (post_command command w).0
    popped : (w : NfcWorker B) → Step w (pop_event w).0
    -- `stop` up to the join, and behind it
    stop_asked : (w : NfcWorker B) → Step w (request_stop w)
    joined :
        (w : NfcWorker B)
        → has_ended w.phase ≡ true
        → Step w (record w { control = record w.control { running = false } })
    started :
        (spawned scan_on_start : Bool) (w : NfcWorker B) → Step w (start spawned scan_on_start w).0

  pub data Reach (s : NfcWorker B) : NfcWorker B → Type 0 where
    here : Reach s s
    next : {t u : NfcWorker B} → Reach s t → Step t u → Reach s u

  pub record IsSound (w : NfcWorker B) : Type 0 where
    pub consistent : IsConsistent w
    pub orderly : IsOrderly w
    pub bounded : IsBounded w.queue

  new_worker-IsSound : (backend : B.State) → IsSound (new_worker backend)
  unfolding new_worker
  new_worker-IsSound backend = record {
    consistent = ground arith;
    orderly = ground arith;
    bounded = ground arith;
  }

  posted-IsSound : (c : NfcCommand) (w : NfcWorker B) → IsSound w → IsSound (post_command c w).0
  unfolding post_command
  posted-IsSound c w v = record {
    consistent = with_control (post c w.control).0 w (post-flags c w.control).0 v.consistent;
    orderly = record {
      live = (post-flags c w.control).1 ∙ v.orderly.live;
      tidy = post-IsTidy c w.control v.orderly.tidy;
      gone = v.orderly.gone;
    };
    bounded = v.bounded;
  }

  popped-IsSound : (w : NfcWorker B) → IsSound w → IsSound (pop_event w).0
  unfolding pop_event
  popped-IsSound w v = record {
    consistent = record {
      settled = v.consistent.settled;
      flag_set = v.consistent.flag_set;
      flag_clear = v.consistent.flag_clear;
      no_tag_yet = v.consistent.no_tag_yet;
      tag_over_reader = v.consistent.tag_over_reader;
    };
    orderly = record { live = v.orderly.live; tidy = v.orderly.tidy; gone = v.orderly.gone };
    bounded = try_pop_event-IsBounded w.queue v.bounded;
  }

  threaded-IsSound : (r : Reading B) (w : NfcWorker B) → IsSound w → IsSound (thread_step r w)
  threaded-IsSound r w v = record {
    consistent = thread_step-IsConsistent r w v.consistent;
    orderly = thread_step-IsOrderly r w v.orderly;
    bounded =
        subst IsBounded (sym (thread_step-Emits r w).pushed)
          (push_events-IsBounded (thread_step-Emits r w).events w.queue v.bounded);
  }

  started-IsSound :
      (spawned scan : Bool) (w : NfcWorker B) → IsSound w → IsSound (start spawned scan w).0
  unfolding start start_reset clear_presence join_thread
  started-IsSound spawned scan w v = by_flags spawned w.control.running refl
    where
      reset : NfcWorker B
      reset = start_reset scan (join_thread w)

      launched : NfcWorker B × Option Bool
      launched = (
        record reset { phase = beginning; is_initialized = false; scan_requested = scan },
        some true,
      )

      refused : NfcWorker B × Option Bool
      refused = (record reset { control = record reset.control { running = false } }, none)

      by_flags :
          (s b : Bool)
          → w.control.running ≡ b
          → IsSound (if b then (w, some false) else if s then launched else refused).0
      by_flags s true e = v
      by_flags true false e = record {
        consistent = ground (arith, idle_phase w.phase);
        orderly = ground arith;
        bounded = ground arith;
      }
      by_flags false false e = record {
        consistent = ground (arith, idle_phase w.phase);
        orderly = ground arith;
        bounded = ground arith;
      }

  stop_asked-IsSound : (w : NfcWorker B) → IsSound w → IsSound (request_stop w)
  stop_asked-IsSound w v = record {
    consistent = with_control _ w refl v.consistent;
    orderly = record { live = v.orderly.live; tidy = v.orderly.tidy; gone = v.orderly.gone };
    bounded = v.bounded;
  }

  joined-IsSound :
      (w : NfcWorker B)
      → has_ended w.phase ≡ true
      → IsSound w
      → IsSound (record w { control = record w.control { running = false } })
  joined-IsSound w h v = record {
    consistent = with_control _ w refl v.consistent;
    orderly = record {
      live = sym (ended_phase w.phase h);
      tidy = v.orderly.tidy;
      gone = v.orderly.gone;
    };
    bounded = v.bounded;
  }

  step-IsSound : {w u : NfcWorker B} → Step w u → IsSound w → IsSound u
  step-IsSound (threaded r w) v = threaded-IsSound r w v
  step-IsSound (posted c w) v = posted-IsSound c w v
  step-IsSound (popped w) v = popped-IsSound w v
  step-IsSound (stop_asked w) v = stop_asked-IsSound w v
  step-IsSound (joined w h) v = joined-IsSound w h v
  step-IsSound (started spawned scan w) v = started-IsSound spawned scan w v

  -- In every interleaving of the thread with the calls of the other thread, from the new worker
  -- on, whatever the backend does: the worker is consistent, its queues stay within their bounds,
  -- and the running flag is set exactly from the start of a thread
  -- until it has left its loop, after which it still closes the backend.
  pub Reach-IsSound :
      (backend : B.State) {w : NfcWorker B} → Reach (new_worker backend) w → IsSound w
  Reach-IsSound backend here = new_worker-IsSound backend
  Reach-IsSound backend (next p s) = step-IsSound s (Reach-IsSound backend p)

  -- From any state that can be reached with a thread started, `stop` ends the thread: five steps of
  -- it are enough, whatever the backend does, and then no tag is present.
  pub Reach-stop :
      (backend : B.State) {w : NfcWorker B}
      → Reach (new_worker backend) w
      → w.phase ≢ not_started
      → (rs : List (Reading B)) → 5 ≤ length rs
      → let u = stop rs w in
        (u.phase ≡ exited) × (u.control.running ≡ false) × (u.presence.present_tag ≡ none)
  Reach-stop backend {w} p begun rs long = stop-exited rs w long (
    begun,
    λ e. (Reach-IsSound backend p).orderly.live ∙ ap is_active e,
    λ e.
        let v = (Reach-IsSound backend p).orderly in
        (v.live ∙ ap is_active e, v.gone (ap has_ended e)),
  )
