-- ===== src/Model/Running.antt =====
-- The model and its worker from a start on.
use cap_cc1101_nfc.Base.{
  ℕ, zero, suc, ◌+◌, ◌≤◌, ◌<◌, ◌≡◌, refl, sym, ap, ◌∙◌, length, Bool, true, false, not, List, [],
  ◌∷◌, none, some, ◌==◌, ==_iff, if◌then◌else◌, arith, subst,
}
use cap_cc1101_nfc.Types.{NfcCommand, NfcEvent}
use cap_cc1101_nfc.Backend.{NfcBackend}
use cap_cc1101_nfc.Worker.Events.{event_queue_capacity}
use cap_cc1101_nfc.Worker.Events.Pop.{
  try_pop_event-empty, try_pop_event-front, try_pop_event-overflow,
}
use cap_cc1101_nfc.Worker.Presence.{clear_presence}
use cap_cc1101_nfc.Worker.Presence.Session.{view, follow_all}
use cap_cc1101_nfc.Worker.Thread.{Reading, thread_step}
use cap_cc1101_nfc.Worker.Lifecycle.{start_reset, post_command}
use cap_cc1101_nfc.Worker.Lifecycle as Lifecycle
use cap_cc1101_nfc.Model.{NfcModel, Spawn, start, tick_events, tick, max_events_per_tick}
use cap_cc1101_nfc.Model.Session.{
  IsSynced, session_view, after, taken, taken-tick, apply_event-follow_all, overflow-synced,
  thread_step-IsSynced, tick-shows,
}

module _ {B : NfcBackend} where
  -- What a model may go through from a start on: steps of the thread that find room for three events,
  -- commands posted and ticks.
  pub data Running : NfcModel B → Type 0 where
    launched :
        (spawn : Spawn) (m : NfcModel B)
        → m.started ≡ false
        → m.worker.control.running ≡ false
        → Running (start spawn m)
    stepped :
        (r : Reading B) {m : NfcModel B}
        → Running m
        → length m.worker.queue.events + 3 ≤ event_queue_capacity
        → Running (record m { worker = thread_step r m.worker })
    commanded :
        (command : NfcCommand) {m : NfcModel B}
        → Running m
        → Running (record m { worker = (post_command command m.worker).0 })
    ticked : {m : NfcModel B} → Running m → Running (tick m)

  -- The model is started and in step with its worker.
  record IsRunning (m : NfcModel B) : Type 0 where
    pub started : m.started ≡ true
    pub synced : IsSynced m

  start-IsRunning :
      (spawn : Spawn) (m : NfcModel B)
      → m.started ≡ false
      → m.worker.control.running ≡ false
      → IsRunning (start spawn m)
  unfolding start Lifecycle.start start_reset clear_presence
  start-IsRunning spawn m s h = ground arith

  tick_events-IsRunning :
      (rounds : ℕ) (m : NfcModel B) → IsRunning m → IsRunning (tick_events rounds m)
  unfolding tick_events after taken
  tick_events-IsRunning zero m v = v
  tick_events-IsRunning (suc rounds) m v =
      by_pending (λ n. tick_events-IsRunning rounds n) (m.worker.queue.pending_dropped_events == 0)
        refl m.worker.queue.events refl
    where
      by_pending :
          ((n : NfcModel B) → IsRunning n → IsRunning (tick_events rounds n))
          → (b : Bool) → (m.worker.queue.pending_dropped_events == 0) ≡ b
          → (es : List NfcEvent) → m.worker.queue.events ≡ es
          → IsRunning (tick_events (suc rounds) m)
      by_pending go false e es q =
          subst IsRunning (sym (taken-tick rounds m _ (try_pop_event-overflow m.worker.queue e))) (
            go _ (record {
              started = v.started;
              synced =
                  overflow-synced m.worker.queue.pending_dropped_events m.shown
                    m.worker.queue.events _ v.synced;
            }))
      by_pending go true e [] q =
          subst IsRunning
            (sym (
              taken-tick rounds m (m.worker.queue, none)
                (try_pop_event-empty m.worker.queue q ((==_iff _ 0).0 e))))
            (record { started = v.started; synced = v.synced })
      by_pending go true e (x ∷ es) q =
          subst IsRunning
            (sym (
              taken-tick rounds m (record m.worker.queue { events = es }, some x)
                (try_pop_event-front x es m.worker.queue q ((==_iff _ 0).0 e))))
            (go _ (record {
              started = v.started;
              synced =
                  apply_event-follow_all x es m.shown (view m.worker.presence)
                    (sym (ap (follow_all (session_view m.shown.tag_session)) q) ∙ v.synced);
            }))

  tick-IsRunning : (m : NfcModel B) → IsRunning m → IsRunning (tick m)
  unfolding tick
  tick-IsRunning m v =
      subst (λ b. IsRunning (if not b then m else tick_events max_events_per_tick m))
        (sym v.started) (tick_events-IsRunning max_events_per_tick m v)

  Running-IsRunning : {m : NfcModel B} → Running m → IsRunning m
  unfolding post_command
  Running-IsRunning (launched spawn m s h) = start-IsRunning spawn m s h
  Running-IsRunning (stepped r {m} p room) =
      let v = Running-IsRunning p in
      record { started = v.started; synced = thread_step-IsSynced r m room v.synced }
  Running-IsRunning (commanded command p) =
      let v = Running-IsRunning p in record { started = v.started; synced = v.synced }
  Running-IsRunning (ticked p) = tick-IsRunning _ (Running-IsRunning p)

  -- From a start over a worker that does not run, after any steps of the thread that each find room
  -- for three events, any posted commands and any ticks, in any order: a tick with at most 23 events
  -- waiting shows as present the session that the worker holds, number and tag, or none.
  pub Running-shows :
      (m : NfcModel B)
      → Running m
      → length m.worker.queue.events < max_events_per_tick
      → session_view (tick m).shown.tag_session ≡ view m.worker.presence
  Running-shows m p h = let v = Running-IsRunning p in tick-shows m v.started h v.synced
