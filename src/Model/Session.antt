-- ===== src/Model/Session.antt =====
-- What the model shows of the tag, against the events and the worker.
use mathlib.Core.Option.{none-ne-some, some-injective}
use cap_cc1101_nfc.Base.{
  ℕ, zero, suc, ◌+◌, ◌≤◌, ◌<◌, ◌≡◌, refl, sym, ap, ◌∙◌, length, Bool, true, false, not, List, [],
  ◌∷◌, Option, none, some, ◌==◌, ==_iff, if◌then◌else◌, arith,
}
use cap_cc1101_nfc.Types.{TagSession, NfcEvent, queue_overflow}
use cap_cc1101_nfc.Backend.{NfcBackend}
use cap_cc1101_nfc.Worker.Events.{event_queue_capacity, EventQueue, try_pop_event}
use cap_cc1101_nfc.Worker.Events.Bounds.{push_events-room}
use cap_cc1101_nfc.Worker.Events.Pop.{
  try_pop_event-empty, try_pop_event-front, try_pop_event-overflow,
}
use cap_cc1101_nfc.Worker.Presence.Session.{View, view, follow, follow_all, follow_from}
use cap_cc1101_nfc.Worker.Thread.{Reading, thread_step}
use cap_cc1101_nfc.Worker.Thread.Output.{follow_from-append}
use cap_cc1101_nfc.Worker.Thread.Sessions.{thread_step-Emits}
use cap_cc1101_nfc.Worker.Lifecycle.{pop_event}
use cap_cc1101_nfc.Model.{Shown, NfcModel, apply_event, tick_events, tick, max_events_per_tick}

-- The session that the pages show as present.
abbrev pub session_view : Option TagSession → View
session_view none = none
session_view (some session) =
    if session.present then some (session.session_id, session.snapshot) else none

-- An event that keeps the session protocol moves the shown session as the protocol says.
pub apply_event-follow :
    (e : NfcEvent) (o : Shown) (v : View)
    → follow (session_view o.tag_session) e ≡ some v
    → session_view (apply_event e o).tag_session ≡ v
unfolding apply_event
apply_event-follow e o v h = ground arith

follow_from-none : (es : List NfcEvent) → follow_from none es ≡ none
follow_from-none [] = refl
follow_from-none (e ∷ es) = follow_from-none es

-- One event of several.
pub apply_event-follow_all :
    (e : NfcEvent) (es : List NfcEvent) (o : Shown) (v : View)
    → follow_all (session_view o.tag_session) (e ∷ es) ≡ some v
    → follow_all (session_view (apply_event e o).tag_session) es ≡ some v
apply_event-follow_all e es o v h = by_follow (follow (session_view o.tag_session) e) refl
  where
    by_follow :
        (f : Option View)
        → follow (session_view o.tag_session) e ≡ f
        → follow_all (session_view (apply_event e o).tag_session) es ≡ some v
    by_follow none q =
        absurd (none-ne-some v (sym (follow_from-none es) ∙ ap (λ f. follow_from f es) (sym q) ∙ h))
    by_follow (some u) q =
        ap (λ f. follow_from f es) (ap some (apply_event-follow e o u q) ∙ sym q) ∙ h

-- The report of dropped events leaves the shown session alone.
pub overflow-synced :
    (dropped : ℕ) (o : Shown) (es : List NfcEvent) (v : View)
    → follow_all (session_view o.tag_session) es ≡ some v
    → follow_all (session_view (apply_event (queue_overflow dropped) o).tag_session) es ≡ some v
unfolding apply_event
overflow-synced dropped o es v h = h

module _ {B : NfcBackend} where
  -- The session that is shown, followed through the events that still wait, is the worker's.
  abbrev pub IsSynced : NfcModel B → Type 0
  IsSynced m =
      follow_all (session_view m.shown.tag_session) m.worker.queue.events
      ≡ some (view m.worker.presence)

  -- A step of the worker's thread that finds room for three events keeps the shown session and the
  -- waiting events in step with the tag that the worker holds.
  pub thread_step-IsSynced :
      (r : Reading B) (m : NfcModel B)
      → length m.worker.queue.events + 3 ≤ event_queue_capacity
      → IsSynced m
      → IsSynced (record m { worker = thread_step r m.worker })
  thread_step-IsSynced r m room synced =
      let e = thread_step-Emits r m.worker in
      ap (λ q. follow_all (session_view m.shown.tag_session) q.events)
        (e.pushed ∙ push_events-room e.events m.worker.queue (omega (arith, room, e.few)))
      ∙ follow_from-append (some (session_view m.shown.tag_session)) m.worker.queue.events e.events
      ∙ rw synced e.follows

  unfoldable pub after : NfcEvent → EventQueue → NfcModel B → NfcModel B
  after e q m = record m { worker = record m.worker { queue = q }; shown = apply_event e m.shown }

  -- A round of `tick` on what the queue answers.
  unfoldable pub taken : ℕ → NfcModel B → EventQueue × Option NfcEvent → NfcModel B
  taken rounds m (q, none) = record m { worker = record m.worker { queue = q } }
  taken rounds m (q, some e) = tick_events rounds (after e q m)

  pub taken-tick :
      (rounds : ℕ) (m : NfcModel B) (a : EventQueue × Option NfcEvent)
      → try_pop_event m.worker.queue ≡ a
      → tick_events (suc rounds) m ≡ taken rounds m a
  unfolding tick_events pop_event taken after
  taken-tick rounds m a e =
      by_event (try_pop_event m.worker.queue).0 (try_pop_event m.worker.queue).1
      ∙ ap (taken rounds m) e
    where
      by_event :
          (q : EventQueue) (o : Option NfcEvent)
          → (elim o [
            | none ↦ record m { worker = record m.worker { queue = q } }
            | some e ↦ tick_events rounds (after e q m)
          ])
            ≡ taken rounds m (q, o)
      by_event q none = refl
      by_event q (some e) = refl

  settled :
      (m : NfcModel B)
      → m.worker.queue.events ≡ []
      → IsSynced m
      → session_view m.shown.tag_session ≡ view m.worker.presence
  settled m e synced =
      some-injective _ _ (sym (ap (follow_all (session_view m.shown.tag_session)) e) ∙ synced)

  drain :
      (es : List NfcEvent) (rounds : ℕ) (m : NfcModel B)
      → m.worker.queue.events ≡ es
      → m.worker.queue.pending_dropped_events ≡ 0
      → length es ≤ rounds
      → IsSynced m
      → session_view (tick_events rounds m).shown.tag_session ≡ view m.worker.presence
  unfolding tick_events taken after
  drain [] zero m e p h synced = settled m e synced
  drain [] (suc rounds) m e p h synced =
      ap (λ n. session_view n.shown.tag_session)
        (taken-tick rounds m (m.worker.queue, none) (try_pop_event-empty m.worker.queue e p))
      ∙ settled m e synced
  drain (x ∷ es) zero m e p h synced = absurd (omega (arith, h))
  drain (x ∷ es) (suc rounds) m e p h synced =
      ap (λ n. session_view n.shown.tag_session)
        (taken-tick rounds m (record m.worker.queue { events = es }, some x)
          (try_pop_event-front x es m.worker.queue e p))
      ∙ drain es rounds (after x (record m.worker.queue { events = es }) m) refl p
          (omega (arith, h))
          (apply_event-follow_all x es m.shown (view m.worker.presence)
            (sym (ap (follow_all (session_view m.shown.tag_session)) e) ∙ synced))

  -- `tick` on a started model that holds what its worker's queue says, with at most 23 events waiting:
  -- afterwards the session that is shown as present is the worker's, number and tag.
  pub tick-shows :
      (m : NfcModel B)
      → m.started ≡ true
      → length m.worker.queue.events < max_events_per_tick
      → IsSynced m
      → session_view (tick m).shown.tag_session ≡ view m.worker.presence
  unfolding tick after taken
  tick-shows m started h synced =
      ap
        (λ b.
          session_view (if not b then m else tick_events max_events_per_tick m).shown.tag_session)
        started
      ∙ by_pending (m.worker.queue.pending_dropped_events == 0) refl
    where
      by_pending :
          (b : Bool)
          → (m.worker.queue.pending_dropped_events == 0) ≡ b
          → session_view (tick_events max_events_per_tick m).shown.tag_session
            ≡ view m.worker.presence
      by_pending true e =
          drain m.worker.queue.events max_events_per_tick m refl
            ((==_iff m.worker.queue.pending_dropped_events 0).0 e) (omega (arith, h)) synced
      by_pending false e =
          ap (λ n. session_view n.shown.tag_session)
            (taken-tick 23 m _ (try_pop_event-overflow m.worker.queue e))
          ∙ drain m.worker.queue.events 23
              (after (queue_overflow m.worker.queue.pending_dropped_events)
                (record m.worker.queue { pending_dropped_events = 0 }) m)
              refl refl (omega (arith, h))
              (overflow-synced m.worker.queue.pending_dropped_events m.shown m.worker.queue.events _
                synced)
