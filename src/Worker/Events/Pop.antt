-- ===== src/Worker/Events/Pop.antt =====
-- What tryPopEvent finds.
use cap_cc1101_nfc.Base.{◌≡◌, refl, ◌==◌, false, List, [], ◌∷◌, none, some}
use cap_cc1101_nfc.Types.{NfcEvent, queue_overflow}
use cap_cc1101_nfc.Worker.Events.{EventQueue, pop_front, try_pop_event}

pub try_pop_event-empty :
    (q : EventQueue) → q.events ≡ [] → q.pending_dropped_events ≡ 0 → try_pop_event q ≡ (q, none)
unfolding try_pop_event pop_front
try_pop_event-empty q e p = rw (p, e) refl

pub try_pop_event-front :
    (x : NfcEvent) (xs : List NfcEvent) (q : EventQueue)
    → q.events ≡ x ∷ xs
    → q.pending_dropped_events ≡ 0
    → try_pop_event q ≡ (record q { events = xs }, some x)
unfolding try_pop_event pop_front
try_pop_event-front x xs q e p = rw (p, e) refl

-- Dropped events are reported first, by one event with their number.
pub try_pop_event-overflow :
    (q : EventQueue)
    → (q.pending_dropped_events == 0) ≡ false
    → try_pop_event q
      ≡ (record q { pending_dropped_events = 0 }, some (queue_overflow q.pending_dropped_events))
unfolding try_pop_event
try_pop_event-overflow q p = rw p refl
