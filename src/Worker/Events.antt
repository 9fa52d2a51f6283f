-- ===== src/Worker/Events.antt =====
-- The event queue of NfcWorker: pushEvent and tryPopEvent.
pub mod Bounds
pub mod Pop
use cap_cc1101_nfc.Base.{
  ℕ, ◌≤◌, Bool, true, false, List, [], ◌∷◌, ◌++◌, Option, none, some, length, any, drop, leb, ◌==◌,
  inc64, if◌then◌else◌,
}
use cap_cc1101_nfc.Types.{NfcEvent, tag_updated, queue_overflow}

abbrev pub event_queue_capacity : ℕ
event_queue_capacity = 48

pub record EventQueue : Type 0 where
  pub events : List NfcEvent
  pub pending_dropped_events : ℕ

abbrev pub is_droppable_event : NfcEvent → Bool
is_droppable_event (tag_updated id ms snapshot) = true
is_droppable_event (queue_overflow dropped) = true
is_droppable_event _ = false

-- `_events.erase(droppable)`, for the first event that the search finds.
pub erase_first : (NfcEvent → Bool) → List NfcEvent → List NfcEvent
erase_first p [] = []
erase_first p (e ∷ es) = if p e then es else e ∷ erase_first p es

-- Room for an event that must not be dropped, in a full queue.
pub make_room : List NfcEvent → List NfcEvent
unfolding erase_first
make_room events =
    if any is_droppable_event events then erase_first is_droppable_event events else drop 1 events

unfoldable pub push_event : NfcEvent → EventQueue → EventQueue
push_event event q =
    if leb event_queue_capacity (length q.events)
    then if is_droppable_event event
      then record q { pending_dropped_events = inc64 q.pending_dropped_events }
      else record {
        events = make_room q.events ++ (event ∷ []);
        pending_dropped_events = inc64 q.pending_dropped_events;
      }
    else record q { events = q.events ++ (event ∷ []) }

-- Events that one operation pushes, in order.
unfoldable pub push_events : List NfcEvent → EventQueue → EventQueue
push_events [] q = q
push_events (e ∷ es) q = push_events es (push_event e q)

pop_front : List NfcEvent → EventQueue → EventQueue × Option NfcEvent
pop_front [] q = (q, none)
pop_front (e ∷ es) q = (record q { events = es }, some e)

-- The queue after the call, and the event, if there is one.
unfoldable pub try_pop_event : EventQueue → EventQueue × Option NfcEvent
unfolding pop_front
try_pop_event q =
    if q.pending_dropped_events == 0
    then pop_front q.events q
    else (record q { pending_dropped_events = 0 }, some (queue_overflow q.pending_dropped_events))
