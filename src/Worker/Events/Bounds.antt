-- ===== src/Worker/Events/Bounds.antt =====
-- The event queue stays within its bound, counts what it drops, and drops the droppable first.
use mathlib.Core.List.{append-nil, append_assoc}
use cap_cc1101_nfc.Base.{
  sym, ap, ◌∙◌, ℕ, ◌+◌, ◌≤◌, ◌<◌, ◌≡◌, refl, Bool, true, false, not, ◌||◌, List, [], ◌∷◌, ◌++◌,
  length, any, select, leb, ltb, u64_mod, arith, length-append, select-append, Bool-cases, inl, inr,
}
use cap_cc1101_nfc.Types.{NfcEvent}
use cap_cc1101_nfc.Worker.Events.{
  EventQueue, event_queue_capacity, is_droppable_event, erase_first, make_room, push_event,
  push_events, pop_front, try_pop_event,
}

length-erase_first :
    (es : List NfcEvent)
    → any is_droppable_event es ≡ true
    → length (erase_first is_droppable_event es) + 1 ≡ length es
unfolding erase_first
length-erase_first [] h = cc
length-erase_first (e ∷ es) h = ground (arith, length-erase_first es)

length-make_room : (es : List NfcEvent) → 1 ≤ length es → length (make_room es) + 1 ≡ length es
unfolding make_room
length-make_room [] h = absurd (omega arith)
length-make_room (e ∷ es) h = ground (arith, length-erase_first (e ∷ es))

-- The queue never holds more than its capacity.
abbrev pub IsBounded : EventQueue → Type 0
IsBounded q = length q.events ≤ event_queue_capacity

pub push_event-IsBounded :
    (e : NfcEvent) (q : EventQueue) → IsBounded q → IsBounded (push_event e q)
unfolding push_event
push_event-IsBounded e q h = ground (
  arith,
  length-append q.events (e ∷ []),
  length-append (make_room q.events) (e ∷ []),
  length-make_room q.events,
)

pub push_events-IsBounded :
    (es : List NfcEvent) (q : EventQueue) → IsBounded q → IsBounded (push_events es q)
unfolding push_events
push_events-IsBounded [] q h = h
push_events-IsBounded (e ∷ es) q h =
    push_events-IsBounded es (push_event e q) (push_event-IsBounded e q h)

pop_front-IsBounded :
    (es : List NfcEvent) (q : EventQueue)
    → q.events ≡ es
    → IsBounded q
    → IsBounded (pop_front es q).0
unfolding pop_front
pop_front-IsBounded [] q e h = h
pop_front-IsBounded (x ∷ es) q e h = ground arith

pub try_pop_event-IsBounded : (q : EventQueue) → IsBounded q → IsBounded (try_pop_event q).0
unfolding try_pop_event
try_pop_event-IsBounded q h = ground (arith, pop_front-IsBounded q.events q refl)

-- What is in the queue or counted as dropped.
abbrev pub accounted : EventQueue → ℕ
accounted q = length q.events + q.pending_dropped_events

-- Every event pushed is queued or counted as dropped: no event is lost without a trace.
pub accounted-push_event :
    (e : NfcEvent) (q : EventQueue)
    → q.pending_dropped_events + 1 < u64_mod
    → accounted (push_event e q) ≡ accounted q + 1
unfolding push_event
accounted-push_event e q h = ground (
  arith,
  length-append q.events (e ∷ []),
  length-append (make_room q.events) (e ∷ []),
  length-make_room q.events,
)

-- The events that may not be dropped.
abbrev pub is_critical : NfcEvent → Bool
is_critical e = not (is_droppable_event e)

abbrev pub critical : List NfcEvent → List NfcEvent
critical = select is_critical

critical-erase_first :
    (es : List NfcEvent) → critical (erase_first is_droppable_event es) ≡ critical es
unfolding erase_first
critical-erase_first [] = refl
critical-erase_first (e ∷ es) = ground (arith, critical-erase_first es)

droppable_of_full :
    (es : List NfcEvent)
    → (ltb (length es) event_queue_capacity || any is_droppable_event es) ≡ true
    → leb event_queue_capacity (length es) ≡ true
    → any is_droppable_event es ≡ true
droppable_of_full es h full = ground arith

-- While the queue has room, or holds one droppable event, a push loses no event of the other
-- kinds and keeps their order.
pub critical-push_event :
    (e : NfcEvent) (q : EventQueue)
    → (ltb (length q.events) event_queue_capacity || any is_droppable_event q.events) ≡ true
    → critical (push_event e q).events ≡ critical q.events ++ critical (e ∷ [])
unfolding push_event make_room
critical-push_event e q h = elim (Bool-cases (leb event_queue_capacity (length q.events))) [
  | inr room ↦ rw room (select-append is_critical q.events (e ∷ []))
  | inl full ↦ elim (Bool-cases (is_droppable_event e)) [
    | inl dropped ↦ rw (full, dropped) (sym (append-nil (critical q.events)))
    | inr kept ↦
        rw (full, kept, droppable_of_full q.events h full)
          (select-append is_critical (erase_first is_droppable_event q.events) (e ∷ [])
            ∙ ap (λ es. es ++ critical (e ∷ [])) (critical-erase_first q.events)
            ∙ rw kept)
  ]
]

push_event-room :
    (e : NfcEvent) (q : EventQueue)
    → length q.events + 1 ≤ event_queue_capacity
    → push_event e q ≡ record q { events = q.events ++ (e ∷ []) }
unfolding push_event
push_event-room e q h = rw (not_full (length q.events) h) refl
  where
    not_full : (n : ℕ) → n + 1 ≤ event_queue_capacity → leb event_queue_capacity n ≡ false
    not_full n h = ground arith

-- While the queue has room for all of them, pushed events stand at its end, in order.
pub push_events-room :
    (es : List NfcEvent) (q : EventQueue)
    → length q.events + length es ≤ event_queue_capacity
    → push_events es q ≡ record q { events = q.events ++ es }
unfolding push_events
push_events-room [] q h = ap (λ es. record q { events = es }) (sym (append-nil q.events))
push_events-room (e ∷ es) q h =
    ap (push_events es) (push_event-room e q (omega (arith, h)))
    ∙ push_events-room es (record q { events = q.events ++ (e ∷ []) })
        (omega (arith, h, length-append q.events (e ∷ [])))
    ∙ ap (λ xs. record q { events = xs }) (append_assoc q.events (e ∷ []) es)
