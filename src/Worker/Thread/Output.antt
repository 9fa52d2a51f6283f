-- ===== src/Worker/Thread/Output.antt =====
-- Events pushed into the queue, with the sessions that they open and close.
use cap_cc1101_nfc.Base.{
  ℕ, ◌+◌, ◌≤◌, length, length-append, ◌≡◌, refl, sym, ap, ◌∙◌, String, Bool, true, List, [], ◌∷◌,
  ◌++◌, Option, none, some, arith,
}
use cap_cc1101_nfc.Types.{
  ReaderState, initialized, worker_error, initialization_failed, ReaderInfo, NfcEvent, state_event,
}
use cap_cc1101_nfc.Worker.Events.{EventQueue, push_event, push_events}
use cap_cc1101_nfc.Worker.Presence.{Presence, clear_presence}
use cap_cc1101_nfc.Worker.Presence.Session.{
  View, view, follow, follow_all, follow_from, advance, clear_presence-follow, clear_presence-few,
}

pub push_events-append :
    (xs ys : List NfcEvent) (q : EventQueue)
    → push_events (xs ++ ys) q ≡ push_events ys (push_events xs q)
unfolding push_events
push_events-append [] ys q = refl
push_events-append (x ∷ xs) ys q = push_events-append xs ys (push_event x q)

pub follow_from-append :
    (o : Option View) (xs ys : List NfcEvent)
    → follow_from o (xs ++ ys) ≡ follow_from (follow_from o xs) ys
follow_from-append o [] ys = refl
follow_from-append o (x ∷ xs) ys = follow_from-append (advance o x) xs ys

-- From queue `q` and presence `p` at most `n` events are pushed, and lead to `q'` and `p'`.
pub record Emits (n : ℕ) (q : EventQueue) (p : Presence) (q' : EventQueue) (p' : Presence)
    : Type 0 where
  pub events : List NfcEvent
  pub pushed : q' ≡ push_events events q
  pub follows : follow_all (view p) events ≡ some (view p')
  pub few : length events ≤ n

pub Emits-refl : {n : ℕ} (q : EventQueue) (p : Presence) → Emits n q p q p
unfolding push_events
Emits-refl q p = record { events = []; pushed = refl; follows = refl; few = omega arith }

pub Emits-le :
    {m n : ℕ} {q : EventQueue} {p : Presence} {q' : EventQueue} {p' : Presence}
    → Emits m q p q' p'
    → m ≤ n
    → Emits n q p q' p'
Emits-le e h = record {
  events = e.events;
  pushed = e.pushed;
  follows = e.follows;
  few = omega (arith, e.few);
}

pub Emits-trans :
    {m n : ℕ} {q : EventQueue} {p : Presence} {q' : EventQueue} {p' : Presence} {q'' : EventQueue}
    {p'' : Presence}
    → Emits m q p q' p'
    → Emits n q' p' q'' p''
    → Emits (m + n) q p q'' p''
Emits-trans {q = q} {p = p} a b = record {
  events = a.events ++ b.events;
  pushed =
      b.pushed ∙ ap (push_events b.events) a.pushed ∙ sym (push_events-append a.events b.events q);
  follows = follow_from-append (some (view p)) a.events b.events ∙ rw a.follows b.follows;
  few = omega (arith, length-append a.events b.events, a.few, b.few);
}

-- Events about no tag leave every view as it is.
abbrev pub IsNeutral : NfcEvent → Type 0
IsNeutral e = (v : View) → follow v e ≡ some v

pub state_event-IsNeutral : (s : ReaderState) (n : ℕ) (t : String) → IsNeutral (state_event s n t)
state_event-IsNeutral s n t none = refl
state_event-IsNeutral s n t (some v) = refl

pub initialized-IsNeutral : (n : ℕ) (i : ReaderInfo) → IsNeutral (initialized n i)
initialized-IsNeutral n i none = refl
initialized-IsNeutral n i (some v) = refl

pub initialization_failed-IsNeutral :
    (n : ℕ) (s t : String) (b : Bool) → IsNeutral (initialization_failed n s t b)
initialization_failed-IsNeutral n s t b none = refl
initialization_failed-IsNeutral n s t b (some v) = refl

pub worker_error-IsNeutral : (s t : String) (b : Bool) → IsNeutral (worker_error s t b)
worker_error-IsNeutral s t b none = refl
worker_error-IsNeutral s t b (some v) = refl

pub push_one :
    (q : EventQueue) (p : Presence) (e : NfcEvent)
    → IsNeutral e
    → Emits 1 q p (push_events (e ∷ []) q) p
push_one q p e n = record {
  events = e ∷ [];
  pushed = refl;
  follows = n (view p);
  few = omega arith;
}

pub push_two :
    (q : EventQueue) (p : Presence) (d e : NfcEvent)
    → IsNeutral d
    → IsNeutral e
    → Emits 2 q p (push_events (d ∷ e ∷ []) q) p
push_two q p d e m n = record {
  events = d ∷ e ∷ [];
  pushed = refl;
  follows = rw (m (view p)) (n (view p));
  few = omega arith;
}

pub push_state :
    (q : EventQueue) (p : Presence) (s : ReaderState) (n : ℕ) (t : String)
    → Emits 1 q p (push_events (state_event s n t ∷ []) q) p
push_state q p s n t = push_one q p (state_event s n t) (state_event-IsNeutral s n t)

pub push_cleared :
    (ms : ℕ) (q : EventQueue) (p : Presence)
    → let r = clear_presence true ms p in Emits 1 q p (push_events r.1 q) r.0
push_cleared ms q p = record {
  events = (clear_presence true ms p).1;
  pushed = refl;
  follows = clear_presence-follow ms p;
  few = clear_presence-few true ms p;
}
