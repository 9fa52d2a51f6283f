-- ===== src/Worker/Presence/Session.antt =====
-- The events of the debounce as sessions: each tag that is presented is updated under its own
-- number and removed before the next is presented.
use cap_cc1101_nfc.Base.{
  ℕ, length, ◌≤◌, ◌≡◌, Bool, true, List, [], ◌∷◌, Option, none, some, ◌==◌, if◌then◌else◌, arith,
}
use cap_cc1101_nfc.Types.{
  TagSnapshot, NfcEvent, tag_presented, tag_updated, tag_removed, DiscoveryPollResult,
}
use cap_cc1101_nfc.Worker.Presence.{Presence, clear_presence, handle_discovery_result}

-- What an observer of the events knows: the session that is open, and its tag.
abbrev pub View : Type 0
View = Option (ℕ × TagSnapshot)

-- The view after an event, or nothing if the event breaks the protocol.
abbrev pub follow : View → NfcEvent → Option View
follow none (tag_presented id ms snapshot) = some (some (id, snapshot))
follow (some (open_id, tag)) (tag_presented id ms snapshot) = none
follow none (tag_updated id ms snapshot) = none
follow (some (open_id, tag)) (tag_updated id ms snapshot) =
    if open_id == id then some (some (id, snapshot)) else none
follow none (tag_removed id ms last snapshot) = none
follow (some (open_id, tag)) (tag_removed id ms last snapshot) =
    if open_id == id then some none else none
follow v _ = some v

abbrev pub advance : Option View → NfcEvent → Option View
advance none e = none
advance (some v) e = follow v e

abbrev pub follow_from : Option View → List NfcEvent → Option View
follow_from o [] = o
follow_from o (e ∷ es) = follow_from (advance o e) es

-- The view after a list of events, or nothing if they break the protocol.
abbrev pub follow_all : View → List NfcEvent → Option View
follow_all v es = follow_from (some v) es

-- What the worker itself knows.
abbrev pub view_of : ℕ → Option TagSnapshot → View
view_of id none = none
view_of id (some tag) = some (id, tag)

abbrev pub view : Presence → View
view p = view_of p.active_session_id p.present_tag

-- Forgetting the tag closes its session.
pub clear_presence-follow :
    (removed_at : ℕ) (p : Presence)
    → let r = clear_presence true removed_at p in follow_all (view p) r.1 ≡ some (view r.0)
unfolding clear_presence
clear_presence-follow removed_at p = ground arith

-- One call pushes at most two events.
pub clear_presence-few :
    (emit : Bool) (removed_at : ℕ) (p : Presence) → length (clear_presence emit removed_at p).1 ≤ 1
unfolding clear_presence
clear_presence-few emit removed_at p = ground arith

pub handle_discovery_result-few :
    (now removed_at : ℕ) (result : DiscoveryPollResult) (p : Presence)
    → length (handle_discovery_result now removed_at result p).1 ≤ 2
unfolding handle_discovery_result clear_presence
handle_discovery_result-few now removed_at result p = ground arith

-- Whatever the backend observes, at whatever times, the events that the debounce pushes follow
-- the protocol and lead to the tag and the session number that the worker holds.
pub handle_discovery_result-follow :
    (now removed_at : ℕ) (result : DiscoveryPollResult) (p : Presence)
    → let r = handle_discovery_result now removed_at result p in
      follow_all (view p) r.1 ≡ some (view r.0)
unfolding handle_discovery_result clear_presence
handle_discovery_result-follow now removed_at result p = ground arith
