-- ===== src/Worker/Presence/Debounce.antt =====
-- How many observations, over how long, the debounce asks for, against the history of the polls.
use cap_cc1101_nfc.Base.{
  ℕ, suc, length, ◌≤◌, ◌<◌, ◌≡◌, ◌≢◌, ◌↔◌, Bool, true, List, [], ◌∷◌, Option, none, some, ◌==◌,
  if◌then◌else◌, arith, u64_mod, sub64,
}
use cap_cc1101_nfc.Types.{
  TagSnapshot, DiscoveryPollKind, no_observation, no_tag, DiscoveryPollResult,
}
use cap_cc1101_nfc.Worker.Presence.{
  Presence, clear_presence, handle_discovery_result, forget, matches, remove_debounce_ms,
}

-- What holds between two calls: a candidate waits for its second observation, absent tags are not
-- counted while no tag is present, and no session is active then.
pub record IsSettled (p : Presence) : Type 0 where
  pub no_candidate : p.candidate_tag ≡ none → p.candidate_confirmations ≡ 0
  pub one_candidate : p.candidate_tag ≢ none → p.candidate_confirmations ≡ 1
  pub not_counting : p.present_tag ≡ none → p.explicit_no_tag_count ≡ 0
  pub not_active : p.present_tag ≡ none → p.active_session_id ≡ 0

pub clear_presence-IsSettled :
    (emit : Bool) (removed_at : ℕ) (p : Presence) → IsSettled (clear_presence emit removed_at p).0
unfolding clear_presence
clear_presence-IsSettled emit removed_at p = ground arith

-- Every discovery result keeps the debounce well-formed.
pub handle_discovery_result-IsSettled :
    (now removed_at : ℕ) (result : DiscoveryPollResult) (p : Presence)
    → IsSettled p
    → IsSettled (handle_discovery_result now removed_at result p).0
unfolding handle_discovery_result clear_presence
handle_discovery_result-IsSettled now removed_at result p v = ground arith

-- A poll: its result and the two readings of the clock.
pub record Poll : Type 0 where
  pub now : ℕ
  pub removed_at : ℕ
  pub result : DiscoveryPollResult

abbrev pub handle : Poll → Presence → Presence
handle x p = (handle_discovery_result x.now x.removed_at x.result p).0

-- The debounce after polls, the latest of them first.
abbrev pub handle_all : List Poll → Presence → Presence
handle_all [] p = p
handle_all (x ∷ earlier) p = handle x (handle_all earlier p)

abbrev pub seen_in :
    DiscoveryPollKind → Option TagSnapshot → Option TagSnapshot → Option TagSnapshot
seen_in no_observation tag before = before
seen_in no_tag tag before = none
seen_in DiscoveryPollKind.tag none before = before
seen_in DiscoveryPollKind.tag (some observed) before = some observed

-- The tag that was observed last, unless the field was found empty since.
abbrev pub last_seen : List Poll → Option TagSnapshot
last_seen [] = none
last_seen (x ∷ earlier) = seen_in x.result.kind x.result.tag (last_seen earlier)

abbrev pub absent_in : DiscoveryPollKind → ℕ → ℕ
absent_in no_tag before = suc before
absent_in _ before = 0

-- How many of the latest polls, without a gap, found the field empty.
abbrev pub absences : List Poll → ℕ
absences [] = 0
absences (x ∷ earlier) = absent_in x.result.kind (absences earlier)

-- When the first of them was.
abbrev pub absent_since : List Poll → ℕ
absent_since [] = 0
absent_since (x ∷ earlier) = if absences earlier == 0 then x.now else absent_since earlier

-- The debounce's members against the history.
record Tracks (seen : Option TagSnapshot) (absent since : ℕ) (p : Presence) : Type 0 where
  pub settled : IsSettled p
  pub candidate : p.present_tag ≡ none → p.candidate_tag ≡ seen
  pub count : p.present_tag ≢ none → p.explicit_no_tag_count ≡ absent
  pub first : p.present_tag ≢ none → 1 ≤ absent → p.first_explicit_no_tag_ms ≡ since

handle-Tracks :
    (seen : Option TagSnapshot) (absent since now removed_at : ℕ) (kind : DiscoveryPollKind)
    (tag : Option TagSnapshot) (p : Presence)
    → suc absent < u64_mod
    → Tracks seen absent since p
    → Tracks
        (seen_in kind tag seen)
        (absent_in kind absent)
        (if absent == 0 then now else since)
        (handle_discovery_result now removed_at (record { kind = kind; tag = tag }) p).0
unfolding handle_discovery_result clear_presence
handle-Tracks seen absent since now removed_at no_observation tag p b t = ground arith
handle-Tracks seen absent since now removed_at no_tag tag p b t = ground arith
handle-Tracks seen absent since now removed_at DiscoveryPollKind.tag none p b t = ground arith
handle-Tracks seen absent since now removed_at DiscoveryPollKind.tag (some o) p b t = ground arith

absences-length : (history : List Poll) → absences history ≤ length history
absences-length [] = omega arith
absences-length (x ∷ earlier) = ground (arith, absences-length earlier)

handle_all-Tracks :
    (history : List Poll) (p : Presence)
    → length history < u64_mod
    → Tracks
        (last_seen history)
        (absences history)
        (absent_since history)
        (handle_all history (forget p))
handle_all-Tracks [] p b = ground arith
handle_all-Tracks (x ∷ earlier) p b =
    handle-Tracks _ _ _ x.now x.removed_at x.result.kind x.result.tag _
      (omega (arith, b, absences-length earlier)) (handle_all-Tracks earlier p (omega (arith, b)))

handle-presented :
    (x : Poll) (p : Presence) (t : TagSnapshot) (seen : Option TagSnapshot)
    → IsSettled p
    → p.present_tag ≡ none
    → p.candidate_tag ≡ seen
    → ((handle x p).present_tag ≡ some t) ↔ (
        (x.result.kind ≡ DiscoveryPollKind.tag) × (x.result.tag ≡ some t) × (matches seen t ≡ true))
unfolding handle_discovery_result clear_presence
handle-presented x p t seen v h e = ground arith

handle-removed :
    (x : Poll) (p : Presence) (absent since : ℕ)
    → suc absent < u64_mod
    → p.present_tag ≢ none
    → p.explicit_no_tag_count ≡ absent
    → (1 ≤ absent → p.first_explicit_no_tag_ms ≡ since)
    → ((handle x p).present_tag ≡ none)
      ↔ ((x.result.kind ≡ no_tag) × (2 ≤ absent) × (remove_debounce_ms ≤ sub64 x.now since))
unfolding handle_discovery_result clear_presence
handle-removed x p absent since b h c f = ground arith

-- After any polls since the last clearPresence, with no tag present: the next poll presents a tag
-- exactly if it observes it and the tag that was observed last before it, with no poll that found
-- the field empty between the two, has the same identity.
pub presented_iff :
    (history : List Poll) (x : Poll) (p : Presence) (t : TagSnapshot)
    → length history < u64_mod
    → (handle_all history (forget p)).present_tag ≡ none
    → ((handle_all (x ∷ history) (forget p)).present_tag ≡ some t) ↔ (
        (x.result.kind ≡ DiscoveryPollKind.tag)
        × (x.result.tag ≡ some t)
        × (matches (last_seen history) t ≡ true))
presented_iff history x p t b h =
    let tracks = handle_all-Tracks history p b in
    handle-presented x (handle_all history (forget p)) t (last_seen history) tracks.settled h
      (tracks.candidate h)

-- After any polls since the last clearPresence, with a tag present: the next poll leaves no tag
-- exactly if it finds the field empty, at least the two polls before it did so without a gap, and
-- the first of those was at least 160 ms earlier.
pub removed_iff :
    (history : List Poll) (x : Poll) (p : Presence)
    → suc (length history) < u64_mod
    → (handle_all history (forget p)).present_tag ≢ none
    → ((handle_all (x ∷ history) (forget p)).present_tag ≡ none) ↔ (
        (x.result.kind ≡ no_tag)
        × (2 ≤ absences history)
        × (remove_debounce_ms ≤ sub64 x.now (absent_since history)))
removed_iff history x p b h =
    let tracks = handle_all-Tracks history p (omega (arith, b)) in
    handle-removed x (handle_all history (forget p)) (absences history) (absent_since history)
      (omega (arith, b, absences-length history)) h (tracks.count h) (tracks.first h)
