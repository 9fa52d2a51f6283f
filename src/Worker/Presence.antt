-- ===== src/Worker/Presence.antt =====
-- The debounce of NfcWorker: handleDiscoveryResult and clearPresence. Both return the events that
-- they push, in order. `now` and `removed_at` are the two readings of the monotonic clock that one
-- call may make.
pub mod Session
pub mod Debounce
use cap_cc1101_nfc.Base.{
  ℕ, Bool, true, false, ◌&&◌, List, [], ◌∷◌, ◌++◌, Option, none, some, leb, ltb, ◌==◌, ◌!=◌, inc64,
  sub64, if◌then◌else◌,
}
use cap_cc1101_nfc.Types.{
  TagSnapshot, NfcEvent, tag_presented, tag_updated, tag_removed, DiscoveryPollKind, no_observation,
  no_tag, DiscoveryPollResult, same_tag_identity, same_tag_snapshot,
}

abbrev pub present_confirmations : ℕ
present_confirmations = 2

abbrev pub remove_confirmations : ℕ
remove_confirmations = 3

abbrev pub remove_debounce_ms : ℕ
remove_debounce_ms = 160

pub record Presence : Type 0 where
  pub present_tag : Option TagSnapshot
  pub candidate_tag : Option TagSnapshot
  pub candidate_confirmations : ℕ
  pub explicit_no_tag_count : ℕ
  pub active_session_id : ℕ
  pub next_session_id : ℕ
  pub first_explicit_no_tag_ms : ℕ
  pub last_present_observation_ms : ℕ

abbrev pub Emits : Type 0
Emits = Presence × List NfcEvent

-- The fields as clearPresence leaves them.
abbrev pub forget : Presence → Presence
forget p = record p {
  present_tag = none;
  candidate_tag = none;
  candidate_confirmations = 0;
  explicit_no_tag_count = 0;
  active_session_id = 0;
  first_explicit_no_tag_ms = 0;
  last_present_observation_ms = 0;
}

removal : Bool → ℕ → Presence → Option TagSnapshot → List NfcEvent
removal true removed_at p (some snapshot) =
    let last_seen =
      if p.last_present_observation_ms != 0 then p.last_present_observation_ms else removed_at in
    tag_removed p.active_session_id removed_at last_seen snapshot ∷ []
removal _ removed_at p _ = []

unfoldable pub clear_presence : Bool → ℕ → Presence → Emits
unfolding removal
clear_presence emit_removal removed_at p =
    (forget p, removal emit_removal removed_at p p.present_tag)

abbrev pub reset_no_tag : Presence → Presence
reset_no_tag p = record p { explicit_no_tag_count = 0; first_explicit_no_tag_ms = 0 }

abbrev pub reset_candidate : Presence → Presence
reset_candidate p = record p { candidate_tag = none; candidate_confirmations = 0 }

-- DiscoveryPollKind::NoTag, while a tag is present and while none is.
count_no_tag : ℕ → ℕ → Presence → Option TagSnapshot → Emits
count_no_tag now removed_at p none = (p, [])
count_no_tag now removed_at p (some snapshot) =
    let first = if p.explicit_no_tag_count == 0 then now else p.first_explicit_no_tag_ms in
    let count = inc64 p.explicit_no_tag_count in
    let q = record p { first_explicit_no_tag_ms = first; explicit_no_tag_count = count } in
    if leb remove_confirmations count && leb remove_debounce_ms (sub64 now first)
    then clear_presence true removed_at q
    else (q, [])

abbrev pub matches : Option TagSnapshot → TagSnapshot → Bool
matches none observed = false
matches (some candidate) observed = same_tag_identity candidate observed

-- The candidate after one more observation.
confirm : TagSnapshot → Presence → Presence
confirm observed p =
    if matches p.candidate_tag observed
    then record p {
      candidate_tag = some observed;
      candidate_confirmations = inc64 p.candidate_confirmations;
    }
    else record p { candidate_tag = some observed; candidate_confirmations = 1 }

-- A new session over a confirmed tag.
open_session : ℕ → TagSnapshot → Presence → Emits
open_session now snapshot p = (
  record p {
    present_tag = some snapshot;
    active_session_id = p.next_session_id;
    next_session_id = inc64 p.next_session_id;
    last_present_observation_ms = now;
  },
  tag_presented p.next_session_id now snapshot ∷ [],
)

-- The tag in the field is the present one.
observe_same : ℕ → TagSnapshot → TagSnapshot → Presence → Emits
observe_same now present observed p =
    let q = record (reset_candidate p) { last_present_observation_ms = now } in
    if same_tag_snapshot present observed then (q, []) else (
      record q { present_tag = some observed },
      tag_updated p.active_session_id now observed ∷ [],
    )

-- Another tag than the present one. `confirm` leaves `observed` as the candidate.
observe_other : ℕ → ℕ → TagSnapshot → Presence → Emits
unfolding confirm open_session
observe_other now removed_at observed p =
    let q = confirm observed p in
    if ltb q.candidate_confirmations present_confirmations
    then (q, [])
    else let (cleared, removed) = clear_presence true removed_at q in
      let (opened, presented) = open_session now observed cleared in (opened, removed ++ presented)

-- A tag while none is present.
observe_new : ℕ → TagSnapshot → Presence → Emits
unfolding confirm open_session
observe_new now observed p =
    let q = confirm observed p in
    if ltb q.candidate_confirmations present_confirmations
    then (q, [])
    else let (opened, presented) = open_session now observed q in
      (reset_candidate opened, presented)

observe_tag : ℕ → ℕ → TagSnapshot → Presence → Option TagSnapshot → Emits
unfolding observe_same observe_other observe_new
observe_tag now removed_at observed p none = observe_new now observed p
observe_tag now removed_at observed p (some present) =
    if same_tag_identity present observed
    then observe_same now present observed p
    else observe_other now removed_at observed p

handle_kind : ℕ → ℕ → DiscoveryPollKind → Option TagSnapshot → Presence → Emits
unfolding count_no_tag observe_tag
handle_kind now removed_at no_observation tag p = (reset_no_tag p, [])
handle_kind now removed_at no_tag tag p =
    count_no_tag now removed_at (reset_candidate p) p.present_tag
handle_kind now removed_at DiscoveryPollKind.tag none p = (reset_no_tag p, [])
handle_kind now removed_at DiscoveryPollKind.tag (some observed) p =
    observe_tag now removed_at observed (reset_no_tag p) p.present_tag

unfoldable pub handle_discovery_result : ℕ → ℕ → DiscoveryPollResult → Presence → Emits
unfolding handle_kind
handle_discovery_result now removed_at result p =
    handle_kind now removed_at result.kind result.tag p
