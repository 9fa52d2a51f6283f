-- ===== src/LinuxBackend.antt =====
-- src/nfc/linux_nfc_backend.cpp: which protocol is polled, and what becomes of the answer. The polls
-- themselves are a parameter here.
pub mod Polls
pub mod Progress
pub mod Reported
pub mod Hardware
pub mod Board
pub mod Opening
pub mod Sleeping
pub mod Released
use cap_cc1101_nfc.Base.{ℕ, Bool, true, false, leb, if◌then◌else◌, inc64, Option, ◌||◌}
use cap_cc1101_nfc.Types.{
  DiscoveryPollKind, no_observation, no_tag, tag, DiscoveryPollResult, Outcome, returned, cancelled,
  unavailable, failed,
}

pub data DiscoveryProtocol : Type 0 where
  nfc_f nfc_a : DiscoveryProtocol

pub data LockedProtocol : Type 0 where
  none nfc_f nfc_a : LockedProtocol

abbrev pub locked_no_tag_threshold : ℕ
locked_no_tag_threshold = 3

abbrev pub nfc_f_clean_no_tag_threshold : ℕ
nfc_f_clean_no_tag_threshold = 2

abbrev pub nfc_f_inconclusive_fallback_threshold : ℕ
nfc_f_inconclusive_fallback_threshold = 3

-- The members of LinuxNfcBackend that pollDiscovery changes.
pub record Arbiter : Type 0 where
  pub probe_protocol : DiscoveryProtocol
  pub locked_protocol : LockedProtocol
  pub locked_no_tag_count : ℕ
  pub nfc_f_clean_no_tag_count : ℕ
  pub nfc_f_inconclusive_count : ℕ

-- As startDiscovery and stopDiscovery leave them.
abbrev pub fresh : Arbiter
fresh = record {
  probe_protocol = DiscoveryProtocol.nfc_f;
  locked_protocol = LockedProtocol.none;
  locked_no_tag_count = 0;
  nfc_f_clean_no_tag_count = 0;
  nfc_f_inconclusive_count = 0;
}

abbrev pub lock_of : DiscoveryProtocol → LockedProtocol
lock_of DiscoveryProtocol.nfc_f = LockedProtocol.nfc_f
lock_of DiscoveryProtocol.nfc_a = LockedProtocol.nfc_a

-- lockProtocol
abbrev pub lock_protocol : DiscoveryProtocol → Arbiter
lock_protocol protocol = record fresh {
  probe_protocol = protocol;
  locked_protocol = lock_of protocol;
}

-- The end of a probe that found nothing: the lock stays as it is.
abbrev pub probe_again : Arbiter → Arbiter
probe_again a = record fresh { locked_protocol = a.locked_protocol }

abbrev pub nothing : DiscoveryPollKind → DiscoveryPollResult
nothing kind = record { kind = kind; tag = Option.none }

abbrev pub is_no_observation : DiscoveryPollKind → Bool
is_no_observation no_observation = true
is_no_observation no_tag = false
is_no_observation tag = false

abbrev pub Answer : Type 0 → Type 0
Answer W = Arbiter × W × Outcome DiscoveryPollResult

module _ {W : Type 0} where
  -- What follows a poll that returned; an exception leaves the members as they are.
  unfoldable pub follow_poll :
      Arbiter → (DiscoveryPollResult → W → Answer W) → W × Outcome DiscoveryPollResult → Answer W
  follow_poll a next (w, returned r) = next r w
  follow_poll a next (w, cancelled) = (a, w, cancelled)
  follow_poll a next (w, unavailable message) = (a, w, unavailable message)
  follow_poll a next (w, failed message) = (a, w, failed message)

  module _ (poll : DiscoveryProtocol → W → W × Outcome DiscoveryPollResult) where
    -- fallbackToA
    unfoldable pub fallback_to_a : Arbiter → W → Answer W
    fallback_to_a a w =
        follow_poll a
          (λ r w. elim r.kind [
            | tag ↦ (lock_protocol DiscoveryProtocol.nfc_a, w, returned r)
            | _ ↦ (probe_again a, w, returned r)
          ])
          (poll DiscoveryProtocol.nfc_a w)

    -- The poll under a lock.
    unfoldable pub poll_locked : DiscoveryProtocol → Arbiter → W → Answer W
    poll_locked protocol a w =
        follow_poll a
          (λ r w. elim r.kind [
            | tag ↦
                let kept = record a {
                  locked_no_tag_count = 0;
                  nfc_f_clean_no_tag_count = 0;
                  nfc_f_inconclusive_count = 0;
                } in
                (kept, w, returned r)
            | no_observation ↦ locked_inconclusive protocol a r w
            | no_tag ↦
                let count = inc64 a.locked_no_tag_count in
                let counted = record a {
                  nfc_f_inconclusive_count = 0;
                  locked_no_tag_count = count;
                } in
                if leb locked_no_tag_threshold count
                then (fresh, w, returned r)
                else (counted, w, returned r)
          ])
          (poll protocol w)
      where
        locked_inconclusive : DiscoveryProtocol → Arbiter → DiscoveryPollResult → W → Answer W
        locked_inconclusive DiscoveryProtocol.nfc_a a r w =
            (record a { locked_no_tag_count = 0; nfc_f_clean_no_tag_count = 0 }, w, returned r)
        locked_inconclusive DiscoveryProtocol.nfc_f a r w =
            let count = inc64 a.nfc_f_inconclusive_count in
            let counted = record a {
              locked_no_tag_count = 0;
              nfc_f_clean_no_tag_count = 0;
              nfc_f_inconclusive_count = count;
            } in
            if leb nfc_f_inconclusive_fallback_threshold count
            then fallback_to_a (record counted { locked_protocol = LockedProtocol.none }) w
            else (counted, w, returned r)

    -- The second poll of a round without a lock, where the first one found nothing.
    unfoldable pub poll_second : DiscoveryProtocol → DiscoveryPollKind → Arbiter → W → Answer W
    poll_second second first_kind a w =
        follow_poll a
          (λ r w. elim r.kind [
            | tag ↦ (lock_protocol second, w, returned r)
            | _ ↦
                let kind =
                  if is_no_observation first_kind || is_no_observation r.kind
                  then no_observation
                  else no_tag in
                (probe_again a, w, returned (nothing kind))
          ])
          (poll second w)

    -- What follows the first poll of a round without a lock, by its protocol.
    unfoldable pub after_first : DiscoveryProtocol → Arbiter → DiscoveryPollResult → W → Answer W
    after_first DiscoveryProtocol.nfc_a a r w = elim r.kind [
      | tag ↦ (lock_protocol DiscoveryProtocol.nfc_a, w, returned r)
      | kind ↦ poll_second DiscoveryProtocol.nfc_f kind a w
    ]
    after_first DiscoveryProtocol.nfc_f a r w = elim r.kind [
      | tag ↦ (lock_protocol DiscoveryProtocol.nfc_f, w, returned r)
      | no_observation ↦
          let count = inc64 a.nfc_f_inconclusive_count in
          let counted = record a { nfc_f_inconclusive_count = count } in
          if leb nfc_f_inconclusive_fallback_threshold count then fallback_to_a counted w else (
            record counted {
              probe_protocol = DiscoveryProtocol.nfc_f;
              nfc_f_clean_no_tag_count = 0;
            },
            w,
            returned r,
          )
      | no_tag ↦
          let count = inc64 a.nfc_f_clean_no_tag_count in
          let counted = record a {
            nfc_f_inconclusive_count = 0;
            nfc_f_clean_no_tag_count = count;
          } in
          if leb nfc_f_clean_no_tag_threshold count
          then poll_second DiscoveryProtocol.nfc_a no_tag counted w
          else (counted, w, returned r)
    ]

    unfoldable pub poll_free : Arbiter → W → Answer W
    poll_free a w = follow_poll a (after_first a.probe_protocol a) (poll a.probe_protocol w)

    -- pollDiscovery of an open reader that scans.
    unfoldable pub arbitrate : Arbiter → W → Answer W
    arbitrate a w = elim a.locked_protocol [
      | LockedProtocol.none ↦ poll_free a w
      | LockedProtocol.nfc_f ↦ poll_locked DiscoveryProtocol.nfc_f a w
      | LockedProtocol.nfc_a ↦ poll_locked DiscoveryProtocol.nfc_a a w
    ]
