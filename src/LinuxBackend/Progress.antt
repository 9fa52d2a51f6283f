-- ===== src/LinuxBackend/Progress.antt =====
-- When the arbiter leaves NFC-F for NFC-A.
use cap_cc1101_nfc.Base.{
  ℕ, zero, suc, ◌+◌, ◌≤◌, ◌≡◌, refl, sym, subst, ap, ◌∙◌, arith, Bool, true, false, not,
  if◌then◌else◌,
}
use cap_cc1101_nfc.Types.{no_observation, no_tag, tag, DiscoveryPollResult, Outcome, returned}
use cap_cc1101_nfc.LinuxBackend.{
  DiscoveryProtocol, LockedProtocol, Arbiter, fresh, lock_protocol, nothing, follow_poll,
  fallback_to_a, poll_locked, poll_second, after_first, poll_free, arbitrate,
}

module _ {W : Type 0} (poll : DiscoveryProtocol → W → W × Outcome DiscoveryPollResult) where
  -- The members and the surroundings after so many polls.
  abbrev pub rounds : ℕ → Arbiter → W → Arbiter × W
  rounds zero a w = (a, w)
  rounds (suc n) a w = let r = arbitrate poll a w in rounds n r.0 r.1

  -- The surroundings after so many polls of NFC-F alone.
  abbrev pub f_polls : ℕ → W → W
  f_polls zero w = w
  f_polls (suc n) w = f_polls n (poll DiscoveryProtocol.nfc_f w).0

  -- NFC-F is polled first: it is locked, or nothing is and it is next.
  pub data Prefers : Arbiter → Type 0 where
    locked : (a : Arbiter) → a.locked_protocol ≡ LockedProtocol.nfc_f → Prefers a
    next :
        (a : Arbiter)
        → a.locked_protocol ≡ LockedProtocol.none
        → a.probe_protocol ≡ DiscoveryProtocol.nfc_f
        → Prefers a

  -- A lock on NFC-F with the counters that alternating answers leave.
  abbrev pub IsStuck : Bool → Arbiter → Type 0
  IsStuck noisy a =
      (a.locked_protocol ≡ LockedProtocol.nfc_f)
      × (if noisy
          then (a.nfc_f_inconclusive_count ≡ 0) × (a.locked_no_tag_count ≤ 1)
          else (a.nfc_f_inconclusive_count ≤ 1) × (a.locked_no_tag_count ≡ 0))

  noisy_step :
      (a : Arbiter) (w : W)
      → IsStuck true a
      → (poll DiscoveryProtocol.nfc_f w).1 ≡ returned (nothing no_observation)
      → IsStuck false (arbitrate poll a w).0
        × ((arbitrate poll a w).1 ≡ (poll DiscoveryProtocol.nfc_f w).0)
  unfolding arbitrate poll_locked follow_poll
  noisy_step a w stuck e = ground (arith, stuck, e)

  quiet_step :
      (a : Arbiter) (w : W)
      → IsStuck false a
      → (poll DiscoveryProtocol.nfc_f w).1 ≡ returned (nothing no_tag)
      → IsStuck true (arbitrate poll a w).0
        × ((arbitrate poll a w).1 ≡ (poll DiscoveryProtocol.nfc_f w).0)
  unfolding arbitrate poll_locked follow_poll
  quiet_step a w stuck e = ground (arith, stuck, e)

  arbitrate-IsStuck :
      (noisy : Bool) (a : Arbiter) (w : W)
      → IsStuck noisy a
      → (poll DiscoveryProtocol.nfc_f w).1
        ≡ returned (nothing (if noisy then no_observation else no_tag))
      → IsStuck (not noisy) (arbitrate poll a w).0
        × ((arbitrate poll a w).1 ≡ (poll DiscoveryProtocol.nfc_f w).0)
  arbitrate-IsStuck true a w stuck e = noisy_step a w stuck e
  arbitrate-IsStuck false a w stuck e = quiet_step a w stuck e

  -- Where the polls of NFC-F are incomplete and without a tag in turns, a lock on NFC-F whose
  -- counters fit that pattern is never given up, and NFC-A is never polled.
  pub rounds-IsStuck :
      (noisy : W → Bool)
      → ((w : W)
          → (poll DiscoveryProtocol.nfc_f w).1
            ≡ returned (nothing (if noisy w then no_observation else no_tag)))
      → ((w : W) → noisy (poll DiscoveryProtocol.nfc_f w).0 ≡ not (noisy w))
      → (n : ℕ) (a : Arbiter) (w : W) → IsStuck (noisy w) a
      → ((rounds n a w).0.locked_protocol ≡ LockedProtocol.nfc_f) × ((rounds n a w).1 ≡ f_polls n w)
  rounds-IsStuck noisy answers alternates zero a w stuck = (stuck.0, refl)
  rounds-IsStuck noisy answers alternates (suc n) a w stuck =
      let (stuck', moved) = arbitrate-IsStuck (noisy w) a w stuck (answers w) in
      let turned : noisy (arbitrate poll a w).1 ≡ not (noisy w) = ap noisy moved ∙ alternates w in
      let (kept, later) =
        rounds-IsStuck noisy answers alternates n (arbitrate poll a w).0 (arbitrate poll a w).1
          (subst (λ b. IsStuck b (arbitrate poll a w).0) (sym turned) stuck') in
      (kept, later ∙ ap (f_polls n) moved)

  noise_step :
      (a : Arbiter) (w : W)
      → Prefers a
      → a.nfc_f_inconclusive_count ≤ 1
      → (poll DiscoveryProtocol.nfc_f w).1 ≡ returned (nothing no_observation)
      → Prefers (arbitrate poll a w).0
        × ((arbitrate poll a w).0.nfc_f_inconclusive_count ≡ suc a.nfc_f_inconclusive_count)
  unfolding arbitrate poll_locked poll_free after_first follow_poll
  noise_step a w (locked _ l) few e =
      (locked _ (ground (arith, l, few, e)), ground (arith, l, few, e))
  noise_step a w (next _ l p) few e = (
    next _ (ground (arith, l, p, few, e)) (ground (arith, l, p, few, e)),
    ground (arith, l, p, few, e),
  )

  noise_end :
      (a : Arbiter) (w : W) (t : DiscoveryPollResult)
      → Prefers a
      → a.nfc_f_inconclusive_count ≡ 2
      → (poll DiscoveryProtocol.nfc_f w).1 ≡ returned (nothing no_observation)
      → ((w : W) → (poll DiscoveryProtocol.nfc_a w).1 ≡ returned t)
      → t.kind ≡ tag
      → ((arbitrate poll a w).0 ≡ lock_protocol DiscoveryProtocol.nfc_a)
        × ((arbitrate poll a w).2 ≡ returned t)
  unfolding arbitrate poll_locked poll_free after_first fallback_to_a follow_poll
  noise_end a w t (locked _ l) few e there found =
      ground (arith, l, few, e, there (poll DiscoveryProtocol.nfc_f w).0, found)
  noise_end a w t (next _ l p) few e there found =
      ground (arith, l, p, few, e, there (poll DiscoveryProtocol.nfc_f w).0, found)

  -- Where NFC-F is preferred and every poll of it is incomplete, while every poll of NFC-A answers
  -- with a tag, the third incomplete poll in a row is followed by one of NFC-A, whose tag is the
  -- answer and locks NFC-A. So many polls are ahead as the counter is short of two.
  pub noise-locks_a :
      (t : DiscoveryPollResult)
      → t.kind ≡ tag
      → ((w : W) → (poll DiscoveryProtocol.nfc_f w).1 ≡ returned (nothing no_observation))
      → ((w : W) → (poll DiscoveryProtocol.nfc_a w).1 ≡ returned t)
      → (n : ℕ) (a : Arbiter) (w : W) → Prefers a
      → a.nfc_f_inconclusive_count + n ≡ 2
      → let (b, v) = rounds n a w in
        ((arbitrate poll b v).0 ≡ lock_protocol DiscoveryProtocol.nfc_a)
        × ((arbitrate poll b v).2 ≡ returned t)
  noise-locks_a t found noise there zero a w prefers count =
      noise_end a w t prefers (omega (arith, count)) (noise w) there found
  noise-locks_a t found noise there (suc n) a w prefers count =
      let (prefers', counted) = noise_step a w prefers (omega (arith, count)) (noise w) in
      noise-locks_a t found noise there n (arbitrate poll a w).0 (arbitrate poll a w).1 prefers'
        (omega (arith, counted, count))

  -- From a fresh start, where no poll of NFC-F has an answer and every poll of NFC-A has a tag, the
  -- second poll answers with that tag and locks NFC-A.
  pub silence-locks_a :
      (t : DiscoveryPollResult)
      → t.kind ≡ tag
      → ((w : W) → (poll DiscoveryProtocol.nfc_f w).1 ≡ returned (nothing no_tag))
      → ((w : W) → (poll DiscoveryProtocol.nfc_a w).1 ≡ returned t)
      → (w : W)
      → let (b, v) = rounds 1 fresh w in
        ((arbitrate poll b v).0 ≡ lock_protocol DiscoveryProtocol.nfc_a)
        × ((arbitrate poll b v).2 ≡ returned t)
  unfolding arbitrate poll_free poll_second after_first follow_poll
  silence-locks_a t found silent there w =
      let v = (arbitrate poll fresh w).1 in
      ground (arith, silent w, silent v, there (poll DiscoveryProtocol.nfc_f v).0, found)
