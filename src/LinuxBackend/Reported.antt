-- ===== src/LinuxBackend/Reported.antt =====
-- What pollDiscovery reports.
use cap_cc1101_nfc.Base.{
  ◌≡◌, ◌⊎◌, inl, inr, refl, subst, arith, Bool-cases, if◌then◌else◌, Bool, true, false, length,
  some,
}
use cap_cc1101_nfc.Types.{
  TagTechnology, TagSnapshot, DiscoveryPollKind, no_observation, no_tag, tag, DiscoveryPollResult,
  Outcome, returned, cancelled, unavailable, failed,
}
use cap_cc1101_nfc.St25r3916.{NfcAPollResult, NfcFPollResult}
use cap_cc1101_nfc.St25r3916.Action.{Transport, Bus}
use cap_cc1101_nfc.St25r3916.Action.Rules.{Returns, Returns-after, Returns-pure}
use cap_cc1101_nfc.St25r3916.NfcA
use cap_cc1101_nfc.St25r3916.NfcF
use cap_cc1101_nfc.St25r3916.NfcA.{poll_nfc_a}
use cap_cc1101_nfc.St25r3916.NfcF.{poll_nfc_f}
use cap_cc1101_nfc.LinuxBackend.Polls.{
  LinuxNfcBackend, report_of_a, report_of_f, snapshot_of_a, snapshot_of_f, poll_a, poll_f,
  poll_protocol, require_open, scan, poll_discovery,
}
use cap_cc1101_nfc.LinuxBackend.{
  DiscoveryProtocol, LockedProtocol, Arbiter, nothing, Answer, follow_poll, fallback_to_a,
  poll_locked, poll_second, after_first, poll_free, arbitrate,
}

module _ {W : Type 0} (poll : DiscoveryProtocol → W → W × Outcome DiscoveryPollResult)
    (P : DiscoveryPollResult → Type 0)
    (polls : (protocol : DiscoveryProtocol) (w : W) (r : DiscoveryPollResult)
      → (poll protocol w).1 ≡ returned r
      → P r)
    (quiet : P (nothing no_tag)) (unclear : P (nothing no_observation)) where
  Answers : Answer W → Type 0
  Answers x = (r : DiscoveryPollResult) → x.2 ≡ returned r → P r

  followed :
      (a : Arbiter) (next : DiscoveryPollResult → W → Answer W) (protocol : DiscoveryProtocol)
      (p : W × Outcome DiscoveryPollResult)
      → ((r : DiscoveryPollResult) → p.1 ≡ returned r → P r)
      → ((r : DiscoveryPollResult) (w : W) → P r → Answers (next r w))
      → Answers (follow_poll a next p)
  unfolding Answers follow_poll
  followed a next protocol (w, returned q) h g r e = g q w (h q refl) r e
  followed a next protocol (w, cancelled) h g r e = cc
  followed a next protocol (w, unavailable message) h g r e = cc
  followed a next protocol (w, failed message) h g r e = cc

  answered : (a : Arbiter) (w : W) (r : DiscoveryPollResult) → P r → Answers (a, w, returned r)
  unfolding Answers
  answered a w r p q e = subst P (cc) p

  by_kind :
      (kind : DiscoveryPollKind) (x y z : Answer W)
      → Answers x
      → Answers y
      → Answers z
      → Answers (elim kind [ no_observation ↦ x | no_tag ↦ y | tag ↦ z ])
  by_kind no_observation x y z p q r = p
  by_kind no_tag x y z p q r = q
  by_kind tag x y z p q r = r

  by_test : (b : Bool) (x y : Answer W) → Answers x → Answers y → Answers (if b then x else y)
  by_test true x y p q = p
  by_test false x y p q = q

  fallback-Answers : (a : Arbiter) (w : W) → Answers (fallback_to_a poll a w)
  unfolding fallback_to_a
  fallback-Answers a w =
      followed a _ DiscoveryProtocol.nfc_a (poll DiscoveryProtocol.nfc_a w)
        (polls DiscoveryProtocol.nfc_a w)
        (λ r w p. by_kind r.kind _ _ _ (answered _ w r p) (answered _ w r p) (answered _ w r p))

  without_tag : (b : Bool) → P (nothing (if b then no_observation else no_tag))
  without_tag true = unclear
  without_tag false = quiet

  second-Answers :
      (second : DiscoveryProtocol) (kind : DiscoveryPollKind) (a : Arbiter) (w : W)
      → Answers (poll_second poll second kind a w)
  unfolding poll_second
  second-Answers second kind a w = followed a _ second (poll second w) (polls second w) (λ r w p.
      by_kind r.kind _ _ _ (answered _ w _ (without_tag _)) (answered _ w _ (without_tag _))
        (answered _ w r p))

  first-Answers :
      (first : DiscoveryProtocol) (a : Arbiter) (r : DiscoveryPollResult) (w : W)
      → P r
      → Answers (after_first poll first a r w)
  unfolding after_first
  first-Answers DiscoveryProtocol.nfc_a a r w p =
      by_kind r.kind _ _ _ (second-Answers _ _ a w) (second-Answers _ _ a w) (answered _ w r p)
  first-Answers DiscoveryProtocol.nfc_f a r w p =
      by_kind r.kind _ _ _ (search (by_test, fallback-Answers, answered))
        (search (by_test, second-Answers, answered)) (search answered)

  locked-Answers :
      (protocol : DiscoveryProtocol) (a : Arbiter) (w : W) → Answers (poll_locked poll protocol a w)
  unfolding poll_locked
  locked-Answers DiscoveryProtocol.nfc_a a w =
      followed a _ DiscoveryProtocol.nfc_a (poll DiscoveryProtocol.nfc_a w)
        (polls DiscoveryProtocol.nfc_a w)
        (λ r w p.
          by_kind r.kind _ _ _ (search answered) (search (by_test, answered)) (search answered))
  locked-Answers DiscoveryProtocol.nfc_f a w =
      followed a _ DiscoveryProtocol.nfc_f (poll DiscoveryProtocol.nfc_f w)
        (polls DiscoveryProtocol.nfc_f w)
        (λ r w p.
          by_kind r.kind _ _ _ (search (by_test, fallback-Answers, answered))
            (search (by_test, answered)) (search answered))

  by_lock :
      (lock : LockedProtocol) (x y z : Answer W)
      → Answers x
      → Answers y
      → Answers z
      → Answers (elim lock [
        | LockedProtocol.none ↦ x
        | LockedProtocol.nfc_f ↦ y
        | LockedProtocol.nfc_a ↦ z
      ])
  by_lock LockedProtocol.none x y z p q r = p
  by_lock LockedProtocol.nfc_f x y z p q r = q
  by_lock LockedProtocol.nfc_a x y z p q r = r

  arbitrated : (a : Arbiter) (w : W) → Answers (arbitrate poll a w)
  unfolding arbitrate poll_free
  arbitrated a w =
      by_lock a.locked_protocol _ _ _
        (followed a _ a.probe_protocol (poll a.probe_protocol w) (polls a.probe_protocol w)
          (λ r w p. first-Answers a.probe_protocol a r w p))
        (locked-Answers DiscoveryProtocol.nfc_f a w) (locked-Answers DiscoveryProtocol.nfc_a a w)

  pub arbitrate-Answers :
      (a : Arbiter) (w : W) (r : DiscoveryPollResult) → (arbitrate poll a w).2 ≡ returned r → P r
  unfolding Answers
  arbitrate-Answers a w r e = arbitrated a w r e

-- A report without a tag, or one of a tag with the UID of its technology: four, seven or ten bytes
-- of NFC-A, eight bytes of NFC-F.
pub data IsReported : DiscoveryPollResult → Type 0 where
  found_a :
      (t : TagSnapshot)
      → t.technology ≡ TagTechnology.nfc_a
      → (length t.uid ≡ 4) ⊎ (length t.uid ≡ 7) ⊎ (length t.uid ≡ 10)
      → IsReported record { kind = tag; tag = some t }
  found_f :
      (t : TagSnapshot)
      → t.technology ≡ TagTechnology.nfc_f
      → length t.uid ≡ 8
      → IsReported record { kind = tag; tag = some t }
  no_tag_found : IsReported (nothing no_tag)
  nothing_observed : IsReported (nothing no_observation)

snapshot_a :
    (observed : NfcAPollResult) → NfcA.Result.IsAnswer observed → IsReported (report_of_a observed)
snapshot_a observed (NfcA.Result.found t selected) = found_a (snapshot_of_a t) refl selected.0
snapshot_a observed NfcA.Result.absent = no_tag_found
snapshot_a observed NfcA.Result.unclear = nothing_observed

snapshot_f :
    (observed : NfcFPollResult)
    → NfcF.Response.IsAnswer observed
    → IsReported (report_of_f observed)
snapshot_f observed (NfcF.Response.found t idm pmm) = found_f (snapshot_of_f t) refl idm
snapshot_f observed NfcF.Response.nothing = no_tag_found
snapshot_f observed NfcF.Response.unclear = nothing_observed

module _ {T : Transport} where
  poll_protocol-IsReported :
      (protocol : DiscoveryProtocol) → Returns {T = T} IsReported (poll_protocol protocol)
  unfolding poll_protocol poll_a poll_f
  poll_protocol-IsReported DiscoveryProtocol.nfc_a =
      Returns-after IsReported NfcA.Result.IsAnswer poll_nfc_a _
        (record { run = NfcA.Result.poll_nfc_a-IsAnswer })
        (λ observed answer.
          Returns-pure IsReported (report_of_a observed) (snapshot_a observed answer))
  poll_protocol-IsReported DiscoveryProtocol.nfc_f =
      Returns-after IsReported NfcF.Response.IsAnswer poll_nfc_f _
        (record { run = NfcF.Response.poll_nfc_f-IsAnswer })
        (λ observed answer.
          Returns-pure IsReported (report_of_f observed) (snapshot_f observed answer))

  arbitrate-IsReported :
      (a : Arbiter) (bus : Bus T) (r : DiscoveryPollResult)
      → (arbitrate poll_protocol a bus).2 ≡ returned r
      → IsReported r
  arbitrate-IsReported a bus r e =
      arbitrate-Answers poll_protocol IsReported
        (λ protocol bus r e. (poll_protocol-IsReported protocol).run bus r e) no_tag_found
        nothing_observed a bus r e

  scan-IsReported :
      (s : LinuxNfcBackend T) (p : Bus T × Outcome (Unit {0})) (r : DiscoveryPollResult)
      → (scan s p).1 ≡ returned r
      → IsReported r
  unfolding scan
  scan-IsReported s (bus, returned a) r e = elim (Bool-cases s.scanning) [
    | inl on ↦ arbitrate-IsReported s.arbiter bus r (ground (arith, on, e))
    | inr off ↦ subst IsReported (ground (arith, off, e)) nothing_observed
  ]
  scan-IsReported s (bus, cancelled) r e = cc
  scan-IsReported s (bus, unavailable message) r e = cc
  scan-IsReported s (bus, failed message) r e = cc

  -- Whatever the reader is doing and whatever its transport answers, a result that pollDiscovery
  -- returns has no tag, or an NFC-A tag with a UID of four, seven or ten bytes, or an NFC-F tag with
  -- one of eight bytes.
  pub poll_discovery-IsReported :
      (s : LinuxNfcBackend T) (r : DiscoveryPollResult)
      → (poll_discovery s).1 ≡ returned r
      → IsReported r
  unfolding poll_discovery
  poll_discovery-IsReported s r e = scan-IsReported s (require_open s.opened s.bus) r e
