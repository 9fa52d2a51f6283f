-- ===== src/St25r3916/NfcA/Result.antt =====
-- What pollNfcA answers.
use cap_cc1101_nfc.Base.{
  ℕ, zero, suc, ◌+◌, ◌*◌, ◌≤◌, ◌≡◌, ◌⊎◌, arith, true, false, Bytes, ◌++◌, length, length-append,
  length-take, length-drop, subst, sym, ap, ◌∙◌, drop, Option, none, some,
}
use cap_cc1101_nfc.Types.{returned}
use cap_cc1101_nfc.St25r3916.{NfcATag, NfcAPollResult, PollKind, WakeupResult, empty_tag}
use cap_cc1101_nfc.St25r3916.Action.{Transport, Bus, Action, pure}
use cap_cc1101_nfc.St25r3916.Action.Rules.{
  Returns, Returns-after, Returns-pure, returns, returns_when,
}
use cap_cc1101_nfc.St25r3916.Anticollision.{anticollision_level}
use cap_cc1101_nfc.St25r3916.Anticollision.Bounds.{HasFive, anticollision_level-HasFive}
use cap_cc1101_nfc.St25r3916.Exchange.{read_type2_block}
use cap_cc1101_nfc.St25r3916.Type2.{read_ndef, read_type2_ndef}
use cap_cc1101_nfc.St25r3916.NfcA.{
  type_name_for_sak, uid_part, is_cascade_tag, has_more_levels, is_inconsistent, from_cache,
  no_tag_result, inconclusive_result, protocol_failure, describe_tag, complete_tag, cascade,
  after_wakeup, poll_nfc_a,
}

-- A tag of the same identity, SAK and type name.
abbrev IsSameTag : NfcATag → NfcATag → Type 0
IsSameTag a b = (b.uid ≡ a.uid) × (b.sak ≡ a.sak) × (b.type_name ≡ a.type_name)

-- A tag that was selected to its last level: a UID of one of the three lengths, a SAK without the
-- bit for a further level, and the type name of that SAK.
abbrev pub IsSelected : NfcATag → Type 0
IsSelected t =
    ((length t.uid ≡ 4) ⊎ (length t.uid ≡ 7) ⊎ (length t.uid ≡ 10))
    × (has_more_levels t.sak ≡ false)
    × (t.type_name ≡ type_name_for_sak t.sak)

-- A result names a tag exactly if it is there, and that tag was selected to its last level.
pub data IsAnswer : NfcAPollResult → Type 0 where
  found : (t : NfcATag) → IsSelected t → IsAnswer record { kind = PollKind.tag; tag = some t }
  absent : IsAnswer no_tag_result
  unclear : IsAnswer inconclusive_result

from_cache-IsSameTag :
    (cached : Option NfcATag) (tag known : NfcATag)
    → from_cache cached tag ≡ some known
    → IsSameTag tag known
from_cache-IsSameTag none tag known e = cc
from_cache-IsSameTag (some cached) tag known e = ground arith

-- The bytes of a level's part of the UID.
uid_part-cascade :
    (answer : Bytes)
    → length answer ≡ 5
    → is_cascade_tag answer ≡ true
    → length (uid_part answer) ≡ 3
uid_part-cascade answer five cascading =
    ground (arith, length-take 3 (drop 1 answer), length-drop 1 answer)

uid_part-last :
    (answer : Bytes)
    → length answer ≡ 5
    → is_cascade_tag answer ≡ false
    → length (uid_part answer) ≡ 4
uid_part-last answer five last = ground (arith, length-take 4 answer)

same-IsSelected :
    (selected tag : NfcATag)
    → (length selected.uid ≡ 4) ⊎ (length selected.uid ≡ 7) ⊎ (length selected.uid ≡ 10)
    → has_more_levels selected.sak ≡ false
    → IsSameTag (record selected { type_name = type_name_for_sak selected.sak }) tag
    → IsSelected tag
same-IsSelected selected tag sizes last (uid, sak, name) = (
  subst (λ u. (length u ≡ 4) ⊎ (length u ≡ 7) ⊎ (length u ≡ 10)) (sym uid) sizes,
  subst (λ k. has_more_levels k ≡ false) (sym sak) last,
  name ∙ ap type_name_for_sak (sym sak),
)

HasFive-some : (o : Option Bytes) (answer : Bytes) → HasFive o → o ≡ some answer → length answer ≡ 5
HasFive-some none answer five e = cc
HasFive-some (some bytes) answer five e = ground (arith, five, e)

consistent_cascade :
    (answer : Bytes) (sak : ℕ)
    → is_inconsistent answer sak ≡ false
    → is_cascade_tag answer ≡ has_more_levels sak
consistent_cascade answer sak consistent = ground arith

-- The UID behind a level: the last one, and one with a further level.
last_level :
    (level sak : ℕ) (uid answer : Bytes)
    → (1 ≤ level) × (level ≤ 3)
    → length uid + 3 ≡ 3 * level
    → length answer ≡ 5
    → is_inconsistent answer sak ≡ false
    → has_more_levels sak ≡ false
    → let seen = length (uid ++ uid_part answer) in (seen ≡ 4) ⊎ (seen ≡ 7) ⊎ (seen ≡ 10)
last_level level sak uid answer bounds size five consistent last = ground (
  arith,
  length-append uid (uid_part answer),
  uid_part-last answer five (consistent_cascade answer sak consistent ∙ last),
)

further_level :
    (level sak : ℕ) (uid answer : Bytes)
    → length uid + 3 ≡ 3 * level
    → length answer ≡ 5
    → is_inconsistent answer sak ≡ false
    → has_more_levels sak ≡ true
    → length (uid ++ uid_part answer) + 3 ≡ 3 * suc level
further_level level sak uid answer size five consistent more = omega (
  arith,
  length-append uid (uid_part answer),
  uid_part-cascade answer five (consistent_cascade answer sak consistent ∙ more),
)

module _ {T : Transport} where
  read_ndef-IsSameTag :
      (read_block : ℕ → Action T (Option Bytes)) (tag : NfcATag)
      → Returns {T = T} (λ r. IsSameTag tag r.0) (read_ndef read_block tag)
  unfolding read_ndef
  read_ndef-IsSameTag read_block tag = search returns depth 10

  read_type2_ndef-IsSameTag :
      (tag : NfcATag) → Returns {T = T} (λ r. IsSameTag tag r.0) (read_type2_ndef tag)
  unfolding read_type2_ndef
  read_type2_ndef-IsSameTag tag = read_ndef-IsSameTag read_type2_block tag

  describe_tag-IsSameTag : (tag : NfcATag) → Returns {T = T} (IsSameTag tag) (describe_tag tag)
  unfolding describe_tag
  describe_tag-IsSameTag tag =
      let read =
        Returns-after {T = T} (IsSameTag tag) (λ r. IsSameTag tag r.0) (read_type2_ndef tag)
          (λ r. pure r.0) (read_type2_ndef-IsSameTag tag)
          (λ r same. Returns-pure (IsSameTag tag) r.0 same) in
      search (returns, from_cache-IsSameTag)

  complete_tag-IsAnswer :
      (selected : NfcATag)
      → (length selected.uid ≡ 4) ⊎ (length selected.uid ≡ 7) ⊎ (length selected.uid ≡ 10)
      → has_more_levels selected.sak ≡ false
      → Returns {T = T} IsAnswer (complete_tag selected)
  unfolding complete_tag
  complete_tag-IsAnswer selected sizes last =
      let named = record selected { type_name = type_name_for_sak selected.sak } in
      let described =
        λ (f : NfcATag → Action T NfcAPollResult)
            (g : (tag : NfcATag) → IsSameTag named tag → Returns IsAnswer (f tag)).
          Returns-after {T = T} IsAnswer (IsSameTag named) (describe_tag named) f
            (describe_tag-IsSameTag named) g in
      let answer = λ (tag : NfcATag) (same : IsSameTag named tag).
        found tag (same-IsSelected selected tag sizes last same) in
      search returns

  protocol_failure-IsAnswer : Returns {T = T} IsAnswer protocol_failure
  unfolding protocol_failure
  protocol_failure-IsAnswer = search (returns, unclear)

  cascade-IsAnswer :
      (left level : ℕ) (tag : NfcATag)
      → left + level ≡ 4
      → length tag.uid + 3 ≡ 3 * level
      → Returns {T = T} IsAnswer (cascade left level tag)
  unfolding cascade
  cascade-IsAnswer zero level tag levels size = search protocol_failure-IsAnswer
  cascade-IsAnswer (suc left) level tag levels size =
      let reached =
        λ (f : Option Bytes → Action T NfcAPollResult)
            (g : (o : Option Bytes) → HasFive o → Returns IsAnswer (f o)).
          Returns-after {T = T} IsAnswer HasFive (anticollision_level level) f
            (anticollision_level-HasFive level) g in
      let final =
        λ (answer : Bytes) (sak : ℕ) (five : length answer ≡ 5)
            (consistent : is_inconsistent answer sak ≡ false) (last : has_more_levels sak ≡ false).
          complete_tag-IsAnswer (record tag { uid = tag.uid ++ uid_part answer; sak = sak })
            (last_level level sak tag.uid answer
              (omega (arith, levels, size), omega (arith, levels)) size five consistent last)
            last in
      let again =
        λ (answer : Bytes) (sak : ℕ) (five : length answer ≡ 5)
            (consistent : is_inconsistent answer sak ≡ false) (more : has_more_levels sak ≡ true).
          cascade-IsAnswer left (suc level)
            (record tag { uid = tag.uid ++ uid_part answer; sak = sak }) (omega (arith, levels))
            (further_level level sak tag.uid answer size five consistent more) in
      search (returns_when, protocol_failure-IsAnswer, HasFive-some) depth 12

  after_wakeup-IsAnswer :
      (woken : WakeupResult) (atqa : Bytes) → Returns {T = T} IsAnswer (after_wakeup woken atqa)
  unfolding after_wakeup
  after_wakeup-IsAnswer WakeupResult.no_tag atqa = search (returns, absent)
  after_wakeup-IsAnswer WakeupResult.inconclusive atqa = search (returns, unclear)
  after_wakeup-IsAnswer WakeupResult.response atqa =
      let first =
        cascade-IsAnswer 3 1 (record empty_tag { atqa = atqa }) (omega arith) (omega arith) in
      search returns

  poll-IsAnswer : Returns {T = T} IsAnswer poll_nfc_a
  unfolding poll_nfc_a
  poll-IsAnswer = search (returns, after_wakeup-IsAnswer) depth 10

  -- Whatever the transport answers, a result that pollNfcA returns names a tag exactly if it holds
  -- one. That tag has a UID of four, seven or ten bytes, a SAK that announces no further level, and
  -- the type name of that SAK.
  pub poll_nfc_a-IsAnswer :
      (s : Bus T) (result : NfcAPollResult) → (poll_nfc_a s).1 ≡ returned result → IsAnswer result
  poll_nfc_a-IsAnswer s result e = poll-IsAnswer.run s result e
