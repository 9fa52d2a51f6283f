-- ===== src/St25r3916/NfcA.antt =====
-- pollNfcA of src/nfc/st25r3916_driver.cpp.
pub mod Result
use cap_cc1101_nfc.Base.{
  ℕ, zero, suc, ◌+◌, ◌-◌, ◌*◌, ◌/◌, ◌%◌, ◌≡◌, String, Bool, true, false, not, ◌&&◌, ◌||◌, ltb, leb,
  ◌==◌, ◌!=◌, if◌then◌else◌, bit_and, bit_or, bit_xor, Bytes, List, [], ◌∷◌, ◌++◌, length, get_or,
  take, drop, bytes_eq, inc64, Option, none, some,
}
use cap_cc1101_nfc.St25r3916.{
  Driver, NfcATag, empty_tag, PollKind, NfcAPollResult, ActiveProtocol, is_nfc_a, nfc_a, nfc_f,
  WakeupResult,
}
use cap_cc1101_nfc.St25r3916.Action.{
  on_value, Transport, Action, ◌>>=◌, ◌>>◌, pure, throw, gets, modify, throw_if_cancelled,
}
use cap_cc1101_nfc.St25r3916.Codes.{ndef_cache_removal_confirmations}
use cap_cc1101_nfc.St25r3916.Field.{configure_nfc_a, reset_nfc_a_field}
use cap_cc1101_nfc.St25r3916.Exchange.{request_wakeup, select_level, halt_selected_tag}
use cap_cc1101_nfc.St25r3916.Anticollision.{anticollision_level}
use cap_cc1101_nfc.St25r3916.Type2.{read_type2_ndef}

-- typeNameForSak
unfoldable pub type_name_for_sak : ℕ → String
type_name_for_sak sak =
    if sak == 0x00
    then "NFC Forum Type 2 / Ultralight-compatible"
    else if sak == 0x08 || sak == 0x28
    then "MIFARE Classic 1K-compatible"
    else if sak == 0x09
    then "MIFARE Classic Mini-compatible"
    else if sak == 0x18 || sak == 0x38
    then "MIFARE Classic 4K-compatible"
    else if bit_and sak 0x20 != 0
    then "NFC-A / ISO-DEP (Type 4-compatible)"
    else "NFC-A tag"

-- The exclusive or of the bytes, which is zero where the check byte is right.
abbrev pub bcc_from : ℕ → Bytes → ℕ
bcc_from bcc [] = bcc
bcc_from bcc (value ∷ values) = bcc_from (bit_xor bcc value) values

abbrev pub bcc : Bytes → ℕ
bcc = bcc_from 0

abbrev pub is_cascade_tag : Bytes → Bool
is_cascade_tag anticollision = get_or anticollision 0 0 == 0x88

-- The bytes of the UID that a level has.
abbrev pub uid_part : Bytes → Bytes
uid_part anticollision =
    if is_cascade_tag anticollision then take 3 (drop 1 anticollision) else take 4 anticollision

abbrev pub has_more_levels : ℕ → Bool
has_more_levels sak = bit_and sak 0x04 != 0

-- `cascadeTag != moreLevels`
abbrev pub is_inconsistent : Bytes → ℕ → Bool
is_inconsistent anticollision sak =
    if is_cascade_tag anticollision then not (has_more_levels sak) else has_more_levels sak

-- What was known of the tag, if it is the one that is cached.
abbrev pub from_cache : Option NfcATag → NfcATag → Option NfcATag
from_cache none tag = none
from_cache (some cached) tag =
    if bytes_eq cached.uid tag.uid
    then some (record tag {
      ndef_supported = cached.ndef_supported;
      ndef_readable = cached.ndef_readable;
      ndef_capacity = cached.ndef_capacity;
      ndef_message = cached.ndef_message;
    })
    else none

abbrev pub no_tag_result : NfcAPollResult
no_tag_result = record { kind = PollKind.no_tag; tag = none }

abbrev pub inconclusive_result : NfcAPollResult
inconclusive_result = record { kind = PollKind.inconclusive; tag = none }

-- The counter of polls without a tag, at whose third the cache is dropped.
abbrev pub count_no_tag : Driver → Driver
count_no_tag d =
    let polls = inc64 d.consecutive_no_tags in
    record d {
      consecutive_no_tags = polls;
      cached_tag = if leb ndef_cache_removal_confirmations polls then none else d.cached_tag;
    }

module _ {T : Transport} where
  -- protocolFailure
  unfoldable pub protocol_failure : Action T NfcAPollResult
  protocol_failure = do
    modify (λ d. record d { field_reset_required = true })
    pure inconclusive_result

  -- A tag with its last SAK, whose content is cached or read.
  unfoldable pub describe_tag : NfcATag → Action T NfcATag
  describe_tag tag = do
    cached ← gets (λ d. d.cached_tag)
    on_value (from_cache cached tag)
        (if tag.sak == 0x00 then (read_type2_ndef tag >>= λ read. pure read.0) else pure tag) pure

  unfoldable pub complete_tag : NfcATag → Action T NfcAPollResult
  complete_tag selected = do
    tag ← describe_tag (record selected { type_name = type_name_for_sak selected.sak })
    halted ← halt_selected_tag
    modify (λ d. record d {
      field_reset_required = if not halted then true else d.field_reset_required;
      failed_wakeups = 0;
      cached_tag = some tag;
    })
    pure (record { kind = PollKind.tag; tag = some tag })

  -- The loop over the cascade levels, of which so many are left with this one.
  unfoldable pub cascade : ℕ → ℕ → NfcATag → Action T NfcAPollResult
  cascade zero level tag = protocol_failure
  cascade (suc left) level tag = do
    answer ← anticollision_level level
    on_value answer protocol_failure (λ anticollision.
        if bcc anticollision != 0 then protocol_failure else do
          let seen = record tag { uid = tag.uid ++ uid_part anticollision }
          selected ← select_level level anticollision
          on_value selected protocol_failure (λ sak.
              if is_inconsistent anticollision sak
              then protocol_failure
              else if not (has_more_levels sak)
              then complete_tag (record seen { sak = sak })
              else if level == 3
              then protocol_failure
              else cascade left (suc level) (record seen { sak = sak })))

  -- The switch of the protocol in front of a poll.
  unfoldable pub switch_to_nfc_a : Action T (Unit {0})
  switch_to_nfc_a = do
    protocol ← gets (λ d. d.active_protocol)
    if is_nfc_a protocol then pure tt else do
      configure_nfc_a
      modify (λ d. record d {
        active_protocol = nfc_a;
        field_reset_required = false;
        failed_wakeups = 0;
        consecutive_no_tags = 0;
        consecutive_nfcf_no_tags = 0;
      })

  -- The reset of the field after an incomplete exchange, by what the protocol does for it.
  unfoldable pub reset_field_if_required : Action T (Unit {0}) → Action T (Unit {0})
  reset_field_if_required reset_field = do
    required ← gets (λ d. d.field_reset_required)
    if required
        then (reset_field >> modify (λ d. record d { field_reset_required = false }))
        else pure tt

  -- The switch on the answer of requestWakeup.
  unfoldable pub after_wakeup : WakeupResult → Bytes → Action T NfcAPollResult
  after_wakeup WakeupResult.no_tag atqa = modify count_no_tag >> pure no_tag_result
  after_wakeup WakeupResult.inconclusive atqa = do
    modify (λ d. record d { consecutive_no_tags = 0; field_reset_required = true })
    pure inconclusive_result
  after_wakeup WakeupResult.response atqa = do
    modify (λ d. record d { consecutive_no_tags = 0 })
    cascade 3 1 (record empty_tag { atqa = atqa })

  -- Both polls are refused unless discovery is active.
  abbrev pub require_discovery : String → Action T (Unit {0})
  require_discovery message = do
    active ← gets (λ d. d.ready && d.discovery_enabled)
    if active then pure tt else throw message

  unfoldable pub poll_nfc_a : Action T NfcAPollResult
  poll_nfc_a = do
    require_discovery "ST25R3916 NFC-A discovery is not active"
    throw_if_cancelled
    switch_to_nfc_a
    reset_field_if_required reset_nfc_a_field
    woken ← request_wakeup
    after_wakeup woken.0 woken.1
