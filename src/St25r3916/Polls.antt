-- ===== src/St25r3916/Polls.antt =====
-- No poll changes whether the driver is initialized and whether discovery is active.
pub mod Exchanges
pub mod NfcF
use cap_cc1101_nfc.Base.{ℕ, zero, suc, Bool, true, false, Bytes, List, [], ◌∷◌, Option, none, some}
use cap_cc1101_nfc.St25r3916.{Driver, NfcATag, ActiveProtocol, nfc_a, nfc_f, WakeupResult}
use cap_cc1101_nfc.St25r3916.Action.{Transport, Action}
use cap_cc1101_nfc.St25r3916.Action.Rules.{Keeps, Keeps-modify}
use cap_cc1101_nfc.St25r3916.Field.Frame.{field_keeps}
use cap_cc1101_nfc.St25r3916.NfcA.{
  protocol_failure, describe_tag, complete_tag, cascade, switch_to_nfc_a, reset_field_if_required,
  after_wakeup, require_discovery, poll_nfc_a,
}
use cap_cc1101_nfc.St25r3916.Polls.Exchanges.{
  IsFixed, request_wakeup-Keeps, select_level-Keeps, halt_selected_tag-Keeps,
  anticollision_level-Keeps, read_type2_ndef-Keeps,
}

module _ {T : Transport} {ready discovering : Bool} where
  protocol_failure-Keeps : Keeps {T = T} (IsFixed ready discovering) protocol_failure
  unfolding protocol_failure
  protocol_failure-Keeps = search (field_keeps, Keeps-modify)

  describe_tag-Keeps :
      (tag : NfcATag) → Keeps {T = T} (IsFixed ready discovering) (describe_tag tag)
  unfolding describe_tag
  describe_tag-Keeps tag = search (field_keeps, read_type2_ndef-Keeps)

  complete_tag-Keeps :
      (tag : NfcATag) → Keeps {T = T} (IsFixed ready discovering) (complete_tag tag)
  unfolding complete_tag
  complete_tag-Keeps tag =
      search (field_keeps, Keeps-modify, describe_tag-Keeps, halt_selected_tag-Keeps)

  cascade-Keeps :
      (left level : ℕ) (tag : NfcATag)
      → Keeps {T = T} (IsFixed ready discovering) (cascade left level tag)
  unfolding cascade
  cascade-Keeps zero level tag = search protocol_failure-Keeps
  cascade-Keeps (suc left) level tag =
      let kept = λ (tag : NfcATag). cascade-Keeps left (suc level) tag in
      search
        (
          field_keeps, protocol_failure-Keeps, complete_tag-Keeps, anticollision_level-Keeps,
          select_level-Keeps,
        )
        depth 20

  after_wakeup-Keeps :
      (woken : WakeupResult) (atqa : Bytes)
      → Keeps {T = T} (IsFixed ready discovering) (after_wakeup woken atqa)
  unfolding after_wakeup
  after_wakeup-Keeps WakeupResult.no_tag atqa = search (field_keeps, Keeps-modify)
  after_wakeup-Keeps WakeupResult.inconclusive atqa = search (field_keeps, Keeps-modify)
  after_wakeup-Keeps WakeupResult.response atqa = search (field_keeps, Keeps-modify, cascade-Keeps)

  switch_to_nfc_a-Keeps : Keeps {T = T} (IsFixed ready discovering) switch_to_nfc_a
  unfolding switch_to_nfc_a
  switch_to_nfc_a-Keeps = search (field_keeps, Keeps-modify)

  pub reset_field_if_required-Keeps :
      (reset_field : Action T (Unit {0}))
      → Keeps (IsFixed ready discovering) reset_field
      → Keeps {T = T} (IsFixed ready discovering) (reset_field_if_required reset_field)
  unfolding reset_field_if_required
  reset_field_if_required-Keeps reset_field kept = search (field_keeps, Keeps-modify)

  pub poll_nfc_a-Keeps : Keeps {T = T} (IsFixed ready discovering) poll_nfc_a
  unfolding poll_nfc_a
  poll_nfc_a-Keeps =
      search
        (
          field_keeps, switch_to_nfc_a-Keeps, reset_field_if_required-Keeps, request_wakeup-Keeps,
          after_wakeup-Keeps,
        )
        depth 10
