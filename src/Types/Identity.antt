-- ===== src/Types/Identity.antt =====
-- What the comparisons of src/nfc/nfc_types.cpp decide.
use package.text.Mathlib.TextEquality.{eq_iff}
use cap_cc1101_nfc.Base.{◌≡◌, ◌↔◌, Bool, true, List, [], ◌∷◌, arith, bytes_eq_iff, length}
use cap_cc1101_nfc.Types.{
  TagTechnology, NdefRecordKind, NdefRecord, TagSnapshot, technology_value, kind_value, bool_eq,
  same_record, same_records, same_tag_identity, same_tag_snapshot,
}

technology_value-injective : (a b : TagTechnology) → technology_value a ≡ technology_value b → a ≡ b
unfolding technology_value
technology_value-injective a b h = ground arith

kind_value-injective : (a b : NdefRecordKind) → kind_value a ≡ kind_value b → a ≡ b
unfolding kind_value
kind_value-injective a b h = ground arith

pub same_tag_identity_iff :
    (a b : TagSnapshot)
    → (same_tag_identity a b ≡ true) ↔ ((a.technology ≡ b.technology) × (a.uid ≡ b.uid))
unfolding same_tag_identity
same_tag_identity_iff a b =
    ground (arith, bytes_eq_iff a.uid b.uid, technology_value-injective a.technology b.technology)

same_record_iff : (a b : NdefRecord) → (same_record a b ≡ true) ↔ (a ≡ b)
unfolding same_record
same_record_iff a b = ground (
  arith,
  kind_value-injective a.kind b.kind,
  bytes_eq_iff a.type b.type,
  bytes_eq_iff a.value b.value,
  bytes_eq_iff a.payload b.payload,
)

same_records_iff :
    (xs ys : List NdefRecord) → length xs ≡ length ys → (same_records xs ys ≡ true) ↔ (xs ≡ ys)
unfolding same_records
same_records_iff [] [] h = ground arith
same_records_iff [] (y ∷ ys) h = absurd (omega arith)
same_records_iff (x ∷ xs) [] h = absurd (omega arith)
same_records_iff (x ∷ xs) (y ∷ ys) h =
    ground (arith, same_record_iff x y, same_records_iff xs ys (omega arith))

bool_eq_iff : (a b : Bool) → (bool_eq a b ≡ true) ↔ (a ≡ b)
unfolding bool_eq
bool_eq_iff a b = ground arith

-- `sameTagSnapshot` holds exactly of equal snapshots: no field is left out of the comparison.
pub same_tag_snapshot_iff : (a b : TagSnapshot) → (same_tag_snapshot a b ≡ true) ↔ (a ≡ b)
unfolding same_tag_snapshot
same_tag_snapshot_iff a b = ground (
  arith,
  same_tag_identity_iff a b,
  bytes_eq_iff a.atqa b.atqa,
  eq_iff a.type_name b.type_name,
  bool_eq_iff a.ndef_supported b.ndef_supported,
  bool_eq_iff a.ndef_readable b.ndef_readable,
  same_records_iff a.records b.records,
)
