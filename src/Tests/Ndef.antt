-- ===== src/Tests/Ndef.antt =====
-- NDEF messages, texts and tags.
use cap_cc1101_nfc.Base.{
  ℕ, ◌≡◌, refl, ap, List, [], ◌∷◌, true, false, Bytes, codes, IsByte, All, arith, ◌↔◌,
}
use cap_cc1101_nfc.Types.{NdefRecord, NdefRecordKind, text, same_tag_snapshot}
use cap_cc1101_nfc.Types.Identity.{same_tag_snapshot_iff}
use cap_cc1101_nfc.Ndef.Result.{ok}
use cap_cc1101_nfc.Ndef.Utf8.{is_valid_utf8}
use cap_cc1101_nfc.Ndef.Utf8.Scalars.{IsScalar, encode}
use cap_cc1101_nfc.Ndef.Utf8.Exact.{is_valid_utf8_iff}
use cap_cc1101_nfc.Ndef.Decode.{decode_record, decode_text, record_type_text}
use cap_cc1101_nfc.Ndef.Decode.Known.{decode_record-Holds, Holds}
use cap_cc1101_nfc.Ndef.Parser.{parse_ndef_message}
use cap_cc1101_nfc.Ndef.Format.{Wire, IsWire, write_all, decode_all}
use cap_cc1101_nfc.Ndef.RoundTrip.{parse-write_all}
use cap_cc1101_nfc.Ndef.Sound.{parse_sound}
use cap_cc1101_nfc.Backend.Mock.{make_text_tag, make_uri_tag}

-- A text in English and a record of an unknown type.
abbrev greeting : Bytes
greeting = 2 ∷ codes "enHi"

abbrev greeting_wire : Wire
greeting_wire = record {
  short = true;
  has_id = false;
  tnf = 1;
  type = codes "T";
  id = [];
  payload = greeting;
}

abbrev blob_wire : Wire
blob_wire = record {
  short = false;
  has_id = true;
  tnf = 5;
  type = [];
  id = 7 ∷ [];
  payload = 1 ∷ 2 ∷ [];
}

greeting_wire-IsWire : IsWire greeting_wire
greeting_wire-IsWire = ground arith

blob_wire-IsWire : IsWire blob_wire
blob_wire-IsWire = ground arith

wires-IsWire : All IsWire (greeting_wire ∷ blob_wire ∷ [])
wires-IsWire = (greeting_wire-IsWire, (blob_wire-IsWire, tt))

abbrev greeting_record : NdefRecord
greeting_record = record {
  kind = text;
  type = record_type_text;
  value = codes "Hi";
  payload = greeting;
}

abbrev blob_record : NdefRecord
blob_record = record { kind = NdefRecordKind.unknown; type = []; value = []; payload = 1 ∷ 2 ∷ [] }

wires-decode : decode_all (greeting_wire ∷ blob_wire ∷ []) ≡ ok (greeting_record ∷ blob_record ∷ [])
unfolding decode_record decode_text is_valid_utf8
wires-decode = refl

abbrev message : Bytes
message = write_all true (greeting_wire ∷ blob_wire ∷ [])

parse-write_all_example :
    parse_ndef_message message
    ≡ record { success = true; error = ""; records = greeting_record ∷ blob_record ∷ [] }
parse-write_all_example = parse-write_all greeting_wire (blob_wire ∷ []) wires-IsWire wires-decode

message-All : All IsByte message
message-All = ground arith

message-success : (parse_ndef_message message).success ≡ true
message-success =
    ap (λ r. r.success) (parse-write_all greeting_wire (blob_wire ∷ []) wires-IsWire wires-decode)

parse_sound_example :
    (w : Wire) × (ws : List Wire) × All IsWire (w ∷ ws)
    × (message ≡ write_all true (w ∷ ws))
    × (decode_all (w ∷ ws) ≡ ok (parse_ndef_message message).records)
parse_sound_example = parse_sound message message-All message-success

is_valid_utf8_iff_example :
    (is_valid_utf8 (0xE2 ∷ 0x82 ∷ 0xAC ∷ []) ≡ true)
    ↔ ((cs : List ℕ) × All IsScalar cs × (encode cs ≡ 0xE2 ∷ 0x82 ∷ 0xAC ∷ []))
is_valid_utf8_iff_example = is_valid_utf8_iff (0xE2 ∷ 0x82 ∷ 0xAC ∷ []) (ground arith)

greeting-decode : decode_record 1 (codes "T") greeting ≡ ok greeting_record
unfolding decode_record decode_text is_valid_utf8
greeting-decode = refl

decode_record-Holds_example :
    (greeting_record.payload ≡ greeting)
    × Holds 1 (codes "T") greeting greeting_record greeting_record.kind
decode_record-Holds_example = decode_record-Holds 1 (codes "T") greeting greeting-decode

same_tag_snapshot_iff_example :
    (same_tag_snapshot make_text_tag make_uri_tag ≡ true) ↔ (make_text_tag ≡ make_uri_tag)
same_tag_snapshot_iff_example = same_tag_snapshot_iff make_text_tag make_uri_tag
