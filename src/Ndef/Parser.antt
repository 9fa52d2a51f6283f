-- ===== src/Ndef/Parser.antt =====
-- parseNdefMessage of src/nfc/ndef_parser.cpp.
use cap_cc1101_nfc.Base.{
  ℕ, zero, suc, ◌-◌, String, Bool, true, false, not, ◌&&◌, ◌||◌, List, [], ◌∷◌, ◌++◌, Bytes, length,
  leb, ltb, ◌==◌, ◌!=◌, if◌then◌else◌, bit_and, u64_mod, Option, none, some, take,
}
use cap_cc1101_nfc.Types.{NdefRecord}
use cap_cc1101_nfc.Ndef.Result.{Result, ok, err, ◌>>=◌, ◌>>◌, reject_if, or_fail}
use cap_cc1101_nfc.Ndef.Cursor.{read_byte, read_big_endian_uint32, read_bytes}
use cap_cc1101_nfc.Ndef.Decode.{
  decode_record, tnf_empty, tnf_well_known, tnf_external, tnf_unknown, tnf_unchanged, tnf_reserved,
}

pub record NdefParseResult : Type 0 where
  pub success : Bool
  pub error : String
  pub records : List NdefRecord

abbrev pub failure : String → NdefParseResult
failure message = record { success = false; error = message; records = [] }

-- One record as its header describes it, and the cursor behind it.
pub record Frame : Type 0 where
  pub record_end : Bool
  pub tnf : ℕ
  pub type : Bytes
  pub id : Bytes
  pub payload : Bytes
  pub cursor : Bytes

-- `a != b` on flags.
abbrev pub differ : Bool → Bool → Bool
differ true b = not b
differ false b = b

abbrev pub flag : ℕ → ℕ → Bool
flag header mask = bit_and header mask != 0

-- The tests of the header byte.
unfoldable pub check_header : Bool → ℕ → Result (Unit {0})
check_header first_record header = do
  reject_if (differ first_record (flag header 0x80)) (
      if first_record
      then "First NDEF record is missing MB"
      else "NDEF record after the first record sets MB")
  reject_if (flag header 0x20) "Chunked NDEF records are not supported"
  reject_if (bit_and header 0x07 == tnf_unchanged)
      "TNF Unchanged is only valid in chunked NDEF records"
  reject_if (bit_and header 0x07 == tnf_reserved) "NDEF record uses reserved TNF"

unfoldable pub read_payload_length : Bool → Bytes → Result (ℕ × Bytes)
read_payload_length short_record cursor =
    if short_record
    then or_fail (read_byte cursor) "Short NDEF record is missing its payload length"
    else or_fail (read_big_endian_uint32 cursor) "NDEF record has a truncated 32-bit payload length"

unfoldable pub read_id_length : Bool → Bytes → Result (ℕ × Bytes)
read_id_length has_id_length cursor =
    if has_id_length
    then or_fail (read_byte cursor) "NDEF record is missing its ID length"
    else ok (0, cursor)

-- The tests of the lengths that were read.
unfoldable pub check_lengths : ℕ → ℕ → ℕ → ℕ → Result (Unit {0})
check_lengths tnf type_length id_length payload_length = do
  reject_if (ltb (u64_mod - 1) payload_length) "NDEF payload length is unsupported on this platform"
  reject_if (tnf == tnf_empty && (type_length != 0 || id_length != 0 || payload_length != 0))
      "TNF Empty record contains a type, ID, or payload"
  reject_if (leb tnf_well_known tnf && leb tnf tnf_external && type_length == 0)
      "Typed NDEF record has an empty type"
  reject_if (tnf == tnf_unknown && type_length != 0) "TNF Unknown record contains a type"

-- The body of the loop up to the three reads of bytes.
unfoldable pub read_frame : Bool → Bytes → Result Frame
read_frame first_record cursor = do
  (header, cursor) ← or_fail (read_byte cursor) "NDEF record header is truncated"
  check_header first_record header
  (type_length, cursor) ← or_fail (read_byte cursor) "NDEF record is missing its type length"
  (payload_length, cursor) ← read_payload_length (flag header 0x10) cursor
  (id_length, cursor) ← read_id_length (flag header 0x08) cursor
  check_lengths (bit_and header 0x07) type_length id_length payload_length
  (type, cursor) ←
      or_fail (read_bytes type_length cursor) "NDEF record type exceeds the message boundary"
  (id, cursor) ← or_fail (read_bytes id_length cursor) "NDEF record ID exceeds the message boundary"
  (payload, cursor) ←
      or_fail (read_bytes payload_length cursor) "NDEF record payload exceeds the message boundary"
  ok (record {
    record_end = flag header 0x40;
    tnf = bit_and header 0x07;
    type = type;
    id = id;
    payload = payload;
    cursor = cursor;
  })

-- The loop. Each round reads a byte, so the size of the message is fuel enough; the message of
-- the clause without fuel is never seen.
unfoldable pub parse_loop : ℕ → Bool → Bool → List NdefRecord → Bytes → Result (List NdefRecord)
parse_loop fuel first_record message_end records [] =
    if not message_end then err "NDEF message is missing its ME record" else ok records
parse_loop zero first_record message_end records (b ∷ cursor) = err "out of fuel"
parse_loop (suc fuel) first_record message_end records (b ∷ cursor) = do
  reject_if message_end "NDEF message contains data after its ME record"
  frame ← read_frame first_record (b ∷ cursor)
  decoded ← decode_record frame.tnf frame.type frame.payload
  parse_loop fuel false frame.record_end (records ++ (decoded ∷ [])) frame.cursor

abbrev pub to_parse_result : Result (List NdefRecord) → NdefParseResult
to_parse_result (ok records) = record { success = true; error = ""; records = records }
to_parse_result (err message) = failure message

-- The overload on a pointer, `none` if it is null, with the number of bytes behind it.
unfoldable pub parse_ndef_buffer : Option Bytes → ℕ → NdefParseResult
parse_ndef_buffer none size =
    if size == 0 then failure "NDEF message is empty" else failure "NDEF message data is null"
parse_ndef_buffer (some bytes) size =
    if size == 0
    then failure "NDEF message is empty"
    else to_parse_result (parse_loop size true false [] (take size bytes))

-- The overload on a vector.
unfoldable pub parse_ndef_message : Bytes → NdefParseResult
unfolding parse_ndef_buffer
parse_ndef_message message = parse_ndef_buffer (some message) (length message)
