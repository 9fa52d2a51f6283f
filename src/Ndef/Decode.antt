-- ===== src/Ndef/Decode.antt =====
-- kUriPrefixes and decodeRecord of src/nfc/ndef_parser.cpp.
pub mod Known
use cap_cc1101_nfc.Base.{
  ℕ, ◌-◌, String, Bool, ◌&&◌, List, [], ◌∷◌, ◌++◌, Bytes, length, get_or, drop, codes, ltb, ◌==◌,
  ◌!=◌, if◌then◌else◌, bit_and,
}
use cap_cc1101_nfc.Types.{NdefRecord, NdefRecordKind, text, uri, mime}
use cap_cc1101_nfc.Ndef.Result.{Result, ok, err}
use cap_cc1101_nfc.Ndef.Utf8.{is_valid_utf8}

abbrev pub tnf_empty : ℕ
tnf_empty = 0x00

abbrev pub tnf_well_known : ℕ
tnf_well_known = 0x01

abbrev pub tnf_mime : ℕ
tnf_mime = 0x02

abbrev pub tnf_external : ℕ
tnf_external = 0x04

abbrev pub tnf_unknown : ℕ
tnf_unknown = 0x05

abbrev pub tnf_unchanged : ℕ
tnf_unchanged = 0x06

abbrev pub tnf_reserved : ℕ
tnf_reserved = 0x07

abbrev pub uri_prefixes : List String
uri_prefixes =
    "" ∷ "http://www." ∷ "https://www." ∷ "http://" ∷ "https://" ∷ "tel:" ∷ "mailto:"
    ∷ "ftp://anonymous:anonymous@" ∷ "ftp://ftp." ∷ "ftps://" ∷ "sftp://" ∷ "smb://" ∷ "nfs://"
    ∷ "ftp://" ∷ "dav://" ∷ "news:" ∷ "telnet://" ∷ "imap:" ∷ "rtsp://" ∷ "urn:" ∷ "pop:" ∷ "sip:"
    ∷ "sips:" ∷ "tftp:" ∷ "btspp://" ∷ "btl2cap://" ∷ "btgoep://" ∷ "tcpobex://" ∷ "irdaobex://"
    ∷ "file://" ∷ "urn:epc:id:" ∷ "urn:epc:tag:" ∷ "urn:epc:pat:" ∷ "urn:epc:raw:" ∷ "urn:epc:"
    ∷ "urn:nfc:" ∷ []

-- The prefix of an identifier code; a code behind the table has none.
unfoldable pub uri_prefix : ℕ → Bytes
uri_prefix identifier = codes (get_or uri_prefixes identifier "")

-- The record before its type is known to be decoded.
abbrev pub raw_record : Bytes → Bytes → NdefRecord
raw_record type payload = record {
  kind = NdefRecordKind.unknown;
  type = type;
  value = [];
  payload = payload;
}

abbrev pub record_type_text : Bytes
record_type_text = codes "text/plain"

abbrev pub record_type_uri : Bytes
record_type_uri = codes "text/uri-list"

-- The branch of a well-known record of type `T`.
unfoldable pub decode_text : Bytes → Bytes → Result NdefRecord
decode_text type [] = err "NDEF Text record has no status byte"
decode_text type (status ∷ rest) =
    if bit_and status 0x40 != 0
    then err "NDEF Text record uses the reserved status bit"
    else if ltb (length rest) language_length
    then err "NDEF Text record language code exceeds its payload"
    else if bit_and status 0x80 != 0
    then ok (raw_record type (status ∷ rest))
    else if is_valid_utf8 body
    then ok (record { kind = text; type = record_type_text; value = body; payload = status ∷ rest })
    else err "NDEF Text record contains invalid UTF-8"
  where
    language_length : ℕ
    language_length = bit_and status 0x3F

    body : Bytes
    body = drop language_length rest

-- The branch of a well-known record of type `U`.
unfoldable pub decode_uri : Bytes → Result NdefRecord
decode_uri [] = err "NDEF URI record has no identifier code"
decode_uri (identifier ∷ rest) = ok (record {
  kind = uri;
  type = record_type_uri;
  value = uri_prefix identifier ++ rest;
  payload = identifier ∷ rest;
})

unfoldable pub decode_record : ℕ → Bytes → Bytes → Result NdefRecord
decode_record tnf type payload =
    if tnf == tnf_well_known && length type == 1 && get_or type 0 0 == b'T'
    then decode_text type payload
    else if tnf == tnf_well_known && length type == 1 && get_or type 0 0 == b'U'
    then decode_uri payload
    else if tnf == tnf_mime
    then ok (record { kind = mime; type = type; value = payload; payload = payload })
    else ok (raw_record type payload)
