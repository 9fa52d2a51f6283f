-- ===== src/Ndef/Format.antt =====
-- The NDEF message format, written down as a printer with no reference to the parser, and that
-- parseNdefMessage reads back what it prints.
use cap_cc1101_nfc.Base.{
  ℕ, ◌+◌, ◌≤◌, ◌<◌, ◌≡◌, ◌≢◌, Bool, true, false, List, [], ◌∷◌, ◌++◌, Bytes, length, IsByte,
  if◌then◌else◌, bit_and, arith, bit_and_0x80, bit_and_0x40, bit_and_0x20, bit_and_0x10,
  bit_and_0x08, bit_and_0x07,
}
use cap_cc1101_nfc.Types.{NdefRecord}
use cap_cc1101_nfc.Ndef.Result.{Result, ok, ◌>>=◌, or_fail}
use cap_cc1101_nfc.Ndef.Cursor.{
  read_byte, big_endian32, read_bytes-append, read_big_endian_uint32-append,
}
use cap_cc1101_nfc.Ndef.Decode.{decode_record}
use cap_cc1101_nfc.Ndef.Parser.{
  Frame, flag, check_header, read_payload_length, read_id_length, check_lengths, read_frame,
}

-- A record on the wire: which of the two length forms it takes, and whether it has an ID field.
pub record Wire : Type 0 where
  pub short : Bool
  pub has_id : Bool
  pub tnf : ℕ
  pub type : Bytes
  pub id : Bytes
  pub payload : Bytes

pub record IsWire (w : Wire) : Type 0 where
  pub tnf_bound : w.tnf < 6
  pub type_bound : length w.type < 256
  pub id_bound : length w.id < 256
  pub id_absent : w.has_id ≡ false → w.id ≡ []
  pub payload_bound : length w.payload < 0x1_0000_0000
  pub short_bound : w.short ≡ true → length w.payload < 256
  pub empty_tnf : w.tnf ≡ 0 → (length w.type ≡ 0) × (length w.id ≡ 0) × (length w.payload ≡ 0)
  pub typed_tnf : 1 ≤ w.tnf → w.tnf ≤ 4 → length w.type ≢ 0
  pub unknown_tnf : w.tnf ≡ 5 → length w.type ≡ 0

abbrev pub bit : Bool → ℕ → ℕ
bit b n = if b then n else 0

-- MB, ME, SR, IL and the type name format.
abbrev pub header : Bool → Bool → Wire → ℕ
header first last w = bit first 128 + bit last 64 + bit w.short 16 + bit w.has_id 8 + w.tnf

abbrev pub payload_length : Wire → Bytes → Bytes
payload_length w rest =
    if w.short then length w.payload ∷ rest else big_endian32 (length w.payload) ++ rest

abbrev pub id_length : Wire → Bytes → Bytes
id_length w rest = if w.has_id then length w.id ∷ rest else rest

-- A record in front of what follows it.
abbrev pub write : Bool → Bool → Wire → Bytes → Bytes
write first last w rest =
    header first last w
    ∷ length w.type
    ∷ payload_length w (id_length w (w.type ++ (w.id ++ (w.payload ++ rest))))

abbrev pub is_nil : List Wire → Bool
is_nil [] = true
is_nil (w ∷ ws) = false

-- A message, or the records behind the first.
abbrev pub write_all : Bool → List Wire → Bytes
write_all first [] = []
write_all first (w ∷ ws) = write first (is_nil ws) w (write_all false ws)

abbrev pub decode_all : List Wire → Result (List NdefRecord)
decode_all [] = ok []
decode_all (w ∷ ws) =
    decode_record w.tnf w.type w.payload >>= λ r. decode_all ws >>= λ rs. ok (r ∷ rs)

abbrev pub frame_of : Bool → Wire → Bytes → Frame
frame_of last w rest = record {
  record_end = last;
  tnf = w.tnf;
  type = w.type;
  id = w.id;
  payload = w.payload;
  cursor = rest;
}

module _ (first last : Bool) (w : Wire) (v : IsWire w) where
  header-IsByte : IsByte (header first last w)
  header-IsByte = ground arith

  header_tnf : bit_and (header first last w) 0x07 ≡ w.tnf
  header_tnf = ground (arith, bit_and_0x07 (header first last w) header-IsByte)

  header_first : flag (header first last w) 0x80 ≡ first
  header_first = ground (arith, bit_and_0x80 (header first last w) header-IsByte)

  header_last : flag (header first last w) 0x40 ≡ last
  header_last = ground (arith, bit_and_0x40 (header first last w) header-IsByte)

  header_chunked : flag (header first last w) 0x20 ≡ false
  header_chunked = ground (arith, bit_and_0x20 (header first last w) header-IsByte)

  header_short : flag (header first last w) 0x10 ≡ w.short
  header_short = ground (arith, bit_and_0x10 (header first last w) header-IsByte)

  header_has_id : flag (header first last w) 0x08 ≡ w.has_id
  header_has_id = ground (arith, bit_and_0x08 (header first last w) header-IsByte)

  check_header_ok : check_header first (header first last w) ≡ ok tt
  unfolding check_header
  check_header_ok = ground (arith, header_first, header_chunked, header_tnf)

  check_lengths_ok : check_lengths w.tnf (length w.type) (length w.id) (length w.payload) ≡ ok tt
  unfolding check_lengths
  check_lengths_ok = ground arith

  read_payload_length-write :
      (rest : Bytes)
      → read_payload_length w.short (payload_length w rest) ≡ ok (length w.payload, rest)
  unfolding read_payload_length read_byte or_fail
  read_payload_length-write rest =
      ground (arith, read_big_endian_uint32-append (length w.payload) rest)

  read_id_length-write :
      (rest : Bytes) → read_id_length w.has_id (id_length w rest) ≡ ok (length w.id, rest)
  unfolding read_id_length read_byte or_fail
  read_id_length-write rest = ground arith

  pub read_frame-write :
      (rest : Bytes) → read_frame first (write first last w rest) ≡ ok (frame_of last w rest)
  unfolding read_frame read_byte or_fail
  read_frame-write rest = simp (
    check_header_ok, header_short, header_has_id, header_tnf, header_last,
    read_payload_length-write, read_id_length-write, check_lengths_ok, read_bytes-append,
  )
