-- ===== src/Ndef/Decode/Known.antt =====
-- What decodeRecord returns for the record types that it knows, and what it keeps of every record.
use cap_cc1101_nfc.Base.{
  ℕ, zero, suc, ◌<◌, ◌≤◌, refl, sym, ap, subst, ◌⊎◌, inl, inr, length-take, ◌≡◌, ◌≢◌, true, get_or,
  take, drop, bit_and, List, [], ◌∷◌, ◌++◌, Bytes, length, drop-length, length-append, All,
  bit_and_0x40, bit_and_0x80, bit_and_0x3F, codes, arith,
}
use cap_cc1101_nfc.Types.{NdefRecord, NdefRecordKind, text, uri, mime}
use cap_cc1101_nfc.Ndef.Result.{ok}
use cap_cc1101_nfc.Ndef.Utf8.{is_valid_utf8}
use cap_cc1101_nfc.Ndef.Utf8.Scalars.{IsScalar, encode}
use cap_cc1101_nfc.Ndef.Utf8.Exact.{is_valid_utf8-encode}
use cap_cc1101_nfc.Ndef.Decode.{
  raw_record, decode_record, decode_text, decode_uri, uri_prefix, uri_prefixes, record_type_text,
  record_type_uri, tnf_well_known, tnf_mime,
}

-- The text is what follows the language code.
pub decode_text-encode :
    (language : Bytes) (cs : List ℕ)
    → length language < 64
    → All IsScalar cs
    → let payload = length language ∷ (language ++ encode cs) in
      decode_record tnf_well_known (codes "T") payload
      ≡ ok (record { kind = text; type = record_type_text; value = encode cs; payload = payload })
unfolding decode_record decode_text
decode_text-encode language cs h v = ground (
  arith,
  bit_and_0x40 (length language) (omega arith),
  bit_and_0x80 (length language) (omega arith),
  bit_and_0x3F (length language) (omega arith),
  drop-length language (encode cs),
  length-append language (encode cs),
  is_valid_utf8-encode cs v,
)

-- What a decoded record holds, by its kind. A text's payload is a status byte with the length of the
-- language code and clear upper bits, that code and the text; a URI's is an identifier code and what
-- follows its prefix; a record that is left undecoded is of another type, or a text in UTF-16.
abbrev pub Holds : ℕ → Bytes → Bytes → NdefRecord → NdefRecordKind → Type 0
Holds tnf type payload r text =
    (r.type ≡ record_type_text)
    × (tnf ≡ tnf_well_known)
    × (type ≡ codes "T")
    × (is_valid_utf8 r.value ≡ true)
    × ((status : ℕ) × (language : Bytes) × (payload ≡ status ∷ (language ++ r.value))
        × (length language ≡ bit_and status 0x3F)
        × (bit_and status 0x40 ≡ 0)
        × (bit_and status 0x80 ≡ 0))
Holds tnf type payload r uri =
    (r.type ≡ record_type_uri)
    × (tnf ≡ tnf_well_known)
    × (type ≡ codes "U")
    × ((identifier : ℕ) × (rest : Bytes) × (payload ≡ identifier ∷ rest)
        × (r.value ≡ codes (get_or uri_prefixes identifier "") ++ rest))
Holds tnf type payload r mime = (r.type ≡ type) × (tnf ≡ tnf_mime) × (r.value ≡ payload)
Holds tnf type payload r NdefRecordKind.unknown =
    (r.type ≡ type)
    × (r.value ≡ [])
    × (tnf ≢ tnf_mime)
    × (tnf ≡ tnf_well_known → type ≢ codes "U")
    × (tnf ≡ tnf_well_known → type ≡ codes "T" → bit_and (get_or payload 0 0) 0x80 ≢ 0)

-- The text record of a body.
abbrev text_record : Bytes → Bytes → NdefRecord
text_record body payload = record {
  kind = text;
  type = record_type_text;
  value = body;
  payload = payload;
}

-- The two ways in which a record of type T decodes.
decode_text-cases :
    (type rest : Bytes) (status : ℕ) (r : NdefRecord)
    → decode_text type (status ∷ rest) ≡ ok r
    → (bit_and status 0x40 ≡ 0)
      × (bit_and status 0x3F ≤ length rest)
      × (((bit_and status 0x80 ≢ 0) × (r ≡ raw_record type (status ∷ rest)))
          ⊎ ((bit_and status 0x80 ≡ 0)
              × (is_valid_utf8 (drop (bit_and status 0x3F) rest) ≡ true)
              × (r ≡ text_record (drop (bit_and status 0x3F) rest) (status ∷ rest))))
unfolding decode_text
decode_text-cases type rest status r h = ground arith

take-drop : (n : ℕ) (xs : Bytes) → n ≤ length xs → xs ≡ take n xs ++ drop n xs
take-drop zero xs h = refl
take-drop (suc n) [] h = refl
take-drop (suc n) (x ∷ xs) h = ap (λ ys. x ∷ ys) (take-drop n xs (omega (arith, h)))

text-Holds :
    (type rest : Bytes) (status : ℕ) (r : NdefRecord)
    → type ≡ codes "T"
    → decode_text type (status ∷ rest) ≡ ok r
    → (r.payload ≡ status ∷ rest) × Holds tnf_well_known type (status ∷ rest) r r.kind
text-Holds type rest status r t h = by_cases (decode_text-cases type rest status r h)
  where
    Claim : NdefRecord → Type 0
    Claim r = (r.payload ≡ status ∷ rest) × Holds tnf_well_known type (status ∷ rest) r r.kind

    by_cases :
        (bit_and status 0x40 ≡ 0)
          × (bit_and status 0x3F ≤ length rest)
          × (((bit_and status 0x80 ≢ 0) × (r ≡ raw_record type (status ∷ rest)))
              ⊎ ((bit_and status 0x80 ≡ 0)
                  × (is_valid_utf8 (drop (bit_and status 0x3F) rest) ≡ true)
                  × (r ≡ text_record (drop (bit_and status 0x3F) rest) (status ∷ rest))))
        → (r.payload ≡ status ∷ rest) × Holds tnf_well_known type (status ∷ rest) r r.kind
    by_cases (a, b, inl (c, e)) =
        subst Claim (sym e)
          (refl, (refl, refl, ground arith, λ u v. ground (arith, v, t), λ u v. c))
    by_cases (a, b, inr (c, v, e)) = subst Claim (sym e) (
      refl,
      (
        refl,
        refl,
        t,
        v,
        (
          status,
          take (bit_and status 0x3F) rest,
          ap (λ ys. status ∷ ys) (take-drop (bit_and status 0x3F) rest b),
          omega (arith, length-take (bit_and status 0x3F) rest, b),
          a,
          c,
        ),
      ),
    )

decode_text-Holds :
    (type payload : Bytes) {r : NdefRecord}
    → type ≡ codes "T"
    → decode_text type payload ≡ ok r
    → (r.payload ≡ payload) × Holds tnf_well_known type payload r r.kind
unfolding decode_text
decode_text-Holds type [] t h = cc
decode_text-Holds type (status ∷ rest) {r} t h = text-Holds type rest status r t h

ok-injective : {r s : NdefRecord} → ok r ≡ ok s → r ≡ s
ok-injective h = cc

decode_uri-Holds :
    (type payload : Bytes) {r : NdefRecord}
    → type ≡ codes "U"
    → decode_uri payload ≡ ok r
    → (r.payload ≡ payload) × Holds tnf_well_known type payload r r.kind
unfolding decode_uri uri_prefix
decode_uri-Holds type [] t h = cc
decode_uri-Holds type (identifier ∷ rest) {r} t h =
    subst
      (λ r.
        (r.payload ≡ identifier ∷ rest) × Holds tnf_well_known type (identifier ∷ rest) r r.kind)
      (ok-injective h) (refl, (refl, refl, t, (identifier, rest, refl, refl)))

-- A record that decodes keeps its whole payload. Its kind says what else it is and holds: a text is
-- of the well-known type T, and its value is the valid UTF-8 behind the language code of the length
-- that the status byte names; a URI is of the well-known type U, and its value is the prefix of its
-- identifier code and what follows the code; a MIME record keeps its type with the payload for
-- value; and any other record, or a text in UTF-16, keeps its type and has no value.
pub decode_record-Holds :
    (tnf : ℕ) (type payload : Bytes) {r : NdefRecord}
    → decode_record tnf type payload ≡ ok r
    → (r.payload ≡ payload) × Holds tnf type payload r r.kind
unfolding decode_record
decode_record-Holds tnf [] payload h = ground arith
decode_record-Holds tnf (t ∷ []) payload {r} h =
    ground
      (arith, decode_text-Holds (t ∷ []) payload {r = r}, decode_uri-Holds (t ∷ []) payload {r = r})
decode_record-Holds tnf (t ∷ u ∷ type) payload h = ground arith
