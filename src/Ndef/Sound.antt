-- ===== src/Ndef/Sound.antt =====
-- What parseNdefMessage accepts is a message of the format.
use mathlib.Core.Path.{ap₂}
use mathlib.Core.List.{append_assoc}
use cap_cc1101_nfc.Base.{
  subst, Bool-cases, inl, inr, ℕ, zero, suc, ◌+◌, ◌≤◌, ◌<◌, ◌≡◌, refl, sym, ap, ◌∙◌, ◌≢◌, Bool,
  true, false, List, [], ◌∷◌, ◌++◌, Bytes, length, All, All-append_right, IsByte, if◌then◌else◌,
  arith, take-length_self, bit_and, bit_and_0x80, bit_and_0x40, bit_and_0x20, bit_and_0x10,
  bit_and_0x08, bit_and_0x07,
}
use cap_cc1101_nfc.Types.{NdefRecord}
use cap_cc1101_nfc.Ndef.Result.{ok, or_fail, >>=-elim, or_fail-eq-ok}
use cap_cc1101_nfc.Ndef.Cursor.{
  read_byte, read_bytes, read_byte_inv, read_bytes_inv, big_endian32, read_big_endian_uint32_inv,
}
use cap_cc1101_nfc.Ndef.Decode.{decode_record}
use cap_cc1101_nfc.Ndef.Parser.{
  Frame, flag, check_header, read_payload_length, read_id_length, check_lengths, read_frame,
  parse_loop, parse_ndef_message,
}
use cap_cc1101_nfc.Ndef.Format.{Wire, IsWire, bit, header, write, write_all, decode_all, frame_of}

check_header_inv :
    (first : Bool) (h : ℕ)
    → check_header first h ≡ ok tt
    → (flag h 0x80 ≡ first) × (flag h 0x20 ≡ false) × (bit_and h 0x07 ≢ 6) × (bit_and h 0x07 ≢ 7)
unfolding check_header
check_header_inv first h e = ground arith

header_split :
    (h : ℕ)
    → IsByte h
    → flag h 0x20 ≡ false
    → h
      ≡ bit (flag h 0x80) 128
        + bit (flag h 0x40) 64
        + bit (flag h 0x10) 16
        + bit (flag h 0x08) 8
        + bit_and h 0x07
header_split h v e = ground (
  arith,
  bit_and_0x80 h v,
  bit_and_0x40 h v,
  bit_and_0x20 h v,
  bit_and_0x10 h v,
  bit_and_0x08 h v,
  bit_and_0x07 h v,
)

read_payload_length_inv :
    (short : Bool) (c : Bytes) {n : ℕ} {rest : Bytes}
    → All IsByte c
    → read_payload_length short c ≡ ok (n, rest)
    → (c ≡ (if short then n ∷ rest else big_endian32 n ++ rest))
      × (n < 0x1_0000_0000)
      × (short ≡ true → n < 256)
      × All IsByte rest
unfolding read_payload_length
read_payload_length_inv true c v e =
    let r = read_byte_inv c (or_fail-eq-ok _ _ e) in
    let b = (rw r at v).0 in (r, omega arith, λ s. b, (rw r at v).1)
read_payload_length_inv false c v e =
    let r = read_big_endian_uint32_inv c v (or_fail-eq-ok _ _ e) in
    (r.0, r.1, λ s. cc, (rw r.0 at v).1.1.1.1)

read_id_length_inv :
    (has_id : Bool) (c : Bytes) {n : ℕ} {rest : Bytes}
    → All IsByte c
    → read_id_length has_id c ≡ ok (n, rest)
    → (c ≡ (if has_id then n ∷ rest else rest)) × (n < 256) × (has_id ≡ false → n ≡ 0)
unfolding read_id_length
read_id_length_inv true c v e =
    let r = read_byte_inv c (or_fail-eq-ok _ _ e) in (r, (rw r at v).0, λ s. cc)
read_id_length_inv false c v e = ground arith

check_lengths_inv :
    (tnf t i p : ℕ)
    → check_lengths tnf t i p ≡ ok tt
    → (tnf ≡ 0 → (t ≡ 0) × (i ≡ 0) × (p ≡ 0)) × (1 ≤ tnf → tnf ≤ 4 → t ≢ 0) × (tnf ≡ 5 → t ≡ 0)
unfolding check_lengths
check_lengths_inv tnf t i p e = (λ z. ground arith, λ l m z. ground arith, λ z. ground arith)

-- The inversion of one record: what was read is a well-formed record in front of the new cursor.
abbrev Reads : Bool → Bytes → Frame → Type 0
Reads first c f =
    (w : Wire) × IsWire w
    × (c ≡ write first f.record_end w f.cursor)
    × (f ≡ frame_of f.record_end w f.cursor)

module _ (first : Bool) (c : Bytes) (v : All IsByte c) (h t p i : ℕ)
    (c1 c2 c3 c4 c5 c6 c7 type id payload : Bytes) (s1 : c ≡ h ∷ c1)
    (checked : check_header first h ≡ ok tt) (s2 : c1 ≡ t ∷ c2)
    (s3 : read_payload_length (flag h 0x10) c2 ≡ ok (p, c3))
    (s4 : read_id_length (flag h 0x08) c3 ≡ ok (i, c4))
    (lengths : check_lengths (bit_and h 0x07) t i p ≡ ok tt)
    (s5 : (c4 ≡ type ++ c5) × (length type ≡ t)) (s6 : (c5 ≡ id ++ c6) × (length id ≡ i))
    (s7 : (c6 ≡ payload ++ c7) × (length payload ≡ p)) where
  wire : Wire
  wire = record {
    short = flag h 0x10;
    has_id = flag h 0x08;
    tnf = bit_and h 0x07;
    type = type;
    id = id;
    payload = payload;
  }

  bytes1 : IsByte h × All IsByte c1
  bytes1 = rw s1 at v

  bytes2 : IsByte t × All IsByte c2
  bytes2 = rw s2 at (bytes1.1)

  wire-IsWire : IsWire wire
  unfolding wire
  wire-IsWire =
      let p3 = read_payload_length_inv (flag h 0x10) c2 bytes2.1 s3 in
      let p4 = read_id_length_inv (flag h 0x08) c3 p3.3 s4 in
      let l = check_lengths_inv (bit_and h 0x07) t i p lengths in
      record {
        tnf_bound = ground (arith, bit_and_0x07 h bytes1.0, check_header_inv first h checked);
        type_bound = omega (arith, bytes2);
        id_bound = omega (arith, p4);
        id_absent = λ e. ground (arith, p4.2 e);
        payload_bound = omega (arith, p3);
        short_bound = λ e. omega (arith, p3.2 e);
        empty_tnf = λ e. omega (arith, l.0 e);
        typed_tnf = λ a b. λ z. l.1 a b (omega arith);
        unknown_tnf = λ e. omega (arith, l.2 e);
      }

  header_again : header first (flag h 0x40) wire ≡ h
  unfolding wire
  header_again =
      let k = check_header_inv first h checked in ground (arith, header_split h bytes1.0 k.1, k.0)

  bytes_again : c ≡ write first (flag h 0x40) wire c7
  unfolding wire
  bytes_again =
      let p3 = read_payload_length_inv (flag h 0x10) c2 bytes2.1 s3 in
      let p4 = read_id_length_inv (flag h 0x08) c3 p3.3 s4 in cc (header_again, p3.0, p4.0)

  assemble : Reads first c (frame_of (flag h 0x40) wire c7)
  assemble = (wire, wire-IsWire, bytes_again, refl)

ok-injective : {f g : Frame} → ok f ≡ ok g → f ≡ g
ok-injective h = cc

read_frame_inv :
    (first : Bool) (c : Bytes) {f : Frame}
    → All IsByte c
    → read_frame first c ≡ ok f
    → Reads first c f
unfolding read_frame wire
read_frame_inv first c v e =
    >>=-elim (or_fail (read_byte c) "NDEF record header is truncated") _ e λ (h, c1) e1 k1.
      >>=-elim (check_header first h) _ k1 λ u e2 k2.
        >>=-elim (or_fail (read_byte c1) "NDEF record is missing its type length") _ k2
          λ (t, c2) e3 k3. >>=-elim (read_payload_length (flag h 0x10) c2) _ k3 λ (p, c3) e4 k4.
            >>=-elim (read_id_length (flag h 0x08) c3) _ k4 λ (i, c4) e5 k5.
              >>=-elim (check_lengths (bit_and h 0x07) t i p) _ k5 λ w e6 k6.
                >>=-elim (or_fail (read_bytes t c4) "NDEF record type exceeds the message boundary")
                  _ k6
                  λ (type, c5) e7 k7.
                    >>=-elim
                      (or_fail (read_bytes i c5) "NDEF record ID exceeds the message boundary") _ k7
                      λ (id, c6) e8 k8.
                        >>=-elim
                          (or_fail (read_bytes p c6)
                            "NDEF record payload exceeds the message boundary")
                          _ k8
                          λ (payload, c7) e9 k9.
                            let done =
                              assemble first c v h t p i c1 c2 c3 c4 c5 c6 c7 type id payload
                                (read_byte_inv c (or_fail-eq-ok _ _ e1)) e2
                                (read_byte_inv c1 (or_fail-eq-ok _ _ e3)) e4 e5 e6
                                (read_bytes_inv t c4 (or_fail-eq-ok _ _ e7))
                                (read_bytes_inv i c5 (or_fail-eq-ok _ _ e8))
                                (read_bytes_inv p c6 (or_fail-eq-ok _ _ e9)) in
                            subst (Reads first c) (ok-injective k9) done

-- The bytes behind a record are bytes.
behind_short :
    (short : Bool) (n : ℕ) (rest : Bytes)
    → All IsByte (if short then n ∷ rest else big_endian32 n ++ rest)
    → All IsByte rest
behind_short true n rest v = v.1
behind_short false n rest v = v.1.1.1.1

behind_id :
    (has_id : Bool) (n : ℕ) (rest : Bytes)
    → All IsByte (if has_id then n ∷ rest else rest)
    → All IsByte rest
behind_id true n rest v = v.1
behind_id false n rest v = v

behind_write :
    (first last : Bool) (w : Wire) (rest : Bytes)
    → All IsByte (write first last w rest)
    → All IsByte rest
behind_write first last w rest v =
    let s = behind_short w.short (length w.payload) _ v.1.1 in
    let i = behind_id w.has_id (length w.id) _ s in
    All-append_right IsByte w.payload rest
      (All-append_right IsByte w.id _ (All-append_right IsByte w.type _ i))

parse_loop_end :
    (fuel : ℕ) (first : Bool) (acc : List NdefRecord) (c : Bytes) {rs : List NdefRecord}
    → parse_loop fuel first true acc c ≡ ok rs
    → (c ≡ []) × (rs ≡ acc)
unfolding parse_loop
parse_loop_end fuel first acc [] e = ground arith
parse_loop_end zero first acc (b ∷ c) e = cc
parse_loop_end (suc fuel) first acc (b ∷ c) e = cc

abbrev Message : Bool → List NdefRecord → Bytes → List NdefRecord → Type 0
Message first acc c rs =
    (w : Wire) × (ws : List Wire) × (new : List NdefRecord) × All IsWire (w ∷ ws)
    × (c ≡ write_all first (w ∷ ws))
    × (decode_all (w ∷ ws) ≡ ok new)
    × (rs ≡ acc ++ new)

abbrev Continues : ℕ → List NdefRecord → Bytes → List NdefRecord → Bool → Type 0
Continues fuel acc c rs last = parse_loop fuel false last acc c ≡ ok rs

decode_all-cons :
    (w : Wire) (ws : List Wire) {r : NdefRecord} {rs : List NdefRecord}
    → decode_record w.tnf w.type w.payload ≡ ok r
    → decode_all ws ≡ ok rs
    → decode_all (w ∷ ws) ≡ ok (r ∷ rs)
decode_all-cons w ws p q = rw (p, q)

parse_loop_inv :
    (fuel : ℕ) (first : Bool) (acc : List NdefRecord) (c : Bytes) {rs : List NdefRecord}
    → All IsByte c
    → parse_loop fuel first false acc c ≡ ok rs
    → Message first acc c rs
unfolding parse_loop
parse_loop_inv fuel first acc [] v e = absurd cc
parse_loop_inv zero first acc (b ∷ c) v e = absurd cc
parse_loop_inv (suc fuel) first acc (b ∷ c) {rs} v e =
    >>=-elim (read_frame first (b ∷ c)) _ e λ f read k.
      >>=-elim (decode_record f.tnf f.type f.payload) _ k λ r decoded go.
        let (w, well, bytes, same) = read_frame_inv first (b ∷ c) v read in
        let d = rw same at decoded in
        elim (Bool-cases f.record_end) [
          | inl last ↦
              let (stop, out) =
                parse_loop_end fuel false (acc ++ (r ∷ [])) f.cursor
                  (subst (Continues fuel (acc ++ (r ∷ [])) f.cursor rs) last go) in
              (
                w,
                [],
                r ∷ [],
                (well, tt),
                bytes ∙ ap₂ (λ l z. write first l w z) last stop,
                decode_all-cons w [] d refl,
                out,
              )
          | inr more ↦
              let (x, xs, new, wells, tail, ds, out) =
                parse_loop_inv fuel false (acc ++ (r ∷ [])) f.cursor
                  (behind_write first f.record_end w f.cursor (subst (All IsByte) bytes v))
                  (subst (Continues fuel (acc ++ (r ∷ [])) f.cursor rs) more go) in
              (
                w,
                x ∷ xs,
                r ∷ new,
                (well, wells),
                bytes ∙ ap₂ (λ l z. write first l w z) more tail,
                decode_all-cons w (x ∷ xs) d ds,
                out ∙ append_assoc acc (r ∷ []) new,
              )
        ]

parse_accepts :
    (c : Bytes)
    → (parse_ndef_message c).success ≡ true
    → parse_loop (length c) true false [] c ≡ ok (parse_ndef_message c).records
unfolding parse_ndef_message
parse_accepts c e = ground (arith, take-length_self c)

-- Whatever parseNdefMessage accepts is a message of one or more well-formed records, MB on the
-- first and ME on the last alone, and the result holds what each decodes to, in order.
pub parse_sound :
    (c : Bytes)
    → All IsByte c
    → (parse_ndef_message c).success ≡ true
    → (w : Wire) × (ws : List Wire) × All IsWire (w ∷ ws)
      × (c ≡ write_all true (w ∷ ws))
      × (decode_all (w ∷ ws) ≡ ok (parse_ndef_message c).records)
parse_sound c v e =
    let (w, ws, new, wells, bytes, ds, out) =
      parse_loop_inv (length c) true [] c v (parse_accepts c e) in
    (w, ws, wells, bytes, ds ∙ ap ok (sym out))
