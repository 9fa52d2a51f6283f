-- ===== src/Ndef/RoundTrip.antt =====
-- parseNdefMessage reads back every message of the format.
use mathlib.Core.List.{append_assoc}
use cap_cc1101_nfc.Base.{
  ℕ, zero, suc, ◌≤◌, ◌<◌, ◌≡◌, ap, ◌∙◌, Bool, true, false, List, [], ◌∷◌, ◌++◌, Bytes, length, All,
  arith, take-length_self, length-append,
}
use cap_cc1101_nfc.Types.{NdefRecord}
use cap_cc1101_nfc.Ndef.Result.{ok, >>=-eq-ok}
use cap_cc1101_nfc.Ndef.Decode.{decode_record}
use cap_cc1101_nfc.Ndef.Parser.{parse_loop, parse_ndef_message}
use cap_cc1101_nfc.Ndef.Format.{
  Wire, IsWire, write, write_all, is_nil, decode_all, read_frame-write,
}

-- One round over a record that is there, and decodes.
parse_loop-write :
    (fuel : ℕ) (first last : Bool) (w : Wire) (acc : List NdefRecord) (rest : Bytes)
    {r : NdefRecord}
    → IsWire w
    → decode_record w.tnf w.type w.payload ≡ ok r
    → parse_loop (suc fuel) first false acc (write first last w rest)
      ≡ parse_loop fuel false last (acc ++ (r ∷ [])) rest
unfolding parse_loop
parse_loop-write fuel first last w acc rest v d = simp (read_frame-write first last w v, d)

parse_loop-write_all :
    (fuel : ℕ) (first : Bool) (w : Wire) (ws : List Wire) (acc rs : List NdefRecord)
    → length (w ∷ ws) ≤ fuel
    → All IsWire (w ∷ ws)
    → decode_all (w ∷ ws) ≡ ok rs
    → parse_loop fuel first false acc (write_all first (w ∷ ws)) ≡ ok (acc ++ rs)
unfolding parse_loop
parse_loop-write_all zero first w ws acc rs h v d = absurd (omega arith)
parse_loop-write_all (suc fuel) first w [] acc rs h v d =
    let (r, dr, e) = >>=-eq-ok (decode_record w.tnf w.type w.payload) _ d in
    parse_loop-write fuel first true w acc [] v.0 dr ∙ cc
parse_loop-write_all (suc fuel) first w (x ∷ ws) acc rs h v d =
    let (r, dr, e) = >>=-eq-ok (decode_record w.tnf w.type w.payload) _ d in
    let (later, dl, f) = >>=-eq-ok (decode_all (x ∷ ws)) _ e in
    parse_loop-write fuel first false w acc _ v.0 dr
    ∙ parse_loop-write_all fuel false x ws (acc ++ (r ∷ [])) later (omega arith) v.1 dl
    ∙ ap ok (append_assoc acc (r ∷ []) later)
    ∙ cc

length-write :
    (first last : Bool) (w : Wire) (rest : Bytes) → length rest < length (write first last w rest)
length-write first last w rest = ground (
  arith,
  length-append w.type (w.id ++ (w.payload ++ rest)),
  length-append w.id (w.payload ++ rest),
  length-append w.payload rest,
)

length-write_all : (first : Bool) (ws : List Wire) → length ws ≤ length (write_all first ws)
length-write_all first [] = omega arith
length-write_all first (w ∷ ws) =
    omega (arith, length-write first (is_nil ws) w (write_all false ws), length-write_all false ws)

-- Every message of well-formed records whose contents decode is parsed, to those contents in order.
pub parse-write_all :
    (w : Wire) (ws : List Wire) {rs : List NdefRecord}
    → All IsWire (w ∷ ws)
    → decode_all (w ∷ ws) ≡ ok rs
    → parse_ndef_message (write_all true (w ∷ ws))
      ≡ record { success = true; error = ""; records = rs }
unfolding parse_ndef_message
parse-write_all w ws {rs} v d =
    let message = write_all true (w ∷ ws) in
    ground (
      arith,
      take-length_self message,
      parse_loop-write_all (length message) true w ws [] rs (length-write_all true (w ∷ ws)) v d,
    )
