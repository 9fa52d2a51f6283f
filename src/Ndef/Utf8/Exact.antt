-- ===== src/Ndef/Utf8/Exact.antt =====
-- isValidUtf8 accepts exactly the UTF-8 encodings of sequences of Unicode scalar values.
use native.Mathlib.Decide.{dec_le}
use cap_cc1101_nfc.Base.{
  ℕ, zero, suc, ◌+◌, ◌-◌, ◌*◌, ◌≤◌, ◌≡◌, refl, inl, inr, true, List, [], ◌∷◌, ◌++◌, some, Bytes,
  length, All, IsByte, arith, length-append, Option-cases, All-append_right, ◌↔◌,
}
use cap_cc1101_nfc.Ndef.Utf8.{is_continuation, utf8_step, utf8_loop, is_valid_utf8}
use cap_cc1101_nfc.Ndef.Utf8.Scalars.{
  IsScalar, encode_head, encode_tail, encode, Trails, Leads2, Leads3, Leads4, is_continuation_range,
  step-encode,
}

Trails-is_continuation : (b : ℕ) → IsByte b → is_continuation b ≡ true → Trails b
Trails-is_continuation b h e = ground (arith, is_continuation_range b h)

-- What a round that goes on has read behind the lead byte, by the range of that byte.
step_two_inv :
    (a : ℕ) (bs : Bytes) {rest : Bytes}
    → Leads2 a
    → All IsByte bs
    → utf8_step a bs ≡ some rest
    → (b : ℕ) × (bs ≡ b ∷ rest) × Trails b
unfolding utf8_step
step_two_inv a [] l h e = ground arith
step_two_inv a (b ∷ bs) l h e = (b, ground arith, ground (arith, Trails-is_continuation b h.0))

step_three_inv :
    (a : ℕ) (bs : Bytes) {rest : Bytes}
    → 0xE0 ≤ a
    → a ≤ 0xEF
    → All IsByte bs
    → utf8_step a bs ≡ some rest
    → (b c : ℕ) × (bs ≡ b ∷ c ∷ rest) × Trails b × Trails c × Leads3 a b
unfolding utf8_step
step_three_inv a [] l m h e = ground arith
step_three_inv a (b ∷ []) l m h e = ground arith
step_three_inv a (b ∷ c ∷ bs) l m h e = (
  b,
  c,
  ground arith,
  ground (arith, Trails-is_continuation b h.0),
  ground (arith, Trails-is_continuation c h.1.0),
  ground arith,
)

step_four_inv :
    (a : ℕ) (bs : Bytes) {rest : Bytes}
    → 0xF0 ≤ a
    → a ≤ 0xF4
    → All IsByte bs
    → utf8_step a bs ≡ some rest
    → (b c d : ℕ) × (bs ≡ b ∷ c ∷ d ∷ rest) × Trails b × Trails c × Trails d × Leads4 a b
unfolding utf8_step
step_four_inv a [] l m h e = ground arith
step_four_inv a (b ∷ []) l m h e = ground arith
step_four_inv a (b ∷ c ∷ []) l m h e = ground arith
step_four_inv a (b ∷ c ∷ d ∷ bs) l m h e = (
  b,
  c,
  d,
  ground arith,
  ground (arith, Trails-is_continuation b h.0),
  ground (arith, Trails-is_continuation c h.1.0),
  ground (arith, Trails-is_continuation d h.1.1.0),
  ground arith,
)

-- The scalar value that the bytes encode.
abbrev Decodes : ℕ → Bytes → Bytes → Type 0
Decodes a bs rest = (c : ℕ) × IsScalar c × (encode_head c ≡ a) × (encode_tail c ++ rest ≡ bs)

decode_two : (a b : ℕ) (rest : Bytes) → Leads2 a → Trails b → Decodes a (b ∷ rest) rest
decode_two a b rest l t = ((a - 0xC0) * 64 + (b - 0x80), ground arith, ground arith, ground arith)

decode_three :
    (a b c : ℕ) (rest : Bytes) → Leads3 a b → Trails b → Trails c → Decodes a (b ∷ c ∷ rest) rest
decode_three a b c rest l t u =
    ((a - 0xE0) * 4096 + (b - 0x80) * 64 + (c - 0x80), ground arith, ground arith, ground arith)

decode_four :
    (a b c d : ℕ) (rest : Bytes)
    → Leads4 a b
    → Trails b
    → Trails c
    → Trails d
    → Decodes a (b ∷ c ∷ d ∷ rest) rest
decode_four a b c d rest l t u v = (
  (a - 0xF0) * 262144 + (b - 0x80) * 4096 + (c - 0x80) * 64 + (d - 0x80),
  ground arith,
  ground arith,
  ground arith,
)

-- A round goes on only at a lead byte.
lead_two :
    (a : ℕ) (bs : Bytes) {rest : Bytes}
    → utf8_step a bs ≡ some rest
    → ¬ (a ≤ 0x7F)
    → a ≤ 0xDF
    → Leads2 a
unfolding utf8_step
lead_two a bs e p two = ground arith

lead_four :
    (a : ℕ) (bs : Bytes) {rest : Bytes} → utf8_step a bs ≡ some rest → ¬ (a ≤ 0xEF) → a ≤ 0xF4
unfolding utf8_step
lead_four a bs e r = ground arith

lead_one : (a : ℕ) (bs : Bytes) {rest : Bytes} → utf8_step a bs ≡ some rest → a ≤ 0x7F → bs ≡ rest
unfolding utf8_step
lead_one a bs e p = ground arith

step-Decodes :
    (a : ℕ) (bs : Bytes) {rest : Bytes}
    → All IsByte bs
    → utf8_step a bs ≡ some rest
    → Decodes a bs rest
step-Decodes a bs {rest} h e = elim (dec_le a 0x7F) [
  | yes one ↦ (a, ground arith, ground arith, ground (arith, lead_one a bs e one))
  | no p ↦ elim (dec_le a 0xDF) [
    | yes two ↦
        let (b, shape, t) = step_two_inv a bs (lead_two a bs e p two) h e in
        rw shape (decode_two a b rest (lead_two a bs e p two) t)
    | no q ↦ elim (dec_le a 0xEF) [
      | yes three ↦
          let (b, c, shape, t, u, l) = step_three_inv a bs (omega arith) three h e in
          rw shape (decode_three a b c rest l t u)
      | no r ↦
          let (b, c, d, shape, t, u, v, l) =
            step_four_inv a bs (omega arith) (lead_four a bs e r) h e in
          rw shape (decode_four a b c d rest l t u v)
    ]
  ]
]

loop-encode :
    (fuel : ℕ) (cs : List ℕ)
    → length cs ≤ fuel
    → All IsScalar cs
    → utf8_loop fuel (encode cs) ≡ true
unfolding utf8_loop
loop-encode fuel [] h v = ground arith
loop-encode zero (c ∷ cs) h v = absurd (omega arith)
loop-encode (suc fuel) (c ∷ cs) h v =
    rw (step-encode c (encode cs) v.0, utf8_loop) (loop-encode fuel cs (omega arith) v.1)

length-encode : (cs : List ℕ) → length cs ≤ length (encode cs)
length-encode [] = omega arith
length-encode (c ∷ cs) = omega (arith, length-encode cs, length-append (encode_tail c) (encode cs))

loop_decodes :
    (fuel : ℕ) (bs : Bytes)
    → All IsByte bs
    → utf8_loop fuel bs ≡ true
    → (cs : List ℕ) × All IsScalar cs × (encode cs ≡ bs)
unfolding utf8_loop
loop_decodes fuel [] h e = ([], tt, refl)
loop_decodes zero (b ∷ bs) h e = cc
loop_decodes (suc fuel) (b ∷ bs) h e = elim (Option-cases (utf8_step b bs)) [
  | inl stop ↦ absurd (ground arith)
  | inr (rest, go) ↦
      let (c, s, head, tail) = step-Decodes b bs h.1 go in
      let more = All-append_right IsByte (encode_tail c) rest (rw (← tail) at h.1) in
      let (cs, ss, later) = loop_decodes fuel rest more (ground arith) in (c ∷ cs, (s, ss), cc)
]

pub is_valid_utf8-encode : (cs : List ℕ) → All IsScalar cs → is_valid_utf8 (encode cs) ≡ true
unfolding is_valid_utf8
is_valid_utf8-encode cs scalars = loop-encode _ cs (length-encode cs) scalars

-- `isValidUtf8` returns true of exactly the encodings of sequences of Unicode scalar values: no
-- overlong form, no surrogate, nothing above U+10FFFF and no stray continuation byte passes, and
-- no encoding is refused.
pub is_valid_utf8_iff :
    (bs : Bytes)
    → All IsByte bs
    → (is_valid_utf8 bs ≡ true) ↔ ((cs : List ℕ) × All IsScalar cs × (encode cs ≡ bs))
unfolding is_valid_utf8
is_valid_utf8_iff bs h =
    (loop_decodes (length bs) bs h, λ (cs, scalars, e). rw (← e) (is_valid_utf8-encode cs scalars))
