-- ===== src/Ndef/Utf8/Scalars.antt =====
-- UTF-8 described without the loop: the encoding of each Unicode scalar value.
use cap_cc1101_nfc.Base.{
  ℕ, ◌+◌, ◌/◌, ◌%◌, ◌≤◌, ◌<◌, ◌≡◌, ◌⊎◌, inl, inr, ◌≢◌, true, ◌&&◌, List, [], ◌∷◌, ◌++◌, some, Bytes,
  IsByte, ltb, leb, if◌then◌else◌, arith, bit_and_0xC0, Bool-cases, ltb→lt, ge_of_ltb,
}
use cap_cc1101_nfc.Ndef.Utf8.{is_continuation, utf8_step}

abbrev pub IsScalar : ℕ → Type 0
IsScalar c = (c < 0x110000) × ((c < 0xD800) ⊎ (0xE000 ≤ c))

-- The bytes behind the first, and the whole encoding.
abbrev pub encode_head : ℕ → ℕ
encode_head c =
    if ltb c 0x80
    then c
    else if ltb c 0x800
    then 0xC0 + c / 64
    else if ltb c 0x10000
    then 0xE0 + c / 4096
    else 0xF0 + c / 262144

abbrev pub encode_tail : ℕ → Bytes
encode_tail c =
    if ltb c 0x80
    then []
    else if ltb c 0x800
    then (0x80 + c % 64) ∷ []
    else if ltb c 0x10000
    then (0x80 + c / 64 % 64) ∷ (0x80 + c % 64) ∷ []
    else (0x80 + c / 4096 % 64) ∷ (0x80 + c / 64 % 64) ∷ (0x80 + c % 64) ∷ []

abbrev pub encode : List ℕ → Bytes
encode [] = []
encode (c ∷ cs) = encode_head c ∷ (encode_tail c ++ encode cs)

pub is_continuation_range : (b : ℕ) → IsByte b → is_continuation b ≡ (leb 0x80 b && ltb b 0xC0)
unfolding is_continuation
is_continuation_range b h = ground (arith, bit_and_0xC0 b h)

-- A continuation byte.
abbrev pub Trails : ℕ → Type 0
Trails b = (0x80 ≤ b) × (b < 0xC0)

is_continuation-Trails : (b : ℕ) → Trails b → is_continuation b ≡ true
is_continuation-Trails b h = ground (arith, is_continuation_range b (omega arith))

-- The lead bytes of two, three and four bytes, with what they ask of the second.
abbrev pub Leads2 : ℕ → Type 0
Leads2 a = (0xC2 ≤ a) × (a ≤ 0xDF)

abbrev pub Leads3 : ℕ → ℕ → Type 0
Leads3 a b = (0xE0 ≤ a) × (a ≤ 0xEF) × ((0xE1 ≤ a) ⊎ (0xA0 ≤ b)) × ((a ≢ 0xED) ⊎ (b < 0xA0))

abbrev pub Leads4 : ℕ → ℕ → Type 0
Leads4 a b = (0xF0 ≤ a) × (a ≤ 0xF4) × ((0xF1 ≤ a) ⊎ (0x90 ≤ b)) × ((a ≢ 0xF4) ⊎ (b < 0x90))

step_one : (a : ℕ) (rest : Bytes) → a < 0x80 → utf8_step a rest ≡ some rest
unfolding utf8_step
step_one a rest h = ground arith

step_two : (a b : ℕ) (rest : Bytes) → Leads2 a → Trails b → utf8_step a (b ∷ rest) ≡ some rest
unfolding utf8_step
step_two a b rest l t = ground (arith, is_continuation-Trails b t)

step_three :
    (a b c : ℕ) (rest : Bytes)
    → Leads3 a b
    → Trails b
    → Trails c
    → utf8_step a (b ∷ c ∷ rest) ≡ some rest
unfolding utf8_step
step_three a b c rest l t u = ground (arith, is_continuation-Trails b t, is_continuation-Trails c u)

step_four :
    (a b c d : ℕ) (rest : Bytes)
    → Leads4 a b
    → Trails b
    → Trails c
    → Trails d
    → utf8_step a (b ∷ c ∷ d ∷ rest) ≡ some rest
unfolding utf8_step
step_four a b c d rest l t u v =
    ground
      (arith, is_continuation-Trails b t, is_continuation-Trails c u, is_continuation-Trails d v)

pub step-encode :
    (c : ℕ) (rest : Bytes)
    → IsScalar c
    → utf8_step (encode_head c) (encode_tail c ++ rest) ≡ some rest
step-encode c rest h = elim (Bool-cases (ltb c 0x80)) [
  | inl one ↦ rw one (step_one c rest (ltb→lt c 0x80 one))
  | inr e ↦ elim (Bool-cases (ltb c 0x800)) [
    | inl two ↦
        rw (e, two)
          (step_two _ _ rest (omega (arith, ltb→lt, ge_of_ltb)) (omega (arith, ltb→lt, ge_of_ltb)))
    | inr f ↦ elim (Bool-cases (ltb c 0x10000)) [
      | inl three ↦
          rw (e, f, three)
            (step_three _ _ _ rest (omega (arith, ltb→lt, ge_of_ltb))
              (omega (arith, ltb→lt, ge_of_ltb)) (omega (arith, ltb→lt, ge_of_ltb)))
      | inr g ↦
          rw (e, f, g)
            (step_four _ _ _ _ rest (omega (arith, ltb→lt, ge_of_ltb))
              (omega (arith, ltb→lt, ge_of_ltb)) (omega (arith, ltb→lt, ge_of_ltb))
              (omega (arith, ltb→lt, ge_of_ltb)))
    ]
  ]
]
