-- ===== src/Ndef/Cursor.antt =====
-- class Cursor of src/nfc/ndef_parser.cpp, over the bytes that are left.
use cap_cc1101_nfc.Base.{
  ℕ, ◌+◌, ◌*◌, ◌<◌, ◌≡◌, [], ◌∷◌, ◌++◌, Option, none, some, Bytes, length, take, drop, ltb,
  if◌then◌else◌, arith, All, IsByte, ◌/◌, ◌%◌, take-length, drop-length, take-append-drop,
  length-take, length-append, ap,
}

unfoldable pub read_byte : Bytes → Option (ℕ × Bytes)
read_byte [] = none
read_byte (b ∷ rest) = some (b, rest)

-- The bytes are below 256, so the shifted bytes of the source share no bit and `|` is the sum.
unfoldable pub read_big_endian_uint32 : Bytes → Option (ℕ × Bytes)
read_big_endian_uint32 (a ∷ b ∷ c ∷ d ∷ rest) = some (a * 16777216 + b * 65536 + c * 256 + d, rest)
read_big_endian_uint32 _ = none

unfoldable pub read_bytes : ℕ → Bytes → Option (Bytes × Bytes)
read_bytes n cursor = if ltb (length cursor) n then none else some (take n cursor, drop n cursor)

-- Four bytes, most significant first.
abbrev pub big_endian32 : ℕ → Bytes
big_endian32 n = (n / 16777216) ∷ (n / 65536 % 256) ∷ (n / 256 % 256) ∷ (n % 256) ∷ []

pub read_byte_inv : (c : Bytes) {b : ℕ} {rest : Bytes} → read_byte c ≡ some (b, rest) → c ≡ b ∷ rest
unfolding read_byte
read_byte_inv [] h = cc
read_byte_inv (x ∷ c) h = ground arith

pub read_bytes-append : (xs rest : Bytes) → read_bytes (length xs) (xs ++ rest) ≡ some (xs, rest)
unfolding read_bytes
read_bytes-append xs rest =
    ground (arith, take-length xs rest, drop-length xs rest, length-append xs rest)

pub read_bytes_inv :
    (n : ℕ) (c : Bytes) {xs rest : Bytes}
    → read_bytes n c ≡ some (xs, rest)
    → (c ≡ xs ++ rest) × (length xs ≡ n)
unfolding read_bytes
read_bytes_inv n c h = ground (arith, take-append-drop n c, length-take n c)

pub read_big_endian_uint32-append :
    (n : ℕ) (rest : Bytes) → read_big_endian_uint32 (big_endian32 n ++ rest) ≡ some (n, rest)
unfolding read_big_endian_uint32
read_big_endian_uint32-append n rest = ap (λ m. some (m, rest)) (omega arith)

pub read_big_endian_uint32_inv :
    (c : Bytes) {n : ℕ} {rest : Bytes}
    → All IsByte c
    → read_big_endian_uint32 c ≡ some (n, rest)
    → (c ≡ big_endian32 n ++ rest) × (n < 0x1_0000_0000)
unfolding read_big_endian_uint32
read_big_endian_uint32_inv (a ∷ b ∷ c ∷ d ∷ r) h e = ground arith
read_big_endian_uint32_inv [] h e = cc
read_big_endian_uint32_inv (a ∷ []) h e = cc
read_big_endian_uint32_inv (a ∷ b ∷ []) h e = cc
read_big_endian_uint32_inv (a ∷ b ∷ c ∷ []) h e = cc
