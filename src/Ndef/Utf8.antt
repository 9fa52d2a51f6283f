-- ===== src/Ndef/Utf8.antt =====
-- isContinuation and isValidUtf8 of src/nfc/ndef_parser.cpp.
pub mod Scalars
pub mod Exact
use cap_cc1101_nfc.Base.{
  ℕ, zero, suc, Bool, true, false, not, ◌&&◌, ◌||◌, List, [], ◌∷◌, Option, none, some, Bytes,
  length, get_or, drop, leb, ltb, ◌==◌, if◌then◌else◌, bit_and,
}

pub is_continuation : ℕ → Bool
is_continuation value = bit_and value 0xC0 == 0x80

-- One round of the loop: `first` is data[offset], `rest` the bytes behind it. `none` is
-- `return false`, and `some` the bytes at the new offset.
pub utf8_step : ℕ → Bytes → Option Bytes
utf8_step first rest =
    if leb first 0x7F
    then some rest
    else if leb 0xC2 first && leb first 0xDF
    then if ltb left 2 || not (is_continuation second) then none else some (drop 1 rest)
    else if leb 0xE0 first && leb first 0xEF
    then if ltb left 3 || not (is_continuation second) || not (is_continuation third)
      then none
      else if (first == 0xE0 && ltb second 0xA0) || (first == 0xED && leb 0xA0 second)
      then none
      else some (drop 2 rest)
    else if leb 0xF0 first && leb first 0xF4
    then if ltb left 4
        || not (is_continuation second)
        || not (is_continuation third)
        || not (is_continuation fourth)
      then none
      else if (first == 0xF0 && ltb second 0x90) || (first == 0xF4 && leb 0x90 second)
      then none
      else some (drop 3 rest)
    else none
  where
    -- size - offset
    left : ℕ
    left = suc (length rest)

    second : ℕ
    second = get_or rest 0 0

    third : ℕ
    third = get_or rest 1 0

    fourth : ℕ
    fourth = get_or rest 2 0

-- The loop on fuel; every round takes a byte, so the number of bytes is enough.
pub utf8_loop : ℕ → Bytes → Bool
utf8_loop fuel [] = true
utf8_loop zero (first ∷ rest) = false
utf8_loop (suc fuel) (first ∷ rest) = elim (utf8_step first rest) [
  | none ↦ false
  | some later ↦ utf8_loop fuel later
]

unfoldable pub is_valid_utf8 : Bytes → Bool
unfolding utf8_loop utf8_step is_continuation
is_valid_utf8 bytes = utf8_loop (length bytes) bytes
