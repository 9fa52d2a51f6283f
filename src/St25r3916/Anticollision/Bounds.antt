-- ===== src/St25r3916/Anticollision/Bounds.antt =====
-- The arrays of the anticollision.
use cap_cc1101_nfc.Base.{
  ℕ, zero, suc, ◌+◌, ◌/◌, ◌%◌, ◌≤◌, ◌<◌, ◌≡◌, refl, ap, ◌∙◌, arith, Bytes, [], ◌∷◌, length, set_at,
  Option, none, some, ◌!=◌, if◌then◌else◌,
}
use cap_cc1101_nfc.St25r3916.Action.{Transport}
use cap_cc1101_nfc.St25r3916.Action.Rules.{Returns, returns}
use cap_cc1101_nfc.St25r3916.Anticollision.{
  Round, first_round, place, collide, anticollision_loop, anticollision_level,
}

-- A round inside the two arrays: what is sent of the frame is there, and an answer has room.
pub record IsInBounds (r : Round) : Type 0 where
  pub seven : length r.frame ≡ 7
  pub five : length r.response ≡ 5
  pub sent : r.sent_bytes + (if r.sent_bits != 0 then 1 else 0) ≤ 7
  pub bits : r.sent_bits < 8
  pub offset : r.response_offset ≤ 4

length-set_at : (xs : Bytes) (i y : ℕ) → length (set_at xs i y) ≡ length xs
length-set_at [] i y = refl
length-set_at (x ∷ xs) zero y = refl
length-set_at (x ∷ xs) (suc i) y = ap suc (length-set_at xs i y)

pub length-place :
    (array : Bytes) (offset : ℕ) (bytes : Bytes) → length (place array offset bytes) ≡ length array
length-place array offset [] = refl
length-place array offset (b ∷ bytes) =
    length-place (set_at array offset b) (suc offset) bytes ∙ length-set_at array offset b

place_five :
    (array : Bytes) (offset : ℕ) (bytes : Bytes)
    → length array ≡ 5
    → length (place array offset bytes) ≡ 5
place_five array offset bytes five = length-place array offset bytes ∙ five

collide_five :
    (collision_bytes collision_bits actual : ℕ) (r later : Round)
    → length r.response ≡ 5
    → collide collision_bytes collision_bits actual r ≡ some later
    → length later.response ≡ 5
unfolding collide
collide_five collision_bytes collision_bits actual r later five e = grind (arith, length-set_at)

pub first_round-IsInBounds : (level : ℕ) → IsInBounds (first_round level)
first_round-IsInBounds level = record {
  seven = omega arith;
  five = omega arith;
  sent = omega arith;
  bits = omega arith;
  offset = omega arith;
}

-- An answer of five bytes, if there is one.
abbrev pub HasFive : Option Bytes → Type 0
HasFive none = Unit
HasFive (some answer) = length answer ≡ 5

module _ {T : Transport} where
  anticollision_loop-HasFive :
      (attempts : ℕ) (r : Round)
      → length r.response ≡ 5
      → Returns {T = T} HasFive (anticollision_loop attempts r)
  unfolding anticollision_loop
  anticollision_loop-HasFive zero r five = search (returns, tt)
  anticollision_loop-HasFive (suc attempts) r five =
      let again =
        λ (display actual : ℕ) (round later : Round) (h : length round.response ≡ 5)
            (e : collide (display / 16 % 16) (display / 2 % 8) actual round ≡ some later).
          anticollision_loop-HasFive attempts later
            (collide_five (display / 16 % 16) (display / 2 % 8) actual round later h e) in
      search (returns, place_five) depth 20

  -- An answer of the anticollision has five bytes, the check byte with them.
  pub anticollision_level-HasFive :
      (level : ℕ) → Returns {T = T} HasFive (anticollision_level level)
  unfolding anticollision_level
  anticollision_level-HasFive level =
      let loop = λ (attempts : ℕ).
        anticollision_loop-HasFive attempts (first_round level)
          (first_round-IsInBounds level).five in
      search returns
