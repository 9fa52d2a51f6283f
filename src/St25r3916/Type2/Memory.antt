-- ===== src/St25r3916/Type2/Memory.antt =====
-- The memory that ensureBytes reads is a part of the tag's data area, from its start on.
use cap_cc1101_nfc.Base.{
  ℕ, zero, suc, ◌+◌, ◌-◌, ◌*◌, ◌/◌, ◌%◌, ◌≤◌, ◌<◌, ◌≡◌, refl, sym, ap, ◌∙◌, subst, arith, Bytes, [],
  ◌∷◌, ◌++◌, length, get_or, take, drop, drop-length, take-length, take-length_self, length-append,
  length-take, length-drop, Option, some, ltb, leb,
}
use cap_cc1101_nfc.St25r3916.Action.{Transport, Action, throw_if_cancelled}
use cap_cc1101_nfc.St25r3916.Action.Rules.{Ends, Ends-bind, Ends-pure, Ends-when, Ends-some}
use cap_cc1101_nfc.St25r3916.Bus.{minimum}
use cap_cc1101_nfc.St25r3916.Type2.{fill, ensure_bytes}

take_nil : (n : ℕ) (xs : Bytes) → xs ≡ [] → take n xs ≡ []
take_nil zero xs e = refl
take_nil (suc n) [] e = refl
take_nil (suc n) (x ∷ xs) e = cc

take-add : (m n : ℕ) (xs : Bytes) → take m xs ++ take n (drop m xs) ≡ take (m + n) xs
take-add zero n xs = ap (λ k. take k xs) (omega arith)
take-add (suc m) n [] = take_nil n [] refl ∙ sym (take_nil (suc m + n) [] refl)
take-add (suc m) n (x ∷ xs) =
    let e : suc (m + n) ≡ suc m + n = omega arith in
    ap (◌∷◌ x) (take-add m n xs) ∙ ap (λ k. take k (x ∷ xs)) e

-- A reader of blocks over a tag with this data area: of every page from the first of the area on it
-- yields a block that begins with what is left of the area there, and nobody cancels.
pub record IsReader {T : Transport} (read_block : ℕ → Action T (Option Bytes)) (area : Bytes)
    : Type 0 where
  pub block_at :
      (page : ℕ)
      → 4 ≤ page
      → page ≤ 0xFF
      → let start = 4 * (page - 4) in
        Ends
          (λ o.
            (block : Bytes) × (o ≡ some block)
            × (take (minimum 16 (length area - start)) block ≡ take 16 (drop start area)))
          (read_block page)
  pub calm : Ends {T = T} (λ x. Unit {0}) throw_if_cancelled

-- What was read: whole blocks, as far as the area has them.
pub record IsLoaded (area memory : Bytes) : Type 0 where
  pub size : ℕ
  pub aligned : size % 16 ≡ 0
  pub is : memory ≡ take size area

length-IsLoaded :
    (area memory : Bytes) (loaded : IsLoaded area memory)
    → length memory < length area
    → length memory ≡ loaded.size
length-IsLoaded area memory loaded short =
    omega (arith, short, ap length loaded.is ∙ length-take loaded.size area)

page_start : (n : ℕ) → n % 16 ≡ 0 → 4 * (4 + n / 4 - 4) ≡ n
page_start n aligned = omega (arith, aligned)

-- The memory with another block.
append-IsLoaded :
    (area memory block : Bytes) (start : ℕ)
    → (loaded : IsLoaded area memory) → loaded.size ≡ start
    → take (minimum 16 (length area - start)) block ≡ take 16 (drop start area)
    → IsLoaded area (memory ++ take (minimum 16 (length area - start)) block)
append-IsLoaded area memory block start loaded e part = record {
  size = loaded.size + 16;
  aligned = omega (arith, loaded.aligned);
  is =
      ap (λ m. m ++ take (minimum 16 (length area - start)) block) loaded.is
      ∙ ap (λ b. take loaded.size area ++ b) (part ∙ ap (λ k. take 16 (drop k area)) (sym e))
      ∙ take-add loaded.size 16 area;
}

-- A block that is asked for adds a byte.
append_longer :
    (area memory block : Bytes)
    → length memory < length area
    → take (minimum 16 (length area - length memory)) block ≡ take 16 (drop (length memory) area)
    → suc (length memory) ≤ length (memory ++ take (minimum 16 (length area - length memory)) block)
append_longer area memory block short part = omega (
  arith,
  short,
  length-append memory (take (minimum 16 (length area - length memory)) block),
  ap length part ∙ length-take 16 (drop (length memory) area),
  length-drop (length memory) area,
)

-- A value of the memory behind a step that does not fail.
abbrev pub IsRead : Bytes → ℕ → Option Bytes → Type 0
IsRead area required o =
    (memory : Bytes) × (o ≡ some memory) × IsLoaded area memory × (required ≤ length memory)

module _ {T : Transport} (read_block : ℕ → Action T (Option Bytes)) (area unfound : Bytes)
    (reader : IsReader read_block area) (small : length area ≤ 1008) where
  fill-IsRead :
      (fuel required : ℕ) (memory : Bytes)
      → IsLoaded area memory
      → required ≤ length area
      → required ≤ length memory + fuel
      → Ends (IsRead area required) (fill read_block (length area) unfound fuel required memory)
  unfolding fill
  fill-IsRead zero required memory loaded inside enough =
      Ends-pure (IsRead area required) (some memory) (memory, refl, loaded, omega (arith, enough))
  fill-IsRead (suc fuel) required memory loaded inside enough =
      Ends-when (IsRead area required) (leb required (length memory)) _ _
        (λ e. Ends-pure (IsRead area required) (some memory) (memory, refl, loaded, ground arith))
        (λ e.
          let short : length memory < length area = ground (arith, e, inside) in
          let at = length-IsLoaded area memory loaded short in
          let start = page_start (length memory) (ap (λ n. n % 16) at ∙ loaded.aligned) in
          Ends-bind (IsRead area required) (λ x. Unit) throw_if_cancelled _ reader.calm
            (λ x h.
              Ends-when (IsRead area required) (ltb 0xFF (4 + length memory / 4)) _ _
                (λ e. ground (arith, at, loaded.aligned, short, small))
                (λ e.
                  Ends-bind (IsRead area required) _ (read_block (4 + length memory / 4)) _
                    (reader.block_at (4 + length memory / 4) (omega arith) (ground arith))
                    (λ o (block, found, part).
                      let here =
                        subst
                          (λ n. take (minimum 16 (length area - n)) block ≡ take 16 (drop n area))
                          start part in
                      Ends-some (IsRead area required) o block _ _ found (
                        fill-IsRead fuel required _
                          (append-IsLoaded area memory block (length memory) loaded (sym at) here)
                          inside
                          (omega (arith, enough, append_longer area memory block short here)))))))

  pub ensure_bytes-IsRead :
      (required : ℕ) (memory : Bytes)
      → IsLoaded area memory
      → required ≤ length area
      → Ends (IsRead area required) (ensure_bytes read_block (length area) unfound required memory)
  unfolding ensure_bytes
  ensure_bytes-IsRead required memory loaded inside =
      Ends-when (IsRead area required) (ltb (length area) required) _ _
        (λ e. ground (arith, inside))
        (λ e. fill-IsRead required required memory loaded inside (omega arith))

-- What is left of the area behind an offset.
pub record IsAt (area : Bytes) (offset : ℕ) (rest : Bytes) : Type 0 where
  pub reach : offset + length rest ≡ length area
  pub is : drop offset area ≡ rest

drop_nil : (n : ℕ) (xs : Bytes) → xs ≡ [] → drop n xs ≡ []
drop_nil zero xs e = e
drop_nil (suc n) [] e = refl
drop_nil (suc n) (x ∷ xs) e = cc

drop-add : (m n : ℕ) (xs : Bytes) → drop n (drop m xs) ≡ drop (m + n) xs
drop-add zero n xs = let e : n ≡ 0 + n = omega arith in ap (λ k. drop k xs) e
drop-add (suc m) n [] = drop_nil n [] refl ∙ sym (drop_nil (suc m + n) [] refl)
drop-add (suc m) n (x ∷ xs) =
    let e : suc (m + n) ≡ suc m + n = omega arith in drop-add m n xs ∙ ap (λ k. drop k (x ∷ xs)) e

pub IsAt-append :
    (area xs rest : Bytes) (offset : ℕ)
    → IsAt area offset (xs ++ rest)
    → IsAt area (offset + length xs) rest
IsAt-append area xs rest offset at = record {
  reach = omega (arith, at.reach, length-append xs rest);
  is = sym (drop-add offset (length xs) area) ∙ ap (drop (length xs)) at.is ∙ drop-length xs rest;
}

get_or-take : (k i d : ℕ) (xs : Bytes) → i < k → get_or (take k xs) i d ≡ get_or xs i d
get_or-take zero i d xs h = ground (arith, h)
get_or-take (suc k) i d [] h = refl
get_or-take (suc k) zero d (x ∷ xs) h = refl
get_or-take (suc k) (suc i) d (x ∷ xs) h = get_or-take k i d xs (omega (arith, h))

get_or-drop : (n d : ℕ) (xs : Bytes) → get_or xs n d ≡ get_or (drop n xs) 0 d
get_or-drop zero d xs = refl
get_or-drop (suc n) d [] = refl
get_or-drop (suc n) d (x ∷ xs) = get_or-drop n d xs

take-take : (n k : ℕ) (xs : Bytes) → n ≤ k → take n (take k xs) ≡ take n xs
take-take zero k xs h = refl
take-take (suc n) zero xs h = ground (arith, h)
take-take (suc n) (suc k) [] h = refl
take-take (suc n) (suc k) (x ∷ xs) h = ap (◌∷◌ x) (take-take n k xs (omega (arith, h)))

take-drop-take :
    (offset n k : ℕ) (xs : Bytes)
    → offset + n ≤ k
    → take n (drop offset (take k xs)) ≡ take n (drop offset xs)
take-drop-take zero n k xs h = take-take n k xs (omega (arith, h))
take-drop-take (suc offset) n zero xs h = ground (arith, h)
take-drop-take (suc offset) n (suc k) [] h = refl
take-drop-take (suc offset) n (suc k) (x ∷ xs) h = take-drop-take offset n k xs (omega (arith, h))

-- The byte of the memory at an offset that is read.
pub byte_at :
    (area memory rest : Bytes) (offset byte : ℕ)
    → IsAt area offset (byte ∷ rest)
    → IsLoaded area memory
    → offset < length memory
    → get_or memory offset 0 ≡ byte
byte_at area memory rest offset byte at loaded h =
    let lengths = ap length loaded.is ∙ length-take loaded.size area in
    ap (λ m. get_or m offset 0) loaded.is
    ∙ get_or-take loaded.size offset 0 area (omega (arith, h, lengths))
    ∙ get_or-drop offset 0 area
    ∙ ap (λ r. get_or r 0 0) at.is

-- A value that is read.
pub value_at :
    (area memory value rest : Bytes) (offset : ℕ)
    → IsAt area offset (value ++ rest)
    → IsLoaded area memory
    → offset + length value ≤ length memory
    → take (length value) (drop offset memory) ≡ value
value_at area memory value rest offset at loaded h =
    let lengths = ap length loaded.is ∙ length-take loaded.size area in
    ap (λ m. take (length value) (drop offset m)) loaded.is
    ∙ take-drop-take offset (length value) loaded.size area (omega (arith, h, lengths))
    ∙ ap (take (length value)) at.is
    ∙ take-length value rest

-- A reader that yields sixteen bytes, or what the area still has of them.
pub take-part :
    (area : Bytes) (start : ℕ)
    → take (minimum 16 (length area - start)) (take 16 (drop start area))
      ≡ take 16 (drop start area)
take-part area start =
    let part = take 16 (drop start area) in
    let all : minimum 16 (length area - start) ≡ length part =
      ground (arith, length-take 16 (drop start area), length-drop start area) in
    ap (λ n. take n part) all ∙ take-length_self part
