-- ===== src/St25r3916/Type2/Found.antt =====
-- The NDEF message of a well-formed Type 2 tag is found.
use cap_cc1101_nfc.Base.{
  ℕ, zero, suc, ◌+◌, ◌-◌, ◌*◌, ◌/◌, ◌%◌, ◌≤◌, ◌<◌, ◌≡◌, ◌≢◌, refl, sym, ap, ◌∙◌, subst, arith,
  Bytes, List, [], ◌∷◌, ◌++◌, length, get_or, All, length-append, Option, some, ltb, leb, ◌==◌,
  if◌then◌else◌,
}
use cap_cc1101_nfc.Types.{returned}
use cap_cc1101_nfc.St25r3916.Action.{Transport, Action, Bus, pure}
use cap_cc1101_nfc.St25r3916.Action.Rules.{Ends, Ends-bind, Ends-pure, Ends-when, Ends-some}
use cap_cc1101_nfc.St25r3916.Bus.{minimum}
use cap_cc1101_nfc.St25r3916.Type2.{
  ensure_bytes, take_value, take_length, find_message, read_message, otherwise_fail,
}
use cap_cc1101_nfc.St25r3916.Type2.Memory.{
  IsReader, IsLoaded, IsRead, IsAt, IsAt-append, byte_at, value_at, ensure_bytes-IsRead,
}

-- The two forms of a length.
pub data Form : Type 0 where
  short long : Form

abbrev pub write_length : Form → ℕ → Bytes
write_length short n = n ∷ []
write_length long n = 0xFF ∷ n / 256 ∷ n % 256 ∷ []

abbrev pub Fits : Form → ℕ → Type 0
Fits short n = n < 0xFF
Fits long n = n < 0x1_0000

abbrev pub write_tlv : ℕ → Form → Bytes → Bytes
write_tlv type form value = type ∷ (write_length form (length value) ++ value)

-- What may stand in front of the message: a null TLV, or a TLV of another type.
pub data Block : Type 0 where
  null : Block
  other : ℕ → Form → Bytes → Block

abbrev pub write_block : Block → Bytes
write_block null = 0x00 ∷ []
write_block (other type form value) = write_tlv type form value

abbrev pub IsOther : Block → Type 0
IsOther null = Unit
IsOther (other type form value) =
    (type ≢ 0x00) × (type ≢ 0x03) × (type ≢ 0xFE) × Fits form (length value)

-- An area with these blocks, the message and anything behind it.
abbrev pub write_area : List Block → Form → Bytes → Bytes → Bytes
write_area [] form message rest = write_tlv 0x03 form message ++ rest
write_area (b ∷ blocks) form message rest = write_block b ++ write_area blocks form message rest

-- Behind a type stands at least the length.
header :
    (form : Form) (value rest : Bytes)
    → 1 ≤ length ((write_length form (length value) ++ value) ++ rest)
header short value rest = omega arith
header long value rest = omega arith

write_area_positive :
    (blocks : List Block) (form : Form) (message rest : Bytes)
    → 1 ≤ length (write_area blocks form message rest)
write_area_positive [] form message rest = omega arith
write_area_positive (null ∷ blocks) form message rest = omega arith
write_area_positive (other type f value ∷ blocks) form message rest = omega arith

module _ {T : Transport} (P : Option Bytes → Type 0) (read_block : ℕ → Action T (Option Bytes))
    (area unfound : Bytes) (reader : IsReader read_block area) (small : length area ≤ 1008) where
  -- A step of the search that needs so many bytes.
  ensured :
      (required : ℕ) (memory : Bytes) (next : Bytes → Action T (Option Bytes))
      → IsLoaded area memory
      → required ≤ length area
      → ((m : Bytes) → IsLoaded area m → required ≤ length m → Ends P (next m))
      → Ends P (otherwise_fail (ensure_bytes read_block (length area) unfound required memory) next)
  ensured required memory next loaded inside then_on =
      Ends-bind P (IsRead area required)
        (ensure_bytes read_block (length area) unfound required memory) _
        (ensure_bytes-IsRead read_block area unfound reader small required memory loaded inside)
        (λ o (m, e, read, enough). Ends-some P o m _ _ e (then_on m read enough))

  take_value-Ends :
      (type : ℕ) (value rest : Bytes) (offset : ℕ) (memory : Bytes)
      (next : ℕ → Bytes → Action T (Option Bytes))
      → IsAt area offset (value ++ rest)
      → IsLoaded area memory
      → (type ≡ 0x03 → P (some value))
      → (type ≢ 0x03
          → (m : Bytes) → IsLoaded area m
          → IsAt area (offset + length value) rest
          → Ends P (next (offset + length value) m))
      → Ends P (take_value read_block (length area) unfound type (length value) offset memory next)
  unfolding take_value
  take_value-Ends type value rest offset memory next at loaded found passed =
      Ends-when P (ltb (length area - offset) (length value)) _ _
        (λ e. ground (arith, at.reach, length-append value rest))
        (λ e.
          ensured (offset + length value) memory _ loaded
            (omega (arith, at.reach, length-append value rest))
            (λ m read enough.
              Ends-when P (type == 0x03) _ _
                (λ e. Ends-pure P _ (
                  subst (λ v. P (some v)) (sym (value_at area m value rest offset at read enough))
                    (found (ground arith))))
                (λ e. passed (ground arith) m read (IsAt-append area value rest offset at))))

  take_length-Ends :
      (type : ℕ) (form : Form) (value rest : Bytes) (offset : ℕ) (memory : Bytes)
      (next : ℕ → Bytes → Action T (Option Bytes))
      → Fits form (length value)
      → IsAt area offset ((write_length form (length value) ++ value) ++ rest)
      → IsLoaded area memory
      → offset < length memory
      → (type ≡ 0x03 → P (some value))
      → (type ≢ 0x03
          → (m : Bytes) (later : ℕ) → offset < later
          → IsLoaded area m
          → IsAt area later rest
          → Ends P (next later m))
      → Ends P (take_length read_block (length area) unfound type offset memory next)
  unfolding take_length
  take_length-Ends type short value rest offset memory next fits at loaded held found passed =
      let first = byte_at area memory _ offset (length value) at loaded held in
      Ends-when P (get_or memory offset 0 == 0xFF) _ _ (λ e. ground (arith, first, fits))
        (λ e.
          subst
            (λ n.
              Ends P (take_value read_block (length area) unfound type n (offset + 1) memory next))
            (sym first)
            (take_value-Ends type value rest (offset + 1) memory next
              (IsAt-append area (length value ∷ []) (value ++ rest) offset at) loaded found
              (λ t m read at'. passed t m (offset + 1 + length value) (omega arith) read at')))
  take_length-Ends type long value rest offset memory next fits at loaded held found passed =
      let n = length value in
      let first = byte_at area memory _ offset 0xFF at loaded held in
      Ends-when P (get_or memory offset 0 == 0xFF) _ _
        (λ e.
          ensured (offset + 1 + 2) memory _ loaded
            (omega (arith, at.reach, length-append value rest))
            (λ m read enough.
              let second =
                IsAt-append area (0xFF ∷ []) (n / 256 ∷ n % 256 ∷ (value ++ rest)) offset at in
              let third =
                IsAt-append area (0xFF ∷ n / 256 ∷ []) (n % 256 ∷ (value ++ rest)) offset at in
              let high =
                byte_at area m _ (offset + 1) (n / 256) second read (omega (arith, enough)) in
              let low =
                byte_at area m _ (offset + 2) (n % 256) third read (omega (arith, enough)) in
              let whole : get_or m (offset + 1) 0 * 256 + get_or m (offset + 2) 0 ≡ n =
                omega (arith, high, low) in
              subst
                (λ n.
                  Ends P (take_value read_block (length area) unfound type n (offset + 3) m next))
                (sym whole)
                (take_value-Ends type value rest (offset + 3) m next
                  (IsAt-append area (0xFF ∷ n / 256 ∷ n % 256 ∷ []) (value ++ rest) offset at) read
                  found
                  (λ t m read at'. passed t m (offset + 3 + length value) (omega arith) read at'))))
        (λ e. ground (arith, first))

  -- A TLV from its length on, where its type was read.
  tlv-Ends :
      (type : ℕ) (form : Form) (value rest : Bytes) (offset : ℕ) (memory : Bytes)
      (next : ℕ → Bytes → Action T (Option Bytes))
      → Fits form (length value)
      → IsAt area offset (write_tlv type form value ++ rest)
      → IsLoaded area memory
      → offset < length memory
      → (type ≡ 0x03 → P (some value))
      → (type ≢ 0x03
          → (m : Bytes) (later : ℕ) → offset < later
          → IsLoaded area m
          → IsAt area later rest
          → Ends P (next later m))
      → Ends P (
          otherwise_fail
            (ensure_bytes read_block (length area) unfound (offset + 1 + 1) memory)
            (λ m.
              take_length read_block
                (length area)
                unfound
                (get_or memory offset 0)
                (offset + 1)
                m
                next))
  tlv-Ends type form value rest offset memory next fits at loaded held found passed =
      let kind = byte_at area memory _ offset type at loaded held in
      let at' =
        IsAt-append area (type ∷ []) ((write_length form (length value) ++ value) ++ rest) offset
          at in
      ensured (offset + 1 + 1) memory _ loaded (omega (arith, at'.reach, header form value rest))
        (λ m read enough.
          subst (λ t. Ends P (take_length read_block (length area) unfound t (offset + 1) m next))
            (sym kind)
            (take_length-Ends type form value rest (offset + 1) m next fits at' read
              (omega (arith, enough)) found
              (λ t m later after. passed t m later (omega (arith, after)))))

module _ {T : Transport} (P : Option Bytes → Type 0) (read_block : ℕ → Action T (Option Bytes))
    (area unfound : Bytes) (reader : IsReader read_block area) (small : length area ≤ 1008)
    (form : Form) (message rest : Bytes) (fits : Fits form (length message))
    (found : P (some message)) where
  -- A round of the search behind the reading of a type; `again` is the rest of the search.
  step :
      (fuel : ℕ) (blocks : List Block) (offset : ℕ)
      → ((blocks : List Block) (offset : ℕ) (memory : Bytes)
          → All IsOther blocks
          → IsAt area offset (write_area blocks form message rest)
          → IsLoaded area memory
          → length area ≤ offset + fuel
          → Ends P (find_message read_block (length area) unfound fuel offset memory))
      → All IsOther blocks
      → IsAt area offset (write_area blocks form message rest)
      → (m : Bytes) → IsLoaded area m
      → offset < length m
      → length area ≤ suc (offset + fuel)
      → Ends P (
          if get_or m offset 0 == 0x00
          then find_message read_block (length area) unfound fuel (offset + 1) m
          else if get_or m offset 0 == 0xFE
          then pure (some unfound)
          else otherwise_fail
              (ensure_bytes read_block (length area) unfound (offset + 1 + 1) m)
              (λ memory.
                take_length read_block
                  (length area)
                  unfound
                  (get_or m offset 0)
                  (offset + 1)
                  memory
                  (find_message read_block (length area) unfound fuel)))
  step fuel [] offset again others at m read held enough =
      let kind = byte_at area m _ offset 0x03 at read held in
      Ends-when P (get_or m offset 0 == 0x00) _ _ (λ e. ground (arith, kind))
        (λ e.
          Ends-when P (get_or m offset 0 == 0xFE) _ _ (λ e. ground (arith, kind))
            (λ e.
              tlv-Ends P read_block area unfound reader small 0x03 form message rest offset m _ fits
                at read held (λ t. found) (λ t. ground (arith, t))))
  step fuel (null ∷ blocks) offset again others at m read held enough =
      let kind = byte_at area m _ offset 0x00 at read held in
      Ends-when P (get_or m offset 0 == 0x00) _ _
        (λ e.
          again blocks (offset + 1) m others.1
            (IsAt-append area (0x00 ∷ []) (write_area blocks form message rest) offset at) read
            (omega (arith, enough)))
        (λ e. ground (arith, kind))
  step fuel (other type f value ∷ blocks) offset again
        ((null_free, message_free, open_ended, fits'), others) at m read held enough =
      let behind = write_area blocks form message rest in
      let kind = byte_at area m _ offset type at read held in
      Ends-when P (get_or m offset 0 == 0x00) _ _ (λ e. ground (arith, kind, null_free))
        (λ e.
          Ends-when P (get_or m offset 0 == 0xFE) _ _ (λ e. ground (arith, kind, open_ended))
            (λ e.
              tlv-Ends P read_block area unfound reader small type f value behind offset m _ fits'
                at read held (λ t. ground (arith, t, message_free))
                (λ t m later after read at'.
                  again blocks later m others at' read (omega (arith, after, enough)))))

  find-Ends :
      (fuel : ℕ) (blocks : List Block) (offset : ℕ) (memory : Bytes)
      → All IsOther blocks
      → IsAt area offset (write_area blocks form message rest)
      → IsLoaded area memory
      → length area ≤ offset + fuel
      → Ends P (find_message read_block (length area) unfound fuel offset memory)
  unfolding find_message
  find-Ends zero blocks offset memory others at loaded enough =
      ground (arith, at.reach, write_area_positive blocks form message rest)
  find-Ends (suc fuel) blocks offset memory others at loaded enough =
      let more = write_area_positive blocks form message rest in
      Ends-when P (leb (length area) offset) _ _ (λ e. ground (arith, at.reach, more))
        (λ e.
          ensured P read_block area unfound reader small (offset + 1) memory _ loaded
            (omega (arith, at.reach, more))
            (λ m read held.
              step fuel blocks offset (find-Ends fuel) others at m read (omega (arith, held))
                (omega (arith, enough))))

module _ {T : Transport} where
  -- Over a tag whose data area, of at most 1,008 bytes, has any TLVs of other types, then the NDEF
  -- TLV in the short or the long form of its length, then anything, with a reader of blocks that
  -- yields the blocks of that area, and without a cancellation, the search of readType2Ndef ends
  -- and finds the message.
  pub read_message-Ends :
      (read_block : ℕ → Action T (Option Bytes)) (unfound : Bytes) (blocks : List Block)
      (form : Form) (message rest : Bytes)
      → All IsOther blocks
      → Fits form (length message)
      → length (write_area blocks form message rest) ≤ 1008
      → IsReader read_block (write_area blocks form message rest)
      → (s : Bus T)
      → (read_message read_block (length (write_area blocks form message rest)) unfound s).1
        ≡ returned (some message)
  unfolding read_message
  read_message-Ends read_block unfound blocks form message rest others fits small reader s =
      let area = write_area blocks form message rest in
      let start : IsLoaded area [] = record { size = 0; aligned = omega arith; is = refl } in
      let at : IsAt area 0 area = record { reach = omega arith; is = refl } in
      let searched =
        ensured (λ o. o ≡ some message) read_block area unfound reader small
          (minimum 16 (length area)) []
          (find_message read_block (length area) unfound (length area) 0) start (ground arith)
          (λ m read enough.
            find-Ends (λ o. o ≡ some message) read_block area unfound reader small form message rest
              fits refl (length area) blocks 0 m others at read (omega arith)) in
      let (o, e, h) = searched.run s in e ∙ ap returned h
