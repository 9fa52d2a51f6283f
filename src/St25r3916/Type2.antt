-- ===== src/St25r3916/Type2.antt =====
-- readType2Ndef of src/nfc/st25r3916_driver.cpp: the NDEF message of a Type 2 tag, whose memory is
-- read as far as it is needed.
pub mod Memory
pub mod Found
use cap_cc1101_nfc.Base.{
  ℕ, zero, suc, ◌+◌, ◌-◌, ◌*◌, ◌/◌, Bool, true, false, not, ◌||◌, ltb, leb, ◌==◌, ◌!=◌,
  if◌then◌else◌, Bytes, [], ◌++◌, length, get_or, take, drop, Option, none, some,
}
use cap_cc1101_nfc.St25r3916.{NfcATag}
use cap_cc1101_nfc.St25r3916.Action.{
  on_value, Transport, Action, ◌>>=◌, ◌>>◌, pure, throw_if_cancelled,
}
use cap_cc1101_nfc.St25r3916.Codes.{maximum_ndef_size}
use cap_cc1101_nfc.St25r3916.Bus.{minimum}
use cap_cc1101_nfc.St25r3916.Exchange.{read_type2_block}

module _ {T : Transport} where
  -- What follows a step that may fail, in place of `return false`.
  abbrev pub otherwise_fail :
      {A B : Type 0} → Action T (Option A) → (A → Action T (Option B)) → Action T (Option B)
  otherwise_fail m f = m >>= λ o. on_value o (pure none) f

  -- The bytes that the tag has for a message where none is found are `unfound`.
  module _ (read_block : ℕ → Action T (Option Bytes)) (capacity : ℕ) (unfound : Bytes) where
    -- The loop of ensureBytes on fuel. A round adds a byte or fails, so the number of bytes that
    -- are required is enough.
    unfoldable pub fill : ℕ → ℕ → Bytes → Action T (Option Bytes)
    fill zero required memory = pure (some memory)
    fill (suc fuel) required memory =
        if leb required (length memory) then pure (some memory) else do
          throw_if_cancelled
          let page = 4 + length memory / 4
          if ltb 0xFF page
              then pure none
              else otherwise_fail (read_block page) (λ block.
                fill fuel required (memory ++ take (minimum 16 (capacity - length memory)) block))

    -- The memory with at least so many bytes of it read.
    unfoldable pub ensure_bytes : ℕ → Bytes → Action T (Option Bytes)
    ensure_bytes required memory =
        if ltb capacity required then pure none else fill required required memory

    -- The value of the TLV at `offset` of so many bytes: of the message, or to be passed by.
    unfoldable pub take_value :
        ℕ → ℕ → ℕ → Bytes → (ℕ → Bytes → Action T (Option Bytes)) → Action T (Option Bytes)
    take_value type length offset memory next =
        if ltb (capacity - offset) length
        then pure none
        else otherwise_fail (ensure_bytes (offset + length) memory) (λ memory.
          if type == 0x03
          then pure (some (take length (drop offset memory)))
          else next (offset + length) memory)

    -- The length of the TLV whose length field is at `offset`.
    unfoldable pub take_length :
        ℕ → ℕ → Bytes → (ℕ → Bytes → Action T (Option Bytes)) → Action T (Option Bytes)
    take_length type offset memory next =
        if get_or memory offset 0 == 0xFF
        then otherwise_fail (ensure_bytes (offset + 1 + 2) memory) (λ memory.
          take_value type (get_or memory (offset + 1) 0 * 256 + get_or memory (offset + 2) 0)
            (offset + 3) memory next)
        else take_value type (get_or memory offset 0) (offset + 1) memory next

    -- The loop over the TLVs, on fuel: every round takes a byte of the capacity.
    unfoldable pub find_message : ℕ → ℕ → Bytes → Action T (Option Bytes)
    find_message zero offset memory = pure (some unfound)
    find_message (suc fuel) offset memory =
        if leb capacity offset
        then pure (some unfound)
        else otherwise_fail (ensure_bytes (offset + 1) memory) (λ memory.
          let type = get_or memory offset 0 in
          if type == 0x00
          then find_message fuel (offset + 1) memory
          else if type == 0xFE
          then pure (some unfound)
          else otherwise_fail (ensure_bytes (offset + 1 + 1) memory)
              (λ memory. take_length type (offset + 1) memory (find_message fuel)))

    -- The part of readType2Ndef behind the capability container.
    unfoldable pub read_message : Action T (Option Bytes)
    read_message =
        otherwise_fail (ensure_bytes (minimum 16 capacity) [])
          (λ memory. find_message capacity 0 memory)

  -- readType2Ndef over the reader of blocks: the tag as it is left, and the answer.
  unfoldable pub read_ndef : (ℕ → Action T (Option Bytes)) → NfcATag → Action T (NfcATag × Bool)
  read_ndef read_block tag = read_block 0 >>= λ manufacturer.
      on_value manufacturer (pure (tag, false)) (λ bytes.
        let capacity = get_or bytes 14 0 * 8 in
        if get_or bytes 12 0 != 0xE1
          || ltb (get_or bytes 13 0 / 16) 1
          || capacity == 0
          || ltb maximum_ndef_size capacity
        then pure (tag, false)
        else let supported = record tag {
          ndef_supported = true;
          ndef_capacity = capacity;
          ndef_readable = get_or bytes 15 0 / 16 == 0;
        } in
          if not supported.ndef_readable
          then pure (supported, true)
          else (read_message read_block capacity tag.ndef_message >>= λ message.
              on_value message (pure (supported, false))
                (λ bytes. pure (record supported { ndef_message = bytes }, true))))

  unfoldable pub read_type2_ndef : NfcATag → Action T (NfcATag × Bool)
  read_type2_ndef tag = read_ndef read_type2_block tag
