-- ===== src/Base/Words.antt =====
-- Machine words, and the bits of a byte read off by a table of its 256 values.
use Prim.Native.Nat.{ℕ, zero, suc, ◌+◌, ◌-◌, ◌*◌, ◌/◌, ◌%◌, ◌<◌, bit_and}
use Prim.Native.Char.{code}
use Prim.Native.String.{String}
use mathlib.Core.Path.{◌≡◌, refl}
use mathlib.Core.Bool.{Bool, true, false}
use mathlib.Core.List.{[], ◌∷◌}
use native.Mathlib.Omega.{arith}
use package.cap_cc1101_nfc.Base.Tests.{◌==◌, if◌then◌else◌}
use package.cap_cc1101_nfc.Base.Lists.{Bytes}

-- 2^64 and 2^32: `uint64_t` and `std::size_t`, and `uint32_t`.
abbrev pub u64_mod : ℕ
u64_mod = 0x1_0000_0000_0000_0000

abbrev pub u32_mod : ℕ
u32_mod = 0x1_0000_0000

-- `++n` and `a - b` on 64 and on 32 bits.
abbrev pub inc64 : ℕ → ℕ
inc64 n = (n + 1) % u64_mod

abbrev pub sub64 : ℕ → ℕ → ℕ
sub64 a b = (a + u64_mod - b) % u64_mod

abbrev pub inc32 : ℕ → ℕ
inc32 n = (n + 1) % u32_mod

abbrev pub sub32 : ℕ → ℕ → ℕ
sub32 a b = (a + u32_mod - b) % u32_mod

-- The bytes of an ASCII literal.
abbrev pub codes : String → Bytes
codes String.[] = []
codes (String.◌∷◌ c s) = code c ∷ codes s

abbrev pub IsByte : ℕ → Type 0
IsByte b = b < 256

-- Whether two functions agree on the first numbers.
agree : (ℕ → ℕ) → (ℕ → ℕ) → ℕ → Bool
agree f g zero = true
agree f g (suc last) = if f last == g last then agree f g last else false

agree_at : (f g : ℕ → ℕ) (bound : ℕ) {b : ℕ} → b < bound → agree f g bound ≡ true → f b ≡ g b
unfolding agree
agree_at f g zero below table = absurd (omega arith)
agree_at f g (suc last) {b} below table = ground (arith, agree_at f g last {b = b})

-- What a mask of one bit reads.
abbrev binary_digit : ℕ → ℕ → ℕ
binary_digit k b = b / k % 2 * k

module _ (b : ℕ) (h : IsByte b) where
  pub bit_and_0x80 : bit_and b 0x80 ≡ b / 128 % 2 * 128
  unfolding agree
  bit_and_0x80 = agree_at (λ x. bit_and x 0x80) (binary_digit 0x80) 256 h refl

  pub bit_and_0x40 : bit_and b 0x40 ≡ b / 64 % 2 * 64
  unfolding agree
  bit_and_0x40 = agree_at (λ x. bit_and x 0x40) (binary_digit 0x40) 256 h refl

  pub bit_and_0x20 : bit_and b 0x20 ≡ b / 32 % 2 * 32
  unfolding agree
  bit_and_0x20 = agree_at (λ x. bit_and x 0x20) (binary_digit 0x20) 256 h refl

  pub bit_and_0x10 : bit_and b 0x10 ≡ b / 16 % 2 * 16
  unfolding agree
  bit_and_0x10 = agree_at (λ x. bit_and x 0x10) (binary_digit 0x10) 256 h refl

  pub bit_and_0x08 : bit_and b 0x08 ≡ b / 8 % 2 * 8
  unfolding agree
  bit_and_0x08 = agree_at (λ x. bit_and x 0x08) (binary_digit 0x08) 256 h refl

  pub bit_and_0x07 : bit_and b 0x07 ≡ b % 8
  unfolding agree
  bit_and_0x07 = agree_at (λ x. bit_and x 7) (λ x. x % 8) 256 h refl

  pub bit_and_0x3F : bit_and b 0x3F ≡ b % 64
  unfolding agree
  bit_and_0x3F = agree_at (λ x. bit_and x 0x3F) (λ x. x % 64) 256 h refl

  pub bit_and_0xC0 : bit_and b 0xC0 ≡ b / 64 * 64
  unfolding agree
  bit_and_0xC0 = agree_at (λ x. bit_and x 0xC0) (λ x. x / 64 * 64) 256 h refl
