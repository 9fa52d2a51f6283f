-- ===== src/Model/Diagnostics.antt =====
-- The messages of NfcModel: a number in decimal, and the search for the colon that marks a detailed
-- error.
use Prim.Native.Char.{code}
use Prim.Native.String.{String, [] as end, ◌∷◌ as ◌then◌, ◌++◌, slice, char_at}
use package.text.Mathlib.TextLemmas.{nil-append, cons-append}
use cap_cc1101_nfc.Base.{
  ℕ, zero, suc, ◌/◌, ◌%◌, ◌≡◌, ap, Bool, true, false, ◌||◌, ◌==◌, ltb, if◌then◌else◌, arith,
}

-- `find(':') != npos`
pub has_colon : String → Bool
has_colon end = false
has_colon (c then s) = code c == 58 || has_colon s

abbrev digit : ℕ → String
digit n = slice "0123456789" n (suc n)

digits : ℕ → ℕ → String
digits zero n = ""
digits (suc fuel) n =
    let rest = digits fuel (n / 10) in if ltb n 10 then digit n else rest ++ digit (n % 10)

-- `std::to_string`, for a 64-bit number, which has at most 20 digits.
pub to_string : ℕ → String
unfolding digits
to_string n = digits 20 n

-- A message behind a stage or an operation has the colon.
pub has_colon-detail : (stage message : String) → has_colon (stage ++ (": " ++ message)) ≡ true
unfolding has_colon
has_colon-detail end message =
    rw (nil-append (": " ++ message)) (ap has_colon (cons-append (char_at ":" 0) " " message))
has_colon-detail (c then stage) message =
    rw (cons-append c stage (": " ++ message), has_colon-detail stage message) (ground arith)
