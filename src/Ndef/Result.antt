-- ===== src/Ndef/Result.antt =====
-- The parser's failures as values: `failure(message)` and the `error` of decodeRecord.
use cap_cc1101_nfc.Base.{String, Bool, true, false, Option, none, some, ◌≡◌, refl}

pub data Result {ℓ} (A : Type ℓ) : Type ℓ where
  err : String → Result A
  ok : A → Result A

-- What follows a call that succeeded, on its value or without it.
infixl 5 ◌>>=◌ ◌>>◌
abbrev pub ◌>>=◌ {ℓ κ} : {X : Type ℓ} {Y : Type κ} → Result X → (X → Result Y) → Result Y
err message >>= next = err message
ok x >>= next = next x

-- `if (test) return failure(message);`
abbrev pub reject_if : Bool → String → Result (Unit {0})
reject_if false message = ok tt
reject_if true message = err message

abbrev pub ◌>>◌ {ℓ} : {Y : Type ℓ} → Result (Unit {0}) → Result Y → Result Y
test >> later = test >>= λ passed. later

-- `if (!cursor.read(...)) return failure(message);`
unfoldable pub or_fail {ℓ} : {A : Type ℓ} → Option A → String → Result A
or_fail none message = err message
or_fail (some a) message = ok a

-- Inversion of a chain that succeeds, handed on to what follows.
pub >>=-elim {ℓ κ μ} :
    {X : Type ℓ} {Y : Type κ} {C : Type μ} (first : Result X) (next : X → Result Y) {y : Y}
    → (first >>= next) ≡ ok y
    → ((x : X) → first ≡ ok x → next x ≡ ok y → C)
    → C
>>=-elim (err message) next h k = absurd cc
>>=-elim (ok x) next h k = k x refl h

-- The value that the first call returned.
pub >>=-eq-ok {ℓ κ} :
    {X : Type ℓ} {Y : Type κ} (first : Result X) (next : X → Result Y) {y : Y}
    → (first >>= next) ≡ ok y
    → (x : X) × (first ≡ ok x) × (next x ≡ ok y)
>>=-eq-ok first next h = >>=-elim first next h (λ x e done. (x, e, done))

pub reject_if-eq-ok :
    (b : Bool) (message : String) {u : Unit {0}} → reject_if b message ≡ ok u → b ≡ false
reject_if-eq-ok true message h = cc
reject_if-eq-ok false message h = refl

pub or_fail-eq-ok {ℓ} :
    {A : Type ℓ} (o : Option A) (message : String) {a : A} → or_fail o message ≡ ok a → o ≡ some a
unfolding or_fail
or_fail-eq-ok none message h = cc
or_fail-eq-ok (some b) message h = cc
