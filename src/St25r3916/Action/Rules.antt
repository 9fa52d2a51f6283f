-- ===== src/St25r3916/Action/Rules.antt =====
-- Rules for what a method of the driver returns, and for what it does to the driver's state, which
-- go through its steps.
use cap_cc1101_nfc.Base.{
  ℕ, ◌≡◌, ◌∙◌, refl, ap, subst, Bool, true, false, Option, none, some, if◌then◌else◌, String, not,
}
use cap_cc1101_nfc.Types.{Outcome, returned, cancelled, unavailable, failed}
use cap_cc1101_nfc.St25r3916.{Driver}
use cap_cc1101_nfc.St25r3916.Action.{
  on_value, Transport, Bus, Action, follow, ◌>>=◌, pure, throw, gets, modify, call, sense,
  cancel_if, throw_if_cancelled, sleep_for, swallow,
}

-- Every value that is returned satisfies a predicate.
pub record Returns {T : Transport} {A : Type 0} (P : A → Type 0) (m : Action T A) : Type 0 where
  pub run : (s : Bus T) (a : A) → (m s).1 ≡ returned a → P a

-- The action returns, with a value that satisfies a predicate.
pub record Ends {T : Transport} {A : Type 0} (P : A → Type 0) (m : Action T A) : Type 0 where
  pub run : (s : Bus T) → (a : A) × ((m s).1 ≡ returned a) × P a

-- The driver's state satisfies a predicate afterwards if it did before, also on an exception.
pub record Keeps {T : Transport} {A : Type 0} (P : Driver → Type 0) (m : Action T A) : Type 0 where
  pub run : (s : Bus T) → P s.driver → P (m s).0.driver

module _ {T : Transport} {A B : Type 0} where
  follow-Returns :
      (P : B → Type 0) (Q : A → Type 0) (f : A → Action T B) (r : Bus T × Outcome A)
      → ((a : A) → r.1 ≡ returned a → Q a)
      → ((a : A) → Q a → Returns P (f a))
      → (b : B) → (follow f r).1 ≡ returned b
      → P b
  unfolding follow
  follow-Returns P Q f (s, returned a) q g b e = (g a (q a refl)).run s b e
  follow-Returns P Q f (s, cancelled) q g b e = cc
  follow-Returns P Q f (s, unavailable message) q g b e = cc
  follow-Returns P Q f (s, failed message) q g b e = cc

  -- What the first action returns is known to satisfy `Q`.
  pub Returns-after :
      (P : B → Type 0) (Q : A → Type 0) (m : Action T A) (f : A → Action T B)
      → Returns Q m
      → ((a : A) → Q a → Returns P (f a))
      → Returns P (m >>= f)
  unfolding ◌>>=◌
  Returns-after P Q m f q g = record { run = λ s b e. follow-Returns P Q f (m s) (q.run s) g b e }

  pub Returns-bind :
      (P : B → Type 0) (m : Action T A) (f : A → Action T B)
      → ((a : A) → Returns P (f a))
      → Returns P (m >>= f)
  Returns-bind P m f g = Returns-after P (λ a. Unit) m f (record { run = λ s a e. tt }) (λ a q. g a)

  follow-Keeps :
      (P : Driver → Type 0) (f : A → Action T B) (r : Bus T × Outcome A)
      → P r.0.driver
      → ((a : A) → Keeps P (f a))
      → P (follow f r).0.driver
  unfolding follow
  follow-Keeps P f (s, returned a) p g = (g a).run s p
  follow-Keeps P f (s, cancelled) p g = p
  follow-Keeps P f (s, unavailable message) p g = p
  follow-Keeps P f (s, failed message) p g = p

  pub Keeps-bind :
      (P : Driver → Type 0) (m : Action T A) (f : A → Action T B)
      → Keeps P m
      → ((a : A) → Keeps P (f a))
      → Keeps P (m >>= f)
  unfolding ◌>>=◌
  Keeps-bind P m f k g = record { run = λ s p. follow-Keeps P f (m s) (k.run s p) g }

module _ {T : Transport} {A : Type 0} where
  pub Returns-pure : (P : A → Type 0) (a : A) → P a → Returns {T = T} P (pure a)
  unfolding pure
  Returns-pure P a p = record { run = λ s b e. subst P (cc) p }

  pub Ends-pure : (P : A → Type 0) (a : A) → P a → Ends {T = T} P (pure a)
  unfolding pure
  Ends-pure P a p = record { run = λ s. (a, refl, p) }

  pub Ends-when :
      (P : A → Type 0) (b : Bool) (m k : Action T A)
      → (b ≡ true → Ends P m)
      → (b ≡ false → Ends P k)
      → Ends P (if b then m else k)
  Ends-when P true m k p q = p refl
  Ends-when P false m k p q = q refl

  pub Returns-throw : (P : A → Type 0) (message : String) → Returns {T = T} P (throw message)
  unfolding throw
  Returns-throw P message = record { run = λ s b e. cc }

  pub Returns-if :
      (P : A → Type 0) (b : Bool) (m k : Action T A)
      → Returns P m
      → Returns P k
      → Returns P (if b then m else k)
  Returns-if P true m k p q = p
  Returns-if P false m k p q = q

  pub Returns-if_not :
      (P : A → Type 0) (b : Bool) (m k : Action T A)
      → Returns P m
      → Returns P k
      → Returns P (if not b then m else k)
  Returns-if_not P true m k p q = q
  Returns-if_not P false m k p q = p

  -- The rule for a test whose answer matters.
  pub Returns-when :
      (P : A → Type 0) (b : Bool) (m k : Action T A)
      → (b ≡ true → Returns P m)
      → (b ≡ false → Returns P k)
      → Returns P (if b then m else k)
  Returns-when P true m k p q = p refl
  Returns-when P false m k p q = q refl

  pub Returns-when_not :
      (P : A → Type 0) (b : Bool) (m k : Action T A)
      → (b ≡ false → Returns P m)
      → (b ≡ true → Returns P k)
      → Returns P (if not b then m else k)
  Returns-when_not P true m k p q = q refl
  Returns-when_not P false m k p q = p refl

  pub Keeps-pure : (P : Driver → Type 0) (a : A) → Keeps {T = T} P (pure a)
  unfolding pure
  Keeps-pure P a = record { run = λ s p. p }

  pub Keeps-gets : (P : Driver → Type 0) (f : Driver → A) → Keeps {T = T} P (gets f)
  unfolding gets
  Keeps-gets P f = record { run = λ s p. p }

  pub Keeps-call :
      (P : Driver → Type 0) (f : T.World → T.World × Outcome A) → Keeps {T = T} P (call f)
  unfolding call
  Keeps-call P f = record { run = λ s p. p }

  pub Keeps-sense : (P : Driver → Type 0) (f : T.World → T.World × A) → Keeps {T = T} P (sense f)
  unfolding sense
  Keeps-sense P f = record { run = λ s p. p }

  pub Keeps-if :
      (P : Driver → Type 0) (b : Bool) (m k : Action T A)
      → Keeps P m
      → Keeps P k
      → Keeps P (if b then m else k)
  Keeps-if P true m k p q = p
  Keeps-if P false m k p q = q

  pub Keeps-if_not :
      (P : Driver → Type 0) (b : Bool) (m k : Action T A)
      → Keeps P m
      → Keeps P k
      → Keeps P (if not b then m else k)
  Keeps-if_not P true m k p q = q
  Keeps-if_not P false m k p q = p

module _ {T : Transport} where
  pub Keeps-throw :
      {A : Type 0} (P : Driver → Type 0) (message : String)
      → Keeps {T = T} {A = A} P (throw message)
  unfolding throw
  Keeps-throw P message = record { run = λ s p. p }

  pub Keeps-modify :
      (P : Driver → Type 0) (f : Driver → Driver)
      → ((d : Driver) → P d → P (f d))
      → Keeps {T = T} P (modify f)
  unfolding modify
  Keeps-modify P f h = record { run = λ s p. h s.driver p }

  pub Keeps-swallow :
      (P : Driver → Type 0) (m : Action T (Unit {0})) → Keeps P m → Keeps P (swallow m)
  unfolding swallow
  Keeps-swallow P m k = record { run = k.run }

  cancel_if-Keeps : (P : Driver → Type 0) (b : Bool) → Keeps {T = T} P (cancel_if b)
  cancel_if-Keeps P true = record { run = λ s p. p }
  cancel_if-Keeps P false = record { run = λ s p. p }

  pub throw_if_cancelled-Keeps : (P : Driver → Type 0) → Keeps {T = T} P throw_if_cancelled
  unfolding throw_if_cancelled
  throw_if_cancelled-Keeps P =
      Keeps-bind P (sense T.stop_requested) cancel_if (Keeps-sense P T.stop_requested)
        (cancel_if-Keeps P)

  pub sleep_for-Keeps : (P : Driver → Type 0) (ms : ℕ) → Keeps {T = T} P (sleep_for ms)
  unfolding sleep_for
  sleep_for-Keeps P ms = Keeps-call P (T.sleep_for ms)

module _ {T : Transport} {A B : Type 0} where
  follow-returned :
      (f : A → Action T B) (r : Bus T × Outcome A) (a : A) → r.1 ≡ returned a → follow f r ≡ f a r.0
  unfolding follow
  follow-returned f (s, returned b) a e = ap (λ x. f x s) (cc)
  follow-returned f (s, cancelled) a e = cc
  follow-returned f (s, unavailable message) a e = cc
  follow-returned f (s, failed message) a e = cc

  -- What follows an action that is known to return.
  pub bind-returned :
      (m : Action T A) (f : A → Action T B) (s : Bus T) (a : A)
      → (m s).1 ≡ returned a
      → (m >>= f) s ≡ f a (m s).0
  unfolding ◌>>=◌
  bind-returned m f s a e = follow-returned f (m s) a e

module _ {T : Transport} {A B : Type 0} where
  pub Ends-bind :
      (P : B → Type 0) (Q : A → Type 0) (m : Action T A) (f : A → Action T B)
      → Ends Q m
      → ((a : A) → Q a → Ends P (f a))
      → Ends P (m >>= f)
  Ends-bind P Q m f p q = record {
    run = λ s.
        let (a, e, h) = p.run s in
        let (b, e', h') = (q a h).run (m s).0 in
        (b, ap (λ r. r.1) (bind-returned m f s a e) ∙ e', h');
  }

module _ {T : Transport} {A B : Type 0} where
  pub Keeps-value :
      (P : Driver → Type 0) (o : Option A) (absent : Action T B) (present : A → Action T B)
      → Keeps P absent
      → ((a : A) → Keeps P (present a))
      → Keeps P (on_value o absent present)
  unfolding on_value
  Keeps-value P none absent present p q = p
  Keeps-value P (some a) absent present p q = q a

  pub Ends-some :
      (P : B → Type 0) (o : Option A) (a : A) (absent : Action T B) (present : A → Action T B)
      → o ≡ some a
      → Ends P (present a)
      → Ends P (on_value o absent present)
  unfolding on_value
  Ends-some P none a absent present e p = cc
  Ends-some P (some b) a absent present e p = subst (λ x. Ends P (present x)) (cc) p

  pub Returns-value :
      (P : B → Type 0) (o : Option A) (absent : Action T B) (present : A → Action T B)
      → Returns P absent
      → ((a : A) → o ≡ some a → Returns P (present a))
      → Returns P (on_value o absent present)
  unfolding on_value
  Returns-value P none absent present p q = p
  Returns-value P (some a) absent present p q = q a refl

pub ruleset returns =
    (Returns-bind, Returns-pure, Returns-throw, Returns-if, Returns-if_not, Returns-value)

pub ruleset returns_when =
    (Returns-bind, Returns-pure, Returns-throw, Returns-when, Returns-when_not, Returns-value)
