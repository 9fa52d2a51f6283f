-- ===== src/St25r3916/Lifecycle/Ready.antt =====
-- An initialization that returns leaves the driver ready.
use cap_cc1101_nfc.Base.{◌≡◌, refl, Bool, true, false, not, if◌then◌else◌, String}
use cap_cc1101_nfc.Types.{Outcome, returned, cancelled, unavailable, failed}
use cap_cc1101_nfc.St25r3916.{Driver, ChipInfo}
use cap_cc1101_nfc.St25r3916.Action.{Transport, Bus, Action, follow, ◌>>=◌, pure, throw, modify}
use cap_cc1101_nfc.St25r3916.Lifecycle.{initialize, started_nfc_a}

-- An action that returns leaves the driver in a state that satisfies a predicate.
record Leaves {T : Transport} {A : Type 0} (P : Driver → Type 0) (m : Action T A) : Type 0 where
  pub run : (s : Bus T) (a : A) → (m s).1 ≡ returned a → P (m s).0.driver

module _ {T : Transport} {A B : Type 0} where
  follow-Leaves :
      (P : Driver → Type 0) (f : A → Action T B) (r : Bus T × Outcome A)
      → ((a : A) → Leaves P (f a))
      → (b : B) → (follow f r).1 ≡ returned b
      → P (follow f r).0.driver
  unfolding follow
  follow-Leaves P f (s, returned a) g b e = (g a).run s b e
  follow-Leaves P f (s, cancelled) g b e = cc
  follow-Leaves P f (s, unavailable message) g b e = cc
  follow-Leaves P f (s, failed message) g b e = cc

  Leaves-then :
      (P : Driver → Type 0) (m : Action T A) (f : A → Action T B)
      → ((a : A) → Leaves P (f a))
      → Leaves P (m >>= f)
  unfolding ◌>>=◌
  Leaves-then P m f g = record { run = λ s b e. follow-Leaves P f (m s) g b e }

module _ {T : Transport} {A : Type 0} where
  Leaves-throw : (P : Driver → Type 0) (message : String) → Leaves {T = T} {A = A} P (throw message)
  unfolding throw
  Leaves-throw P message = record { run = λ s b e. cc }

  Leaves-if_not :
      (P : Driver → Type 0) (b : Bool) (m k : Action T A)
      → Leaves P m
      → Leaves P k
      → Leaves P (if not b then m else k)
  Leaves-if_not P true m k p q = q
  Leaves-if_not P false m k p q = p

  -- The last change of the state makes it so.
  Leaves-modified :
      (P : Driver → Type 0) (f : Driver → Driver) (a : A)
      → ((d : Driver) → P (f d))
      → Leaves {T = T} P (modify f >>= λ u. pure a)
  unfolding ◌>>=◌ modify pure follow
  Leaves-modified P f a h = record { run = λ s b e. h s.driver }

begun-ready : (d : Driver) → (record (started_nfc_a d) { ready = true }).ready ≡ true
begun-ready d = refl

module _ {T : Transport} where
  pub initialize-ready :
      (s : Bus T) (chip : ChipInfo)
      → (initialize s).1 ≡ returned chip
      → (initialize s).0.driver.ready ≡ true
  unfolding initialize
  initialize-ready s chip e = leaves.run s chip e
    where
      leaves : Leaves {T = T} (λ d. d.ready ≡ true) initialize
      leaves =
          search (Leaves-modified, Leaves-then, Leaves-throw, Leaves-if_not, begun-ready) depth 20
