-- ===== src/St25r3916/Action.antt =====
-- The transport of src/nfc/st25r3916_driver.hpp, and the driver's methods as actions: a method takes
-- the driver and the surroundings, changes both, and returns or throws.
pub mod Rules
pub mod Time
use cap_cc1101_nfc.Base.{
  ℕ, zero, suc, ◌+◌, ◌%◌, ◌≡◌, refl, String, Bool, true, false, List, [], ◌∷◌, Bytes, Option, none,
  some, if◌then◌else◌,
}
use cap_cc1101_nfc.Types.{Outcome, returned, cancelled, unavailable, failed}
use cap_cc1101_nfc.St25r3916.{Driver}

-- St25r3916Transport, with the clock and the flag that the cancellation token reads. `World` is all
-- that lies behind it: the bus, the chip, the time, and the thread that may ask to stop. A transfer
-- leaves a byte at every index of its receive buffer; times are milliseconds, the clock counts
-- nanoseconds.
pub record Transport : Type 1 where
  pub World : Type 0
  pub transfer : Bytes → World → World × Outcome (ℕ → ℕ)
  pub interrupt_asserted : World → World × Outcome Bool
  pub wait_for_interrupt : ℕ → World → World × Outcome Bool
  pub sleep_for : ℕ → World → World × Outcome (Unit {0})
  pub clock : World → World × ℕ
  pub stop_requested : World → World × Bool

pub record Bus (T : Transport) : Type 0 where
  pub driver : Driver
  pub world : T.World

abbrev pub Action : Transport → Type 0 → Type 0
Action T A = Bus T → Bus T × Outcome A

-- What follows an action that returned; an exception goes past it.
unfoldable pub follow :
    {T : Transport} {A B : Type 0} → (A → Action T B) → Bus T × Outcome A → Bus T × Outcome B
follow f (s, returned a) = f a s
follow f (s, cancelled) = (s, cancelled)
follow f (s, unavailable message) = (s, unavailable message)
follow f (s, failed message) = (s, failed message)

infixl 5 ◌>>=◌ ◌>>◌
unfoldable pub ◌>>=◌ : {T : Transport} {A B : Type 0} → Action T A → (A → Action T B) → Action T B
unfolding follow
◌>>=◌ m f s = follow f (m s)

abbrev pub ◌>>◌ : {T : Transport} {B : Type 0} → Action T (Unit {0}) → Action T B → Action T B
m >> k = m >>= λ _. k

unfoldable pub pure : {T : Transport} {A : Type 0} → A → Action T A
pure a s = (s, returned a)

unfoldable pub throw : {T : Transport} {A : Type 0} → String → Action T A
throw message s = (s, failed message)

unfoldable pub gets : {T : Transport} {A : Type 0} → (Driver → A) → Action T A
gets f s = (s, returned (f s.driver))

unfoldable pub modify : {T : Transport} → (Driver → Driver) → Action T (Unit {0})
modify f s = (record s { driver = f s.driver }, returned tt)

-- A call of the transport.
unfoldable pub call : {T : Transport} {A : Type 0} → (T.World → T.World × Outcome A) → Action T A
call f s = let (w, o) = f s.world in (record s { world = w }, o)

-- A reading of the transport, which does not throw.
unfoldable pub sense : {T : Transport} {A : Type 0} → (T.World → T.World × A) → Action T A
sense f s = let (w, a) = f s.world in (record s { world = w }, returned a)

-- `throwIfCancellationRequested`
abbrev pub cancel_if : {T : Transport} → Bool → Action T (Unit {0})
cancel_if true s = (s, cancelled)
cancel_if false s = (s, returned tt)

unfoldable pub throw_if_cancelled : {T : Transport} → Action T (Unit {0})
throw_if_cancelled {T} = sense T.stop_requested >>= cancel_if

unfoldable pub sleep_for : {T : Transport} → ℕ → Action T (Unit {0})
sleep_for {T} ms = call (T.sleep_for ms)

-- What follows a value that may be missing.
unfoldable pub on_value :
    {T : Transport} {A B : Type 0} → Option A → Action T B → (A → Action T B) → Action T B
on_value none absent present = absent
on_value (some a) absent present = present a

-- `try { ... } catch (const std::exception&) { log }`
unfoldable pub swallow : {T : Transport} → Action T (Unit {0}) → Action T (Unit {0})
swallow m s = ((m s).0, returned tt)
