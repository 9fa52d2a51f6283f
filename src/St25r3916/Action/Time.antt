-- ===== src/St25r3916/Action/Time.antt =====
-- The time that actions take, and actions that agree from a time on.
use cap_cc1101_nfc.Base.{
  ℕ, suc, ◌+◌, ◌≤◌, ◌≡◌, refl, arith, Bool, true, false, if◌then◌else◌, String, Bytes,
}
use cap_cc1101_nfc.Types.{Outcome, returned, cancelled, unavailable, failed}
use cap_cc1101_nfc.St25r3916.{Driver}
use cap_cc1101_nfc.St25r3916.Action.{
  Transport, Bus, Action, follow, ◌>>=◌, pure, throw, gets, modify, call, sense, cancel_if,
  throw_if_cancelled, sleep_for,
}

-- A transport in time: the clock reads the time, which no call sets back. To look at the interrupt
-- line takes at least a nanosecond, and a sleep of a millisecond at least as long.
pub record Timed (T : Transport) : Type 0 where
  pub time : T.World → ℕ
  pub clock_reads : (w : T.World) → time w ≤ (T.clock w).1
  pub clock_passes : (w : T.World) → (T.clock w).1 ≤ time (T.clock w).0
  pub stop_passes : (w : T.World) → time w ≤ time (T.stop_requested w).0
  pub transfer_passes : (bytes : Bytes) (w : T.World) → time w ≤ time (T.transfer bytes w).0
  pub asserted_takes :
      (w : T.World) (b : Bool)
      → (T.interrupt_asserted w).1 ≡ returned b
      → suc (time w) ≤ time (T.interrupt_asserted w).0
  pub wait_passes : (ms : ℕ) (w : T.World) → time w ≤ time (T.wait_for_interrupt ms w).0
  pub sleep_takes :
      (w : T.World) → (T.sleep_for 1 w).1 ≡ returned tt → suc (time w) ≤ time (T.sleep_for 1 w).0

module _ {T : Transport} (timed : Timed T) where
  open timed use {time}

  -- An action that returns has taken so long.
  pub record Takes {A : Type 0} (n : ℕ) (m : Action T A) : Type 0 where
    pub run : (s : Bus T) (a : A) → (m s).1 ≡ returned a → n + time s.world ≤ time (m s).0.world

  -- The two actions do the same, begun at any time from `t` on.
  pub record Agree {A : Type 0} (t : ℕ) (m k : Action T A) : Type 0 where
    pub run : (s : Bus T) → t ≤ time s.world → m s ≡ k s

module _ {T : Transport} {timed : Timed T} {A B : Type 0} where
  open timed use {time}

  follow-time :
      (n : ℕ) (f : A → Action T B) (r : Bus T × Outcome A)
      → ((a : A) → r.1 ≡ returned a → n ≤ time r.0.world)
      → ((a : A) → Takes timed 0 (f a))
      → (b : B) → (follow f r).1 ≡ returned b
      → n ≤ time (follow f r).0.world
  unfolding follow
  follow-time n f (s, returned a) p g b e = omega (arith, p a refl, (g a).run s b e)
  follow-time n f (s, cancelled) p g b e = cc
  follow-time n f (s, unavailable message) p g b e = cc
  follow-time n f (s, failed message) p g b e = cc

  -- The first action takes the time.
  pub Takes-first :
      (n : ℕ) (m : Action T A) (f : A → Action T B)
      → Takes timed n m
      → ((a : A) → Takes timed 0 (f a))
      → Takes timed n (m >>= f)
  unfolding ◌>>=◌
  Takes-first n m f p g = record {
    run = λ s b e. follow-time (n + time s.world) f (m s) (p.run s) g b e;
  }

  follow-time_then :
      (n t : ℕ) (f : A → Action T B) (r : Bus T × Outcome A)
      → ((a : A) → r.1 ≡ returned a → t ≤ time r.0.world)
      → ((a : A) → Takes timed n (f a))
      → (b : B) → (follow f r).1 ≡ returned b
      → n + t ≤ time (follow f r).0.world
  unfolding follow
  follow-time_then n t f (s, returned a) p g b e = omega (arith, p a refl, (g a).run s b e)
  follow-time_then n t f (s, cancelled) p g b e = cc
  follow-time_then n t f (s, unavailable message) p g b e = cc
  follow-time_then n t f (s, failed message) p g b e = cc

  -- What follows takes the time.
  pub Takes-then :
      (n : ℕ) (m : Action T A) (f : A → Action T B)
      → Takes timed 0 m
      → ((a : A) → Takes timed n (f a))
      → Takes timed n (m >>= f)
  unfolding ◌>>=◌
  Takes-then n m f p g = record {
    run = λ s b e.
        follow-time_then n (time s.world) f (m s) (λ a e. omega (arith, p.run s a e)) g b e;
  }

  follow-agrees :
      (t : ℕ) (f g : A → Action T B) (r : Bus T × Outcome A)
      → ((a : A) → r.1 ≡ returned a → t ≤ time r.0.world)
      → ((a : A) → Agree timed t (f a) (g a))
      → follow f r ≡ follow g r
  unfolding follow
  follow-agrees t f g (s, returned a) p h = (h a).run s (p a refl)
  follow-agrees t f g (s, cancelled) p h = refl
  follow-agrees t f g (s, unavailable message) p h = refl
  follow-agrees t f g (s, failed message) p h = refl

  pub Agree-after :
      (n t : ℕ) (m : Action T A) (f g : A → Action T B)
      → Takes timed n m
      → ((a : A) → Agree timed (n + t) (f a) (g a))
      → Agree timed t (m >>= f) (m >>= g)
  unfolding ◌>>=◌
  Agree-after n t m f g p h = record {
    run = λ s le. follow-agrees (n + t) f g (m s) (λ a e. omega (arith, p.run s a e, le)) h;
  }

  pub Agree-bind :
      (t : ℕ) (m : Action T A) (f g : A → Action T B)
      → Takes timed 0 m
      → ((a : A) → Agree timed t (f a) (g a))
      → Agree timed t (m >>= f) (m >>= g)
  unfolding ◌>>=◌
  Agree-bind t m f g p h = record {
    run = λ s le. follow-agrees t f g (m s) (λ a e. omega (arith, p.run s a e, le)) h;
  }

module _ {T : Transport} {timed : Timed T} {A : Type 0} where
  open timed use {time}

  pub Takes-pure : (a : A) → Takes {T = T} timed 0 (pure a)
  unfolding pure
  Takes-pure a = record { run = λ s b e. omega arith }

  pub Takes-throw : (n : ℕ) (message : String) → Takes {T = T} timed {A = A} n (throw message)
  unfolding throw
  Takes-throw n message = record { run = λ s b e. cc }

  pub Takes-gets : (f : Driver → A) → Takes {T = T} timed 0 (gets f)
  unfolding gets
  Takes-gets f = record { run = λ s b e. omega arith }

  pub Takes-if :
      (n : ℕ) (b : Bool) (m k : Action T A)
      → Takes timed n m
      → Takes timed n k
      → Takes timed n (if b then m else k)
  Takes-if n true m k p q = p
  Takes-if n false m k p q = q

  pub Agree-refl : (t : ℕ) (m : Action T A) → Agree timed t m m
  Agree-refl t m = record { run = λ s le. refl }

  pub Agree-when :
      (t : ℕ) (b : Bool) (m k m' k' : Action T A)
      → (b ≡ true → Agree timed t m m')
      → (b ≡ false → Agree timed t k k')
      → Agree timed t (if b then m else k) (if b then m' else k')
  Agree-when t true m k m' k' p q = p refl
  Agree-when t false m k m' k' p q = q refl

  -- The clock is read, and what follows begins no earlier.
  pub Agree-now :
      (f g : ℕ → Action T A)
      → ((now : ℕ) → Agree timed now (f now) (g now))
      → (s : Bus T) → (sense T.clock >>= f) s ≡ (sense T.clock >>= g) s
  unfolding ◌>>=◌ sense follow
  Agree-now f g h s = (h (T.clock s.world).1).run _ (omega (arith, timed.clock_passes s.world))

  -- A reading of the clock that is not before `t`.
  pub Agree-clock :
      (t : ℕ) (f g : ℕ → Action T A)
      → ((now : ℕ) → t ≤ now → Agree timed t (f now) (g now))
      → Agree timed t (sense T.clock >>= f) (sense T.clock >>= g)
  unfolding ◌>>=◌ sense follow
  Agree-clock t f g h = record {
    run = λ s le.
        (h (T.clock s.world).1 (omega (arith, timed.clock_reads s.world, le))).run _
          (omega (arith, timed.clock_reads s.world, timed.clock_passes s.world, le));
  }

module _ {T : Transport} {timed : Timed T} where
  open timed use {time}

  pub Takes-modify : (f : Driver → Driver) → Takes {T = T} timed 0 (modify f)
  unfolding modify
  Takes-modify f = record { run = λ s b e. omega arith }

  pub transfer-Takes : (bytes : Bytes) → Takes {T = T} timed 0 (call (T.transfer bytes))
  unfolding call
  transfer-Takes bytes = record {
    run = λ s a e. omega (arith, timed.transfer_passes bytes s.world);
  }

  pub asserted-Takes : Takes {T = T} timed 1 (call T.interrupt_asserted)
  unfolding call
  asserted-Takes = record { run = λ s a e. omega (arith, timed.asserted_takes s.world a e) }

  pub asserted_passes : Takes {T = T} timed 0 (call T.interrupt_asserted)
  asserted_passes = record { run = λ s a e. omega (arith, asserted-Takes.run s a e) }

  pub wait-Takes : (ms : ℕ) → Takes {T = T} timed 0 (call (T.wait_for_interrupt ms))
  unfolding call
  wait-Takes ms = record { run = λ s a e. omega (arith, timed.wait_passes ms s.world) }

  pub clock-Takes : Takes {T = T} timed 0 (sense T.clock)
  unfolding sense
  clock-Takes = record {
    run = λ s a e. omega (arith, timed.clock_reads s.world, timed.clock_passes s.world);
  }

  cancel_if-Takes : (b : Bool) → Takes {T = T} timed 0 (cancel_if b)
  cancel_if-Takes true = record { run = λ s a e. cc }
  cancel_if-Takes false = record { run = λ s a e. omega arith }

  stop_requested-Takes : Takes {T = T} timed 0 (sense T.stop_requested)
  unfolding sense
  stop_requested-Takes = record { run = λ s a e. omega (arith, timed.stop_passes s.world) }

  pub throw_if_cancelled-Takes : Takes {T = T} timed 0 throw_if_cancelled
  unfolding throw_if_cancelled
  throw_if_cancelled-Takes =
      Takes-first 0 (sense T.stop_requested) cancel_if stop_requested-Takes cancel_if-Takes

  pub sleep_for-Takes : Takes {T = T} timed 1 (sleep_for 1)
  unfolding sleep_for call
  sleep_for-Takes = record { run = λ s a e. omega (arith, timed.sleep_takes s.world e) }

pub ruleset takes = (
  Takes-first, Takes-pure, Takes-throw, Takes-gets, Takes-if, Takes-modify, transfer-Takes,
  asserted_passes, wait-Takes, clock-Takes, throw_if_cancelled-Takes,
)

pub ruleset agrees = (Agree-clock, Agree-bind, Agree-when, Agree-refl)
