-- ===== src/LinuxBackend/Sleeping.antt =====
-- cancellableSleep of src/nfc/linux_nfc_backend.cpp in time: it ends before its fuel does.
use cap_cc1101_nfc.Base.{
  ℕ, zero, suc, ◌+◌, ◌*◌, ◌≤◌, ◌<◌, ◌≡◌, refl, arith, Bool, true, false, leb, if◌then◌else◌,
}
use cap_cc1101_nfc.Types.{Outcome, cancelled}
use cap_cc1101_nfc.St25r3916.Bus.{minimum, maximum}
use cap_cc1101_nfc.St25r3916.Interrupts.{deadline_in, remaining_ms}
use cap_cc1101_nfc.LinuxBackend.Board.{Board, throw_if_cancelled, sleep_loop, cancellable_sleep}

-- A board in time: the clock reads it, the flag does not set it back, and a sleep of a millisecond or
-- more takes one at least.
pub record Timed (Y : Board) : Type 0 where
  pub time : Y.World → ℕ
  pub clock_reads : (w : Y.World) → time w ≤ (Y.clock w).1
  pub clock_passes : (w : Y.World) → (Y.clock w).1 ≤ time (Y.clock w).0
  pub stop_passes : (w : Y.World) → time w ≤ time (Y.stop_requested w).0
  pub sleep_takes : (ms : ℕ) (w : Y.World) → 1 ≤ ms → time w + 1000000 ≤ time (Y.sleep ms w)

one_at_least : (n : ℕ) → 1 ≤ maximum 1 n
one_at_least n = ground arith

module _ {Y : Board} (T : Timed Y) where
  choose :
      (over stop : Bool) (ended u : Y.World × Outcome (Unit {0}))
      (rest other : Y.World × Outcome (Unit {0}))
      → (over ≡ false → rest ≡ other)
      → ◌≡◌ {A = Y.World × Outcome (Unit {0})}
          (if over then ended else if stop then u else rest)
          (if over then ended else if stop then u else other)
  choose true stop ended u rest other h = refl
  choose false true ended u rest other h = refl
  choose false false ended u rest other h = h refl

  sleep_round-more :
      (fuel more deadline : ℕ) (w : Y.World)
      → ((v : Y.World)
          → T.time w + 1000000 ≤ T.time v
          → T.time w < deadline
          → sleep_loop Y more deadline v ≡ sleep_loop Y fuel deadline v)
      → sleep_loop Y (suc more) deadline w ≡ sleep_loop Y (suc fuel) deadline w
  unfolding sleep_loop
  sleep_round-more fuel more deadline w next =
      let (v, now) = Y.clock w in
      let (u, stop) = Y.stop_requested v in
      let (t, later) = Y.clock u in
      let ms = maximum 1 (minimum (remaining_ms later deadline) 10) in
      choose (leb deadline now) stop (throw_if_cancelled Y v) (u, cancelled) _ _
        (λ before.
          next (Y.sleep ms t)
            (omega (
              arith,
              T.clock_reads w,
              T.clock_passes w,
              T.stop_passes v,
              T.clock_reads u,
              T.clock_passes u,
              T.sleep_takes ms t (one_at_least (minimum (remaining_ms later deadline) 10)),
            ))
            (ground (arith, before, T.clock_reads w)))

  sleep_loop-more :
      (fuel more deadline : ℕ) (w : Y.World)
      → fuel ≤ more
      → deadline ≤ T.time w + fuel * 1000000
      → sleep_loop Y (suc more) deadline w ≡ sleep_loop Y (suc fuel) deadline w
  sleep_loop-more zero more deadline w le h =
      sleep_round-more zero more deadline w (λ v later before. ground arith)
  sleep_loop-more (suc fuel) zero deadline w le h = ground arith
  sleep_loop-more (suc fuel) (suc more) deadline w le h =
      sleep_round-more (suc fuel) (suc more) deadline w (λ v later before.
        sleep_loop-more fuel more deadline v (omega arith) (omega (arith, later, h)))

  -- cancellableSleep does the same on any more rounds than the milliseconds that it is given.
  pub cancellable_sleep-more :
      (ms more : ℕ) (w : Y.World)
      → ms ≤ more
      → let (v, now) = Y.clock w in
        sleep_loop Y (suc (suc more)) (deadline_in now ms) v ≡ cancellable_sleep Y ms w
  unfolding cancellable_sleep
  cancellable_sleep-more ms more w h =
      let (v, now) = Y.clock w in
      sleep_loop-more (suc ms) (suc more) (deadline_in now ms) v (omega (arith, h))
        (omega (arith, T.clock_passes w))
