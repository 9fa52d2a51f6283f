-- ===== src/Hal/Power/Fuel.antt =====
-- The loop of runPinctrl in time: it ends before its fuel does.
use cap_cc1101_nfc.Base.{ℕ, zero, suc, ◌+◌, ◌≤◌, ◌<◌, ◌≡◌, refl, arith, String, Option, none, some}
use cap_cc1101_nfc.Hal.Power.Pinctrl.{
  PowerSystem, done, Waited, ended, running, interrupted, wait_failed, exit_error, give_up, pause,
  kill_and_wait, wait_child, after_spawn,
}

-- A system in time: the clock reads it, no call of the loop sets it back, and a `waitpid` takes a
-- nanosecond at least.
pub record Timed (Y : PowerSystem) : Type 0 where
  pub time : Y.World → ℕ
  pub wait_takes : (child : ℕ) (w : Y.World) → suc (time w) ≤ time (Y.wait_no_hang child w).0
  pub cancel_passes : (w : Y.World) → time w ≤ time (Y.cancel_requested w).0
  pub clock_reads : (w : Y.World) → time w ≤ (Y.clock w).1
  pub clock_passes : (w : Y.World) → (Y.clock w).1 ≤ time (Y.clock w).0
  pub sleep_passes : (ms : ℕ) (w : Y.World) → time w ≤ time (Y.sleep ms w)

module _ {Y : PowerSystem} (T : Timed Y) where
  give_up-passes :
      (command : String) (deadline : ℕ) (waited : Waited) (w : Y.World)
      → T.time w ≤ T.time (give_up Y command deadline waited w).0
  unfolding give_up
  give_up-passes command deadline waited w =
      let v = (Y.cancel_requested w).0 in
      ground (arith, T.cancel_passes w, T.clock_reads v, T.clock_passes v)

  -- The loop goes on only before the deadline.
  give_up-none :
      (command : String) (deadline : ℕ) (waited : Waited) (w : Y.World)
      → (give_up Y command deadline waited w).1 ≡ none
      → T.time w < deadline
  unfolding give_up
  give_up-none command deadline waited w h =
      let v = (Y.cancel_requested w).0 in ground (arith, h, T.cancel_passes w, T.clock_reads v)

  pause-passes : (waited : Waited) (w : Y.World) → T.time w ≤ T.time (pause Y waited w)
  pause-passes waited w = ground (arith, T.sleep_passes 10 w)

  wait_round-more :
      (fuel more : ℕ) (command : String) (child deadline : ℕ) (w : Y.World)
      → ((v : Y.World)
          → suc (T.time w) ≤ T.time v
          → suc (T.time w) < deadline
          → wait_child Y more command child deadline v ≡ wait_child Y fuel command child deadline v)
      → wait_child Y (suc more) command child deadline w
        ≡ wait_child Y (suc fuel) command child deadline w
  unfolding wait_child
  wait_round-more fuel more command child deadline w next =
      let (v, waited) = Y.wait_no_hang child w in
      let u = (give_up Y command deadline waited v).0 in
      let later = T.wait_takes child w in
      choose waited (give_up Y command deadline waited v).1 v u _ _ (λ e.
        next (pause Y waited u)
          (omega (arith, later, give_up-passes command deadline waited v, pause-passes waited u))
          (omega (arith, later, give_up-none command deadline waited v e)))
    where
      choose :
          (waited : Waited) (given_up : Option String) (v u : Y.World)
          (rest other : Y.World × Option String)
          → (given_up ≡ none → rest ≡ other)
          → ◌≡◌ {A = Y.World × Option String}
              (elim waited [
                | Waited.ended status ↦ (v, exit_error command status)
                | _ ↦ elim given_up [
                  | some error ↦ (kill_and_wait Y child u, some error)
                  | none ↦ rest
                ]
              ])
              (elim waited [
                | Waited.ended status ↦ (v, exit_error command status)
                | _ ↦ elim given_up [
                  | some error ↦ (kill_and_wait Y child u, some error)
                  | none ↦ other
                ]
              ])
      choose (ended status) given_up v u rest other h = refl
      choose running none v u rest other h = h refl
      choose running (some error) v u rest other h = refl
      choose interrupted none v u rest other h = h refl
      choose interrupted (some error) v u rest other h = refl
      choose (wait_failed code) none v u rest other h = h refl
      choose (wait_failed code) (some error) v u rest other h = refl

  wait_child-more :
      (fuel more : ℕ) (command : String) (child deadline : ℕ) (w : Y.World)
      → fuel ≤ more
      → deadline ≤ T.time w + fuel
      → wait_child Y (suc more) command child deadline w
        ≡ wait_child Y (suc fuel) command child deadline w
  wait_child-more zero more command child deadline w le h =
      wait_round-more zero more command child deadline w (λ v later before. ground arith)
  wait_child-more (suc fuel) zero command child deadline w le h = ground arith
  wait_child-more (suc fuel) (suc more) command child deadline w le h =
      wait_round-more (suc fuel) (suc more) command child deadline w (λ v later before.
        wait_child-more fuel more command child deadline v (omega arith) (omega (arith, later)))

  -- Over a system in time, the wait of runPinctrl for its child does the same on any more fuel than
  -- it is given, which counts the nanoseconds of its two seconds: it does not end for lack of fuel.
  pub after_spawn-more :
      (more : ℕ) (command : String) (child : ℕ) (w : Y.World)
      → 2000000000 ≤ more
      → let (v, now) = Y.clock w in
        wait_child Y (suc (suc more)) command child (now + 2000000000) v
        ≡ after_spawn Y command (w, done child)
  after_spawn-more more command child w h =
      let (v, now) = Y.clock w in
      wait_child-more (suc 2000000000) (suc more) command child (now + 2000000000) v
        (omega (arith, h)) (omega (arith, T.clock_passes w))
