-- ===== src/Hal/Power/Held.antt =====
-- What the power of the Cap holds: the line of GPIO26, and no child.
use cap_cc1101_nfc.Base.{
  ℕ, zero, suc, ◌-◌, ◌≡◌, ◌≢◌, ◌⊎◌, ◌∙◌, refl, arith, String, Bool, true, false, Option, none, some,
  Bytes, List,
}
use cap_cc1101_nfc.Types.{Outcome, returned, cancelled, unavailable, failed}
use cap_cc1101_nfc.Hal.Power.Pinctrl.{
  SysResult, done, errno, PowerSystem, Waited, ended, running, interrupted, wait_failed, give_up,
  pause, exit_error, kill_and_wait, wait_child, after_spawn, run_pinctrl,
}
use cap_cc1101_nfc.Hal.Power.{
  after_read, after_open, read_led_attribute, after_write, after_open_write, write_led_value,
}

-- Whether `waitpid` reaped its child.
abbrev pub is_reaped : Waited → Bool
is_reaped (ended status) = true
is_reaped _ = false

-- What is left of the children, and of the line, by a call's answer.
abbrev pub left_over : Waited → ℕ → ℕ
left_over (ended status) n = n - 1
left_over running n = n
left_over interrupted n = n
left_over (wait_failed code) n = n

abbrev pub with_child : SysResult ℕ → ℕ → ℕ
with_child (done child) n = suc n
with_child (errno code) n = n

abbrev pub with_line : Outcome (Unit {0}) → Bool → Bool
with_line (returned u) b = true
with_line cancelled b = b
with_line (unavailable message) b = b
with_line (failed message) b = b

-- Something that files, the stop flag, the clock and a pause leave alone.
pub record Silent (Y : PowerSystem) {X : Type 0} (seen : Y.World → X) : Type 0 where
  pub opens : (path : String) (b : Bool) (w : Y.World) → seen (Y.open_file path b w).0 ≡ seen w
  pub reads : (fd : ℕ) (w : Y.World) → seen (Y.read_file fd w).0 ≡ seen w
  pub writes : (fd byte : ℕ) (w : Y.World) → seen (Y.write_file fd byte w).0 ≡ seen w
  pub closes : (fd : ℕ) (w : Y.World) → seen (Y.close_file fd w) ≡ seen w
  pub cancels : (w : Y.World) → seen (Y.cancel_requested w).0 ≡ seen w
  pub clocks : (w : Y.World) → seen (Y.clock w).0 ≡ seen w
  pub sleeps : (ms : ℕ) (w : Y.World) → seen (Y.sleep ms w) ≡ seen w

-- A system that says whether the line is requested, and how many children there are to wait for.
pub record Holdings (Y : PowerSystem) : Type 0 where
  pub line : Y.World → Bool
  pub children : Y.World → ℕ
  pub line_silent : Silent Y line
  pub children_silent : Silent Y children
  pub request_line :
      (w : Y.World)
      → line (Y.request_output true w).0 ≡ with_line (Y.request_output true w).1 (line w)
  pub release_line : (w : Y.World) → line (Y.release_output w) ≡ false
  pub spawn_line : (arguments : List String) (w : Y.World) → line (Y.spawn arguments w).0 ≡ line w
  pub wait_line : (child : ℕ) (w : Y.World) → line (Y.wait_no_hang child w).0 ≡ line w
  pub kill_line : (child : ℕ) (w : Y.World) → line (Y.kill child w) ≡ line w
  pub blocking_line : (child : ℕ) (w : Y.World) → line (Y.wait_blocking child w).0 ≡ line w
  pub spawn_children :
      (arguments : List String) (w : Y.World)
      → children (Y.spawn arguments w).0 ≡ with_child (Y.spawn arguments w).1 (children w)
  pub wait_children :
      (child : ℕ) (w : Y.World)
      → children (Y.wait_no_hang child w).0 ≡ left_over (Y.wait_no_hang child w).1 (children w)
  pub kill_children : (child : ℕ) (w : Y.World) → children (Y.kill child w) ≡ children w
  pub blocking_children :
      (child : ℕ) (w : Y.World)
      → children (Y.wait_blocking child w).0 ≡ left_over (Y.wait_blocking child w).1 (children w)

module _ {Y : PowerSystem} {X : Type 0} {seen : Y.World → X} (S : Silent Y seen) where
  give_up-same :
      (command : String) (deadline : ℕ) (waited : Waited) (w : Y.World)
      → seen (give_up Y command deadline waited w).0 ≡ seen w
  unfolding give_up
  give_up-same command deadline waited w =
      let v = (Y.cancel_requested w).0 in ground (arith, S.cancels w, S.clocks v)

  pause-same : (waited : Waited) (w : Y.World) → seen (pause Y waited w) ≡ seen w
  pause-same waited w = ground (arith, S.sleeps 10 w)

  after_read-same :
      (path : String) (fd : ℕ) (r : Y.World × SysResult Bytes)
      → seen (after_read Y path fd r).0 ≡ seen r.0
  after_read-same path fd (w, done text) = S.closes fd w
  after_read-same path fd (w, errno code) = S.closes fd w

  after_open-same :
      (path : String) (r : Y.World × SysResult ℕ) → seen (after_open Y path r).0 ≡ seen r.0
  after_open-same path (w, errno code) = refl
  after_open-same path (w, done fd) = after_read-same path fd (Y.read_file fd w) ∙ S.reads fd w

  pub read_led_attribute-same :
      (name attribute : String) (w : Y.World)
      → seen (read_led_attribute Y name attribute w).0 ≡ seen w
  unfolding read_led_attribute
  read_led_attribute-same name attribute w =
      after_open-same _ (Y.open_file _ false w) ∙ S.opens _ false w

  after_write-same :
      (path : String) (fd : ℕ) (r : Y.World × SysResult ℕ)
      → seen (after_write Y path fd r).0 ≡ seen r.0
  after_write-same path fd (w, done size) = S.closes fd w
  after_write-same path fd (w, errno code) = S.closes fd w

  after_open_write-same :
      (path : String) (enabled : Bool) (r : Y.World × SysResult ℕ)
      → seen (after_open_write Y path enabled r).0 ≡ seen r.0
  after_open_write-same path enabled (w, errno code) = refl
  after_open_write-same path enabled (w, done fd) =
      after_write-same path fd (Y.write_file fd _ w) ∙ S.writes fd _ w

  pub write_led_value-same :
      (name : String) (enabled : Bool) (w : Y.World)
      → seen (write_led_value Y name enabled w).0 ≡ seen w
  unfolding write_led_value
  write_led_value-same name enabled w =
      after_open_write-same _ enabled (Y.open_file _ true w) ∙ S.opens _ true w

module _ {Y : PowerSystem} (H : Holdings Y) where
  -- A child that was killed, but whose `waitpid` failed, say for a signal.
  abbrev pub Unreaped : Type 0
  Unreaped =
      (child : ℕ) × (w : Y.World) × (is_reaped (Y.wait_blocking child (Y.kill child w)).1 ≡ false)

  -- No child is left but `n`, or else one more, with an error, of which `waitpid` failed.
  abbrev pub IsReaped : ℕ → Y.World × Option String → Type 0
  IsReaped n r = (H.children r.0 ≡ n) ⊎ ((H.children r.0 ≡ suc n) × (r.1 ≢ none) × Unreaped)

  -- The end of a round of the loop.
  abbrev round :
      String
      → ℕ
      → Waited
      → Option String
      → Y.World
      → Y.World
      → Y.World × Option String
      → Y.World × Option String
  round command child waited given_up v u rest = elim waited [
    | Waited.ended status ↦ (v, exit_error command status)
    | _ ↦ elim given_up [ some error ↦ (kill_and_wait Y child u, some error) | none ↦ rest ]
  ]

  kill_and_wait-line : (child : ℕ) (w : Y.World) → H.line (kill_and_wait Y child w) ≡ H.line w
  kill_and_wait-line child w = H.blocking_line child (Y.kill child w) ∙ H.kill_line child w

  wait_child-line :
      (fuel : ℕ) (command : String) (child deadline : ℕ) (w : Y.World)
      → H.line (wait_child Y fuel command child deadline w).0 ≡ H.line w
  unfolding wait_child
  wait_child-line zero command child deadline w = kill_and_wait-line child w
  wait_child-line (suc fuel) command child deadline w =
      let (v, waited) = Y.wait_no_hang child w in
      let u = (give_up Y command deadline waited v).0 in
      let rest = wait_child-line fuel command child deadline (pause Y waited u) in
      ground (
        arith,
        H.wait_line child w,
        kill_and_wait-line child u,
        give_up-same H.line_silent command deadline waited v,
        pause-same H.line_silent waited u,
        rest,
      )

  after_spawn-line :
      (command : String) (r : Y.World × SysResult ℕ)
      → H.line (after_spawn Y command r).0 ≡ H.line r.0
  after_spawn-line command (w, errno code) = refl
  after_spawn-line command (w, done child) =
      wait_child-line (suc (suc 2000000000)) command child _ (Y.clock w).0 ∙ H.line_silent.clocks w

  pub run_pinctrl-line :
      (arguments : List String) (w : Y.World) → H.line (run_pinctrl Y arguments w).0 ≡ H.line w
  unfolding run_pinctrl
  run_pinctrl-line arguments w = after_spawn-line _ (Y.spawn _ w) ∙ H.spawn_line _ w
