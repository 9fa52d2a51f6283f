-- ===== src/Hal/Power/Pinctrl.antt =====
-- runPinctrl of src/hal/cardputerzero_cap_power.cpp, and the system's calls that the Cap's power uses.
use Prim.Native.String.{◌++◌ as str_append}
use cap_cc1101_nfc.Base.{
  ℕ, zero, suc, ◌+◌, ◌==◌, String, Bool, leb, Bytes, List, [], ◌∷◌, Option, none, some,
  if◌then◌else◌,
}
use cap_cc1101_nfc.Types.{Outcome}
use cap_cc1101_nfc.Model.Diagnostics.{to_string}

-- `int`
pub data ℤ : Type 0 where
  pos negsuc : ℕ → ℤ

-- A system call's result, or its error number.
pub data SysResult (A : Type 0) : Type 0 where
  done : A → SysResult A
  errno : ℕ → SysResult A

-- What strtol reads, cut to an int.
pub data Number : Type 0 where
  value : ℤ → Number
  out_of_range : ℕ → Number
  no_digits : Number

-- How a child ended.
pub data ExitStatus : Type 0 where
  exited signalled : ℕ → ExitStatus
  unknown : ExitStatus

-- `waitpid`; with WNOHANG a child may still be running.
pub data Waited : Type 0 where
  ended : ExitStatus → Waited
  running interrupted : Waited
  wait_failed : ℕ → Waited

-- The system: files, children, the clock, the stop flag that the caller passes, and the line of
-- GPIO26. `read_file` and `write_file` are tried again where a signal interrupts them. `kill` sends
-- SIGKILL, and `wait_no_hang` and `wait_blocking` are `waitpid` with WNOHANG and without.
pub record PowerSystem : Type 1 where
  pub World : Type 0
  pub exists_file : String → World → Bool
  pub open_file : String → Bool → World → World × SysResult ℕ
  pub read_file : ℕ → World → World × SysResult Bytes
  pub write_file : ℕ → ℕ → World → World × SysResult ℕ
  pub close_file : ℕ → World → World
  pub strtol : Bytes → Number
  pub strerror : ℕ → String
  pub is_permission_denied : ℕ → Bool
  pub spawn : List String → World → World × SysResult ℕ
  pub wait_no_hang : ℕ → World → World × Waited
  pub kill : ℕ → World → World
  pub wait_blocking : ℕ → World → World × Waited
  pub cancel_requested : World → World × Bool
  pub clock : World → World × ℕ
  pub sleep : ℕ → World → World
  pub request_output : Bool → World → World × Outcome (Unit {0})
  pub release_output : World → World

abbrev pub pinctrl_arguments : List String → String
pinctrl_arguments [] = ""
pinctrl_arguments (argument ∷ arguments) =
    str_append " " (str_append argument (pinctrl_arguments arguments))

-- pinctrlCommand
abbrev pub pinctrl_command : List String → String
pinctrl_command arguments = str_append "pinctrl" (pinctrl_arguments arguments)

-- The error of a child that ended.
abbrev pub exit_error : String → ExitStatus → Option String
exit_error command (ExitStatus.exited code) =
    if code == 0
    then none
    else some (str_append command (str_append " exited with status " (to_string code)))
exit_error command (ExitStatus.signalled signal) =
    some (str_append command (str_append " terminated by signal " (to_string signal)))
exit_error command ExitStatus.unknown = some (str_append command " exited with status -1")

module _ (Y : PowerSystem) where
  -- The tests behind a `waitpid` that reported no end: `some` is the error for which the child is
  -- killed.
  unfoldable pub give_up : String → ℕ → Waited → Y.World → Y.World × Option String
  give_up command deadline (Waited.wait_failed code) w =
      (w, some (str_append command (str_append " wait failed: " (Y.strerror code))))
  give_up command deadline waited w =
      let (v, cancel) = Y.cancel_requested w in
      if cancel
      then (v, some (str_append command " cancelled"))
      else let (u, now) = Y.clock v in
        if leb deadline now
        then (u, some (str_append command " timed out after 2000 ms"))
        else (u, none)

  -- The pause between two rounds; an interrupted wait has none.
  abbrev pub pause : Waited → Y.World → Y.World
  pause Waited.interrupted w = w
  pause waited w = Y.sleep 10 w

  -- A child that is given up. The answer of the `waitpid` is not looked at.
  abbrev pub kill_and_wait : ℕ → Y.World → Y.World
  kill_and_wait child w = (Y.wait_blocking child (Y.kill child w)).0

  -- The loop of runPinctrl, on fuel; without fuel it ends as at the deadline. It answers with the
  -- error, or with none.
  unfoldable pub wait_child : ℕ → String → ℕ → ℕ → Y.World → Y.World × Option String
  unfolding give_up
  wait_child zero command child deadline w =
      (kill_and_wait child w, some (str_append command " timed out after 2000 ms"))
  wait_child (suc fuel) command child deadline w =
      let (v, waited) = Y.wait_no_hang child w in
      let (u, given_up) = give_up command deadline waited v in
      let rest = wait_child fuel command child deadline (pause waited u) in
      elim waited [
        | Waited.ended status ↦ (v, exit_error command status)
        | _ ↦ elim given_up [ some error ↦ (kill_and_wait child u, some error) | none ↦ rest ]
      ]

  -- `posix_spawnp` and what follows it.
  abbrev pub after_spawn : String → Y.World × SysResult ℕ → Y.World × Option String
  after_spawn command (w, errno code) =
      (w, some (str_append command (str_append " spawn failed: " (Y.strerror code))))
  after_spawn command (w, done child) =
      let (v, now) = Y.clock w in
      wait_child (suc (suc 2000000000)) command child (now + 2000000000) v

  unfoldable pub run_pinctrl : List String → Y.World → Y.World × Option String
  unfolding wait_child
  run_pinctrl arguments w =
      after_spawn (pinctrl_command arguments) (Y.spawn ("pinctrl" ∷ arguments) w)
