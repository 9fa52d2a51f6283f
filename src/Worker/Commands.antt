-- ===== src/Worker/Commands.antt =====
-- The command queue of NfcWorker: post and tryPopCommand, with the flags that they read.
pub mod Bounds
use cap_cc1101_nfc.Base.{
  ℕ, Bool, true, false, not, ◌||◌, List, [], ◌∷◌, ◌++◌, Option, none, some, length, any, leb,
  if◌then◌else◌,
}
use cap_cc1101_nfc.Types.{NfcCommand, retry, set_scanning, shutdown}

abbrev pub command_queue_capacity : ℕ
command_queue_capacity = 8

pub data NfcPostResult : Type 0 where
  accepted not_running queue_full : NfcPostResult

pub record CommandQueue : Type 0 where
  pub running : Bool
  pub stop_requested : Bool
  pub initialization_in_progress : Bool
  pub commands : List NfcCommand

abbrev pub is_retry : NfcCommand → Bool
is_retry retry = true
is_retry _ = false

enqueue : NfcCommand → CommandQueue → CommandQueue × NfcPostResult
enqueue command q =
    if leb command_queue_capacity (length q.commands)
    then (q, queue_full)
    else (record q { commands = q.commands ++ (command ∷ []) }, accepted)

-- The branches of `post` on the alternative, for a worker that runs.
post_running : NfcCommand → CommandQueue → CommandQueue × NfcPostResult
unfolding enqueue
post_running shutdown q = (record q { stop_requested = true }, accepted)
post_running retry q =
    if q.initialization_in_progress
    then (q, accepted)
    else if any is_retry q.commands
    then (q, accepted)
    else enqueue retry q
post_running (set_scanning enabled) q = enqueue (set_scanning enabled) q

unfoldable pub post : NfcCommand → CommandQueue → CommandQueue × NfcPostResult
unfolding post_running
post command q =
    if not q.running || q.stop_requested then (q, not_running) else post_running command q

-- The front of the command queue and the rest of it.
unfoldable pub pop_command : List NfcCommand → CommandQueue → CommandQueue × Option NfcCommand
pop_command [] q = (q, none)
pop_command (c ∷ cs) q = (record q { commands = cs }, some c)

unfoldable pub try_pop_command : CommandQueue → CommandQueue × Option NfcCommand
unfolding pop_command
try_pop_command q = pop_command q.commands q
