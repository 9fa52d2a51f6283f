-- ===== src/Worker/Commands/Bounds.antt =====
-- What post and tryPopCommand keep of the command queue, and what post answers.
use cap_cc1101_nfc.Base.{
  ◌≤◌, ◌≡◌, refl, Bool, true, false, ◌⊎◌, ◌≢◌, List, [], ◌∷◌, length, any, count_if, arith,
  length-append, count_if-append,
}
use cap_cc1101_nfc.Types.{NfcCommand, shutdown}
use cap_cc1101_nfc.Worker.Commands.{
  accepted, not_running, queue_full, CommandQueue, command_queue_capacity, is_retry, post,
  try_pop_command,
}

abbrev pub is_shutdown : NfcCommand → Bool
is_shutdown shutdown = true
is_shutdown _ = false

-- The queue is bounded, holds at most one retry, and never a shutdown, which acts at once.
pub record IsTidy (cs : List NfcCommand) : Type 0 where
  pub bounded : length cs ≤ command_queue_capacity
  pub one_retry : count_if is_retry cs ≤ 1
  pub no_shutdown : count_if is_shutdown cs ≡ 0

count-any : (cs : List NfcCommand) → any is_retry cs ≡ false → count_if is_retry cs ≡ 0
count-any [] h = refl
count-any (c ∷ cs) h = ground (arith, count-any cs)

pub post-IsTidy :
    (c : NfcCommand) (q : CommandQueue) → IsTidy q.commands → IsTidy (post c q).0.commands
unfolding post
post-IsTidy c q v = ground (
  arith,
  length-append q.commands (c ∷ []),
  count_if-append is_retry q.commands (c ∷ []),
  count_if-append is_shutdown q.commands (c ∷ []),
  count-any q.commands,
)

tail-IsTidy : (c : NfcCommand) (cs : List NfcCommand) → IsTidy (c ∷ cs) → IsTidy cs
tail-IsTidy c cs v = ground arith

pub try_pop_command-IsTidy :
    (cs : List NfcCommand) (q : CommandQueue)
    → q.commands ≡ cs
    → IsTidy cs
    → IsTidy (try_pop_command q).0.commands
unfolding try_pop_command
try_pop_command-IsTidy [] q e v = ground arith
try_pop_command-IsTidy (c ∷ cs) q e v = ground (arith, tail-IsTidy c cs v)

-- A post that is not accepted changes nothing. The worker does not run or is to stop then, which is
-- answered by NotRunning, or its command queue is full.
pub post-refused :
    (c : NfcCommand) (q : CommandQueue)
    → (post c q).1 ≢ accepted
    → ((post c q).0 ≡ q)
      × ((((post c q).1 ≡ not_running) × ((q.running ≡ false) ⊎ (q.stop_requested ≡ true)))
          ⊎ (((post c q).1 ≡ queue_full) × (command_queue_capacity ≤ length q.commands)))
unfolding post
post-refused c q h = ground arith

-- `post` leaves the flags of the thread alone.
pub post-flags :
    (c : NfcCommand) (q : CommandQueue)
    → ((post c q).0.initialization_in_progress ≡ q.initialization_in_progress)
      × ((post c q).0.running ≡ q.running)
unfolding post
post-flags c q = ground arith
