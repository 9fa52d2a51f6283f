-- ===== src/Worker/Lifecycle/Shutdown.antt =====
-- That the thread ends when it is asked to, and what it leaves.
use cap_cc1101_nfc.Base.{ℕ, ◌+◌, ◌≤◌, length, ◌≡◌, ◌≢◌, refl, false, List, [], ◌∷◌, none, arith}
use cap_cc1101_nfc.Backend.{NfcBackend}
use cap_cc1101_nfc.Worker.Thread.{
  NfcWorker, Reading, Phase, not_started, leaving, exited, thread_step,
}
use cap_cc1101_nfc.Worker.Thread.Shutdown.{Closer, IsStopping, steps_left, thread_step-Closer}
use cap_cc1101_nfc.Worker.Lifecycle.{thread_steps, stop, request_stop}

steps_bound : (p : Phase) → steps_left p ≤ 5
steps_bound p = ground arith

ended : (p : Phase) → steps_left p ≤ 0 → p ≢ not_started → p ≡ exited
ended p h b = ground arith

module _ {B : NfcBackend} where
  thread_steps-Closer :
      (rs : List (Reading B)) (n : ℕ) (w : NfcWorker B)
      → Closer (length rs + n) w
      → Closer n (thread_steps rs w)
  unfolding thread_steps
  thread_steps-Closer [] n w c = (c.0, omega arith)
  thread_steps-Closer (r ∷ rs) n w c =
      thread_steps-Closer rs n (thread_step r w)
        (thread_step-Closer (length rs + n) r w (c.0, omega arith))

  -- A thread that was started, and what it has left if it has left its loop or ended.
  abbrev pub IsStarted : NfcWorker B → Type 0
  IsStarted w =
      (w.phase ≢ not_started)
      × (w.phase ≡ leaving → w.control.running ≡ false)
      × (w.phase ≡ exited → (w.control.running ≡ false) × (w.presence.present_tag ≡ none))

  -- However the backend behaves and whatever the thread does when `stop` is called, the thread ends
  -- within five steps, so that the `join` in `stop` returns; no tag is present then.
  pub stop-exited :
      (rs : List (Reading B)) (w : NfcWorker B)
      → 5 ≤ length rs
      → IsStarted w
      → let u = stop rs w in
        (u.phase ≡ exited) × (u.control.running ≡ false) × (u.presence.present_tag ≡ none)
  unfolding stop
  stop-exited rs w long (begun, left_loop, left) =
      let e = ended _ (omega (arith, done.1)) done.0.begun in (e, refl, (done.0.left e).1)
    where
      asked : IsStopping (request_stop w)
      asked = record { asked = refl; begun = begun; left_loop = left_loop; left = left }

      done : Closer 0 (thread_steps rs (request_stop w))
      done = thread_steps-Closer rs 0 (request_stop w) (asked, omega (arith, steps_bound w.phase))
