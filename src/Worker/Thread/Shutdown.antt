-- ===== src/Worker/Thread/Shutdown.antt =====
-- The way of the thread to its end, once it is asked to stop.
use cap_cc1101_nfc.Base.{ℕ, suc, ◌≤◌, ◌≡◌, ◌≢◌, refl, subst, true, false, none, arith}
use cap_cc1101_nfc.Types.{Outcome, ReaderInfo}
use cap_cc1101_nfc.Backend.{NfcBackend}
use cap_cc1101_nfc.Worker.Presence.{clear_presence}
use cap_cc1101_nfc.Worker.Thread.{
  NfcWorker, Reading, Phase, not_started, beginning, opening, looping, closing, leaving, exited,
  thread_step, initialize_begin, initialize_opened, start_reader, loop_step, leave_loop, finish_run,
  step_in,
}

-- The steps that are left to a thread that is to stop.
abbrev pub steps_left : Phase → ℕ
steps_left not_started = 0
steps_left beginning = 5
steps_left opening = 4
steps_left looping = 3
steps_left closing = 2
steps_left leaving = 1
steps_left exited = 0

module _ {B : NfcBackend} where
  abbrev Stops : NfcWorker B → Type 0
  Stops w = w.control.stop_requested ≡ true

  -- A thread that was started, and what it has left behind once it has ended.
  pub record IsStopping (w : NfcWorker B) : Type 0 where
    pub asked : Stops w
    pub begun : w.phase ≢ not_started
    pub left_loop : w.phase ≡ leaving → w.control.running ≡ false
    pub left : w.phase ≡ exited → (w.control.running ≡ false) × (w.presence.present_tag ≡ none)

  abbrev pub Closer : ℕ → NfcWorker B → Type 0
  Closer n w = IsStopping w × (steps_left w.phase ≤ n)

  begin-Closer : (r : Reading B) (w : NfcWorker B) → IsStopping w → Closer 4 (initialize_begin r w)
  unfolding initialize_begin
  begin-Closer r w v = ground arith

  opened-Closer :
      (r : Reading B) (o : Outcome ReaderInfo) (w : NfcWorker B)
      → IsStopping w
      → Closer 3 (initialize_opened r o w)
  unfolding initialize_opened start_reader
  opened-Closer r o w v = ground arith

  loop-Closer : (r : Reading B) (w : NfcWorker B) → IsStopping w → Closer 2 (loop_step r w)
  unfolding loop_step
  loop-Closer r w v = rw (v.asked, loop_step) (ground arith)

  leave-Closer : (w : NfcWorker B) → IsStopping w → Closer 1 (leave_loop w)
  unfolding leave_loop
  leave-Closer w v = ground arith

  finish-Closer :
      (removed_at : ℕ) (w : NfcWorker B)
      → w.phase ≡ leaving
      → IsStopping w
      → Closer 0 (finish_run removed_at w)
  unfolding finish_run clear_presence
  finish-Closer removed_at w e v = ground arith

  weaken : {m n : ℕ} {w : NfcWorker B} → Closer m w → m ≤ n → Closer n w
  weaken c h = (c.0, omega (arith, c.1))

  stay_ended : (w : NfcWorker B) → w.phase ≡ exited → (n : ℕ) → steps_left w.phase ≤ n
  stay_ended w e n = rw e (omega arith)

  pub thread_step-Closer :
      (n : ℕ) (r : Reading B) (w : NfcWorker B) → Closer (suc n) w → Closer n (thread_step r w)
  unfolding thread_step
  thread_step-Closer n r w (v, h) = by_phase w.phase refl
    where
      bound : (p : Phase) → w.phase ≡ p → steps_left p ≤ suc n
      bound p e = subst (λ q. steps_left q ≤ suc n) e h

      by_phase : (p : Phase) → w.phase ≡ p → Closer n (step_in p r w)
      by_phase not_started e = absurd (v.begun e)
      by_phase beginning e = weaken (begin-Closer r w v) (omega (arith, bound beginning e))
      by_phase opening e =
          weaken
            (opened-Closer r _ (record w { backend = (B.open_reader r.first_call w.backend).0 })
              (record { asked = v.asked; begun = v.begun; left_loop = v.left_loop; left = v.left }))
            (omega (arith, bound opening e))
      by_phase looping e = weaken (loop-Closer r w v) (omega (arith, bound looping e))
      by_phase closing e = weaken (leave-Closer w v) (omega (arith, bound closing e))
      by_phase leaving e = weaken (finish-Closer r.removed_at_ms w e v) (omega arith)
      by_phase exited e = (v, stay_ended w e n)
