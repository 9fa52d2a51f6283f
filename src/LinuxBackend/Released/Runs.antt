-- ===== src/LinuxBackend/Released/Runs.antt =====
-- The backend under any sequence of its operations.
use cap_cc1101_nfc.Base.{◌≡◌, refl, sym, ◌∙◌, false, List, [], ◌∷◌, Option, none, some, arith}
use cap_cc1101_nfc.Types.{Outcome, returned, cancelled, unavailable, failed, ReaderInfo}
use cap_cc1101_nfc.St25r3916.{Driver}
use cap_cc1101_nfc.LinuxBackend.Board.{Board, throw_if_cancelled, linux_transport}
use cap_cc1101_nfc.LinuxBackend.Opening.{
  ReaderBackend, new_backend, close, follow_stage, open_reader, start_discovery, poll_discovery,
  stop_discovery, with_driver, stop_with,
}
use cap_cc1101_nfc.LinuxBackend.Polls.{LinuxNfcBackend}
use cap_cc1101_nfc.LinuxBackend.Polls as Polls
use cap_cc1101_nfc.LinuxBackend.Released.{
  Resources, IsAccounted, IsClosed, close-IsClosed, closed-IsAccounted,
}
use cap_cc1101_nfc.LinuxBackend.Released.Opens.{Opens, open_reader-Opens, line-IsAccounted}

-- The operations of NfcBackend.
pub data Operation : Type 0 where
  opens closes starts stops polls : Operation

-- The state that an operation leaves, whether it returns or throws.
abbrev pub perform : {Y : Board} → Operation → ReaderBackend Y → ReaderBackend Y
perform Operation.opens s = (open_reader s).0
perform Operation.closes s = close s
perform Operation.starts s = (start_discovery s).0
perform Operation.stops s = stop_discovery s
perform Operation.polls s = (poll_discovery s).0

abbrev pub perform_all : {Y : Board} → List Operation → ReaderBackend Y → ReaderBackend Y
perform_all [] s = s
perform_all (operation ∷ operations) s = perform_all operations (perform operation s)

module _ {Y : Board} (R : Resources Y) where
  opens-IsAccounted : (r : ReaderBackend Y × Outcome ReaderInfo) → Opens R r → IsAccounted R r.0
  opens-IsAccounted (s, returned info) h = line-IsAccounted R s h.interrupt
  opens-IsAccounted (s, cancelled) h = closed-IsAccounted R s h
  opens-IsAccounted (s, unavailable message) h = closed-IsAccounted R s h
  opens-IsAccounted (s, failed message) h = closed-IsAccounted R s h

  not_open-IsAccounted :
      (A : Type 0) (s : ReaderBackend Y) (o : Outcome (Unit {0}))
      → IsAccounted R s
      → IsAccounted R
          (follow_stage {A = Unit {0}} {B = A}
            (λ u s. (s, failed "ST25R3916 Linux backend is not open"))
            (s, o)).0
  unfolding follow_stage
  not_open-IsAccounted A s (returned u) h = h
  not_open-IsAccounted A s cancelled h = h
  not_open-IsAccounted A s (unavailable message) h = h
  not_open-IsAccounted A s (failed message) h = h

  cancel_line : (w : Y.World) → R.line_held (throw_if_cancelled Y w).0 ≡ R.line_held w
  unfolding throw_if_cancelled
  cancel_line w = R.stop_line w

  -- A backend with a driver has set up the line.
  driver-IsAccounted :
      (d : Driver) (s u : ReaderBackend Y)
      → s.driver ≡ some d
      → u.has_interrupt ≡ s.has_interrupt
      → IsAccounted R s
      → IsAccounted R u
  driver-IsAccounted d s u e same h = record {
    line = λ b. ground (arith, h.no_driver (sym same ∙ b), e);
    no_driver = λ b. ground (arith, h.no_driver (sym same ∙ b), e);
  }

  with_driver-IsAccounted :
      {A : Type 0}
      (operation : LinuxNfcBackend (linux_transport Y)
        → LinuxNfcBackend (linux_transport Y) × Outcome A)
      (d : Option Driver) (s : ReaderBackend Y)
      → s.driver ≡ d
      → IsAccounted R s
      → IsAccounted R (with_driver operation d s).0
  with_driver-IsAccounted operation none s e h =
      not_open-IsAccounted _ _ (throw_if_cancelled Y s.world).1
        (record { line = λ b. cancel_line s.world ∙ h.line b; no_driver = h.no_driver })
  with_driver-IsAccounted operation (some d) s e h = driver-IsAccounted d s _ e refl h

  stop_with-IsAccounted :
      (d : Option Driver) (s : ReaderBackend Y)
      → s.driver ≡ d
      → IsAccounted R s
      → IsAccounted R (stop_with d s)
  stop_with-IsAccounted none s e h = record { line = h.line; no_driver = h.no_driver }
  stop_with-IsAccounted (some d) s e h = driver-IsAccounted d s _ e refl h

  perform-IsAccounted :
      (operation : Operation) (s : ReaderBackend Y)
      → IsAccounted R s
      → IsAccounted R (perform operation s)
  unfolding start_discovery poll_discovery stop_discovery
  perform-IsAccounted Operation.opens s h =
      opens-IsAccounted (open_reader s) (open_reader-Opens R s h)
  perform-IsAccounted Operation.closes s h = closed-IsAccounted R (close s) (close-IsClosed R s h)
  perform-IsAccounted Operation.starts s h =
      with_driver-IsAccounted Polls.start_discovery s.driver s refl h
  perform-IsAccounted Operation.stops s h = stop_with-IsAccounted s.driver s refl h
  perform-IsAccounted Operation.polls s h =
      with_driver-IsAccounted Polls.poll_discovery s.driver s refl h

  perform_all-IsAccounted :
      (operations : List Operation) (s : ReaderBackend Y)
      → IsAccounted R s
      → IsAccounted R (perform_all operations s)
  perform_all-IsAccounted [] s h = h
  perform_all-IsAccounted (operation ∷ operations) s h =
      perform_all-IsAccounted operations (perform operation s) (perform-IsAccounted operation s h)

  -- After any sequence of operations on a new backend, whichever of them throw and whatever the
  -- hardware answers, `close` leaves nothing of the board held, and no driver.
  pub perform_all-IsClosed :
      (operations : List Operation) (w : Y.World)
      → R.line_held w ≡ false
      → IsClosed R (close (perform_all operations (new_backend w)))
  perform_all-IsClosed operations w h = close-IsClosed R _ (
      perform_all-IsAccounted operations (new_backend w)
        (record { line = λ e. h; no_driver = λ e. refl }))
