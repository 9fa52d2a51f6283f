-- ===== src/LinuxBackend/Released/Opens.antt =====
-- How open of src/nfc/linux_nfc_backend.cpp may end.
use cap_cc1101_nfc.Base.{◌≡◌, refl, ◌∙◌, String, true, false, Option, none, some, arith}
use cap_cc1101_nfc.Types.{Outcome, returned, cancelled, unavailable, failed, ReaderInfo}
use cap_cc1101_nfc.St25r3916.{Driver, ChipInfo, new_driver}
use cap_cc1101_nfc.St25r3916.Action.{Bus}
use cap_cc1101_nfc.St25r3916.Lifecycle.{initialize}
use cap_cc1101_nfc.St25r3916.Lifecycle.Ready.{initialize-ready}
use cap_cc1101_nfc.LinuxBackend.Board.{LinuxBackendConfig, Board, linux_transport}
use cap_cc1101_nfc.LinuxBackend.Opening.{
  ReaderBackend, close, Stage, follow_stage, roll_back, open_stages, open_reader, at_stage, staged,
  call, configure, configured, or_error, load_overlay, request_line, enable_power, open_spi,
  start_driver, reader_info, driver_config,
}
use cap_cc1101_nfc.LinuxBackend.Released.{
  Resources, IsAccounted, IsClosed, close-IsClosed, closed-IsAccounted,
}

module _ {Y : Board} (R : Resources Y) where
  -- The line is set up, and no discovery is on.
  record HasLine (s : ReaderBackend Y) : Type 0 where
    pub interrupt : s.has_interrupt ≡ true
    pub scanning : s.scanning ≡ false

  -- The line is not set up yet, and no discovery is on.
  record IsBegun (s : ReaderBackend Y) : Type 0 where
    pub accounted : IsAccounted R s
    pub scanning : s.scanning ≡ false

  -- The backend is open, with a driver that is initialized.
  pub record IsOpen (s : ReaderBackend Y) : Type 0 where
    pub opened : s.opened ≡ true
    pub interrupt : s.has_interrupt ≡ true
    pub ready : (d : Driver) × (s.driver ≡ some d) × (d.ready ≡ true)
    pub scanning : s.scanning ≡ false

  -- What holds of a stage's end: `Q` if it returned, and otherwise what a roll back needs.
  abbrev After : {A : Type 0} → (ReaderBackend Y → Type 0) → ReaderBackend Y × Outcome A → Type 0
  After Q (s, returned a) = Q s
  After Q (s, cancelled) = IsAccounted R s
  After Q (s, unavailable message) = IsAccounted R s
  After Q (s, failed message) = IsAccounted R s

  record Moves {A : Type 0} (P Q : ReaderBackend Y → Type 0) (m : Stage Y A) : Type 0 where
    pub run : (s : ReaderBackend Y) → P s → After Q (m s)

  pub line-IsAccounted : (s : ReaderBackend Y) → s.has_interrupt ≡ true → IsAccounted R s
  line-IsAccounted s h = record {
    line = λ e. ground (arith, h, e);
    no_driver = λ e. ground (arith, h, e);
  }

  -- A stage whose end is `Q` in any case.
  After-any :
      {A : Type 0} (Q : ReaderBackend Y → Type 0) (s : ReaderBackend Y) (o : Outcome A)
      → Q s
      → ((s : ReaderBackend Y) → Q s → IsAccounted R s)
      → After Q (s, o)
  After-any Q s (returned a) q weaker = q
  After-any Q s cancelled q weaker = weaker s q
  After-any Q s (unavailable message) q weaker = weaker s q
  After-any Q s (failed message) q weaker = weaker s q

  After-follow :
      {A B : Type 0} (Q Q' : ReaderBackend Y → Type 0) (f : A → Stage Y B)
      (r : ReaderBackend Y × Outcome A)
      → After Q r
      → ((a : A) → Moves Q Q' (f a))
      → After Q' (follow_stage f r)
  unfolding follow_stage
  After-follow Q Q' f (s, returned a) h g = (g a).run s h
  After-follow Q Q' f (s, cancelled) h g = h
  After-follow Q Q' f (s, unavailable message) h g = h
  After-follow Q Q' f (s, failed message) h g = h

  Moves-then :
      {A B : Type 0} (P Q Q' : ReaderBackend Y → Type 0) (m : Stage Y A) (f : A → Stage Y B)
      → Moves P Q m
      → ((a : A) → Moves Q Q' (f a))
      → Moves P Q' (λ s. follow_stage f (m s))
  Moves-then P Q Q' m f h g = record { run = λ s p. After-follow Q Q' f (m s) (h.run s p) g }

  After-staged :
      {A : Type 0} (Q : ReaderBackend Y → Type 0) (stage : String) (s : ReaderBackend Y)
      (o : Outcome A)
      → After Q (s, o)
      → After Q (s, at_stage stage o)
  After-staged Q stage s (returned a) h = h
  After-staged Q stage s cancelled h = h
  After-staged Q stage s (unavailable message) h = h
  After-staged Q stage s (failed message) h = h

  Moves-staged :
      {A : Type 0} (P Q : ReaderBackend Y → Type 0) (stage : String) (m : Stage Y A)
      → Moves P Q m
      → Moves P Q (staged stage m)
  Moves-staged P Q stage m h = record {
    run = λ s p. After-staged Q stage (m s).0 (m s).1 (h.run s p);
  }

  begun : (s : ReaderBackend Y) → IsBegun s → IsAccounted R s
  begun s h = h.accounted

  lined : (s : ReaderBackend Y) → HasLine s → IsAccounted R s
  lined s h = line-IsAccounted s h.interrupt

  configured-Moves : (o : Outcome LinuxBackendConfig) → Moves IsBegun IsBegun (configured o)
  configured-Moves (returned config) = record {
    run = λ s h. record {
      accounted = record { line = h.accounted.line; no_driver = h.accounted.no_driver };
      scanning = h.scanning;
    };
  }
  configured-Moves cancelled = record { run = λ s h. h.accounted }
  configured-Moves (unavailable message) = record { run = λ s h. h.accounted }
  configured-Moves (failed message) = record { run = λ s h. h.accounted }

  configure-Moves : Moves IsBegun IsBegun configure
  configure-Moves = record { run = λ s h. (configured-Moves _).run s h }

  or_error-line :
      (prefix : String) (r : Y.World × Option String)
      → R.line_held (or_error Y prefix r).0 ≡ R.line_held r.0
  or_error-line prefix (w, none) = refl
  or_error-line prefix (w, some error) = R.stop_line w

  load_overlay-Moves : Moves IsBegun IsBegun load_overlay
  load_overlay-Moves = record {
    run = λ s h.
        let same =
          or_error-line _ (Y.ensure_overlay s.config.spi_device s.world)
          ∙ R.overlay_line s.config.spi_device s.world in
        After-any IsBegun _ _
          (record {
            accounted = record {
              line = λ e. same ∙ h.accounted.line e;
              no_driver = h.accounted.no_driver;
            };
            scanning = h.scanning;
          })
          begun;
  }

  request_line-Moves : Moves IsBegun HasLine request_line
  request_line-Moves = record {
    run = λ s h. After-any HasLine _ _ (record { interrupt = refl; scanning = h.scanning }) lined;
  }

  -- A call of the board once the line is set up.
  call-Moves : (f : Y.World → Y.World × Outcome (Unit {0})) → Moves HasLine HasLine (call f)
  call-Moves f = record {
    run = λ s h.
        After-any HasLine _ _ (record { interrupt = h.interrupt; scanning = h.scanning }) lined;
  }

  enable_power-Moves : Moves HasLine HasLine enable_power
  enable_power-Moves = Moves-then HasLine HasLine HasLine _ _ (call-Moves _) (λ u. call-Moves _)

  open_spi-Moves : Moves HasLine HasLine open_spi
  open_spi-Moves = record { run = λ s h. (call-Moves (Y.open_spi _)).run s h }

  start_driver-Moves : Moves HasLine IsOpen start_driver
  unfolding start_driver follow_stage
  start_driver-Moves = record {
    run = λ s h.
        let b : Bus (linux_transport Y) = record {
          driver = new_driver (driver_config s.config);
          world = s.world;
        } in
        started s h (initialize {T = linux_transport Y} b) (initialize-ready b);
  }
    where
      started :
          (s : ReaderBackend Y)
          → HasLine s
          → (r : Bus (linux_transport Y) × Outcome ChipInfo)
          → ((chip : ChipInfo) → r.1 ≡ returned chip → r.0.driver.ready ≡ true)
          → After IsOpen (
              follow_stage
                (λ chip s. (record s { opened = true }, returned (reader_info s.config chip)))
                (
                  record s { has_transport = true; world = r.0.world; driver = some r.0.driver },
                  r.1,
                ))
      started s h (bus, returned chip) ready = record {
        opened = refl;
        interrupt = h.interrupt;
        ready = (bus.driver, refl, ready chip refl);
        scanning = h.scanning;
      }
      started s h (bus, cancelled) ready = line-IsAccounted _ h.interrupt
      started s h (bus, unavailable message) ready = line-IsAccounted _ h.interrupt
      started s h (bus, failed message) ready = line-IsAccounted _ h.interrupt

  open_stages-Moves : Moves IsBegun IsOpen open_stages
  unfolding open_stages
  open_stages-Moves =
      Moves-then IsBegun HasLine IsOpen _ _
        (Moves-then IsBegun HasLine HasLine _ _
          (Moves-then IsBegun HasLine HasLine _ _
            (Moves-then IsBegun IsBegun HasLine _ _
              (Moves-then IsBegun IsBegun IsBegun _ _
                (Moves-staged IsBegun IsBegun _ _ configure-Moves)
                (λ u. Moves-staged IsBegun IsBegun _ _ load_overlay-Moves))
              (λ u. Moves-staged IsBegun HasLine _ _ request_line-Moves))
            (λ u. Moves-staged HasLine HasLine _ _ enable_power-Moves))
          (λ u. Moves-staged HasLine HasLine _ _ open_spi-Moves))
        (λ u. Moves-staged HasLine IsOpen _ _ start_driver-Moves)

  -- How `open` may end: open if it returned, and otherwise with everything released.
  abbrev pub Opens : ReaderBackend Y × Outcome ReaderInfo → Type 0
  Opens (s, returned info) = IsOpen s
  Opens (s, cancelled) = IsClosed R s
  Opens (s, unavailable message) = IsClosed R s
  Opens (s, failed message) = IsClosed R s

  rolled_back : (r : ReaderBackend Y × Outcome ReaderInfo) → After IsOpen r → Opens (roll_back r)
  unfolding roll_back
  rolled_back (s, returned info) h = h
  rolled_back (s, cancelled) h = close-IsClosed R s h
  rolled_back (s, unavailable message) h = close-IsClosed R s h
  rolled_back (s, failed message) h = close-IsClosed R s h

  -- Whichever stage fails or is cancelled, and whatever was open before, `open` either returns with
  -- an initialized driver, the line set up and discovery off, or holds nothing of the hardware and
  -- has no driver.
  pub open_reader-Opens : (s : ReaderBackend Y) → IsAccounted R s → Opens (open_reader s)
  unfolding open_reader
  open_reader-Opens s h =
      let closed = close-IsClosed R s h in
      rolled_back (open_stages (close s)) (
        open_stages-Moves.run (close s) (record {
          accounted = closed-IsAccounted R (close s) closed;
          scanning = closed.scanning;
        }))
