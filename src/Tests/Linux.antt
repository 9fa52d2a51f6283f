-- ===== src/Tests/Linux.antt =====
-- The Linux backend over the chip of the driver's tests, and its arbiter over polls that are given.
use cap_cc1101_nfc.Base.{ℕ, ◌≡◌, refl, true, false, if◌then◌else◌, [], ◌∷◌, bytes_eq, arith, some}
use cap_cc1101_nfc.Types.{returned}
use cap_cc1101_nfc.St25r3916.Action.{
  follow, ◌>>=◌, pure, throw, gets, modify, call, sense, throw_if_cancelled, sleep_for, on_value,
}
use cap_cc1101_nfc.St25r3916.Bus.{
  exchange, read_registers, read_register, read_register16, write_registers, write_register,
  write_register16, write_register32, read_register_b, write_register_b, direct_command,
  modify_register, fifo_size, read_fifo, write_fifo, set_transmit_length,
}
use cap_cc1101_nfc.St25r3916.Interrupts.{
  interrupt_asserted, clock, read_interrupts, clear_passes, clear_interrupts, collect_passes,
  collect_if, take_matched, wait_loop, wait_for_interrupt,
}
use cap_cc1101_nfc.St25r3916.Field.{
  profile_ready, field_ready, resample, ensure_field, ensure_nfc_a_field, prepare_transceive,
  set_no_response_timeout,
}
use cap_cc1101_nfc.St25r3916.Exchange.{
  await_fifo, transceive, log_wakeup_diagnostics, request_wakeup, select_level, halt_selected_tag,
}
use cap_cc1101_nfc.St25r3916.Anticollision.{anticollision_loop, anticollision_level}
use cap_cc1101_nfc.St25r3916.NfcA.{
  protocol_failure, describe_tag, complete_tag, cascade, switch_to_nfc_a, reset_field_if_required,
  after_wakeup, poll_nfc_a, type_name_for_sak,
}
use cap_cc1101_nfc.Base.{not, Bool, suc}
use cap_cc1101_nfc.Types.{Outcome, TagTechnology, DiscoveryPollKind, DiscoveryPollResult}
use cap_cc1101_nfc.LinuxBackend.{
  DiscoveryProtocol, LockedProtocol, lock_protocol, nothing, follow_poll, poll_locked, arbitrate,
}
use cap_cc1101_nfc.LinuxBackend.Polls.{
  LinuxNfcBackend, poll_a, poll_protocol, require_open, scan, poll_discovery,
}
use cap_cc1101_nfc.LinuxBackend.Progress.{rounds, f_polls, locked, rounds-IsStuck, noise-locks_a}
use cap_cc1101_nfc.LinuxBackend.Reported.{IsReported, poll_discovery-IsReported}
use cap_cc1101_nfc.Tests.Reader.{chip, classic, discovering_bus}

-- A reader that scans the tag above under a lock on NFC-A.
abbrev classic_reader : LinuxNfcBackend (chip classic)
classic_reader = record {
  bus = discovering_bus;
  opened = true;
  scanning = true;
  arbiter = lock_protocol DiscoveryProtocol.nfc_a;
}

abbrev classic_report : DiscoveryPollResult
classic_report = record {
  kind = DiscoveryPollKind.tag;
  tag = some (record {
    technology = TagTechnology.nfc_a;
    uid = 0x08 ∷ 0x01 ∷ 0x02 ∷ 0x03 ∷ [];
    atqa = 0x08 ∷ 0x01 ∷ [];
    sak = 0x08;
    type_name = "MIFARE Classic 1K-compatible";
    ndef_supported = false;
    ndef_readable = false;
    ndef_capacity = 0;
    records = [];
  });
}

poll_classic_reader : (poll_discovery classic_reader).1 ≡ returned classic_report
unfolding poll_discovery scan require_open arbitrate poll_locked follow_poll poll_protocol poll_a
    poll_nfc_a switch_to_nfc_a reset_field_if_required after_wakeup cascade complete_tag
    describe_tag protocol_failure anticollision_level anticollision_loop request_wakeup
    log_wakeup_diagnostics select_level transceive halt_selected_tag await_fifo
    set_no_response_timeout prepare_transceive ensure_nfc_a_field ensure_field resample field_ready
    profile_ready wait_for_interrupt wait_loop take_matched collect_if collect_passes
    clear_interrupts clear_passes read_interrupts clock interrupt_asserted set_transmit_length
    write_fifo read_fifo fifo_size modify_register direct_command write_register_b read_register_b
    write_register32 write_register16 write_register write_registers read_register16 read_register
    read_registers exchange follow ◌>>=◌ pure throw gets modify call sense throw_if_cancelled
    sleep_for on_value bytes_eq type_name_for_sak
poll_classic_reader = refl

poll_discovery-IsReported_example : IsReported classic_report
poll_discovery-IsReported_example =
    poll_discovery-IsReported classic_reader classic_report poll_classic_reader

-- Polls of NFC-F that are incomplete and without a tag in turns, and a tag of NFC-A.
abbrev flickering : DiscoveryProtocol → Bool → Bool × Outcome DiscoveryPollResult
flickering DiscoveryProtocol.nfc_f noisy = (
  not noisy,
  returned (nothing (if noisy then DiscoveryPollKind.no_observation else DiscoveryPollKind.no_tag)),
)
flickering DiscoveryProtocol.nfc_a noisy = (noisy, returned classic_report)

rounds-IsStuck_example :
    ((rounds flickering 1000 (lock_protocol DiscoveryProtocol.nfc_f) true).0.locked_protocol
      ≡ LockedProtocol.nfc_f)
    × ((rounds flickering 1000 (lock_protocol DiscoveryProtocol.nfc_f) true).1
        ≡ f_polls flickering 1000 true)
rounds-IsStuck_example =
    rounds-IsStuck flickering (λ noisy. noisy) (λ noisy. refl) (λ noisy. refl) 1000
      (lock_protocol DiscoveryProtocol.nfc_f) true (refl, (refl, omega arith))

-- Polls of NFC-F that all end in the same way.
abbrev steady : DiscoveryPollKind → DiscoveryProtocol → ℕ → ℕ × Outcome DiscoveryPollResult
steady kind DiscoveryProtocol.nfc_f w = (suc w, returned (nothing kind))
steady kind DiscoveryProtocol.nfc_a w = (suc w, returned classic_report)

noise-locks_a_example :
    let (b, v) =
      rounds
        (steady DiscoveryPollKind.no_observation)
        2
        (lock_protocol DiscoveryProtocol.nfc_f)
        0 in
    ((arbitrate (steady DiscoveryPollKind.no_observation) b v).0
      ≡ lock_protocol DiscoveryProtocol.nfc_a)
    × ((arbitrate (steady DiscoveryPollKind.no_observation) b v).2 ≡ returned classic_report)
noise-locks_a_example =
    noise-locks_a (steady DiscoveryPollKind.no_observation) classic_report refl (λ w. refl)
      (λ w. refl) 2 (lock_protocol DiscoveryProtocol.nfc_f) 0
      (locked (lock_protocol DiscoveryProtocol.nfc_f) refl) (omega arith)
