-- ===== src/St25r3916/Field/Frame.antt =====
-- Of the driver's own state, the field's operations change the stored interrupts and nothing else.
use cap_cc1101_nfc.Base.{ℕ, zero, suc, Bool, Bytes}
use cap_cc1101_nfc.St25r3916.{Driver}
use cap_cc1101_nfc.St25r3916.Action.{Transport, Action}
use cap_cc1101_nfc.St25r3916.Action.Rules.{Keeps}
use cap_cc1101_nfc.St25r3916.Interrupts.Frame.{IgnoresStore, interrupt_keeps}
use cap_cc1101_nfc.St25r3916.Field.{
  await_oscillator, enable_oscillator, enable_field, begin_field, configure_nfc_a, configure_nfc_f,
  drop_field, reset_nfc_a_field, reset_nfc_f_field, profile_ready, field_ready, resample,
  ensure_field, ensure_nfc_a_field, ensure_nfc_f_field, prepare_transceive, set_no_response_timeout,
}

module _ {T : Transport} (P : Driver → Type 0) where
  await_oscillator-Keeps : (attempts : ℕ) → Keeps {T = T} P (await_oscillator attempts)
  unfolding await_oscillator
  await_oscillator-Keeps zero = search interrupt_keeps
  await_oscillator-Keeps (suc attempts) =
      let kept = await_oscillator-Keeps attempts in search interrupt_keeps

  profile_ready-Keeps :
      (mode receiver : Bytes) (nrt_emv : Bool)
      → Keeps {T = T} P (profile_ready mode receiver nrt_emv)
  unfolding profile_ready
  profile_ready-Keeps mode receiver nrt_emv = search interrupt_keeps

  field_ready-Keeps :
      (mode receiver : Bytes) (nrt_emv : Bool) (operation : ℕ)
      → Keeps {T = T} P (field_ready mode receiver nrt_emv operation)
  unfolding field_ready
  field_ready-Keeps mode receiver nrt_emv operation = search (interrupt_keeps, profile_ready-Keeps)

  resample-Keeps :
      (more last : ℕ) (mode receiver : Bytes) (nrt_emv : Bool)
      → Keeps {T = T} P (resample more last mode receiver nrt_emv)
  unfolding resample
  resample-Keeps zero last mode receiver nrt_emv = search interrupt_keeps
  resample-Keeps (suc more) last mode receiver nrt_emv =
      let kept = λ (last : ℕ). resample-Keeps more last mode receiver nrt_emv in
      search (interrupt_keeps, field_ready-Keeps)

  drop_field-Keeps : Keeps {T = T} P drop_field
  drop_field-Keeps = search interrupt_keeps

  pub prepare_transceive-Keeps : Keeps {T = T} P prepare_transceive
  unfolding prepare_transceive
  prepare_transceive-Keeps = search interrupt_keeps

  pub set_no_response_timeout-Keeps :
      (timeout : ℕ) → Keeps {T = T} P (set_no_response_timeout timeout)
  unfolding set_no_response_timeout
  set_no_response_timeout-Keeps timeout = search interrupt_keeps

module _ {T : Transport} (P : Driver → Type 0) (ignores : IgnoresStore P) where
  pub enable_oscillator-Keeps : Keeps {T = T} P enable_oscillator
  unfolding enable_oscillator
  enable_oscillator-Keeps = search (interrupt_keeps, await_oscillator-Keeps) depth 10

  enable_field-Keeps : Keeps {T = T} P enable_field
  unfolding enable_field
  enable_field-Keeps = search interrupt_keeps depth 20

  begin_field-Keeps : Keeps {T = T} P begin_field
  begin_field-Keeps = search (interrupt_keeps, enable_field-Keeps) depth 20

  pub configure_nfc_a-Keeps : Keeps {T = T} P configure_nfc_a
  unfolding configure_nfc_a
  configure_nfc_a-Keeps = search (interrupt_keeps, begin_field-Keeps) depth 40

  pub configure_nfc_f-Keeps : Keeps {T = T} P configure_nfc_f
  unfolding configure_nfc_f
  configure_nfc_f-Keeps = search (interrupt_keeps, begin_field-Keeps) depth 40

  pub reset_nfc_a_field-Keeps : Keeps {T = T} P reset_nfc_a_field
  unfolding reset_nfc_a_field
  reset_nfc_a_field-Keeps = search (interrupt_keeps, drop_field-Keeps, configure_nfc_a-Keeps)

  pub reset_nfc_f_field-Keeps : Keeps {T = T} P reset_nfc_f_field
  unfolding reset_nfc_f_field
  reset_nfc_f_field-Keeps = search (interrupt_keeps, drop_field-Keeps, configure_nfc_f-Keeps)

  ensure_field-Keeps :
      (mode receiver : Bytes) (nrt_emv : Bool) (configure : Action T (Unit {0}))
      → Keeps P configure
      → Keeps {T = T} P (ensure_field mode receiver nrt_emv configure)
  unfolding ensure_field
  ensure_field-Keeps mode receiver nrt_emv configure kept =
      search (interrupt_keeps, field_ready-Keeps, resample-Keeps, enable_oscillator-Keeps) depth 20

  pub ensure_nfc_a_field-Keeps : Keeps {T = T} P ensure_nfc_a_field
  unfolding ensure_nfc_a_field
  ensure_nfc_a_field-Keeps = search (ensure_field-Keeps, configure_nfc_a-Keeps)

  pub ensure_nfc_f_field-Keeps : Keeps {T = T} P ensure_nfc_f_field
  unfolding ensure_nfc_f_field
  ensure_nfc_f_field-Keeps = search (ensure_field-Keeps, configure_nfc_f-Keeps)

pub ruleset field_keeps = (
  interrupt_keeps, prepare_transceive-Keeps, set_no_response_timeout-Keeps, enable_oscillator-Keeps,
  configure_nfc_a-Keeps, configure_nfc_f-Keeps, reset_nfc_a_field-Keeps, reset_nfc_f_field-Keeps,
  ensure_nfc_a_field-Keeps, ensure_nfc_f_field-Keeps,
)
