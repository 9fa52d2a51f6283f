-- ===== src/St25r3916/Polls/NfcF.antt =====
-- pollNfcF changes neither readiness nor discovery.
use cap_cc1101_nfc.Base.{ℕ, zero, suc, Bool, true, false}
use cap_cc1101_nfc.St25r3916.Action.{Transport}
use cap_cc1101_nfc.St25r3916.Action.Rules.{Keeps, Keeps-modify}
use cap_cc1101_nfc.St25r3916.Field.Frame.{field_keeps}
use cap_cc1101_nfc.St25r3916.NfcF.{
  Window, inspect_if, has_drained, exchange_loop, settle_loop, settle_if, incomplete, read_response,
  conclude, switch_to_nfc_f, send_request, receive_response, poll_nfc_f,
}
use cap_cc1101_nfc.St25r3916.Polls.Exchanges.{IsFixed, await_fifo-Keeps}
use cap_cc1101_nfc.St25r3916.Polls.{reset_field_if_required-Keeps}

module _ {T : Transport} {ready discovering : Bool} where
  inspect_if-Keeps :
      (b : Bool) (w : Window) → Keeps {T = T} (IsFixed ready discovering) (inspect_if b w)
  unfolding inspect_if
  inspect_if-Keeps true w = search field_keeps
  inspect_if-Keeps false w = search field_keeps

  has_drained-Keeps :
      (drained : ℕ) (w : Window) → Keeps {T = T} (IsFixed ready discovering) (has_drained drained w)
  unfolding has_drained
  has_drained-Keeps drained w = search field_keeps

  exchange_loop-Keeps :
      (fuel drained deadline : ℕ) (w : Window)
      → Keeps {T = T} (IsFixed ready discovering) (exchange_loop fuel drained deadline w)
  unfolding exchange_loop
  exchange_loop-Keeps zero drained deadline w = search field_keeps
  exchange_loop-Keeps (suc fuel) drained deadline w =
      let kept = λ (w : Window). exchange_loop-Keeps fuel drained deadline w in
      search (field_keeps, inspect_if-Keeps, has_drained-Keeps) depth 15

  settle_loop-Keeps :
      (fuel deadline : ℕ) (w : Window)
      → Keeps {T = T} (IsFixed ready discovering) (settle_loop fuel deadline w)
  unfolding settle_loop
  settle_loop-Keeps zero deadline w = search field_keeps
  settle_loop-Keeps (suc fuel) deadline w =
      let kept = λ (w : Window). settle_loop-Keeps fuel deadline w in search field_keeps depth 10

  settle_if-Keeps :
      (b : Bool) (w : Window) → Keeps {T = T} (IsFixed ready discovering) (settle_if b w)
  unfolding settle_if
  settle_if-Keeps true w = search (field_keeps, settle_loop-Keeps)
  settle_if-Keeps false w = search field_keeps

  incomplete-Keeps : Keeps {T = T} (IsFixed ready discovering) incomplete
  incomplete-Keeps = search (field_keeps, Keeps-modify)

  read_response-Keeps : Keeps {T = T} (IsFixed ready discovering) read_response
  unfolding read_response
  read_response-Keeps =
      search (field_keeps, Keeps-modify, await_fifo-Keeps, incomplete-Keeps) depth 10

  conclude-Keeps :
      (deadline flags : ℕ) (w : Window)
      → Keeps {T = T} (IsFixed ready discovering) (conclude deadline flags w)
  unfolding conclude
  conclude-Keeps deadline flags w =
      search (field_keeps, Keeps-modify, incomplete-Keeps, read_response-Keeps) depth 10

  switch_to_nfc_f-Keeps : Keeps {T = T} (IsFixed ready discovering) switch_to_nfc_f
  unfolding switch_to_nfc_f
  switch_to_nfc_f-Keeps = search (field_keeps, Keeps-modify) depth 10

  send_request-Keeps : Keeps {T = T} (IsFixed ready discovering) send_request
  unfolding send_request
  send_request-Keeps = search field_keeps depth 15

  receive_response-Keeps : Keeps {T = T} (IsFixed ready discovering) receive_response
  unfolding receive_response
  receive_response-Keeps =
      search (field_keeps, exchange_loop-Keeps, settle_if-Keeps, conclude-Keeps) depth 10

  pub poll_nfc_f-Keeps : Keeps {T = T} (IsFixed ready discovering) poll_nfc_f
  unfolding poll_nfc_f
  poll_nfc_f-Keeps =
      search
        (
          field_keeps, switch_to_nfc_f-Keeps, reset_field_if_required-Keeps, send_request-Keeps,
          receive_response-Keeps,
        )
        depth 10
