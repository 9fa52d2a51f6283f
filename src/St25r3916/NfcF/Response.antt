-- ===== src/St25r3916/NfcF/Response.antt =====
-- What pollNfcF answers.
use cap_cc1101_nfc.Base.{
  ℕ, ◌≡◌, arith, true, Bytes, length, length-take, length-drop, drop, none, some,
}
use cap_cc1101_nfc.Types.{returned}
use cap_cc1101_nfc.St25r3916.{NfcFTag, NfcFPollResult, PollKind}
use cap_cc1101_nfc.St25r3916.Action.{Transport, Bus}
use cap_cc1101_nfc.St25r3916.Action.Rules.{Returns, returns_when, returns}
use cap_cc1101_nfc.St25r3916.NfcF.{
  Window, is_response, tag_of, read_response, conclude, receive_response, poll_nfc_f,
}

-- A result names a tag exactly if it holds one, which has an IDm and a PMm of eight bytes.
pub data IsAnswer : NfcFPollResult → Type 0 where
  found :
      (t : NfcFTag)
      → length t.idm ≡ 8
      → length t.pmm ≡ 8
      → IsAnswer record { kind = PollKind.tag; tag = some t }
  nothing : IsAnswer record { kind = PollKind.no_tag; tag = none }
  unclear : IsAnswer record { kind = PollKind.inconclusive; tag = none }

response-IsAnswer :
    (frame : Bytes)
    → is_response frame ≡ true
    → IsAnswer record { kind = PollKind.tag; tag = some (tag_of frame) }
response-IsAnswer frame h =
    found (tag_of frame) (ground (arith, length-take 8 (drop 2 frame), length-drop 2 frame))
      (ground (arith, length-take 8 (drop 10 frame), length-drop 10 frame))

module _ {T : Transport} where
  read_response-IsAnswer : Returns {T = T} IsAnswer read_response
  unfolding read_response
  read_response-IsAnswer = search (returns_when, unclear, response-IsAnswer) depth 10

  conclude-IsAnswer :
      (deadline flags : ℕ) (w : Window) → Returns {T = T} IsAnswer (conclude deadline flags w)
  unfolding conclude
  conclude-IsAnswer deadline flags w =
      search (returns, unclear, nothing, read_response-IsAnswer) depth 10

  receive-IsAnswer : Returns {T = T} IsAnswer receive_response
  unfolding receive_response
  receive-IsAnswer = search (returns, conclude-IsAnswer) depth 10

  poll-IsAnswer : Returns {T = T} IsAnswer poll_nfc_f
  unfolding poll_nfc_f
  poll-IsAnswer = search (returns, receive-IsAnswer) depth 10

  -- Whatever the transport answers, a result that pollNfcF returns names a tag exactly if it holds
  -- one, and that tag has an IDm and a PMm of eight bytes each.
  pub poll_nfc_f-IsAnswer :
      (s : Bus T) (result : NfcFPollResult) → (poll_nfc_f s).1 ≡ returned result → IsAnswer result
  poll_nfc_f-IsAnswer s result e = poll-IsAnswer.run s result e
