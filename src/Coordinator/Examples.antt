-- ===== src/Coordinator/Examples.antt =====
-- Concrete connections: the reconnection loop, a payload that opens, and a session.
use d_inference.Prelude.{
  ◌≡◌, refl, true, false, some, List, [], ◌∷◌, Memᴰ, arith, Text, codes, ◌++◌, All,
}
use d_inference.Protocol.{EncryptedPayload, inference_request, cancel}
use d_inference.Coordinator.Reconnect.{
  should_report, Attempt, connect, send_disconnected, report_connectivity, sleep, run,
}
use d_inference.Coordinator.Attempts.{attempts_from, run-attempts_from}
use d_inference.Coordinator.Decrypt.{
  Opening, opened, rejected, decrypt_request_body, invalid_key_length,
}
use d_inference.Coordinator.Session.{
  request, text, received, pong, Round, deliver, session, connected_session, handle_event,
}
use d_inference.Coordinator.Sealed.{CameSealed, connected_session-CameSealed}
use d_inference.Coordinator.Liveness.{NotPong, Cuts, session-Cuts}

abbrev failed : Attempt
failed = record { shutdown_before = false; closed_normally = false; shutdown_in_delay = false }

abbrev closed : Attempt
closed = record { shutdown_before = false; closed_normally = true; shutdown_in_delay = false }

abbrev attempts : List Attempt
attempts = failed ∷ failed ∷ closed ∷ failed ∷ []

run_log : run attempts ≡ (
    connect
    ∷ send_disconnected
    ∷ sleep 1
    ∷ connect
    ∷ send_disconnected
    ∷ sleep 2
    ∷ connect
    ∷ connect
    ∷ send_disconnected
    ∷ report_connectivity 3
    ∷ sleep 1
    ∷ [])
unfolding run should_report d_inference.Backend.Backoff.next_delay d_inference.Backend.Backoff.reset
run_log = refl

run-attempts_from_example : run attempts ≡ attempts_from 0 0 attempts
run-attempts_from_example = run-attempts_from attempts (omega arith)

-- A cipher that adds nothing: the text itself is the plaintext and the value.
abbrev plain_opening : Opening Text
plain_opening = record {
  base64_decode = λ t. some t;
  decrypt = λ key cipher. some cipher;
  from_slice = λ t. some t;
}

abbrev key_text : Text
key_text = codes "0123456789abcdef0123456789abcdef"

abbrev body_text : Text
body_text = codes "{\"model\":\"m\"}"

abbrev payload : EncryptedPayload
payload = record { ephemeral_public_key = key_text; ciphertext = body_text }

payload_opens : decrypt_request_body plain_opening payload ≡ opened body_text key_text
payload_opens = unfold decrypt_request_body in refl

short_key :
    decrypt_request_body plain_opening
      (record { ephemeral_public_key = codes "abc"; ciphertext = body_text })
    ≡ rejected (invalid_key_length 3)
short_key = unfold decrypt_request_body in refl

abbrev id_text : Text
id_text = codes "r1"

abbrev rounds : List (Round Text)
rounds =
    record { checked = 10; at = 20; event = received (text (some (cancel id_text))) }
    ∷ record {
      checked = 20;
      at = 30;
      event = received (text (some (inference_request id_text [] (some payload))));
    }
    ∷ []

delivered :
    Memᴰ
      (deliver (request id_text body_text (some key_text)))
      (connected_session plain_opening 0 rounds).outputs
unfolding connected_session session handle_event decrypt_request_body
delivered = Memᴰ.tail (Memᴰ.tail (Memᴰ.head refl))

connected_session-CameSealed_example :
    CameSealed plain_opening rounds id_text body_text (some key_text)
connected_session-CameSealed_example =
    connected_session-CameSealed plain_opening 0 rounds id_text body_text (some key_text) delivered

-- A round that begins after the pong timeout, and one that would bring a pong.
abbrev late_round : Round Text
late_round = record { checked = 31000; at = 31000; event = received pong }

rounds-NotPong : All (NotPong plain_opening) rounds
unfolding NotPong
rounds-NotPong = (λ e. cc, (λ e. cc, tt))

session-Cuts_example :
    Cuts plain_opening
      (session plain_opening 0 (rounds ++ late_round ∷ rounds))
      (session plain_opening 0 rounds)
session-Cuts_example =
    session-Cuts plain_opening rounds 0 late_round rounds rounds-NotPong (omega arith)
