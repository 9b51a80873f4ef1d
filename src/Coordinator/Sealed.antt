-- ===== src/Coordinator/Sealed.antt =====
-- Where the requests that the main loop is told of come from.
use d_inference.Prelude.{
  ◌≡◌, refl, inl, inr, Bool, true, false, Option, none, some, List, [], ◌∷◌, Memᴰ, ltb,
  if◌then◌else◌, Memᴰ-append, Text, ℕ, ◌-◌,
}
use d_inference.Protocol.{
  EncryptedPayload, CoordinatorMessage, inference_request, cancel, attestation_challenge,
  runtime_status,
}
use d_inference.Coordinator.Decrypt.{
  Opening, Decrypted, opened, rejected, decrypt_request_body, IsOpened,
  decrypt_request_body-IsOpened,
}
use d_inference.Coordinator.Session.{
  request, text, ping, pong, close, other, SessionEvent, shutdown, ping_tick, heartbeat_tick,
  outbound, received, read_failed, stream_ended, Round, Output, deliver, Next, go_on, pong_seen,
  return_ok, bail, hand_on, handle_message, handle_event, Trace, also, session, connected_session,
  written, write_ping, write_heartbeat, write_message, pong_timeout,
}

module _ {Value : Type 0} (o : Opening Value) where
  -- The request came as an encrypted payload, which was opened with the provider's key.
  pub record CameSealed (rounds : List (Round Value)) (id : Text) (body : Value) (key : Option Text)
      : Type 0 where
    pub round : Round Value
    pub received_in : Memᴰ round rounds
    pub plain_body : Value
    pub payload : EncryptedPayload
    pub message :
        round.event ≡ received (text (some (inference_request id plain_body (some payload))))
    pub session_key : Text
    pub key_kept : key ≡ some session_key
    pub body_opened : decrypt_request_body o payload ≡ opened body session_key
    pub decrypted : IsOpened o payload body session_key

  -- An event that delivers a request is a sealed request.
  abbrev FromSealed : SessionEvent Value → Text → Value → Option Text → Type 0
  FromSealed e id body key =
      (plain : Value) × (enc : EncryptedPayload) × (k : Text) × (e
        ≡ received (text (some (inference_request id plain (some enc)))))
      × (key ≡ some k)
      × (decrypt_request_body o enc ≡ opened body k)

  hand_on_sealed :
      (i : Text) (plain : Value) (enc : EncryptedPayload) (d : Decrypted Value) (id : Text)
      (body : Value) (key : Option Text)
      → decrypt_request_body o enc ≡ d
      → Memᴰ (deliver (request id body key)) (hand_on o i d)
      → FromSealed (received (text (some (inference_request i plain (some enc))))) id body key
  hand_on_sealed i plain enc (rejected e) id body key q m = elim m [ ]
  hand_on_sealed i plain enc (opened b k) id body key q (Memᴰ.head p) = (plain, enc, k, cc, cc, cc)
  hand_on_sealed i plain enc (opened b k) id body key q (Memᴰ.tail m) = elim m [ ]

  -- An output that is no request.
  not_it : {x out : Output Value} {P : Type 0} → (x ≡ out → P) → Memᴰ x (out ∷ []) → P
  not_it no' (Memᴰ.head p) = no' p
  not_it no' (Memᴰ.tail m) = elim m [ ]

  message_sealed :
      (m : CoordinatorMessage Value) (id : Text) (body : Value) (key : Option Text)
      → Memᴰ (deliver (request id body key)) (handle_message o m)
      → FromSealed (received (text (some m))) id body key
  unfolding handle_message
  message_sealed (inference_request i plain none) id body key m = not_it (λ p. cc) m
  message_sealed (inference_request i plain (some enc)) id body key m =
      hand_on_sealed i plain enc (decrypt_request_body o enc) id body key refl m
  message_sealed (cancel i) id body key m = not_it (λ p. cc) m
  message_sealed (attestation_challenge n t) id body key m = not_it (λ p. cc) m
  message_sealed (runtime_status true l) id body key m = elim m [ ]
  message_sealed (runtime_status false l) id body key m = not_it (λ p. cc) m

  written_sealed :
      (sent : Bool) (out : Output Value) {x : Output Value} {P : Type 0}
      → (x ≡ out → P)
      → Memᴰ x (written o sent out).0
      → P
  written_sealed true out no' m = not_it no' m
  written_sealed false out no' m = elim m [ ]

  event_sealed :
      (e : SessionEvent Value) (id : Text) (body : Value) (key : Option Text)
      → Memᴰ (deliver (request id body key)) (handle_event o e).0
      → FromSealed e id body key
  unfolding handle_event
  event_sealed shutdown id body key m = not_it (λ p. cc) m
  event_sealed (ping_tick sent) id body key m = written_sealed sent write_ping (λ p. cc) m
  event_sealed (heartbeat_tick sent) id body key m = written_sealed sent write_heartbeat (λ p. cc) m
  event_sealed (outbound none sent) id body key m = not_it (λ p. cc) m
  event_sealed (outbound (some msg) sent) id body key m =
      written_sealed sent (write_message msg) (λ p. cc) m
  event_sealed (received (text none)) id body key m = elim m [ ]
  event_sealed (received (text (some msg))) id body key m = message_sealed msg id body key m
  event_sealed (received (ping payload)) id body key m = not_it (λ p. cc) m
  event_sealed (received pong) id body key m = elim m [ ]
  event_sealed (received close) id body key m = elim m [ ]
  event_sealed (received other) id body key m = elim m [ ]
  event_sealed read_failed id body key m = elim m [ ]
  event_sealed stream_ended id body key m = elim m [ ]

  -- Every output comes from a round that was handled.
  Handled : List (Round Value) → Trace o → Type 0
  Handled rounds t =
      (x : Output Value)
      → Memᴰ x t.outputs
      → (r : Round Value) × Memᴰ r rounds × Memᴰ x (handle_event o r.event).0

  Handled-if :
      (b : Bool) (rounds : List (Round Value)) (t u : Trace o)
      → Handled rounds t
      → Handled rounds u
      → Handled rounds (if b then t else u)
  Handled-if true rounds t u ht hu = ht
  Handled-if false rounds t u ht hu = hu

  Handled-also :
      (r : Round Value) (rounds : List (Round Value)) (t : Trace o)
      → Handled rounds t
      → Handled (r ∷ rounds) (also o (handle_event o r.event).0 t)
  unfolding Handled
  Handled-also r rounds t h x m = elim (Memᴰ-append (handle_event o r.event).0 t.outputs m) [
    | inl here ↦ (r, Memᴰ.head refl, here)
    | inr later ↦ let (s, s_in, x_in) = h x later in (s, Memᴰ.tail s_in, x_in)
  ]

  Handled-next :
      (next : Next) (r : Round Value) (rounds : List (Round Value)) (t u : Trace o)
      → Handled rounds t
      → Handled rounds u
      → Handled (r ∷ rounds) (elim next [
        | go_on ↦ also o (handle_event o r.event).0 t
        | pong_seen ↦ also o (handle_event o r.event).0 u
        | return_ok ↦ record { outputs = (handle_event o r.event).0; ended = some true }
        | bail ↦ record { outputs = (handle_event o r.event).0; ended = some false }
      ])
  unfolding Handled
  Handled-next go_on r rounds t u ht hu = Handled-also r rounds t ht
  Handled-next pong_seen r rounds t u ht hu = Handled-also r rounds u hu
  Handled-next return_ok r rounds t u ht hu = λ x m. (r, Memᴰ.head refl, m)
  Handled-next bail r rounds t u ht hu = λ x m. (r, Memᴰ.head refl, m)

  session-Handled :
      (rounds : List (Round Value)) (last_pong : ℕ) → Handled rounds (session o last_pong rounds)
  unfolding session Handled
  session-Handled [] last_pong = λ x m. elim m [ ]
  session-Handled (r ∷ rounds) last_pong =
      Handled-if (ltb pong_timeout (r.checked - last_pong)) (r ∷ rounds) _ _ (λ x m. elim m [ ])
        (Handled-next (handle_event o r.event).1 r rounds _ _ (session-Handled rounds last_pong)
          (session-Handled rounds r.at))

  -- A session tells the main loop of a request only when the coordinator sent one with an encrypted
  -- body, which the provider's key opened: the loop gets the value that the decrypted text reads as, and
  -- with it the key of the sender, of 32 bytes, under which the payload's ciphertext was decrypted.
  pub connected_session-CameSealed :
      (started : ℕ) (rounds : List (Round Value)) (id : Text) (body : Value) (key : Option Text)
      → Memᴰ (deliver (request id body key)) (connected_session o started rounds).outputs
      → CameSealed rounds id body key
  unfolding connected_session Handled
  connected_session-CameSealed started rounds id body key (Memᴰ.head p) = absurd cc
  connected_session-CameSealed started rounds id body key (Memᴰ.tail m) =
      let (r, r_in, x_in) = session-Handled rounds started _ m in
      let (plain, enc, k, sealed, kept, body_opened) = event_sealed r.event id body key x_in in
      record {
        round = r;
        received_in = r_in;
        plain_body = plain;
        payload = enc;
        message = sealed;
        session_key = k;
        key_kept = kept;
        body_opened = body_opened;
        decrypted = decrypt_request_body-IsOpened o enc body k body_opened;
      }
