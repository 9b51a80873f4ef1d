-- ===== src/Coordinator/Liveness.antt =====
-- Sessions in which no pong comes.
use d_inference.Prelude.{
  ◌≡◌, refl, ap, ◌≢◌, Bool, true, false, none, some, List, [], ◌∷◌, ◌++◌, arith, ltb, if◌then◌else◌,
  lt→ltb, All, ℕ, ◌<◌, ◌-◌,
}
use d_inference.Coordinator.Decrypt.{Opening}
use d_inference.Coordinator.Session.{
  text, ping, pong, close, other, SessionEvent, shutdown, ping_tick, heartbeat_tick, outbound,
  received, read_failed, stream_ended, Round, Output, Next, go_on, pong_seen, return_ok, bail,
  handle_event, Trace, also, session, written, pong_timeout,
}

module _ {Value : Type 0} (o : Opening Value) where
  unfoldable pub NotPong : Round Value → Type 0
  NotPong r = r.event ≢ received pong

  written-goes_on : (sent : Bool) (out : Output Value) → (written o sent out).1 ≢ pong_seen
  written-goes_on true out = λ e. cc
  written-goes_on false out = λ e. cc

  no_pong : (e : SessionEvent Value) → e ≢ received pong → (handle_event o e).1 ≢ pong_seen
  unfolding handle_event
  no_pong shutdown h = λ e. cc
  no_pong (ping_tick sent) h = written-goes_on sent _
  no_pong (heartbeat_tick sent) h = written-goes_on sent _
  no_pong (outbound none sent) h = λ e. cc
  no_pong (outbound (some m) sent) h = written-goes_on sent _
  no_pong (received (text none)) h = λ e. cc
  no_pong (received (text (some m))) h = λ e. cc
  no_pong (received (ping payload)) h = λ e. cc
  no_pong (received pong) h = λ e. h refl
  no_pong (received close) h = λ e. cc
  no_pong (received other) h = λ e. cc
  no_pong read_failed h = λ e. cc
  no_pong stream_ended h = λ e. cc

  -- The first session has ended, with what the second has put out.
  pub record Cuts (t u : Trace o) : Type 0 where
    pub same : t.outputs ≡ u.outputs
    pub has_ended : t.ended ≢ none

  Cuts-if :
      (b : Bool) (t u t' u' : Trace o)
      → Cuts t u
      → Cuts t' u'
      → Cuts (if b then t else t') (if b then u else u')
  Cuts-if true t u t' u' h h' = h
  Cuts-if false t u t' u' h h' = h'

  Cuts-ended :
      (outs : List (Output Value)) (ok : Bool)
      → Cuts
          (record { outputs = outs; ended = some ok })
          (record { outputs = outs; ended = some ok })
  Cuts-ended outs ok = record { same = refl; has_ended = λ e. absurd (ground arith) }

  Cuts-also :
      (outs : List (Output Value)) (t u : Trace o) → Cuts t u → Cuts (also o outs t) (also o outs u)
  Cuts-also outs t u h = record {
    same = ap (λ (l : List (Output Value)). outs ++ l) h.same;
    has_ended = h.has_ended;
  }

  Cuts-next :
      (next : Next) (outs : List (Output Value)) (t u t' u' : Trace o)
      → next ≢ pong_seen
      → Cuts t u
      → Cuts
          (elim next [
            | go_on ↦ also o outs t
            | pong_seen ↦ also o outs t'
            | return_ok ↦ record { outputs = outs; ended = some true }
            | bail ↦ record { outputs = outs; ended = some false }
          ])
          (elim next [
            | go_on ↦ also o outs u
            | pong_seen ↦ also o outs u'
            | return_ok ↦ record { outputs = outs; ended = some true }
            | bail ↦ record { outputs = outs; ended = some false }
          ])
  Cuts-next go_on outs t u t' u' no' h = Cuts-also outs t u h
  Cuts-next pong_seen outs t u t' u' no' h = absurd (no' refl)
  Cuts-next return_ok outs t u t' u' no' h = Cuts-ended outs true
  Cuts-next bail outs t u t' u' no' h = Cuts-ended outs false

  -- A dead connection is given up: if no pong comes and more than the pong timeout has passed since the
  -- last one when a round begins, the session has ended by then, and it puts out nothing more than it
  -- had before that round, whatever would follow.
  pub session-Cuts :
      (quiet : List (Round Value)) (last_pong : ℕ) (r : Round Value) (rest : List (Round Value))
      → All NotPong quiet
      → pong_timeout < r.checked - last_pong
      → Cuts (session o last_pong (quiet ++ r ∷ rest)) (session o last_pong quiet)
  unfolding session NotPong
  session-Cuts [] last_pong r rest h late =
      rw (lt→ltb _ _ late) (record { same = refl; has_ended = λ e. absurd (ground arith) })
  session-Cuts (q ∷ quiet) last_pong r rest (hq, h) late =
      Cuts-if (ltb pong_timeout (q.checked - last_pong)) _ _ _ _ (Cuts-ended [] false) (
        Cuts-next (handle_event o q.event).1 (handle_event o q.event).0 _ _ _ _ (no_pong q.event hq)
          (session-Cuts quiet last_pong r rest h late))
