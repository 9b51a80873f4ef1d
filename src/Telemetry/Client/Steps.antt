-- ===== src/Telemetry/Client/Steps.antt =====
-- The bounds of the telemetry pipeline through every step.
use d_inference.Prelude.{
  ◌≡◌, refl, ap, Bool, true, false, not, ◌&&◌, Option, List, [], ◌∷◌, ◌++◌, arith, ltb, leb,
  if◌then◌else◌, ltb→lt, length, is_empty, All, length-append, Text, ◌<◌, ◌≤◌,
}
use d_inference.Telemetry.Queue.{EventJson}
use d_inference.Telemetry.Client.{
  TelemetryConfig, Pipeline, Disk, flush, emit_stamped, emit_blocking_stamped, receive, tick, close,
  ClientStep, client_step, run_client, emitted, emitted_blocking, received, ticked, closed, Sending,
  closing, flushing, selects, answered,
}
use d_inference.Telemetry.Client.Batches.{
  IsBatch, IsBounded, batches_of, flush-IsBounded, drain_disk-IsBounded, finish-IsBounded,
}

module _ {Event : Type 0} (j : EventJson Event) (cfg : TelemetryConfig) where
  -- A message that is sent if there is room in the channel, and spilled to disk otherwise.
  sent_or_spilled-IsBounded :
      (b : Bool) (ev : Event) (s t : Pipeline Event)
      → (b ≡ true → ltb (length s.channel) cfg.mem_queue_cap ≡ true)
      → IsBounded j cfg s
      → IsBounded j cfg t
      → IsBounded j cfg (if b then record s { channel = s.channel ++ ev ∷ [] } else t)
  sent_or_spilled-IsBounded true ev s t room h ht = record {
    channel_cap = omega (arith, ltb→lt _ _ (room refl), length-append s.channel (ev ∷ []));
    buffer_cap = h.buffer_cap;
    batches = h.batches;
    sends = h.sends;
  }
  sent_or_spilled-IsBounded false ev s t room h ht = ht

  spilled-IsBounded :
      (file : Option Text) (s : Pipeline Event)
      → IsBounded j cfg s
      → IsBounded j cfg (record s { file = file })
  spilled-IsBounded file s h = record {
    channel_cap = h.channel_cap;
    buffer_cap = h.buffer_cap;
    batches = h.batches;
    sends = h.sends;
  }

  either-IsBounded :
      (b : Bool) (s t : Pipeline Event)
      → IsBounded j cfg s
      → IsBounded j cfg t
      → IsBounded j cfg (if b then s else t)
  either-IsBounded true s t hs ht = hs
  either-IsBounded false s t hs ht = ht

  and_second : (b c : Bool) → not b && c ≡ true → c ≡ true
  and_second true c e = absurd (ground (arith, e))
  and_second false c e = e

  emit_stamped-IsBounded :
      (d : Disk) (ev : Event) (s : Pipeline Event)
      → IsBounded j cfg s
      → IsBounded j cfg (emit_stamped j cfg d ev s)
  unfolding emit_stamped
  emit_stamped-IsBounded d ev s h = either-IsBounded s.worker_gone s _ h (
      sent_or_spilled-IsBounded (ltb (length s.channel) cfg.mem_queue_cap) ev s _ (λ e. e) h
        (spilled-IsBounded _ s h))

  emit_blocking_stamped-IsBounded :
      (d : Disk) (ev : Event) (s : Pipeline Event)
      → IsBounded j cfg s
      → IsBounded j cfg (emit_blocking_stamped j cfg d ev s)
  unfolding emit_blocking_stamped
  emit_blocking_stamped-IsBounded d ev s h =
      sent_or_spilled-IsBounded (not s.worker_gone && ltb (length s.channel) cfg.mem_queue_cap) ev s
        _ (and_second s.worker_gone (ltb (length s.channel) cfg.mem_queue_cap)) h
        (spilled-IsBounded _ s h)

  module _ (some_batch : 0 < cfg.max_batch) where
    receive-IsBounded : (s : Pipeline Event) → IsBounded j cfg s → IsBounded j cfg (receive j cfg s)
    unfolding receive
    receive-IsBounded s h = go s.channel refl
      where
        full :
            (s' : Pipeline Event) (b : Bool)
            → leb cfg.max_batch (length s'.buffer) ≡ b
            → length s'.channel ≤ cfg.mem_queue_cap
            → length s'.buffer ≤ cfg.max_batch
            → All (IsBatch j cfg) s'.taken
            → All (IsBatch j cfg) (batches_of j s'.sending)
            → IsBounded j cfg (if b then flush j flushing s' else s')
        full s' true e channel buffer taken sends =
            flush-IsBounded j cfg some_batch flushing s' (λ batch. refl) channel buffer taken sends
        full s' false e channel buffer taken sends = record {
          channel_cap = channel;
          buffer_cap = ground (arith, e);
          batches = taken;
          sends = sends;
        }

        go :
            (xs : List Event)
            → s.channel ≡ xs
            → IsBounded j cfg (elim xs [
              | [] ↦ s
              | ev ∷ channel ↦
                  let s' : Pipeline Event = record s {
                    channel = channel;
                    buffer = s.buffer ++ ev ∷ [];
                  } in
                  if leb cfg.max_batch (length s'.buffer) then flush j flushing s' else s'
            ])
        go [] e = h
        go (ev ∷ channel) e =
            full (record s { channel = channel; buffer = s.buffer ++ ev ∷ [] }) _ refl
              (omega (arith, h.channel_cap, ap (λ (xs : List Event). length xs) e))
              (omega (arith, h.buffer_cap, length-append s.buffer (ev ∷ []))) h.batches h.sends

    flushed-IsBounded :
        (sent : List Event → Sending Event) (s : Pipeline Event)
        → ((batch : List Event) → batches_of j (sent batch) ≡ batch ∷ [])
        → IsBounded j cfg s
        → IsBounded j cfg (flush j sent s)
    flushed-IsBounded sent s one h =
        flush-IsBounded j cfg some_batch sent s one h.channel_cap (omega (arith, h.buffer_cap))
          h.batches h.sends

    tick-IsBounded :
        (d : Disk) (s : Pipeline Event) → IsBounded j cfg s → IsBounded j cfg (tick j cfg d s)
    unfolding tick
    tick-IsBounded d s h =
        either-IsBounded (not (is_empty s.buffer)) _ _
          (flushed-IsBounded flushing s (λ batch. refl) h)
          (drain_disk-IsBounded j cfg some_batch d s h)

    close-IsBounded : (s : Pipeline Event) → IsBounded j cfg s → IsBounded j cfg (close j s)
    unfolding close
    close-IsBounded s h =
        either-IsBounded (is_empty s.channel) _ s
          (either-IsBounded (is_empty s.buffer) (record s { worker_gone = true }) _
            (record {
              channel_cap = h.channel_cap;
              buffer_cap = h.buffer_cap;
              batches = h.batches;
              sends = h.sends;
            })
            (flushed-IsBounded closing s (λ batch. refl) h))
          h

    client_step-IsBounded :
        (step : ClientStep j) (s : Pipeline Event)
        → IsBounded j cfg s
        → IsBounded j cfg (client_step j cfg step s)
    client_step-IsBounded (emitted d ev) s h = emit_stamped-IsBounded d ev s h
    client_step-IsBounded (emitted_blocking d ev) s h = emit_blocking_stamped-IsBounded d ev s h
    client_step-IsBounded received s h =
        either-IsBounded (selects j s) _ s (receive-IsBounded s h) h
    client_step-IsBounded (ticked d) s h =
        either-IsBounded (selects j s) _ s (tick-IsBounded d s h) h
    client_step-IsBounded closed s h = either-IsBounded (selects j s) _ s (close-IsBounded s h) h
    client_step-IsBounded (answered d delivery) s h =
        finish-IsBounded j cfg some_batch d delivery s h

    -- Whatever is emitted, and however the network and the disk behave, the channel never holds more
    -- than its capacity, the worker's buffer always stays below the size of a batch, and every batch
    -- that is sent or that the coordinator took, from memory or from disk, has at least one event and at
    -- most `max_batch`. That is positive.
    pub run_client-IsBounded :
        (steps : List (ClientStep j)) (s : Pipeline Event)
        → IsBounded j cfg s
        → IsBounded j cfg (run_client j cfg steps s)
    unfolding run_client
    run_client-IsBounded [] s h = h
    run_client-IsBounded (step ∷ steps) s h =
        run_client-IsBounded steps (client_step j cfg step s) (client_step-IsBounded step s h)
