-- ===== src/Telemetry/Client/Delivered.antt =====
-- Where the events of the telemetry pipeline are, through every step.
use d_inference.Prelude.{
  ◌≡◌, sym, subst, Bool, true, not, ◌&&◌, List, [], ◌∷◌, arith, ltb, if◌then◌else◌, length,
  is_empty, count_if, All, ℕ, ◌+◌, refl,
}
use d_inference.Telemetry.Queue.{EventJson}
use d_inference.Telemetry.Fifo.{IsCodec}
use d_inference.Telemetry.Client.{
  TelemetryConfig, Pipeline, Disk, emit_stamped, emit_blocking_stamped, receive, tick, close,
  ClientStep, client_step, run_client, emitted, emitted_blocking, received, ticked, closed,
  answered, closing, flushing, selects, finish,
}
use d_inference.Telemetry.Client.Conserved.{
  working, Accounts, flush-Accounts, drain_disk-Accounts, sent_or_spilled-Accounts, more-Accounts,
  either-Accounts, receive-Accounts, finish-Accounts,
}

module _ {Event : Type 0} (j : EventJson Event) where
  -- The events that the steps emit.
  abbrev pub events_of : List (ClientStep j) → List Event
  events_of [] = []
  events_of (emitted d ev ∷ steps) = ev ∷ events_of steps
  events_of (emitted_blocking d ev ∷ steps) = ev ∷ events_of steps
  events_of (received ∷ steps) = events_of steps
  events_of (ticked d ∷ steps) = events_of steps
  events_of (closed ∷ steps) = events_of steps
  events_of (answered d delivery ∷ steps) = events_of steps

  -- The step meets a disk on which every call succeeds.
  abbrev pub Works : ClientStep j → Type 0
  Works (emitted d ev) = d ≡ working
  Works (emitted_blocking d ev) = d ≡ working
  Works received = Unit
  Works (ticked d) = d ≡ working
  Works closed = Unit
  Works (answered d delivery) = d ≡ working

module _ {Event : Type 0} (j : EventJson Event) (codec : IsCodec j) (p : Event → Bool)
    (cfg : TelemetryConfig) where
  tick-Accounts :
      (s : Pipeline Event) (n : ℕ)
      → Accounts j codec p s n
      → Accounts j codec p (tick j cfg working s) n
  unfolding tick
  tick-Accounts s n h =
      either-Accounts j codec p cfg (not (is_empty s.buffer)) _ _ n
        (flush-Accounts j codec p flushing s n (λ batch. refl) h)
        (drain_disk-Accounts j codec p cfg s n h)

  close-Accounts :
      (s : Pipeline Event) (n : ℕ) → Accounts j codec p s n → Accounts j codec p (close j s) n
  unfolding close
  close-Accounts s n h =
      either-Accounts j codec p cfg (is_empty s.channel) _ s n
        (either-Accounts j codec p cfg (is_empty s.buffer) (record s { worker_gone = true }) _ n h
          (flush-Accounts j codec p closing s n (λ batch. refl) h))
        h

  emit_stamped-Accounts :
      (ev : Event) (s : Pipeline Event) (n : ℕ)
      → Accounts j codec p s n
      → Accounts j codec p (emit_stamped j cfg working ev s) (n + count_if p (ev ∷ []))
  unfolding emit_stamped
  emit_stamped-Accounts ev s n h =
      either-Accounts j codec p cfg s.worker_gone s _ (n + count_if p (ev ∷ []))
        (more-Accounts j codec p cfg s n (n + count_if p (ev ∷ [])) (omega arith) h)
        (sent_or_spilled-Accounts j codec p cfg (ltb (length s.channel) cfg.mem_queue_cap) ev s n h)

  emit_blocking_stamped-Accounts :
      (ev : Event) (s : Pipeline Event) (n : ℕ)
      → Accounts j codec p s n
      → Accounts j codec p (emit_blocking_stamped j cfg working ev s) (n + count_if p (ev ∷ []))
  unfolding emit_blocking_stamped
  emit_blocking_stamped-Accounts ev s n h =
      sent_or_spilled-Accounts j codec p cfg
        (not s.worker_gone && ltb (length s.channel) cfg.mem_queue_cap) ev s n h

  -- The worker does something only when it waits for a message.
  if_selects-Accounts :
      (s t : Pipeline Event) (n : ℕ)
      → Accounts j codec p s n
      → Accounts j codec p t n
      → Accounts j codec p (if selects j s then t else s) (n + 0)
  if_selects-Accounts s t n hs ht =
      more-Accounts j codec p cfg (if selects j s then t else s) n (n + 0) (omega arith)
        (either-Accounts j codec p cfg (selects j s) t s n ht hs)

  client_step-Accounts :
      (step : ClientStep j) (s : Pipeline Event) (n : ℕ)
      → Works j step
      → Accounts j codec p s n
      → Accounts j codec p (client_step j cfg step s) (n + count_if p (events_of j (step ∷ [])))
  client_step-Accounts (emitted d ev) s n works h =
      subst
        (λ (k : Disk). Accounts j codec p (emit_stamped j cfg k ev s) (n + count_if p (ev ∷ [])))
        (sym works) (emit_stamped-Accounts ev s n h)
  client_step-Accounts (emitted_blocking d ev) s n works h =
      subst
        (λ (k : Disk).
          Accounts j codec p (emit_blocking_stamped j cfg k ev s) (n + count_if p (ev ∷ [])))
        (sym works) (emit_blocking_stamped-Accounts ev s n h)
  client_step-Accounts received s n works h =
      if_selects-Accounts s (receive j cfg s) n h (receive-Accounts j codec p cfg s n h)
  client_step-Accounts (ticked d) s n works h = if_selects-Accounts s (tick j cfg d s) n h (
      subst (λ (k : Disk). Accounts j codec p (tick j cfg k s) n) (sym works) (tick-Accounts s n h))
  client_step-Accounts closed s n works h =
      if_selects-Accounts s (close j s) n h (close-Accounts s n h)
  client_step-Accounts (answered d delivery) s n works h =
      subst (λ (k : Disk). Accounts j codec p (finish j k delivery s) (n + 0)) (sym works)
        (more-Accounts j codec p cfg (finish j working delivery s) n (n + 0) (omega arith)
          (finish-Accounts j codec p delivery s n h))

  events_of-append :
      (step : ClientStep j) (steps : List (ClientStep j))
      → count_if p (events_of j (step ∷ steps))
        ≡ count_if p (events_of j (step ∷ [])) + count_if p (events_of j steps)
  events_of-append (emitted d ev) steps = omega arith
  events_of-append (emitted_blocking d ev) steps = omega arith
  events_of-append received steps = omega arith
  events_of-append (ticked d) steps = omega arith
  events_of-append closed steps = omega arith
  events_of-append (answered d delivery) steps = omega arith

  -- The pipeline invents no events, and delivers an event again only for a lost acknowledgement:
  -- however emissions, receptions, ticks and the end come, and however each delivery ends, the events
  -- in all batches that the coordinator took, in the batch that is being sent, in memory and in the
  -- queue's file are, of every sort, no more than those that were there and those that were emitted,
  -- beside those in the batches that it took while `send_batch` failed. The disk works, and events
  -- are encoded as printable texts that are read back as they were.
  pub run_client-Accounts :
      (steps : List (ClientStep j)) (s : Pipeline Event) (n : ℕ)
      → All (Works j) steps
      → Accounts j codec p s n
      → Accounts j codec p (run_client j cfg steps s) (n + count_if p (events_of j steps))
  unfolding run_client
  run_client-Accounts [] s n works h = more-Accounts j codec p cfg s n (n + 0) (omega arith) h
  run_client-Accounts (step ∷ steps) s n (w, works) h =
      more-Accounts j codec p cfg (run_client j cfg (step ∷ steps) s)
        (n + count_if p (events_of j (step ∷ [])) + count_if p (events_of j steps)) _
        (omega (arith, events_of-append step steps))
        (run_client-Accounts steps (client_step j cfg step s) _ works
          (client_step-Accounts step s n w h))
