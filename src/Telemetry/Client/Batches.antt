-- ===== src/Telemetry/Client/Batches.antt =====
-- How much the telemetry pipeline holds, and how large its batches are.
use d_inference.Prelude.{
  ◌≡◌, refl, sym, subst, inl, inr, Bool, true, false, Option, none, some, List, [], ◌∷◌, arith, ltb,
  if◌then◌else◌, ltb→lt, Bool-cases, length, is_empty, All, length-append, All-append, Text, ℕ, ◌<◌,
  ◌≤◌, ◌+◌,
}
use d_inference.Telemetry.Queue.{
  EventJson, drain, drain_line, drain_lines, push_event, take_while, lines,
}
use d_inference.Telemetry.Client.{
  TelemetryConfig, Pipeline, Delivery, succeeded, refused, lost, Disk, push_all, send_batch,
  requeue_failed, spill, flush, Sending, idle, flushing, redelivering, closing, send_drained,
  drain_disk, deliver, finish,
}

length-push_event :
    {Event : Type 0} (o : Option Event) (drained : List Event) (j : EventJson Event)
    → length (push_event j o drained) ≤ length drained + 1
length-push_event none drained j = omega arith
length-push_event (some ev) drained j = omega (arith, length-append drained (ev ∷ []))

module _ {Event : Type 0} (j : EventJson Event) where
  length-drain_line :
      (limit : ℕ) (line : Text) (drained : List Event) (remaining : List Text)
      → length drained ≤ limit
      → length (drain_line j limit line drained remaining).0 ≤ limit
  unfolding drain_line
  length-drain_line limit line drained remaining h =
      elim (Bool-cases (ltb (length drained) limit)) [
        | inl y ↦
            rw (y, drain_line)
              (omega (arith, ltb→lt _ _ y, length-push_event (j.from_str line) drained j))
        | inr n ↦ rw (n, drain_line) h
      ]

  length-drain_lines :
      (limit : ℕ) (ls : List Text) (drained : List Event) (remaining : List Text)
      → length drained ≤ limit
      → length (drain_lines j limit ls drained remaining).0 ≤ limit
  unfolding drain_lines
  length-drain_lines limit [] drained remaining h = h
  length-drain_lines limit (line ∷ ls) drained remaining h =
      length-drain_lines limit ls (drain_line j limit line drained remaining).0
        (drain_line j limit line drained remaining).1
        (length-drain_line limit line drained remaining h)

  length-drain :
      (opens rewrites : Bool) (limit : ℕ) (file : Option Text)
      → length (drain j opens rewrites limit file).0 ≤ limit
  unfolding drain
  length-drain opens rewrites limit none = omega arith
  length-drain false rewrites limit (some content) = omega arith
  length-drain true rewrites limit (some content) =
      length-drain_lines limit (take_while j.is_utf8 (lines content)) [] [] (omega arith)

  -- A batch has some events, and no more than the configured number.
  abbrev pub IsBatch : TelemetryConfig → List Event → Type 0
  IsBatch cfg batch = (0 < length batch) × (length batch ≤ cfg.max_batch)

  -- The batch that is being sent.
  abbrev pub batches_of : Sending Event → List (List Event)
  batches_of idle = []
  batches_of (flushing batch) = batch ∷ []
  batches_of (redelivering batch) = batch ∷ []
  batches_of (closing batch) = batch ∷ []

  -- Between two steps.
  pub record IsBounded (cfg : TelemetryConfig) (s : Pipeline Event) : Type 0 where
    pub channel_cap : length s.channel ≤ cfg.mem_queue_cap
    pub buffer_cap : length s.buffer < cfg.max_batch
    pub batches : All (IsBatch cfg) s.taken
    pub sends : All (IsBatch cfg) (batches_of s.sending)

  module _ (cfg : TelemetryConfig) (some_batch : 0 < cfg.max_batch) where
    sent-IsBounded :
        (requeue : Option Text → Option Text) (delivery : Delivery) (batch : List Event)
        (s : Pipeline Event)
        → IsBatch cfg batch
        → IsBounded cfg s
        → IsBounded cfg (requeue_failed j requeue (send_batch j delivery batch s))
    sent-IsBounded requeue succeeded batch s is_batch h = record {
      channel_cap = h.channel_cap;
      buffer_cap = h.buffer_cap;
      batches = All-append (IsBatch cfg) s.taken (batch ∷ []) h.batches (is_batch, tt);
      sends = h.sends;
    }
    sent-IsBounded requeue refused batch s is_batch h = record {
      channel_cap = h.channel_cap;
      buffer_cap = h.buffer_cap;
      batches = h.batches;
      sends = h.sends;
    }
    sent-IsBounded requeue lost batch s is_batch h = record {
      channel_cap = h.channel_cap;
      buffer_cap = h.buffer_cap;
      batches = All-append (IsBatch cfg) s.taken (batch ∷ []) h.batches (is_batch, tt);
      sends = h.sends;
    }

    -- The buffer may be full.
    pub flush-IsBounded :
        (sent : List Event → Sending Event) (s : Pipeline Event)
        → ((batch : List Event) → batches_of (sent batch) ≡ batch ∷ [])
        → length s.channel ≤ cfg.mem_queue_cap
        → length s.buffer ≤ cfg.max_batch
        → All (IsBatch cfg) s.taken
        → All (IsBatch cfg) (batches_of s.sending)
        → IsBounded cfg (flush j sent s)
    unfolding flush
    flush-IsBounded sent s one channel buffer taken sends = go s.buffer refl
      where
        go :
            (xs : List Event)
            → s.buffer ≡ xs
            → IsBounded cfg
                (if is_empty xs then s else record s { buffer = []; sending = sent s.buffer })
        go [] e = record {
          channel_cap = channel;
          buffer_cap = subst (λ (ys : List Event). length ys < cfg.max_batch) (sym e) some_batch;
          batches = taken;
          sends = sends;
        }
        go (x ∷ xs) e = record {
          channel_cap = channel;
          buffer_cap = some_batch;
          batches = taken;
          sends =
              subst (All (IsBatch cfg)) (sym (one s.buffer))
                ((subst (λ (ys : List Event). 0 < length ys) (sym e) (omega arith), buffer), tt);
        }

    send_drained-IsBounded :
        (s : Pipeline Event) (r : List Event × Option Text)
        → length r.0 ≤ cfg.max_batch
        → IsBounded cfg s
        → IsBounded cfg (send_drained j s r)
    send_drained-IsBounded s ([], file) le h = record {
      channel_cap = h.channel_cap;
      buffer_cap = h.buffer_cap;
      batches = h.batches;
      sends = h.sends;
    }
    send_drained-IsBounded s (ev ∷ events, file) le h = record {
      channel_cap = h.channel_cap;
      buffer_cap = h.buffer_cap;
      batches = h.batches;
      sends = ((omega arith, le), tt);
    }

    pub drain_disk-IsBounded :
        (d : Disk) (s : Pipeline Event) → IsBounded cfg s → IsBounded cfg (drain_disk j cfg d s)
    unfolding drain_disk
    drain_disk-IsBounded d s h = go d.opens
      where
        go :
            (b : Bool)
            → IsBounded cfg (
                if b then send_drained j s (drain j d.reads d.rewrites cfg.max_batch s.file) else s)
        go true =
            send_drained-IsBounded s _ (length-drain d.reads d.rewrites cfg.max_batch s.file) h
        go false = h

    deliver-IsBounded :
        (d : Disk) (delivery : Delivery) (s : Pipeline Event) (sending : Sending Event)
        → All (IsBatch cfg) (batches_of sending)
        → IsBounded cfg s
        → IsBounded cfg (deliver j d delivery s sending)
    deliver-IsBounded d delivery s idle sends h = h
    deliver-IsBounded d delivery s (flushing batch) (is_batch, sends) h =
        sent-IsBounded (spill j d batch) delivery batch s is_batch h
    deliver-IsBounded d delivery s (redelivering batch) (is_batch, sends) h =
        sent-IsBounded (push_all j d batch) delivery batch s is_batch h
    deliver-IsBounded d delivery s (closing batch) (is_batch, sends) h =
        let sent = sent-IsBounded (spill j d batch) delivery batch s is_batch h in
        record {
          channel_cap = sent.channel_cap;
          buffer_cap = sent.buffer_cap;
          batches = sent.batches;
          sends = sent.sends;
        }

    pub finish-IsBounded :
        (d : Disk) (delivery : Delivery) (s : Pipeline Event)
        → IsBounded cfg s
        → IsBounded cfg (finish j d delivery s)
    unfolding finish
    finish-IsBounded d delivery s h =
        deliver-IsBounded d delivery (record s { sending = idle }) s.sending h.sends
          (record {
            channel_cap = h.channel_cap;
            buffer_cap = h.buffer_cap;
            batches = h.batches;
            sends = tt;
          })
