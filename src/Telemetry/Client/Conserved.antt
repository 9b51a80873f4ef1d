-- ===== src/Telemetry/Client/Conserved.antt =====
-- Where the events of the telemetry pipeline are.
use d_inference.Prelude.{
  ◌≡◌, refl, ap, Bool, true, false, Option, List, [], ◌∷◌, ◌++◌, arith, leb, if◌then◌else◌, length,
  take, drop, is_empty, count_if, count_if-append, Text, ℕ, ◌+◌, ◌≤◌, suc, zero,
}
use d_inference.Telemetry.Queue.{EventJson, drain}
use d_inference.Telemetry.Fifo.{IsCodec, Holds, drain-Holds, push-Holds}
use d_inference.Telemetry.Client.Batches.{batches_of}
use d_inference.Telemetry.Client.{
  TelemetryConfig, Pipeline, Delivery, succeeded, refused, lost, send_batch, requeue_failed, Disk,
  push_all, spill, flush, Sending, idle, flushing, redelivering, closing, deliver, finish,
  send_drained, drain_disk, receive,
}

count_if-drop :
    {A : Type 0} (p : A → Bool) (n : ℕ) (xs : List A) → count_if p (drop n xs) ≤ count_if p xs
count_if-drop p zero xs = omega arith
count_if-drop p (suc n) [] = omega arith
count_if-drop p (suc n) (x ∷ xs) = omega (arith, count_if-drop p n xs)

count_if-take :
    {A : Type 0} (p : A → Bool) (n : ℕ) (xs : List A)
    → count_if p (take n xs) + count_if p (drop n xs) ≡ count_if p xs
count_if-take p zero xs = omega arith
count_if-take p (suc n) [] = omega arith
count_if-take p (suc n) (x ∷ xs) = omega (arith, count_if-take p n xs)

abbrev pub count_all {ℓ} : {A : Type ℓ} → (A → Bool) → List (List A) → ℕ
count_all p [] = 0
count_all p (xs ∷ xss) = count_if p xs + count_all p xss

count_all-append :
    {A : Type 0} (p : A → Bool) (xss yss : List (List A))
    → count_all p (xss ++ yss) ≡ count_all p xss + count_all p yss
count_all-append p [] yss = omega arith
count_all-append p (xs ∷ xss) yss = omega (arith, count_all-append p xss yss)

-- Every call on the disk succeeds.
abbrev pub working : Disk
working = record { opens = true; reads = true; rewrites = true; appends = true }

module _ {Event : Type 0} (j : EventJson Event) (codec : IsCodec j) (p : Event → Bool) where
  -- How many events there are of which `p` holds: those that the coordinator took, those that are being
  -- sent, those in memory, and those that the file holds.
  abbrev pub total : Pipeline Event → List Event → ℕ
  total s queue =
      count_all p s.taken
      + count_all p (batches_of j s.sending)
      + count_if p s.buffer
      + count_if p s.channel
      + count_if p queue

  -- That is `n` at most, beside the events that were taken without the client's knowing.
  abbrev pub Accounts : Pipeline Event → ℕ → Type 0
  Accounts s n =
      (queue : List Event) × Holds j codec queue s.file
      × (total s queue ≤ n + count_all p s.unacknowledged)

  push_all-Holds :
      (batch queue : List Event) (file : Option Text)
      → Holds j codec queue file
      → (queue' : List Event) × Holds j codec queue' (push_all j working batch file)
        × (count_if p queue' ≤ count_if p queue + count_if p batch)
  unfolding push_all
  push_all-Holds [] queue file h = (queue, h, omega arith)
  push_all-Holds (ev ∷ batch) queue file h =
      let (n, held, ok, size) = push-Holds j codec queue ev file h in
      let (queue', held', le) = push_all-Holds batch (drop n queue ++ ev ∷ []) _ held in
      (
        queue',
        held',
        omega (arith, le, count_if-append p (drop n queue) (ev ∷ []), count_if-drop p n queue),
      )

  -- A batch that belongs to none of the places goes to the coordinator, to the file, or to both.
  sent-Accounts :
      (requeue : Option Text → Option Text) (delivery : Delivery) (batch queue : List Event)
      (s : Pipeline Event) (n : ℕ)
      → Holds j codec queue s.file
      → total s queue + count_if p batch ≤ n + count_all p s.unacknowledged
      → (queue' : List Event) × Holds j codec queue' (requeue s.file)
        × (count_if p queue' ≤ count_if p queue + count_if p batch)
      → Accounts (requeue_failed j requeue (send_batch j delivery batch s)) n
  sent-Accounts requeue succeeded batch queue s n held le kept =
      (queue, held, omega (arith, le, count_all-append p s.taken (batch ∷ [])))
  sent-Accounts requeue refused batch queue s n held le (queue', held', le') =
      (queue', held', omega (arith, le, le'))
  sent-Accounts requeue lost batch queue s n held le (queue', held', le') = (
    queue',
    held',
    omega (
      arith,
      le,
      le',
      count_all-append p s.taken (batch ∷ []),
      count_all-append p s.unacknowledged (batch ∷ []),
    ),
  )

  -- The batch leaves the buffer.
  pub flush-Accounts :
      (sent : List Event → Sending Event) (s : Pipeline Event) (n : ℕ)
      → ((batch : List Event) → batches_of j (sent batch) ≡ batch ∷ [])
      → Accounts s n
      → Accounts (flush j sent s) n
  unfolding flush
  flush-Accounts sent s n one (queue, held, le) = go (is_empty s.buffer)
    where
      go :
          (b : Bool)
          → Accounts (if b then s else record s { buffer = []; sending = sent s.buffer }) n
      go true = (queue, held, le)
      go false = (queue, held, omega (arith, le, ap (count_all p) (one s.buffer)))

  deliver-Accounts :
      (delivery : Delivery) (sending : Sending Event) (queue : List Event) (s : Pipeline Event)
      (n : ℕ)
      → Holds j codec queue s.file
      → total s queue + count_all p (batches_of j sending) ≤ n + count_all p s.unacknowledged
      → Accounts (deliver j working delivery s sending) n
  deliver-Accounts delivery idle queue s n held le = (queue, held, omega (arith, le))
  deliver-Accounts delivery (flushing batch) queue s n held le =
      sent-Accounts (spill j working batch) delivery batch queue s n held (omega (arith, le))
        (push_all-Holds batch queue s.file held)
  deliver-Accounts delivery (redelivering batch) queue s n held le =
      sent-Accounts (push_all j working batch) delivery batch queue s n held (omega (arith, le))
        (push_all-Holds batch queue s.file held)
  deliver-Accounts delivery (closing batch) queue s n held le =
      sent-Accounts (spill j working batch) delivery batch queue s n held (omega (arith, le))
        (push_all-Holds batch queue s.file held)

  pub finish-Accounts :
      (delivery : Delivery) (s : Pipeline Event) (n : ℕ)
      → Accounts s n
      → Accounts (finish j working delivery s) n
  unfolding finish
  finish-Accounts delivery s n (queue, held, le) =
      deliver-Accounts delivery s.sending queue (record s { sending = idle }) n held
        (omega (arith, le))

  send_drained-Accounts :
      (s : Pipeline Event) (r : List Event × Option Text) (n : ℕ) (left : List Event)
      → Holds j codec left r.1
      → total s left + count_if p r.0 ≤ n + count_all p s.unacknowledged
      → Accounts (send_drained j s r) n
  send_drained-Accounts s ([], file) n left held le = (left, held, omega (arith, le))
  send_drained-Accounts s (ev ∷ events, file) n left held le = (left, held, omega (arith, le))

  module _ (cfg : TelemetryConfig) where
    pub drain_disk-Accounts :
        (s : Pipeline Event) (n : ℕ) → Accounts s n → Accounts (drain_disk j cfg working s) n
    unfolding drain_disk
    drain_disk-Accounts s n (queue, held, le) =
        let (drained, held') = drain-Holds j codec cfg.max_batch queue s.file held in
        send_drained-Accounts s (drain j true true cfg.max_batch s.file) n
          (drop cfg.max_batch queue) held'
          (omega (arith, le, count_if-take p cfg.max_batch queue, ap (count_if p) drained))

    -- One more event may be counted.
    pub sent_or_spilled-Accounts :
        (b : Bool) (ev : Event) (s : Pipeline Event) (n : ℕ)
        → Accounts s n
        → Accounts
            (if b
              then record s { channel = s.channel ++ ev ∷ [] }
              else record s { file = spill j working (ev ∷ []) s.file })
            (n + count_if p (ev ∷ []))
    sent_or_spilled-Accounts true ev s n (queue, held, le) =
        (queue, held, omega (arith, le, count_if-append p s.channel (ev ∷ [])))
    sent_or_spilled-Accounts false ev s n (queue, held, le) =
        let (queue', held', le') = push_all-Holds (ev ∷ []) queue s.file held in
        (queue', held', omega (arith, le, le'))

    pub more-Accounts : (s : Pipeline Event) (m n : ℕ) → m ≤ n → Accounts s m → Accounts s n
    more-Accounts s m n h (queue, held, le) = (queue, held, omega (arith, le, h))

    pub either-Accounts :
        (b : Bool) (s t : Pipeline Event) (n : ℕ)
        → Accounts s n
        → Accounts t n
        → Accounts (if b then s else t) n
    either-Accounts true s t n hs ht = hs
    either-Accounts false s t n hs ht = ht

    pub receive-Accounts :
        (s : Pipeline Event) (n : ℕ) → Accounts s n → Accounts (receive j cfg s) n
    unfolding receive
    receive-Accounts s n (queue, held, le) = go s.channel refl
      where
        go :
            (xs : List Event)
            → s.channel ≡ xs
            → Accounts
                (elim xs [
                  | [] ↦ s
                  | ev ∷ channel ↦
                      let s' : Pipeline Event = record s {
                        channel = channel;
                        buffer = s.buffer ++ ev ∷ [];
                      } in
                      if leb cfg.max_batch (length s'.buffer) then flush j flushing s' else s'
                ])
                n
        go [] e = (queue, held, le)
        go (ev ∷ channel) e =
            let s' : Pipeline Event = record s {
              channel = channel;
              buffer = s.buffer ++ ev ∷ [];
            } in
            let moved : Accounts s' n = (
              queue,
              held,
              omega (arith, le, count_if-append p s.buffer (ev ∷ []), ap (count_if p) e),
            ) in
            either-Accounts (leb cfg.max_batch (length s'.buffer)) _ s' n
              (flush-Accounts flushing s' n (λ batch. refl) moved) moved
