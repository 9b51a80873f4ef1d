-- ===== src/Telemetry/Client.antt =====
-- The telemetry client and its worker (provider/src/telemetry/client.rs).
use d_inference.Prelude.{
  IsDigit, decimal-IsDigit, decimal_injective, decimal, String, ◌≡◌, refl, sym, ap, ◌∙◌, subst, ◌≢◌,
  ◌↔◌, ◌⊎◌, inl, inr, Bool, true, false, not, ◌&&◌, ◌||◌, Option, none, some, List, [], ◌∷◌, ◌++◌,
  map, Memᴰ, append-nil, append_assoc, arith, ltb, leb, ◌==◌, if◌then◌else◌, ltb→lt, lt→ltb, leb→le,
  le→leb, ==_iff, Bool-cases, Option-cases, ◌>>=◌, ◌>>◌, unwrap_or, length, get_elem?, take, drop,
  is_empty, any, keep, count_if, All, length-append, length-take, length-drop, count_if-append,
  All-append, Memᴰ→is_empty, All-Memᴰ, All-map, Memᴰ-append, Text, codes, text_eq, text_eq_refl,
  text_eq→eq, starts_with, contains, lower_byte, to_ascii_lowercase, ℕ,
}
use d_inference.Telemetry.Queue.{EventJson, drain, push}
use d_inference.Telemetry.Scraper.{Source, TelemetryEvent}
pub mod Batches
pub mod Steps
pub mod Conserved
pub mod Delivered
pub mod Endpoint
mod Examples

pub record TelemetryConfig : Type 0 where
  pub version : Text
  pub machine_id : Text
  pub account_id : Option Text
  pub source : Source
  pub max_batch : ℕ
  pub mem_queue_cap : ℕ

-- What the worker waits for: nothing, or the delivery of a batch from its buffer, of one from the disk,
-- or of its last one.
pub data Sending (Event : Type 0) : Type 0 where
  idle : Sending Event
  flushing redelivering closing : List Event → Sending Event

-- The channel to the worker, which is gone once the worker is; the worker's buffer and what it waits
-- for; the queue's file; the batches that the coordinator took; and those of them for which
-- `send_batch` failed all the same.
pub record Pipeline (Event : Type 0) : Type 0 where
  pub channel : List Event
  pub worker_gone : Bool
  pub buffer : List Event
  pub sending : Sending Event
  pub file : Option Text
  pub taken : List (List Event)
  pub unacknowledged : List (List Event)

-- How the request of `send_batch` ends: with a success; with an error and without the coordinator having
-- taken the batch; or with an error, as a timeout, a lost response or a late status, though it has.
pub data Delivery : Type 0 where
  succeeded refused lost : Delivery

-- Whether the queue's directory is there, and what its file allows.
pub record Disk : Type 0 where
  pub opens : Bool
  pub reads : Bool
  pub rewrites : Bool
  pub appends : Bool

abbrev pub fill : Text → Text → Text
fill [] default = default
fill (c ∷ s) default = c ∷ s

abbrev pub fill_some : Text → Option Text → Text
fill_some s none = s
fill_some s (some default) = fill s default

unfoldable pub stamp : TelemetryConfig → TelemetryEvent → TelemetryEvent
stamp cfg ev = record ev {
  version = fill ev.version cfg.version;
  machine_id = fill ev.machine_id cfg.machine_id;
  account_id = fill_some ev.account_id cfg.account_id;
  source = cfg.source;
}

module _ {Event : Type 0} (j : EventJson Event) where
  -- `DiskQueue::open`, and a push of each event.
  unfoldable pub push_all : Disk → List Event → Option Text → Option Text
  push_all d [] file = file
  push_all d (ev ∷ events) file = push_all d events (push j d.rewrites d.appends ev file).0

  abbrev pub spill : Disk → List Event → Option Text → Option Text
  spill d events file = if d.opens then push_all d events file else file

  -- Whether `send_batch` is Ok, and what the coordinator has then.
  abbrev pub send_batch : Delivery → List Event → Pipeline Event → Pipeline Event × Bool
  send_batch succeeded batch s = (record s { taken = s.taken ++ batch ∷ [] }, true)
  send_batch refused batch s = (s, false)
  send_batch lost batch s = (
    record s { taken = s.taken ++ batch ∷ []; unacknowledged = s.unacknowledged ++ batch ∷ [] },
    false,
  )

  -- A batch whose sending failed goes back to the queue's file.
  abbrev pub requeue_failed : (Option Text → Option Text) → Pipeline Event × Bool → Pipeline Event
  requeue_failed requeue (s, true) = s
  requeue_failed requeue (s, false) = record s { file = requeue s.file }

  -- `flush` up to its await.
  unfoldable pub flush : (List Event → Sending Event) → Pipeline Event → Pipeline Event
  flush sent s = if is_empty s.buffer then s else record s { buffer = []; sending = sent s.buffer }

  -- The batch that was drained, and the file that is left.
  abbrev pub send_drained : Pipeline Event → List Event × Option Text → Pipeline Event
  send_drained s ([], file) = record s { file = file }
  send_drained s (ev ∷ events, file) = record s {
    file = file;
    sending = redelivering (ev ∷ events);
  }

  -- `drain_disk` up to its await.
  unfoldable pub drain_disk : TelemetryConfig → Disk → Pipeline Event → Pipeline Event
  drain_disk cfg d s =
      if d.opens then send_drained s (drain j d.reads d.rewrites cfg.max_batch s.file) else s

  -- What `flush`, `drain_disk` and the end of the worker do behind the await.
  abbrev pub deliver : Disk → Delivery → Pipeline Event → Sending Event → Pipeline Event
  deliver d delivery s idle = s
  deliver d delivery s (flushing batch) =
      requeue_failed (spill d batch) (send_batch delivery batch s)
  deliver d delivery s (redelivering batch) =
      requeue_failed (push_all d batch) (send_batch delivery batch s)
  deliver d delivery s (closing batch) =
      record (requeue_failed (spill d batch) (send_batch delivery batch s)) { worker_gone = true }

  unfoldable pub finish : Disk → Delivery → Pipeline Event → Pipeline Event
  unfolding push_all
  finish d delivery s = deliver d delivery (record s { sending = idle }) s.sending

  -- `try_send` and what `emit` does when the channel is full or closed; the event is stamped before.
  unfoldable pub emit_stamped : TelemetryConfig → Disk → Event → Pipeline Event → Pipeline Event
  emit_stamped cfg d ev s =
      if s.worker_gone
      then s
      else if ltb (length s.channel) cfg.mem_queue_cap
      then record s { channel = s.channel ++ ev ∷ [] }
      else record s { file = spill d (ev ∷ []) s.file }

  -- `emit_blocking` goes to the disk also when the channel is closed.
  unfoldable pub emit_blocking_stamped :
      TelemetryConfig → Disk → Event → Pipeline Event → Pipeline Event
  emit_blocking_stamped cfg d ev s =
      if not s.worker_gone && ltb (length s.channel) cfg.mem_queue_cap
      then record s { channel = s.channel ++ ev ∷ [] }
      else record s { file = spill d (ev ∷ []) s.file }

  -- The worker's loop has a message, or finds the channel closed.
  unfoldable pub receive : TelemetryConfig → Pipeline Event → Pipeline Event
  unfolding flush
  receive cfg s = elim s.channel [
    | [] ↦ s
    | ev ∷ channel ↦
        let s' : Pipeline Event = record s { channel = channel; buffer = s.buffer ++ ev ∷ [] } in
        if leb cfg.max_batch (length s'.buffer) then flush flushing s' else s'
  ]

  unfoldable pub tick : TelemetryConfig → Disk → Pipeline Event → Pipeline Event
  unfolding flush drain_disk
  tick cfg d s = if not (is_empty s.buffer) then flush flushing s else drain_disk cfg d s

  -- Every sender is dropped: `recv` gives the messages that are left before it ends.
  unfoldable pub close : Pipeline Event → Pipeline Event
  unfolding flush
  close s =
      if is_empty s.channel
      then if is_empty s.buffer then record s { worker_gone = true } else flush closing s
      else s

  abbrev pub is_idle : Sending Event → Bool
  is_idle idle = true
  is_idle (flushing batch) = false
  is_idle (redelivering batch) = false
  is_idle (closing batch) = false

  -- The worker is at its `select!`.
  abbrev pub selects : Pipeline Event → Bool
  selects s = not s.worker_gone && is_idle s.sending

  -- What may happen to the pipeline, with how the disk and the network behave then.
  pub data ClientStep : Type 0 where
    emitted : Disk → Event → ClientStep
    emitted_blocking : Disk → Event → ClientStep
    received : ClientStep
    ticked : Disk → ClientStep
    closed : ClientStep
    answered : Disk → Delivery → ClientStep

  abbrev pub client_step : TelemetryConfig → ClientStep → Pipeline Event → Pipeline Event
  client_step cfg (emitted d ev) s = emit_stamped cfg d ev s
  client_step cfg (emitted_blocking d ev) s = emit_blocking_stamped cfg d ev s
  client_step cfg received s = if selects s then receive cfg s else s
  client_step cfg (ticked d) s = if selects s then tick cfg d s else s
  client_step cfg closed s = if selects s then close s else s
  client_step cfg (answered d delivery) s = finish d delivery s

  unfoldable pub run_client : TelemetryConfig → List ClientStep → Pipeline Event → Pipeline Event
  unfolding emit_stamped emit_blocking_stamped receive tick close finish
  run_client cfg [] s = s
  run_client cfg (step ∷ steps) s = run_client cfg steps (client_step cfg step s)
