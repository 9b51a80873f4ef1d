-- ===== src/Telemetry/Client/Examples.antt =====
-- A pipeline of flags, with batches of two and room for one in the channel.
use d_inference.Prelude.{
  ◌≡◌, refl, Bool, true, false, none, List, [], ◌∷◌, arith, count_if, All, codes, ◌+◌,
}
use d_inference.Telemetry.Queue.{write_lines}
use d_inference.Telemetry.Fifo.{Holds}
use d_inference.Telemetry.Scraper.{Source}
use d_inference.Telemetry.Flags.{flags, flags-IsCodec}
use d_inference.Telemetry.Client.{
  TelemetryConfig, Pipeline, succeeded, refused, lost, ClientStep, run_client, emitted,
  emitted_blocking, received, ticked, closed, answered, idle,
}
use d_inference.Telemetry.Client.Batches.{IsBounded}
use d_inference.Telemetry.Client.Steps.{run_client-IsBounded}
use d_inference.Telemetry.Client.Conserved.{working, Accounts}
use d_inference.Telemetry.Client.Delivered.{Works, events_of, run_client-Accounts}
use d_inference.Telemetry.Client.Endpoint.{trim_end}

abbrev cfg : TelemetryConfig
cfg = record {
  version = codes "0.3.10";
  machine_id = codes "m";
  account_id = none;
  source = Source.provider;
  max_batch = 2;
  mem_queue_cap = 1;
}

abbrev fresh : Pipeline Bool
fresh = record {
  channel = [];
  worker_gone = false;
  buffer = [];
  sending = idle;
  file = none;
  taken = [];
  unacknowledged = [];
}

abbrev steps : List (ClientStep flags)
steps =
    emitted working true
    ∷ emitted working false
    ∷ received
    ∷ emitted_blocking working true
    ∷ received
    ∷ emitted working true
    ∷ answered working lost
    ∷ ticked working
    ∷ emitted working false
    ∷ answered working refused
    ∷ ticked working
    ∷ answered working succeeded
    ∷ received
    ∷ closed
    ∷ answered working succeeded
    ∷ []

run_client-IsBounded_example : IsBounded flags cfg (run_client flags cfg steps fresh)
run_client-IsBounded_example =
    run_client-IsBounded flags cfg (omega arith) steps fresh
      (record { channel_cap = omega arith; buffer_cap = omega arith; batches = tt; sends = tt })

nothing_held : Holds flags flags-IsCodec [] none
unfolding Holds write_lines
nothing_held = refl

steps-Work : All (Works flags) steps
steps-Work = (
  refl,
  (
    refl,
    (
      tt,
      (refl, (tt, (refl, (refl, (refl, (refl, (refl, (refl, (refl, (tt, (tt, (refl, tt)))))))))))),
    ),
  ),
)

run_client-Accounts_example :
    Accounts flags flags-IsCodec
      (λ b. b)
      (run_client flags cfg steps fresh)
      (0 + count_if (λ b. b) (events_of flags steps))
run_client-Accounts_example =
    run_client-Accounts flags flags-IsCodec (λ b. b) cfg steps fresh 0 steps-Work
      ([], nothing_held, omega arith)

host_trimmed : trim_end (codes "api.darkbloom.dev") ≡ codes "api.darkbloom.dev"
unfolding trim_end
host_trimmed = refl
