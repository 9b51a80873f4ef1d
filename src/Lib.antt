-- ===== src/Lib.antt =====
-- Verification of the provider agent of d-inference (provider/src).
--
-- The agent keeps a connection to a coordinator, which sends it inference requests. It opens each
-- request's encrypted body, runs the request on a backend on the same machine, relays the answer
-- with an attestation, and answers challenges about its own state. A schedule says when it is
-- available.
--
-- Parts and files (paths from the repository's root):
-- - Schedule models provider/src/scheduling.rs. Schedule/Config is `Schedule::from_config`,
--   Schedule/Active is `is_active_now` and `duration_until_inactive`, Schedule/Waits is
--   `duration_until_next_active`, Schedule/Week is the calendar arithmetic. Schedule/Names has the
--   names of the days. Schedule/Spec describes a schedule as arcs of a week of 604800 seconds.
--   Parsing, Coverage, Closing, Opening and NextOpening hold the proofs.
-- - Proxy models provider/src/proxy.rs. Proxy/Lines is `parse_sse_lines`, Proxy/Stream is the loop
--   of `handle_streaming_request`, Proxy/Request the rest: `handle_inference_request`, both
--   handlers and `extract_usage`. The messages that go to the coordinator's channel are a list, and
--   the counters of `AtomicProviderStats` are part of the state.
-- - Attestation models `compute_response_attestation` and `se_sign` of provider/src/security.rs.
--   The proxy calls it when a response is complete.
-- - Backend models provider/src/backend/mod.rs: Backend/Backoff is `ExponentialBackoff`, which the
--   coordinator's connection uses too, Backend/Monitor the task that `BackendManager::start`
--   spawns, Backend/Probe `check_health`, `check_model_loaded` and `warmup_backend`.
-- - Coordinator models provider/src/coordinator.rs: Coordinator/Reconnect is
--   `CoordinatorClient::run`, Coordinator/Session the loop of `connect_and_run` after registration,
--   Coordinator/Decrypt `decrypt_request_body`, Coordinator/Challenge
--   `handle_attestation_challenge` and `build_status_canonical`, over the sorted maps of
--   Coordinator/StatusMap. Attempts, Sealed, Liveness, Status and Answers hold the proofs.
-- - Serve models the part of provider/src/main.rs that answers the coordinator's requests, as it is
--   built with the embedded engine: the event loop of `cmd_serve`, which the session of Coordinator
--   feeds, and what the schedule's loop beside it does to its engines when a window closes.
--   Serve/Tracker has its state and what it does to the outside, Serve/Requests its branch for an
--   inference request, Serve/Events the other branches and the loop, Serve/Slots the slots that it
--   shares with the health monitor, Serve/Engines `get_or_load_inprocess_engine` and
--   `unload_inprocess_engines`, Serve/Reload `reload_backend`, Serve/Monitor a round of the health
--   monitor, and Serve/Inprocess `handle_inprocess_request` with `send_encrypted_inference_chunk`.
--   Sends, Sealing, Streamed, Loaded, Prepared, Replies, Tracked, Spawned, Branches, Running,
--   Aborted, Reloading and Paced hold the proofs.
-- - Update models the automatic update of provider/src/main.rs: Update/Disk has the files that it
--   touches and the calls of `std::fs`, Update/Release the version comparison and the release's
--   fields, Update/Backup the backups and the restoration, Update/Install
--   `install_swift_update_bundle_at`, and Update/Auto `auto_update_check_with_install_dir`.
--   Effects, Saved, Restored, Verified, Rejected, Undone and Versions hold the proofs.
-- - Launchd models what the update does to the launchd file, in provider/src/main.rs: Launchd/Args
--   is `convert_rust_args_to_swift`, Launchd/Plist `extract_program_arguments`,
--   `render_launchd_plist` and `xml_escape`, Launchd/Cut the text search they use. Options,
--   Rendered and RoundTrip hold the proofs.
-- - Models models provider/src/models.rs: Models/Scan is `scan_models_in_dir`, `resolve_local_path`
--   and `compute_weight_hash` with the rules they use, Models/Snapshots the files of a snapshot
--   with `find_latest_snapshot`, `collect_weight_files` and the `hash_files_sorted` of
--   provider/src/security.rs, Models/Names the names, Models/Sort the library's sort. Ordered,
--   Resolved, Scanned and Hashed hold the proofs.
-- - Crypto models `NodeKeyPair` of provider/src/crypto.rs; Crypto/RoundTrip holds the proofs.
-- - Hypervisor models provider/src/hypervisor.rs: Hypervisor/Pool has the operations. Chunks,
--   Mapped, Allocations, Buffers, Runs, Capacity and Teardown hold the proofs.
-- - Telemetry/Queue models `DiskQueue` of provider/src/telemetry/queue.rs: the file is a text, or
--   missing. Telemetry/Scraper is provider/src/telemetry/stderr_scraper.rs with the events of
--   event.rs. Telemetry/Client is `TelemetryClient` with its worker, of client.rs, and
--   Telemetry/Client/Endpoint its `telemetry_ingest_endpoint`. Contents, Fifo, Runs, Reports and,
--   of the client, Batches, Steps, Conserved and Delivered hold the proofs.
-- - Protocol has the messages of provider/src/protocol.rs that the parts exchange, and Json what is
--   called of serde_json. Prelude has texts, lists and tests on native numbers.
--
-- Conventions. A text is the list of its bytes. Counters wrap around at 2 ^ 64 where the code's do.
-- An asynchronous loop is a function on the list of what its `select!` meets, so that a statement
-- about all lists is one about all orders of events; a loop that a list ends has not returned yet,
-- except that the list of a response's chunks ends with the response. Handling one event of the
-- main loop, with its awaits, is one step. The telemetry worker takes two steps for a batch, so
-- that emissions come in between: the batch is taken, and later its request has ended, with a
-- success, with an error, or with an error though the coordinator took the batch; the pushes of one
-- batch to the disk are one step. Line loops run on fuel one above the length of the buffer, and
-- each round takes a byte at least: the theorems on framing and relaying state the result for every
-- text, so the fuel is enough. Tasks and engines are numbered as they are made, and so are the
-- nonces that a request on the embedded engine draws. The wait for a backend is counted in seconds
-- of sleep. Addresses and sizes of the pool wrap around at 2 ^ 64. The places of the update are
-- named, not spelled, and a link is followed 32 times at most; the directories are taken to exist.
-- The loop over a launchd file's arguments runs on fuel one above the length of their text, and
-- more fuel changes nothing. The names of models are in ASCII. A schedule is asked at a given
-- weekday and time of day.
--
-- Parameters. The JSON crate, SHA-256, the Secure Enclave's signing call, base64, the crypto_box
-- crate, lossy UTF-8 decoding, chrono's time parsing, the backend's HTTP answers, the Python
-- engine, the Hypervisor framework, mmap, 64-bit floats, the archive program, the check of the
-- older Python runtime, which changes the system makes to files, and whether disk and network calls
-- succeed are arguments. A theorem that relies on one of them says what it relies on.
--
-- Not modelled: registration and heartbeat contents, hardware detection, the configuration file,
-- the local server, the wallet, and of main.rs the command line and the start-up; the bindings of
-- system frameworks and of Python; and the programs in other languages. Logging is left out
-- everywhere.
pub mod Prelude
pub mod Schedule
pub mod Json
pub mod Protocol
pub mod Attestation
pub mod Proxy
pub mod Backend
pub mod Coordinator
pub mod Crypto
pub mod Serve
pub mod Hypervisor
pub mod Telemetry
pub mod Launchd
pub mod Update
pub mod Models
