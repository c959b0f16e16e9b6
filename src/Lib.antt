-- ===== src/Lib.antt =====
-- inference-perf: a benchmarking tool that generates load for model servers. The load generator's
-- workers send requests, parse the streamed responses and keep per-session state; circuit breakers
-- watch the metrics of the run.
--
-- Breaker (inference_perf/circuit_breaker): `Trigger` has the two trigger classes with their
--   `update`, `fired` and `reset`; `Circuit` has `SimpleCircuitBreaker` (`feed`, `is_open`,
--   `reset`, `_search` as `search_any`) and the module's registry. JMESPath expressions and float
--   division are parameters; times are numbers of microseconds.
--
-- Builder (inference_perf/datagen/replay/otel_trace_to_replay_graph.py): how the calls of a trace
--   become a replay graph. `Causal` has `get_causal_dep` and what it asks; `Predecessors` has
--   `find_predecessors_by_text_matching`, whose loop over earlier calls is `scan_calls`;
--   `Ancestors` has the search with a stack of `get_causal_ancestors` and `all_ancestor_indices`;
--   `Segments` has `decompose_input` and `_rescale_segments_to_wire`; `Events`, `Building` and
--   `Tagging` have `build_graph` and `tag_user_facing_events`; `Order` has `_topo_order`. The wire
--   form of a message, the order of a Python set, rounded float shares, `lower`, and what a JSON
--   value is as a string or a list are parameters. The search has as fuel a step for each edge and
--   each node that it starts with; the loop of `decompose_input` the number of messages, of which
--   each round takes one; the walk up the spans a step for each span and two more, and
--   `_topo_order` one for each root and each successor.
--
-- Load (inference_perf/loadgen/load_generator.py): `Pool` has the loop of `run_session_stage`, a
--   step (`round`) for each turn, over the pool of active and pending sessions; what a turn sees of
--   the signal, the breakers, the clock, the workers and the sessions is an observation, and a run
--   is a list of these. `Workers` has how a stage's concurrency is divided among the workers,
--   `Teardown` the wait of `_teardown_stage` and that of `run_stage`, each turn's view of the
--   workers and of the clock given as a list or a function, and `Failures` has
--   `collect_worker_failures` and `cause_label`. `Queue` is `RequestQueue`
--   (inference_perf/utils/request_queue.py), its channels lists; what is received in time and what
--   `qsize` gives are parameters.
--
-- Metrics (inference_perf/metrics/session_collector.py): `Sessions` is `SessionMetricsCollector`,
--   whose `enrich_metrics` goes over the requests with `note_requests` and over the sessions with
--   `enrich`.
--
-- Replay (inference_perf/datagen/replay): recorded sessions are graphs of events that a worker
--   replays and a parent process follows. `Graph` and `Sessions` have the data of
--   replay_graph_types.py and replay_graph_session_datagen.py; `Tracker` is `WorkerSessionTracker`;
--   `Outputs` is `EventOutputRegistry`, whose `require_async` is split at its wait (after it, a
--   task that an `asyncio.gather` left behind may find its event evicted); `Lifecycle` has the ways
--   in which an event of `SessionChatCompletionAPIData` ends on a worker; `Progress` has what
--   `ReplayGraphSessionGeneratorBase` does with the payloads that the workers put on the completion
--   queue; `Schedule` and `Building` have how it duplicates sessions, fills slots and schedules
--   events, with `_build_session`, the digits of `\d` and the random texts of `uuid4` as
--   parameters. The loop of `_duplicate_sessions_if_needed` has as fuel the number of missing
--   sessions, each turn adds one. The worker and the generator are one record, `Runtime`; times are
--   numbers of ticks; a JSON value and a float are parameters; Python's dictionaries and sets are
--   association lists and lists.
--
-- Streaming (inference_perf/apis/streaming_parser.py): `Framing` has the loops of
--   `_SSEStreamParser.parse` that cut chunks into messages (`take_chunks`, `take_chunk`,
--   `fall_back`, `scan`), its fast path included; `Payload` has `process_data_payload` and what
--   `parse` returns or raises; `Machine` reads a stream byte by byte, and `Lines` compares `scan`
--   with it; `Times` has `generated_chunk_times`. The decoder, `json.loads`, the clock and the two
--   extractors are parameters; bytes are numbers. `scan` has the length of the buffer as fuel: each
--   turn consumes a byte.
--
-- UserSession (inference_perf/apis/user_session.py): `ask` and `enter` are `get_context` before and
--   after its wait; `update_context` is that of `LocalUserSession`; `prepare` is `to_request_body`
--   of `UserSessionCompletionAPIData` up to the call of its base class. The tokenizer is a
--   parameter.
--
-- Not modelled: the worker processes, their joining and respawning, the dispatch of stages by rate
--   and the timers, which are processes, signals, sleeping and numpy; the clients, the other
--   metrics collectors and the reports, which are I/O and statistics; the data generators other
--   than session replay; the reading of spans into calls and the printing of a graph, which are
--   JSON and text; the substitution of messages; and the configuration, which a third-party library
--   validates.
pub mod Prelude
pub mod Breaker
pub mod Builder
pub mod Load
pub mod Metrics
pub mod Replay
pub mod Streaming
pub mod UserSession
