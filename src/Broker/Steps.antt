-- ===== src/Broker/Steps.antt =====
-- How the goroutines of a broker interleave: each step with its condition, and the states reached.
use distributed_message_brok.Prelude.{◌≡◌, ◌<◌, Bool, true, false, not}
use distributed_message_brok.Broker.Servers.{ServeError}
use distributed_message_brok.Broker.Lifecycle.{
  Broker, binding_http, binding_grpc, bound, window, failing, returned, Loop, absent, launched,
  holding, grpc_marks, serving, finished, crashed, reporting, ended, Worker, no_worker, running,
  exited, waiting, woken, stopping, new_broker, enter_start, start_http, start_grpc, launch,
  window_error, window_over, http_serves, http_serve_ends, http_checks, http_unready, http_reports,
  grpc_serves, grpc_serve_ends, grpc_checks, grpc_unready, grpc_reports, worker_exits,
  monitor_error, monitor_checks, monitor_cancelled, enter_shutdown, shut_ready, shut_maintenance,
  worker_joined, grpc_shut, http_shut, loops_joined, close_offsets, close_topics, close_done,
}

-- A serve loop that its WaitGroup does not wait for.
unfoldable pub is_over : Loop → Bool
is_over absent = true
is_over launched = false
is_over holding = false
is_over serving = false
is_over finished = false
is_over crashed = false
is_over reporting = false
is_over ended = true

unfoldable pub is_gone : Worker → Bool
is_gone no_worker = true
is_gone running = false
is_gone exited = true

-- Start may be called at any time; Shutdown as the callers do it: cmd/broker/main.go behind a Start that
-- returned no error, Start on an error in its window, and the monitor on an error.
pub data Step : Broker → Broker → Type 0 where
  starts : (b : Broker) → Step b (enter_start b)
  binds_http :
      (listens : Bool) (b : Broker) → b.start ≡ binding_http → Step b (start_http listens b)
  binds_grpc :
      (listens : Bool) (b : Broker) → b.start ≡ binding_grpc → Step b (start_grpc listens b)
  launches : (b : Broker) → b.start ≡ bound → Step b (launch b)
  fails : (b : Broker) → b.start ≡ window → 0 < b.errors → Step b (window_error b)
  returns : (b : Broker) → b.start ≡ window → Step b (window_over b)
  http_begins : (b : Broker) → b.http_loop ≡ launched → Step b (http_serves b)
  http_ends : (b : Broker) → b.http_loop ≡ serving → Step b (http_serve_ends b)
  http_looks : (b : Broker) → b.http_loop ≡ finished → Step b (http_checks b)
  http_falls : (b : Broker) → b.http_loop ≡ crashed → Step b (http_unready b)
  http_sends : (b : Broker) → b.http_loop ≡ reporting → Step b (http_reports b)
  grpc_begins : (b : Broker) → b.grpc_loop ≡ launched → Step b (grpc_serves b)
  grpc_sets : (b : Broker) → b.grpc_loop ≡ holding → Step b (grpc_marks b)
  grpc_ends : (e : ServeError) (b : Broker) → b.grpc_loop ≡ serving → Step b (grpc_serve_ends e b)
  grpc_looks : (b : Broker) → b.grpc_loop ≡ finished → Step b (grpc_checks b)
  grpc_falls : (b : Broker) → b.grpc_loop ≡ crashed → Step b (grpc_unready b)
  grpc_sends : (b : Broker) → b.grpc_loop ≡ reporting → Step b (grpc_reports b)
  worker_stops : (b : Broker) → b.worker ≡ running → b.cancelled ≡ true → Step b (worker_exits b)
  monitor_wakes : (b : Broker) → b.monitor ≡ waiting → 0 < b.errors → Step b (monitor_error b)
  monitor_looks : (b : Broker) → b.monitor ≡ woken → Step b (monitor_checks b)
  monitor_leaves :
      (b : Broker) → b.monitor ≡ waiting → b.cancelled ≡ true → Step b (monitor_cancelled b)
  main_shuts : (b : Broker) → b.start ≡ returned → Step b (enter_shutdown b)
  start_shuts : (b : Broker) → b.start ≡ failing → Step b (enter_shutdown b)
  monitor_shuts : (b : Broker) → b.monitor ≡ stopping → Step b (enter_shutdown b)
  shuts_ready : (b : Broker) → b.shutdown ≡ 1 → Step b (shut_ready b)
  shuts_maintenance : (b : Broker) → b.shutdown ≡ 2 → Step b (shut_maintenance b)
  joins_worker : (b : Broker) → b.shutdown ≡ 3 → is_gone b.worker ≡ true → Step b (worker_joined b)
  shuts_grpc : (graceful : Bool) (b : Broker) → b.shutdown ≡ 4 → Step b (grpc_shut graceful b)
  shuts_http : (b : Broker) → b.shutdown ≡ 5 → Step b (http_shut b)
  joins_loops :
      (b : Broker)
      → b.shutdown ≡ 6
      → is_over b.http_loop ≡ true
      → is_over b.grpc_loop ≡ true
      → Step b (loops_joined b)
  closes_offsets : (b : Broker) → b.shutdown ≡ 7 → Step b (close_offsets b)
  closes_topics : (b : Broker) → b.shutdown ≡ 8 → Step b (close_topics b)
  closes_done : (b : Broker) → b.shutdown ≡ 9 → Step b (close_done b)

-- The steps that are taken some time, if nothing else comes first: a goroutine that can go on goes on,
-- and Serve returns from a server that is down. Not forced are the calls of Start and Shutdown from
-- outside, the clock of the start window, the alternative of a select, and the return of Serve from a
-- server that is not down.
unfoldable pub is_forced : (a b : Broker) → Step a b → Bool
is_forced _ _ (starts b) = false
is_forced _ _ (binds_http listens b h) = false
is_forced _ _ (binds_grpc listens b h) = false
is_forced _ _ (launches b h) = false
is_forced _ _ (fails b h i) = true
is_forced _ _ (returns b h) = false
is_forced _ _ (http_begins b h) = true
is_forced _ _ (http_ends b h) = b.http.down
is_forced _ _ (http_looks b h) = true
is_forced _ _ (http_falls b h) = true
is_forced _ _ (http_sends b h) = true
is_forced _ _ (grpc_begins b h) = true
is_forced _ _ (grpc_sets b h) = true
is_forced _ _ (grpc_ends e b h) = b.grpc.down
is_forced _ _ (grpc_looks b h) = true
is_forced _ _ (grpc_falls b h) = true
is_forced _ _ (grpc_sends b h) = true
is_forced _ _ (worker_stops b h i) = true
is_forced _ _ (monitor_wakes b h i) = true
is_forced _ _ (monitor_looks b h) = true
is_forced _ _ (monitor_leaves b h i) = false
is_forced _ _ (main_shuts b h) = false
is_forced _ _ (start_shuts b h) = not b.stopped
is_forced _ _ (monitor_shuts b h) = not b.stopped
is_forced _ _ (shuts_ready b h) = true
is_forced _ _ (shuts_maintenance b h) = true
is_forced _ _ (joins_worker b h i) = true
is_forced _ _ (shuts_grpc graceful b h) = true
is_forced _ _ (shuts_http b h) = true
is_forced _ _ (joins_loops b h i j) = true
is_forced _ _ (closes_offsets b h) = true
is_forced _ _ (closes_topics b h) = true
is_forced _ _ (closes_done b h) = true

-- Several steps.
pub data Steps : Broker → Broker → Type 0 where
  stay : (b : Broker) → Steps b b
  go : (a b c : Broker) → Step a b → Steps b c → Steps a c

abbrev pub Reachable : Broker → Type 0
Reachable b = Steps new_broker b

pub Steps-trans : (a b c : Broker) → Steps a b → Steps b c → Steps a c
Steps-trans a b c (stay x) t = t
Steps-trans a b c (go x y z s t) u = go x y c s (Steps-trans y z c t u)
