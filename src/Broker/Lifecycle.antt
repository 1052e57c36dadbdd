-- ===== src/Broker/Lifecycle.antt =====
-- Start, Shutdown, the serve loops, the retention worker and the monitor of internal/broker/broker.go,
-- cut into the steps between which other goroutines can run.
use distributed_message_brok.Prelude.{ℕ, ◌+◌, ◌-◌, Bool, true, false, ◌||◌, if◌then◌else◌, ltb}
use distributed_message_brok.Broker.Servers.{
  GrpcServer, new_grpc, bind_grpc, begin_serve, mark_serving, ServeError, end_serve, shut_grpc,
  HttpServer, shut_http, new_http, bind_http, set_ready,
}

-- The Start that is not refused: before it (or behind a failed Bind), in front of each Bind, behind
-- both, in the 50 ms window, behind an error of the window, and returned.
pub data Start : Type 0 where
  idle binding_http binding_grpc bound window failing returned : Start

-- The goroutine of a serve loop: behind `go`, in Serve with the listener read but the health status not
-- yet set (gRPC only), in Serve of the library, behind it, having found that the broker was not
-- stopped, in front of the send of its error, and ended.
pub data Loop : Type 0 where
  absent launched holding serving finished crashed reporting ended : Loop

pub data Worker : Type 0 where
  no_worker running exited : Worker

-- monitorServe: not begun, in its select, behind the receipt of an error, in front of its Shutdown, over.
pub data Monitor : Type 0 where
  no_monitor waiting woken stopping over : Monitor

-- `errors` is the length of serveErrCh. `shutdown` counts what the Shutdown that is not refused has
-- behind it: 0 before it, 1 behind its first lines, and then one for each of its numbered steps, 10
-- behind close(doneCh). `double_close` says that a closed doneCh was closed, a panic.
pub record Broker : Type 0 where
  pub started : Bool
  pub stopped : Bool
  pub http : HttpServer
  pub grpc : GrpcServer
  pub start : Start
  pub http_loop : Loop
  pub grpc_loop : Loop
  pub worker : Worker
  pub monitor : Monitor
  pub errors : ℕ
  pub cancelled : Bool
  pub shutdown : ℕ
  pub offsets_closed : Bool
  pub topics_closed : Bool
  pub done : Bool
  pub double_close : Bool

-- New
unfoldable pub new_broker : Broker
new_broker = record {
  started = false;
  stopped = false;
  http = new_http;
  grpc = new_grpc;
  start = idle;
  http_loop = absent;
  grpc_loop = absent;
  worker = no_worker;
  monitor = no_monitor;
  errors = 0;
  cancelled = false;
  shutdown = 0;
  offsets_closed = false;
  topics_closed = false;
  done = false;
  double_close = false;
}

-- Start up to its first Bind.
unfoldable pub enter_start : Broker → Broker
enter_start b = if b.started then b else record b { started = true; start = binding_http }

-- Step 1 of Start.
unfoldable pub start_http : Bool → Broker → Broker
unfolding bind_http
start_http listens b =
    let (s, done) = bind_http listens b.http in
    if done
    then record b { http = s; start = binding_grpc }
    else record b { started = false; start = idle }

-- Step 2 of Start. CloseListener of the HTTP server keeps the closed listener.
unfoldable pub start_grpc : Bool → Broker → Broker
unfolding bind_grpc
start_grpc listens b =
    let (s, done) = bind_grpc listens b.grpc in
    if done
    then record b { grpc = s; start = bound }
    else record b { started = false; start = idle }

-- Steps 3 to 5 of Start: the serve loops and the retention worker.
unfoldable pub launch : Broker → Broker
launch b = record b { http_loop = launched; grpc_loop = launched; worker = running; start = window }

-- The first case of the select: the error is received, and Shutdown is next.
unfoldable pub window_error : Broker → Broker
window_error b = record b { errors = b.errors - 1; start = failing }

-- The second case: 50 ms are over.
unfoldable pub window_over : Broker → Broker
unfolding set_ready
window_over b = record b { http = set_ready true b.http; monitor = waiting; start = returned }

-- The HTTP loop in Serve.
unfoldable pub http_serves : Broker → Broker
http_serves b = record b { http_loop = if b.http.listener then serving else finished }

unfoldable pub http_serve_ends : Broker → Broker
http_serve_ends b = record b { http_loop = finished }

-- `stopped := b.stopped` and the test behind it.
unfoldable pub checked : Bool → Loop
checked stopped = if stopped then ended else crashed

unfoldable pub http_checks : Broker → Broker
unfolding checked
http_checks b = record b { http_loop = checked b.stopped }

unfoldable pub http_unready : Broker → Broker
unfolding set_ready
http_unready b = record b { http = set_ready false b.http; http_loop = reporting }

-- The send on the channel with its two places, or `default`.
unfoldable pub send : ℕ → ℕ
send errors = if ltb errors 2 then errors + 1 else errors

unfoldable pub http_reports : Broker → Broker
unfolding send
http_reports b = record b { errors = send b.errors; http_loop = ended }

-- The same for the gRPC loop, whose Serve reads the listener and then sets the health status.
unfoldable pub grpc_serves : Broker → Broker
unfolding begin_serve
grpc_serves b = record b { grpc_loop = if begin_serve b.grpc then holding else finished }

unfoldable pub grpc_marks : Broker → Broker
unfolding mark_serving
grpc_marks b = record b { grpc = mark_serving b.grpc; grpc_loop = serving }

unfoldable pub grpc_serve_ends : ServeError → Broker → Broker
grpc_serve_ends e b = record b { grpc = (end_serve e b.grpc).0; grpc_loop = finished }

unfoldable pub grpc_checks : Broker → Broker
unfolding checked
grpc_checks b = record b { grpc_loop = checked b.stopped }

unfoldable pub grpc_unready : Broker → Broker
unfolding set_ready
grpc_unready b = record b { http = set_ready false b.http; grpc_loop = reporting }

unfoldable pub grpc_reports : Broker → Broker
unfolding send
grpc_reports b = record b { errors = send b.errors; grpc_loop = ended }

-- runRetentionWorker at `<-maintenanceCtx.Done()`.
unfoldable pub worker_exits : Broker → Broker
worker_exits b = record b { worker = exited }

-- monitorServe: an error is received.
unfoldable pub monitor_error : Broker → Broker
monitor_error b = record b { errors = b.errors - 1; monitor = woken }

-- Its test of b.stopped.
unfoldable pub monitor_checks : Broker → Broker
monitor_checks b = record b { monitor = if b.stopped then over else stopping }

unfoldable pub monitor_cancelled : Broker → Broker
monitor_cancelled b = record b { monitor = over }

-- Shutdown up to `b.stopped = true`.
unfoldable pub enter_shutdown : Broker → Broker
enter_shutdown b = if b.stopped then b else record b { stopped = true; shutdown = 1 }

-- Step 1 of Shutdown.
unfoldable pub shut_ready : Broker → Broker
unfolding set_ready
shut_ready b = record b { http = set_ready false b.http; shutdown = 2 }

-- Step 2: maintenanceCancel.
unfoldable pub shut_maintenance : Broker → Broker
shut_maintenance b = record b { cancelled = true; shutdown = 3 }

-- Step 3: maintenanceWG.Wait returns.
unfoldable pub worker_joined : Broker → Broker
worker_joined b = record b { shutdown = 4 }

-- Step 4: Shutdown of the gRPC server.
unfoldable pub grpc_shut : Bool → Broker → Broker
unfolding shut_grpc
grpc_shut graceful b = record b { grpc = (shut_grpc graceful b.grpc).0; shutdown = 5 }

-- Step 5: Shutdown of the HTTP server.
unfoldable pub http_shut : Broker → Broker
unfolding shut_http
http_shut b = record b { http = shut_http b.http; shutdown = 6 }

-- Step 6: serveWG.Wait returns.
unfoldable pub loops_joined : Broker → Broker
loops_joined b = record b { shutdown = 7 }

-- Steps 7 and 8, whose errors are kept for the end, and close(doneCh).
unfoldable pub close_offsets : Broker → Broker
close_offsets b = record b { offsets_closed = true; shutdown = 8 }

unfoldable pub close_topics : Broker → Broker
close_topics b = record b { topics_closed = true; shutdown = 9 }

unfoldable pub close_done : Broker → Broker
close_done b = record b { done = true; double_close = b.double_close || b.done; shutdown = 10 }
