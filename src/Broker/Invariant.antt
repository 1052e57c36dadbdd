-- ===== src/Broker/Invariant.antt =====
-- What holds in every state that a broker reaches.
use distributed_message_brok.Prelude.{◌≡◌, ◌≤◌, ◌<◌, ◌⊎◌, inl, refl, arith, Bool, true, false}
use distributed_message_brok.Broker.Servers.{
  bind_grpc, begin_serve, mark_serving, end_serve, cleanup, shut_grpc, shut_http, bind_http,
  set_ready, new_grpc, new_http,
}
use distributed_message_brok.Broker.Lifecycle.{
  Broker, Start, idle, binding_http, binding_grpc, bound, window, failing, returned, Loop, absent,
  launched, holding, serving, finished, crashed, reporting, ended, Monitor, no_monitor, waiting,
  woken, stopping, over, new_broker, enter_start, start_http, start_grpc, launch, window_error,
  window_over, http_serves, http_serve_ends, checked, http_checks, http_unready, send, http_reports,
  grpc_serves, grpc_marks, grpc_serve_ends, grpc_checks, grpc_unready, grpc_reports, worker_exits,
  monitor_error, monitor_checks, monitor_cancelled, enter_shutdown, shut_ready, shut_maintenance,
  worker_joined, grpc_shut, http_shut, loops_joined, close_offsets, close_topics, close_done,
}
use distributed_message_brok.Broker.Steps.{
  Step, starts, binds_http, binds_grpc, launches, fails, returns, http_begins, http_ends,
  http_looks, http_falls, http_sends, grpc_begins, grpc_sets, grpc_ends, grpc_looks, grpc_falls,
  grpc_sends, worker_stops, monitor_wakes, monitor_looks, monitor_leaves, main_shuts, start_shuts,
  monitor_shuts, shuts_ready, shuts_maintenance, joins_worker, shuts_grpc, shuts_http, joins_loops,
  closes_offsets, closes_topics, closes_done, is_over, is_gone, Steps, stay, go, Reachable,
}

-- Whether a Start has launched the goroutines.
unfoldable pub has_launched : Start → Bool
has_launched idle = false
has_launched binding_http = false
has_launched binding_grpc = false
has_launched bound = false
has_launched window = true
has_launched failing = true
has_launched returned = true

unfoldable pub is_holding : Loop → Bool
is_holding absent = false
is_holding launched = false
is_holding holding = true
is_holding serving = false
is_holding finished = false
is_holding crashed = false
is_holding reporting = false
is_holding ended = false

-- The order of a shutdown: `shutdown` and `stopped` agree; readiness is off, then the context
-- cancelled, the worker gone, the gRPC server down without a listener, the HTTP server down, and the
-- loops over, each from its step on; the stores are closed behind all of that; and doneCh is closed once, at the end.
pub record Ordered (b : Broker) : Type 0 where
  pub entered : 1 ≤ b.shutdown → b.stopped ≡ true
  pub counted : b.stopped ≡ true → 1 ≤ b.shutdown
  pub after_start : 1 ≤ b.shutdown → (b.start ≡ failing) ⊎ (b.start ≡ returned)
  pub started : (b.start ≡ idle) ⊎ (b.started ≡ true)
  pub stopping_monitor : (b.monitor ≡ no_monitor) ⊎ (b.start ≡ returned)
  pub unready : 2 ≤ b.shutdown → b.http.ready ≡ false
  pub context : 3 ≤ b.shutdown → b.cancelled ≡ true
  pub uncancelled : b.cancelled ≡ true → 3 ≤ b.shutdown
  pub worker_gone : 4 ≤ b.shutdown → is_gone b.worker ≡ true
  pub unbound : 5 ≤ b.shutdown → (b.grpc.listener ≡ false) × (b.grpc.down ≡ true)
  pub http_down : 6 ≤ b.shutdown → b.http.down ≡ true
  pub loops_over : 7 ≤ b.shutdown → (is_over b.http_loop ≡ true) × (is_over b.grpc_loop ≡ true)
  pub offsets : b.offsets_closed ≡ true → 8 ≤ b.shutdown
  pub topics : b.topics_closed ≡ true → 9 ≤ b.shutdown
  pub finished_ : b.done ≡ true → 10 ≤ b.shutdown
  pub at_end : 10 ≤ b.shutdown → b.done ≡ true
  pub bounded : b.shutdown ≤ 10
  pub http_plain : is_holding b.http_loop ≡ false
  pub closed_once : b.double_close ≡ false

new_broker-Ordered : Ordered new_broker
unfolding new_broker new_http new_grpc is_holding
new_broker-Ordered = record {
  entered = λ h. absurd (omega arith);
  counted = λ h. absurd cc;
  after_start = λ h. absurd (omega arith);
  started = inl refl;
  stopping_monitor = inl refl;
  unready = λ h. refl;
  context = λ h. absurd (omega arith);
  uncancelled = λ h. absurd cc;
  worker_gone = λ h. absurd (omega arith);
  unbound = λ h. absurd (omega arith);
  http_down = λ h. absurd (omega arith);
  loops_over = λ h. absurd (omega arith);
  offsets = λ h. absurd cc;
  topics = λ h. absurd cc;
  finished_ = λ h. absurd cc;
  at_end = λ h. absurd (omega arith);
  bounded = omega arith;
  http_plain = refl;
  closed_once = refl;
}

pub Step-Ordered : (a b : Broker) → Step a b → Ordered a → Ordered b
unfolding enter_start start_http start_grpc launch window_error window_over http_serves
    http_serve_ends checked http_checks http_unready send http_reports grpc_serves grpc_marks
    grpc_serve_ends grpc_checks grpc_unready grpc_reports worker_exits monitor_error monitor_checks
    monitor_cancelled enter_shutdown shut_ready shut_maintenance worker_joined grpc_shut http_shut
    loops_joined close_offsets close_topics close_done bind_http bind_grpc begin_serve mark_serving
    end_serve cleanup shut_grpc shut_http set_ready is_over is_gone is_holding
Step-Ordered _ _ (starts a) o = ground arith
Step-Ordered _ _ (binds_http listens a h0) o = ground arith
Step-Ordered _ _ (binds_grpc listens a h0) o = ground arith
Step-Ordered _ _ (launches a h0) o = ground arith
Step-Ordered _ _ (fails a h0 h1) o = ground arith
Step-Ordered _ _ (returns a h0) o = ground arith
Step-Ordered _ _ (http_begins a h0) o = ground arith
Step-Ordered _ _ (http_ends a h0) o = ground arith
Step-Ordered _ _ (http_looks a h0) o = ground arith
Step-Ordered _ _ (http_falls a h0) o = ground arith
Step-Ordered _ _ (http_sends a h0) o = ground arith
Step-Ordered _ _ (grpc_begins a h0) o = ground arith
Step-Ordered _ _ (grpc_sets a h0) o = ground arith
Step-Ordered _ _ (grpc_ends e a h0) o = ground arith
Step-Ordered _ _ (grpc_looks a h0) o = ground arith
Step-Ordered _ _ (grpc_falls a h0) o = ground arith
Step-Ordered _ _ (grpc_sends a h0) o = ground arith
Step-Ordered _ _ (worker_stops a h0 h1) o = ground arith
Step-Ordered _ _ (monitor_wakes a h0 h1) o = ground arith
Step-Ordered _ _ (monitor_looks a h0) o = ground arith
Step-Ordered _ _ (monitor_leaves a h0 h1) o = ground arith
Step-Ordered _ _ (main_shuts a h0) o = ground arith
Step-Ordered _ _ (start_shuts a h0) o = ground arith
Step-Ordered _ _ (monitor_shuts a h0) o = ground arith
Step-Ordered _ _ (shuts_ready a h0) o = ground arith
Step-Ordered _ _ (shuts_maintenance a h0) o = ground arith
Step-Ordered _ _ (joins_worker a h0 h1) o = ground arith
Step-Ordered _ _ (shuts_grpc graceful a h0) o = ground arith
Step-Ordered _ _ (shuts_http a h0) o = ground arith
Step-Ordered _ _ (joins_loops a h0 h1 h2) o = ground arith
Step-Ordered _ _ (closes_offsets a h0) o = ground arith
Step-Ordered _ _ (closes_topics a h0) o = ground arith
Step-Ordered _ _ (closes_done a h0) o = ground arith

Steps-Ordered : (a b : Broker) → Steps a b → Ordered a → Ordered b
Steps-Ordered a b (stay x) o = o
Steps-Ordered a b (go x y z s t) o = Steps-Ordered y b t (Step-Ordered a y s o)

-- In every state that a broker reaches, whatever the order of its goroutines' steps, with Shutdown called
-- behind a Start that returned, by Start or by the monitor, the shutdown is in order: the stores are
-- closed only when no serve loop and no worker is left, readiness is off, the context cancelled, the gRPC
-- server without a listener and both servers down by then, and doneCh is closed once, behind all else.
pub Reachable-Ordered : (b : Broker) → Reachable b → Ordered b
Reachable-Ordered b r = Steps-Ordered new_broker b r new_broker-Ordered

unfoldable pub has_watch : Monitor → Bool
has_watch no_monitor = false
has_watch waiting = true
has_watch woken = true
has_watch stopping = true
has_watch over = true

-- Someone is about to stop the broker, or has.
abbrev pub Noticed : Broker → Type 0
Noticed b =
    (b.stopped ≡ true)
    ⊎ ((0 < b.errors) ⊎ ((b.start ≡ failing) ⊎ ((b.monitor ≡ woken) ⊎ (b.monitor ≡ stopping))))

-- No crash of a serve loop is lost, and someone receives the errors.
pub record Watched (b : Broker) : Type 0 where
  pub http_noticed : b.http_loop ≡ ended → Noticed b
  pub grpc_noticed : b.grpc_loop ≡ ended → Noticed b
  pub launched_loops :
      has_launched b.start ≡ false
      → (b.http_loop ≡ absent) × (b.grpc_loop ≡ absent) × (b.errors ≡ 0)
  pub watched : b.start ≡ returned → has_watch b.monitor ≡ true
  pub left : b.monitor ≡ over → b.stopped ≡ true
  pub few : b.errors ≤ 2

new_broker-Watched : Watched new_broker
unfolding new_broker new_http new_grpc has_launched
new_broker-Watched = record {
  http_noticed = λ h. absurd cc;
  grpc_noticed = λ h. absurd cc;
  launched_loops = λ h. (refl, refl, refl);
  watched = λ h. absurd cc;
  left = λ h. absurd cc;
  few = omega arith;
}

pub Step-Watched : (a b : Broker) → Step a b → Ordered a → Watched a → Watched b
unfolding enter_start start_http start_grpc launch window_error window_over http_serves
    http_serve_ends checked http_checks http_unready send http_reports grpc_serves grpc_marks
    grpc_serve_ends grpc_checks grpc_unready grpc_reports worker_exits monitor_error monitor_checks
    monitor_cancelled enter_shutdown shut_ready shut_maintenance worker_joined grpc_shut http_shut
    loops_joined close_offsets close_topics close_done bind_http bind_grpc begin_serve mark_serving
    end_serve cleanup shut_grpc shut_http set_ready has_launched has_watch
Step-Watched _ _ (starts a) o w = ground arith
Step-Watched _ _ (binds_http listens a h0) o w = ground arith
Step-Watched _ _ (binds_grpc listens a h0) o w = ground arith
Step-Watched _ _ (launches a h0) o w = ground arith
Step-Watched _ _ (fails a h0 h1) o w = ground arith
Step-Watched _ _ (returns a h0) o w = ground arith
Step-Watched _ _ (http_begins a h0) o w = ground arith
Step-Watched _ _ (http_ends a h0) o w = ground arith
Step-Watched _ _ (http_looks a h0) o w = ground arith
Step-Watched _ _ (http_falls a h0) o w = ground arith
Step-Watched _ _ (http_sends a h0) o w = ground arith
Step-Watched _ _ (grpc_begins a h0) o w = ground arith
Step-Watched _ _ (grpc_sets a h0) o w = ground arith
Step-Watched _ _ (grpc_ends e a h0) o w = ground arith
Step-Watched _ _ (grpc_looks a h0) o w = ground arith
Step-Watched _ _ (grpc_falls a h0) o w = ground arith
Step-Watched _ _ (grpc_sends a h0) o w = ground arith
Step-Watched _ _ (worker_stops a h0 h1) o w = ground arith
Step-Watched _ _ (monitor_wakes a h0 h1) o w = ground arith
Step-Watched _ _ (monitor_looks a h0) o w = ground arith
Step-Watched _ _ (monitor_leaves a h0 h1) o w = ground arith
Step-Watched _ _ (main_shuts a h0) o w = ground arith
Step-Watched _ _ (start_shuts a h0) o w = ground arith
Step-Watched _ _ (monitor_shuts a h0) o w = ground arith
Step-Watched _ _ (shuts_ready a h0) o w = ground arith
Step-Watched _ _ (shuts_maintenance a h0) o w = ground arith
Step-Watched _ _ (joins_worker a h0 h1) o w = ground arith
Step-Watched _ _ (shuts_grpc graceful a h0) o w = ground arith
Step-Watched _ _ (shuts_http a h0) o w = ground arith
Step-Watched _ _ (joins_loops a h0 h1 h2) o w = ground arith
Step-Watched _ _ (closes_offsets a h0) o w = ground arith
Step-Watched _ _ (closes_topics a h0) o w = ground arith
Step-Watched _ _ (closes_done a h0) o w = ground arith

Steps-Watched : (a b : Broker) → Steps a b → Ordered a → Watched a → Watched b
Steps-Watched a b (stay x) o w = w
Steps-Watched a b (go x y z s t) o w =
    Steps-Watched y b t (Step-Ordered a y s o) (Step-Watched a y s o w)

pub Reachable-Watched : (b : Broker) → Reachable b → Watched b
Reachable-Watched b r = Steps-Watched new_broker b r new_broker-Ordered new_broker-Watched
