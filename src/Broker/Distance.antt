-- ===== src/Broker/Distance.antt =====
-- How far a broker that is to stop is from the end: a count that every step lowers.
use distributed_message_brok.Prelude.{ℕ, ◌+◌, ◌-◌, ◌<◌, ◌≡◌, ◌⊎◌, arith, true}
use distributed_message_brok.Broker.Lifecycle.{
  Broker, Start, idle, binding_http, binding_grpc, bound, window, failing, returned, Loop, absent,
  launched, holding, serving, finished, crashed, reporting, ended, Worker, no_worker, running,
  exited, Monitor, no_monitor, waiting, woken, stopping, over, enter_start, start_http, start_grpc,
  launch, window_error, window_over, http_serves, http_serve_ends, checked, http_checks,
  http_unready, send, http_reports, grpc_serves, grpc_marks, grpc_serve_ends, grpc_checks,
  grpc_unready, grpc_reports, worker_exits, monitor_error, monitor_checks, monitor_cancelled,
  enter_shutdown, shut_ready, shut_maintenance, worker_joined, grpc_shut, http_shut, loops_joined,
  close_offsets, close_topics, close_done,
}
use distributed_message_brok.Broker.Steps.{
  Step, starts, binds_http, binds_grpc, launches, fails, returns, http_begins, http_ends,
  http_looks, http_falls, http_sends, grpc_begins, grpc_sets, grpc_ends, grpc_looks, grpc_falls,
  grpc_sends, worker_stops, monitor_wakes, monitor_looks, monitor_leaves, main_shuts, start_shuts,
  monitor_shuts, shuts_ready, shuts_maintenance, joins_worker, shuts_grpc, shuts_http, joins_loops,
  closes_offsets, closes_topics, closes_done, is_forced,
}
use distributed_message_brok.Broker.Invariant.{
  Ordered, Watched, Noticed, Step-Ordered, Step-Watched, has_launched, has_watch,
}

unfoldable pub loop_rank : Loop → ℕ
loop_rank absent = 0
loop_rank launched = 6
loop_rank holding = 5
loop_rank serving = 4
loop_rank finished = 3
loop_rank crashed = 2
loop_rank reporting = 1
loop_rank ended = 0

unfoldable pub worker_rank : Worker → ℕ
worker_rank no_worker = 0
worker_rank running = 1
worker_rank exited = 0

unfoldable pub monitor_rank : Monitor → ℕ
monitor_rank no_monitor = 0
monitor_rank waiting = 3
monitor_rank woken = 2
monitor_rank stopping = 1
monitor_rank over = 0

-- In the window the monitor is not begun.
unfoldable pub start_rank : Start → ℕ
start_rank idle = 0
start_rank binding_http = 0
start_rank binding_grpc = 0
start_rank bound = 0
start_rank window = 5
start_rank failing = 1
start_rank returned = 0

unfoldable pub distance : Broker → ℕ
distance b =
    (10 - b.shutdown)
    + (loop_rank b.http_loop
        + (loop_rank b.grpc_loop
            + (worker_rank b.worker + (monitor_rank b.monitor + start_rank b.start))))

-- Behind a Start that launched the goroutines, on a broker that someone stops.
pub record Doomed (b : Broker) : Type 0 where
  pub ordered : Ordered b
  pub watched : Watched b
  pub noticed : Noticed b

Noticed-launched : (b : Broker) → Ordered b → Watched b → Noticed b → has_launched b.start ≡ true
unfolding has_launched has_watch
Noticed-launched b o w n = ground arith

Step-Noticed : (a b : Broker) → Step a b → Ordered a → Watched a → Noticed a → Noticed b
unfolding enter_start start_http start_grpc launch window_error window_over http_serves
    http_serve_ends checked http_checks http_unready send http_reports grpc_serves grpc_marks
    grpc_serve_ends grpc_checks grpc_unready grpc_reports worker_exits monitor_error monitor_checks
    monitor_cancelled enter_shutdown shut_ready shut_maintenance worker_joined grpc_shut http_shut
    loops_joined close_offsets close_topics close_done has_launched has_watch
Step-Noticed _ _ (starts a) o w n = ground arith
Step-Noticed _ _ (binds_http listens a h) o w n = ground arith
Step-Noticed _ _ (binds_grpc listens a h) o w n = ground arith
Step-Noticed _ _ (launches a h) o w n = ground arith
Step-Noticed _ _ (fails a h i) o w n = ground arith
Step-Noticed _ _ (returns a h) o w n = ground arith
Step-Noticed _ _ (http_begins a h) o w n = ground arith
Step-Noticed _ _ (http_ends a h) o w n = ground arith
Step-Noticed _ _ (http_looks a h) o w n = ground arith
Step-Noticed _ _ (http_falls a h) o w n = ground arith
Step-Noticed _ _ (http_sends a h) o w n = ground arith
Step-Noticed _ _ (grpc_begins a h) o w n = ground arith
Step-Noticed _ _ (grpc_sets a h) o w n = ground arith
Step-Noticed _ _ (grpc_ends e a h) o w n = ground arith
Step-Noticed _ _ (grpc_looks a h) o w n = ground arith
Step-Noticed _ _ (grpc_falls a h) o w n = ground arith
Step-Noticed _ _ (grpc_sends a h) o w n = ground arith
Step-Noticed _ _ (worker_stops a h i) o w n = ground arith
Step-Noticed _ _ (monitor_wakes a h i) o w n = ground arith
Step-Noticed _ _ (monitor_looks a h) o w n = ground arith
Step-Noticed _ _ (monitor_leaves a h i) o w n = ground arith
Step-Noticed _ _ (main_shuts a h) o w n = ground arith
Step-Noticed _ _ (start_shuts a h) o w n = ground arith
Step-Noticed _ _ (monitor_shuts a h) o w n = ground arith
Step-Noticed _ _ (shuts_ready a h) o w n = ground arith
Step-Noticed _ _ (shuts_maintenance a h) o w n = ground arith
Step-Noticed _ _ (joins_worker a h i) o w n = ground arith
Step-Noticed _ _ (shuts_grpc graceful a h) o w n = ground arith
Step-Noticed _ _ (shuts_http a h) o w n = ground arith
Step-Noticed _ _ (joins_loops a h i j) o w n = ground arith
Step-Noticed _ _ (closes_offsets a h) o w n = ground arith
Step-Noticed _ _ (closes_topics a h) o w n = ground arith
Step-Noticed _ _ (closes_done a h) o w n = ground arith

pub Step-Doomed : (a b : Broker) → Step a b → Doomed a → Doomed b
Step-Doomed a b s d = record {
  ordered = Step-Ordered a b s d.ordered;
  watched = Step-Watched a b s d.ordered d.watched;
  noticed = Step-Noticed a b s d.ordered d.watched d.noticed;
}

-- Every step changes nothing or comes closer to the end.
step_falls :
    (a b : Broker)
    → Step a b
    → Ordered a
    → Watched a
    → has_launched a.start ≡ true
    → (b ≡ a) ⊎ (distance b < distance a)
unfolding enter_start start_http start_grpc launch window_error window_over http_serves
    http_serve_ends checked http_checks http_unready send http_reports grpc_serves grpc_marks
    grpc_serve_ends grpc_checks grpc_unready grpc_reports worker_exits monitor_error monitor_checks
    monitor_cancelled enter_shutdown shut_ready shut_maintenance worker_joined grpc_shut http_shut
    loops_joined close_offsets close_topics close_done has_launched has_watch distance loop_rank
    worker_rank monitor_rank start_rank
step_falls _ _ (starts a) o w l = ground arith
step_falls _ _ (binds_http listens a h) o w l = ground arith
step_falls _ _ (binds_grpc listens a h) o w l = ground arith
step_falls _ _ (launches a h) o w l = ground arith
step_falls _ _ (fails a h i) o w l = ground arith
step_falls _ _ (returns a h) o w l = ground arith
step_falls _ _ (http_begins a h) o w l = ground arith
step_falls _ _ (http_ends a h) o w l = ground arith
step_falls _ _ (http_looks a h) o w l = ground arith
step_falls _ _ (http_falls a h) o w l = ground arith
step_falls _ _ (http_sends a h) o w l = ground arith
step_falls _ _ (grpc_begins a h) o w l = ground arith
step_falls _ _ (grpc_sets a h) o w l = ground arith
step_falls _ _ (grpc_ends e a h) o w l = ground arith
step_falls _ _ (grpc_looks a h) o w l = ground arith
step_falls _ _ (grpc_falls a h) o w l = ground arith
step_falls _ _ (grpc_sends a h) o w l = ground arith
step_falls _ _ (worker_stops a h i) o w l = ground arith
step_falls _ _ (monitor_wakes a h i) o w l = ground arith
step_falls _ _ (monitor_looks a h) o w l = ground arith
step_falls _ _ (monitor_leaves a h i) o w l = ground arith
step_falls _ _ (main_shuts a h) o w l = ground arith
step_falls _ _ (start_shuts a h) o w l = ground arith
step_falls _ _ (monitor_shuts a h) o w l = ground arith
step_falls _ _ (shuts_ready a h) o w l = ground arith
step_falls _ _ (shuts_maintenance a h) o w l = ground arith
step_falls _ _ (joins_worker a h i) o w l = ground arith
step_falls _ _ (shuts_grpc graceful a h) o w l = ground arith
step_falls _ _ (shuts_http a h) o w l = ground arith
step_falls _ _ (joins_loops a h i j) o w l = ground arith
step_falls _ _ (closes_offsets a h) o w l = ground arith
step_falls _ _ (closes_topics a h) o w l = ground arith
step_falls _ _ (closes_done a h) o w l = ground arith

pub Step-falls : (a b : Broker) → Step a b → Doomed a → (b ≡ a) ⊎ (distance b < distance a)
Step-falls a b s d =
    step_falls a b s d.ordered d.watched (Noticed-launched a d.ordered d.watched d.noticed)

forced_falls :
    (a b : Broker) (s : Step a b)
    → is_forced a b s ≡ true
    → Ordered a
    → Watched a
    → has_launched a.start ≡ true
    → distance b < distance a
unfolding enter_start start_http start_grpc launch window_error window_over http_serves
    http_serve_ends checked http_checks http_unready send http_reports grpc_serves grpc_marks
    grpc_serve_ends grpc_checks grpc_unready grpc_reports worker_exits monitor_error monitor_checks
    monitor_cancelled enter_shutdown shut_ready shut_maintenance worker_joined grpc_shut http_shut
    loops_joined close_offsets close_topics close_done has_launched has_watch distance loop_rank
    worker_rank monitor_rank start_rank is_forced
forced_falls _ _ (starts a) f o w l = ground arith
forced_falls _ _ (binds_http listens a h) f o w l = ground arith
forced_falls _ _ (binds_grpc listens a h) f o w l = ground arith
forced_falls _ _ (launches a h) f o w l = ground arith
forced_falls _ _ (fails a h i) f o w l = ground arith
forced_falls _ _ (returns a h) f o w l = ground arith
forced_falls _ _ (http_begins a h) f o w l = ground arith
forced_falls _ _ (http_ends a h) f o w l = ground arith
forced_falls _ _ (http_looks a h) f o w l = ground arith
forced_falls _ _ (http_falls a h) f o w l = ground arith
forced_falls _ _ (http_sends a h) f o w l = ground arith
forced_falls _ _ (grpc_begins a h) f o w l = ground arith
forced_falls _ _ (grpc_sets a h) f o w l = ground arith
forced_falls _ _ (grpc_ends e a h) f o w l = ground arith
forced_falls _ _ (grpc_looks a h) f o w l = ground arith
forced_falls _ _ (grpc_falls a h) f o w l = ground arith
forced_falls _ _ (grpc_sends a h) f o w l = ground arith
forced_falls _ _ (worker_stops a h i) f o w l = ground arith
forced_falls _ _ (monitor_wakes a h i) f o w l = ground arith
forced_falls _ _ (monitor_looks a h) f o w l = ground arith
forced_falls _ _ (monitor_leaves a h i) f o w l = ground arith
forced_falls _ _ (main_shuts a h) f o w l = ground arith
forced_falls _ _ (start_shuts a h) f o w l = ground arith
forced_falls _ _ (monitor_shuts a h) f o w l = ground arith
forced_falls _ _ (shuts_ready a h) f o w l = ground arith
forced_falls _ _ (shuts_maintenance a h) f o w l = ground arith
forced_falls _ _ (joins_worker a h i) f o w l = ground arith
forced_falls _ _ (shuts_grpc graceful a h) f o w l = ground arith
forced_falls _ _ (shuts_http a h) f o w l = ground arith
forced_falls _ _ (joins_loops a h i j) f o w l = ground arith
forced_falls _ _ (closes_offsets a h) f o w l = ground arith
forced_falls _ _ (closes_topics a h) f o w l = ground arith
forced_falls _ _ (closes_done a h) f o w l = ground arith

pub forced-falls :
    (a b : Broker) (s : Step a b) → is_forced a b s ≡ true → Doomed a → distance b < distance a
forced-falls a b s f d =
    forced_falls a b s f d.ordered d.watched (Noticed-launched a d.ordered d.watched d.noticed)
