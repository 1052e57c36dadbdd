-- ===== src/Broker/Drain.antt =====
-- A shutdown that is under way ends, and a crash of a serve loop leads to one.
use distributed_message_brok.Prelude.{
  ℕ, zero, suc, ◌-◌, ◌≤◌, ◌<◌, ◌≡◌, ◌≢◌, ◌⊎◌, inl, inr, refl, arith, true, false, Bool-cases,
}
use distributed_message_brok.Broker.Lifecycle.{
  Broker, Start, idle, binding_http, binding_grpc, bound, window, failing, returned, Loop, absent,
  launched, holding, serving, finished, crashed, reporting, ended, Worker, no_worker, running,
  exited, Monitor, no_monitor, waiting, woken, stopping, over,
}
use distributed_message_brok.Broker.Servers.{no_error}
use distributed_message_brok.Broker.Steps.{
  Step, fails, http_begins, http_ends, http_looks, http_falls, http_sends, grpc_begins, grpc_sets,
  grpc_ends, grpc_looks, grpc_falls, grpc_sends, worker_stops, monitor_wakes, monitor_looks,
  start_shuts, monitor_shuts, shuts_ready, shuts_maintenance, joins_worker, shuts_grpc, shuts_http,
  joins_loops, closes_offsets, closes_topics, closes_done, is_over, is_gone, is_forced, Reachable,
}
use distributed_message_brok.Broker.Invariant.{
  Ordered, Watched, Noticed, Reachable-Ordered, Reachable-Watched, has_launched, has_watch,
  is_holding,
}
use distributed_message_brok.Broker.Distance.{
  distance, Doomed, Step-Doomed, Step-falls, forced-falls,
}

-- A step that is forced.
pub record Onward (b : Broker) : Type 0 where
  pub next : Broker
  pub step : Step b next
  pub forced : is_forced b next step ≡ true

-- Whatever steps are taken, doneCh is closed in the end: it is closed, or a forced step can be taken, and
-- that step and every other step that changes the state lead to a state of this kind.
pub data Inevitable : Broker → Type 0 where
  arrived : (b : Broker) → b.done ≡ true → Inevitable b
  onward :
      (b : Broker) (goes : Onward b)
      → Inevitable goes.next
      → ((c : Broker) → Step b c → c ≢ b → Inevitable c)
      → Inevitable b

http-Onward :
    (l : Loop) (b : Broker)
    → b.http_loop ≡ l
    → is_holding b.http_loop ≡ false
    → b.http.down ≡ true
    → (is_over b.http_loop ≡ true) ⊎ Onward b
unfolding is_over is_forced is_holding
http-Onward absent b e p d = inl (rw e refl)
http-Onward launched b e p d = inr (record { next = _; step = http_begins b e; forced = refl })
http-Onward holding b e p d = absurd (ground arith)
http-Onward serving b e p d = inr (record { next = _; step = http_ends b e; forced = d })
http-Onward finished b e p d = inr (record { next = _; step = http_looks b e; forced = refl })
http-Onward crashed b e p d = inr (record { next = _; step = http_falls b e; forced = refl })
http-Onward reporting b e p d = inr (record { next = _; step = http_sends b e; forced = refl })
http-Onward ended b e p d = inl (rw e refl)

grpc-Onward :
    (l : Loop) (b : Broker)
    → b.grpc_loop ≡ l
    → b.grpc.down ≡ true
    → (is_over b.grpc_loop ≡ true) ⊎ Onward b
unfolding is_over is_forced
grpc-Onward absent b e d = inl (rw e refl)
grpc-Onward launched b e d = inr (record { next = _; step = grpc_begins b e; forced = refl })
grpc-Onward holding b e d = inr (record { next = _; step = grpc_sets b e; forced = refl })
grpc-Onward serving b e d = inr (record { next = _; step = grpc_ends no_error b e; forced = d })
grpc-Onward finished b e d = inr (record { next = _; step = grpc_looks b e; forced = refl })
grpc-Onward crashed b e d = inr (record { next = _; step = grpc_falls b e; forced = refl })
grpc-Onward reporting b e d = inr (record { next = _; step = grpc_sends b e; forced = refl })
grpc-Onward ended b e d = inl (rw e refl)

-- Step 6 of Shutdown waits for the serve loops.
join-Onward : (b : Broker) → Ordered b → b.shutdown ≡ 6 → Onward b
unfolding is_forced
join-Onward b o h = elim (http-Onward b.http_loop b refl o.http_plain (o.http_down (omega arith))) [
  | inr goes ↦ goes
  | inl http ↦ elim (grpc-Onward b.grpc_loop b refl (o.unbound (omega arith)).1) [
    | inr goes ↦ goes
    | inl grpc ↦ record { next = _; step = joins_loops b h http grpc; forced = refl }
  ]
]

-- Step 3 waits for the retention worker.
worker-Onward : (w : Worker) (b : Broker) → b.worker ≡ w → Ordered b → b.shutdown ≡ 3 → Onward b
unfolding is_forced is_gone
worker-Onward no_worker b e o h = record {
  next = _;
  step = joins_worker b h (rw e refl);
  forced = refl;
}
worker-Onward running b e o h = record {
  next = _;
  step = worker_stops b e (o.context (omega arith));
  forced = refl;
}
worker-Onward exited b e o h = record {
  next = _;
  step = joins_worker b h (rw e refl);
  forced = refl;
}

shutdown-Onward : (n : ℕ) (b : Broker) → b.shutdown ≡ suc n → Ordered b → (b.done ≡ true) ⊎ Onward b
unfolding is_forced
shutdown-Onward zero b e o = inr (record { next = _; step = shuts_ready b e; forced = refl })
shutdown-Onward (suc zero) b e o =
    inr (record { next = _; step = shuts_maintenance b e; forced = refl })
shutdown-Onward (suc (suc zero)) b e o = inr (worker-Onward b.worker b refl o e)
shutdown-Onward (suc (suc (suc zero))) b e o =
    inr (record { next = _; step = shuts_grpc true b e; forced = refl })
shutdown-Onward (suc (suc (suc (suc zero)))) b e o =
    inr (record { next = _; step = shuts_http b e; forced = refl })
shutdown-Onward (suc (suc (suc (suc (suc zero))))) b e o = inr (join-Onward b o e)
shutdown-Onward (suc (suc (suc (suc (suc (suc zero)))))) b e o =
    inr (record { next = _; step = closes_offsets b e; forced = refl })
shutdown-Onward (suc (suc (suc (suc (suc (suc (suc zero))))))) b e o =
    inr (record { next = _; step = closes_topics b e; forced = refl })
shutdown-Onward (suc (suc (suc (suc (suc (suc (suc (suc zero)))))))) b e o =
    inr (record { next = _; step = closes_done b e; forced = refl })
shutdown-Onward (suc (suc (suc (suc (suc (suc (suc (suc (suc n))))))))) b e o =
    inl (o.at_end (omega arith))

-- The monitor, on an error or on its way to Shutdown.
monitor-Onward :
    (m : Monitor) (b : Broker)
    → b.monitor ≡ m
    → Watched b
    → b.start ≡ returned
    → b.stopped ≡ false
    → (0 < b.errors) ⊎ ((b.monitor ≡ woken) ⊎ (b.monitor ≡ stopping))
    → Onward b
unfolding is_forced has_watch
monitor-Onward no_monitor b e w s n why = let seen = w.watched s in absurd (ground arith)
monitor-Onward waiting b e w s n why =
    let pending : 0 < b.errors = ground arith in
    record { next = _; step = monitor_wakes b e pending; forced = refl }
monitor-Onward woken b e w s n why = record { next = _; step = monitor_looks b e; forced = refl }
monitor-Onward stopping b e w s n why = record {
  next = _;
  step = monitor_shuts b e;
  forced = rw n refl;
}
monitor-Onward over b e w s n why = let stopped = w.left e in absurd (ground arith)

start-Onward :
    (s : Start) (b : Broker)
    → b.start ≡ s
    → Ordered b
    → Watched b
    → b.stopped ≡ false
    → Noticed b
    → Onward b
unfolding is_forced has_launched has_watch
start-Onward idle b e o w n why = let l = w.launched_loops (rw e refl) in absurd (ground arith)
start-Onward binding_http b e o w n why =
    let l = w.launched_loops (rw e refl) in absurd (ground arith)
start-Onward binding_grpc b e o w n why =
    let l = w.launched_loops (rw e refl) in absurd (ground arith)
start-Onward bound b e o w n why = let l = w.launched_loops (rw e refl) in absurd (ground arith)
start-Onward window b e o w n why =
    let pending : 0 < b.errors = ground arith in
    record { next = _; step = fails b e pending; forced = refl }
start-Onward failing b e o w n why = record { next = _; step = start_shuts b e; forced = rw n refl }
start-Onward returned b e o w n why = monitor-Onward b.monitor b refl w e n (ground arith)

Doomed-Onward : (b : Broker) → Doomed b → (b.done ≡ true) ⊎ Onward b
Doomed-Onward b d = elim (Bool-cases b.stopped) [
  | inr runs ↦ inr (start-Onward b.start b refl d.ordered d.watched runs d.noticed)
  | inl stopped ↦
      shutdown-Onward (b.shutdown - 1) b (omega (arith, d.ordered.counted stopped)) d.ordered
]

Doomed-Inevitable : (n : ℕ) (b : Broker) → Doomed b → distance b ≤ n → Inevitable b
Doomed-Inevitable zero b d le = elim (Doomed-Onward b d) [
  | inl done ↦ arrived b done
  | inr goes ↦ absurd (omega (arith, forced-falls b goes.next goes.step goes.forced d))
]
Doomed-Inevitable (suc n) b d le = elim (Doomed-Onward b d) [
  | inl done ↦ arrived b done
  | inr goes ↦
      onward b goes
        (Doomed-Inevitable n goes.next (Step-Doomed b goes.next goes.step d)
          (omega (arith, forced-falls b goes.next goes.step goes.forced d)))
        (λ c s changed. elim (Step-falls b c s d) [
          | inl same ↦ absurd (changed same)
          | inr nearer ↦ Doomed-Inevitable n c (Step-Doomed b c s d) (omega arith)
        ])
]

-- A shutdown does not get stuck, and a crash is followed by one. From every state that a broker reaches
-- in which Shutdown has begun or a serve loop has ended, doneCh is closed in the end, whatever the
-- order of the steps: until it is closed some goroutine can take a step that is forced, and only
-- finitely many steps change the state before. Forced are the steps that nothing from outside has to
-- cause; the Serve of a library's server returns by force only once that server is down, and the
-- Shutdown calls of the two servers and the round of the retention worker return.
pub Reachable-Inevitable :
    (b : Broker)
    → Reachable b
    → (b.stopped ≡ true) ⊎ ((b.http_loop ≡ ended) ⊎ (b.grpc_loop ≡ ended))
    → Inevitable b
Reachable-Inevitable b r why =
    let o = Reachable-Ordered b r in
    let w = Reachable-Watched b r in
    let noticed : Noticed b = elim why [
      | inl stopped ↦ inl stopped
      | inr (inl http) ↦ w.http_noticed http
      | inr (inr grpc) ↦ w.grpc_noticed grpc
    ] in
    Doomed-Inevitable (distance b) b (record { ordered = o; watched = w; noticed = noticed })
      (omega arith)
