-- ===== src/Runs/Lifecycles.antt =====
-- Runs of the broker's life.
use distributed_message_brok.Prelude.{◌≡◌, inl, inr, refl, true}
use distributed_message_brok.Broker.Servers.{new_http, new_grpc, bind_http, bind_grpc, set_ready}
use distributed_message_brok.Broker.Lifecycle.{
  Broker, new_broker, checked, send, ended, enter_start, http_checks, http_reports, http_serve_ends,
  http_serves, http_unready, launch, start_grpc, start_http, window_over,
}
use distributed_message_brok.Broker.Steps.{
  starts, binds_http, binds_grpc, launches, returns, http_begins, http_ends, http_looks, http_falls,
  http_sends, stay, go, Reachable,
}
use distributed_message_brok.Broker.Invariant.{Ordered, Reachable-Ordered}
use distributed_message_brok.Broker.Drain.{Inevitable, Reachable-Inevitable}

abbrev broker1 : Broker
broker1 = enter_start new_broker

abbrev broker2 : Broker
broker2 = start_http true broker1

abbrev broker3 : Broker
broker3 = start_grpc true broker2

abbrev broker4 : Broker
broker4 = launch broker3

abbrev broker5 : Broker
broker5 = window_over broker4

abbrev broker6 : Broker
broker6 = http_serves broker5

abbrev broker7 : Broker
broker7 = http_serve_ends broker6

abbrev broker8 : Broker
broker8 = http_checks broker7

abbrev broker9 : Broker
broker9 = http_unready broker8

abbrev broker10 : Broker
broker10 = http_reports broker9

-- A start, and a crash of the HTTP loop behind it.
http_crashed : Reachable broker10
unfolding new_broker new_http new_grpc bind_http bind_grpc set_ready checked send enter_start
    http_checks http_reports http_serve_ends http_serves http_unready launch start_grpc start_http
    window_over
http_crashed = go new_broker broker1 broker10 (starts new_broker) (
    go broker1 broker2 broker10 (binds_http true broker1 refl) (
      go broker2 broker3 broker10 (binds_grpc true broker2 refl) (
        go broker3 broker4 broker10 (launches broker3 refl) (
          go broker4 broker5 broker10 (returns broker4 refl) (
            go broker5 broker6 broker10 (http_begins broker5 refl) (
              go broker6 broker7 broker10 (http_ends broker6 refl) (
                go broker7 broker8 broker10 (http_looks broker7 refl) (
                  go broker8 broker9 broker10 (http_falls broker8 refl)
                    (go broker9 broker10 broker10 (http_sends broker9 refl) (stay broker10))))))))))

Reachable-Ordered_example : Ordered broker10
Reachable-Ordered_example = Reachable-Ordered broker10 http_crashed

http_ended : broker10.http_loop ≡ ended
unfolding http_reports
http_ended = refl

Reachable-Inevitable_example : Inevitable broker10
Reachable-Inevitable_example = Reachable-Inevitable broker10 http_crashed (inr (inl http_ended))
