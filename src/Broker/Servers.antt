-- ===== src/Broker/Servers.antt =====
-- The two servers, Server of internal/grpcserver/server.go and of internal/httpserver/server.go: what
-- they keep besides the library's servers, which serve and stop.
use distributed_message_brok.Prelude.{ℕ, Bool, true, false, if◌then◌else◌}

-- `listener` says that one is bound, `serving` is the health status of the three services, and `down`
-- that GracefulStop or Stop of the library's server has returned, so that its Serve returns too.
pub record GrpcServer : Type 0 where
  pub listener : Bool
  pub serving : Bool
  pub down : Bool

-- New
unfoldable pub new_grpc : GrpcServer
new_grpc = record { listener = false; serving = false; down = false }

-- Bind, where `listens` is the outcome of net.Listen; whether there was no error.
unfoldable pub bind_grpc : Bool → GrpcServer → GrpcServer × Bool
bind_grpc listens s = if listens then (record s { listener = true }, true) else (s, false)

-- Serve up to its test of the listener, which it reads under the lock: whether there is one.
unfoldable pub begin_serve : GrpcServer → Bool
begin_serve s = s.listener

-- Serve from the log line on up to the call of grpc.Server.Serve.
unfoldable pub mark_serving : GrpcServer → GrpcServer
mark_serving s = record s { serving = true }

unfoldable pub cleanup : GrpcServer → GrpcServer
cleanup s = record s { listener = false }

-- What grpc.Server.Serve returns.
pub data ServeError : Type 0 where
  no_error server_stopped other_error : ServeError

-- Serve from there on: its error, if there is one.
unfoldable pub end_serve : ServeError → GrpcServer → GrpcServer × Bool
unfolding cleanup
end_serve no_error s = (cleanup s, true)
end_serve server_stopped s = (cleanup s, true)
end_serve other_error s = (cleanup s, false)

-- Shutdown; true if GracefulStop was done before the context.
unfoldable pub shut_grpc : Bool → GrpcServer → GrpcServer × Bool
unfolding cleanup
shut_grpc graceful s = (cleanup (record s { serving = false; down = true }), graceful)

-- `listener` stays set when CloseListener closes it. `down` says that Shutdown of the library's server
-- was called, so that its Serve returns.
pub record HttpServer : Type 0 where
  pub listener : Bool
  pub ready : Bool
  pub down : Bool

unfoldable pub new_http : HttpServer
new_http = record { listener = false; ready = false; down = false }

-- Bind
unfoldable pub bind_http : Bool → HttpServer → HttpServer × Bool
bind_http listens s = if listens then (record s { listener = true }, true) else (s, false)

-- Shutdown
unfoldable pub shut_http : HttpServer → HttpServer
shut_http s = record s { down = true }

-- SetReady
unfoldable pub set_ready : Bool → HttpServer → HttpServer
set_ready ready s = record s { ready = ready }

-- The status code of /readyz.
unfoldable pub readyz : HttpServer → ℕ
readyz s = if s.ready then 200 else 503
