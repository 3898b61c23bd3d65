-- ===== src/App/Server.antt =====
-- server.cpp: the accept loop, the worker pool of worker_pool.cpp, and the connection limiter and
-- the queue that they share. Each critical section of one thread is a step, so that the steps of the
-- accept loop and of the workers interleave as the threads do.
pub mod Held
pub mod Admission
mod Tests
use Prim.Native.String.{String}
use garcon.Prelude.{
  ℕ, ◌≡◌, ◌≢◌, Bool, true, false, Option, none, some, List, [], ◌∷◌, ◌++◌, if◌then◌else◌,
}
use garcon.Text.{Bytes}
use garcon.Net.Listener.{AcceptError}
use garcon.App.Limiter.{Limiter, try_acquire, release}
use garcon.App.Queue.{
  QueuePushResult, queued, full, closed, WorkQueue, Call, returns, try_push, pop, close,
}

-- socket.h
pub record Socket : Type 0 where
  pub fd : ℕ
  pub peer_address : Bytes

-- config.h
abbrev pub max_connections_per_ip : ℕ
max_connections_per_ip = 8

-- Where the accept loop stands with the socket that it accepted.
pub data Acceptor : Type 0 where
  accepting : Acceptor
  admitted : Socket → Acceptor
  not_queued : Socket → QueuePushResult → Acceptor
  -- A fatal error of `accept` was thrown out of the loop.
  stopped : Acceptor

-- `on_connection_rejected`
pub data Rejection : Type 0 where
  limit_exceeded : Bytes → Rejection
  queue_full queue_closed : Rejection

pub record Server : Type 0 where
  pub limiter : Limiter
  pub queue : WorkQueue Socket
  pub acceptor : Acceptor
  -- The sockets that workers have taken and whose release guards still stand.
  pub active : List Socket
  pub rejections : List Rejection

-- `handle_accept_result`: the loop is left on a fatal error, and goes on after a pause on others.
pub handle_accept_result : Server → AcceptError → Server
handle_accept_result s error = if error.fatal then record s { acceptor = stopped } else s

-- Behind `try_acquire` in `accept_loop`.
pub admit : Server → Socket → Limiter × Bool → Server
admit s socket (l, true) = record s { limiter = l; acceptor = admitted socket }
admit s socket (l, false) = record s {
  limiter = l;
  rejections = s.rejections ++ limit_exceeded socket.peer_address ∷ [];
}

-- Behind `try_push`.
pub enqueue : Server → Socket → WorkQueue Socket × QueuePushResult → Server
enqueue s socket (q, queued) = record s { queue = q; acceptor = accepting }
enqueue s socket (q, full) = record s { queue = q; acceptor = not_queued socket full }
enqueue s socket (q, closed) = record s { queue = q; acceptor = not_queued socket closed }

-- `handle_queue_result`
pub handle_queue_result : QueuePushResult → List Rejection
handle_queue_result queued = []
handle_queue_result full = queue_full ∷ []
handle_queue_result closed = queue_closed ∷ []

-- The release of a socket that was not queued.
pub give_back : Server → Socket → QueuePushResult → Server
give_back s socket r = record s {
  limiter = release s.limiter socket.peer_address;
  acceptor = accepting;
  rejections = s.rejections ++ handle_queue_result r;
}

-- Behind `pop` in `run_worker`: the handler is called, or the worker ends.
pub take_up : Server → WorkQueue Socket × Call (Option Socket) → Server
take_up s (q, returns (some socket)) = record s { queue = q; active = socket ∷ s.active }
take_up s (q, r) = record s { queue = q }

pub data Step (s : Server) : Server → Type 0 where
  accepts :
      (socket : Socket)
      → s.acceptor ≡ accepting
      → Step s (admit s socket (try_acquire s.limiter socket.peer_address))
  accept_fails :
      (error : AcceptError) → s.acceptor ≡ accepting → Step s (handle_accept_result s error)
  tries_push :
      (socket : Socket)
      → s.acceptor ≡ admitted socket
      → Step s (enqueue s socket (try_push socket s.queue))
  gives_back :
      (socket : Socket) (r : QueuePushResult)
      → s.acceptor ≡ not_queued socket r
      → Step s (give_back s socket r)
  worker_pops : (stop : Bool) → Step s (take_up s (pop stop s.queue))
  -- The handler returns or throws; `ip_limit_release_guard` releases either way.
  worker_ends :
      (before : List Socket) (socket : Socket) (after : List Socket)
      → s.active ≡ before ++ (socket ∷ after)
      → Step s
          (record s { limiter = release s.limiter socket.peer_address; active = before ++ after })
  closes : Step s (record s { queue = close s.queue })

pub data Reach (s : Server) : Server → Type 0 where
  start : Reach s s
  then_step : {t u : Server} → Reach s t → Step t u → Reach s u

-- `server` and `run`, once the queue and the workers are set up.
pub initial : ℕ → Server
initial capacity = record {
  limiter = record { per_ip_limit = max_connections_per_ip; inflight_by_ip = [] };
  queue = record { capacity = capacity; sockets = []; is_closed = false };
  acceptor = accepting;
  active = [];
  rejections = [];
}
