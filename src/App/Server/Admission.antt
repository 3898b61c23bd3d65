-- ===== src/App/Server/Admission.antt =====
-- The limiter's counts are the connections that are open.
use garcon.Net.Listener.{AcceptError}
use garcon.Prelude.{
  Bool-cases, inl, inr, ℕ, ◌≤◌, ◌≡◌, ◌≢◌, refl, ap, ◌∙◌, Bool, List, [], ◌∷◌, ◌++◌, length, arith,
}
use garcon.Text.{Bytes}
use garcon.App.Limiter.{try_acquire, release}
use garcon.App.Limiter.Counts.{count, count-le-limit, count_empty}
use garcon.App.Queue.{QueuePushResult, queued, full, closed, WorkQueue, try_push, pop, close}
use garcon.App.Server.{
  Socket, accepting, admitted, not_queued, handle_accept_result, accept_fails, Server, enqueue,
  give_back, take_up, Step, accepts, tries_push, gives_back, worker_pops, worker_ends, closes,
  Reach, start, then_step, initial, max_connections_per_ip,
}
use garcon.App.Server.Held.{
  tally, held, Inv, tally-append, try_acquire-Admits, release-Frees, admit-Inv, Pushes,
  try_push-Pushes,
}

enqueue-Inv :
    (s : Server) (socket : Socket) (r : WorkQueue Socket × QueuePushResult)
    → s.acceptor ≡ admitted socket
    → Pushes s.queue socket r
    → Inv s
    → Inv (enqueue s socket r)
unfolding enqueue held tally
enqueue-Inv s socket (q, queued) e p v = record {
  limiter_valid = v.limiter_valid;
  limit = v.limit;
  exact = λ j h. ground (
    arith,
    v.exact j h,
    ap (tally j) (p.took refl),
    tally-append j s.queue.sockets (socket ∷ []),
  );
  queue_bounded = p.bounded v.queue_bounded;
}
enqueue-Inv s socket (q, full) e p v = record {
  limiter_valid = v.limiter_valid;
  limit = v.limit;
  exact = λ j h. ground (arith, v.exact j h, ap (tally j) (p.refused (λ x. cc)));
  queue_bounded = p.bounded v.queue_bounded;
}
enqueue-Inv s socket (q, closed) e p v = record {
  limiter_valid = v.limiter_valid;
  limit = v.limit;
  exact = λ j h. ground (arith, v.exact j h, ap (tally j) (p.refused (λ x. cc)));
  queue_bounded = p.bounded v.queue_bounded;
}

give_back-Inv :
    (s : Server) (socket : Socket) (r : QueuePushResult)
    → s.acceptor ≡ not_queued socket r
    → Inv s
    → Inv (give_back s socket r)
unfolding give_back held tally
give_back-Inv s socket r e v =
    let f = release-Frees s.limiter socket.peer_address v.limiter_valid in
    record {
      limiter_valid = f.valid;
      limit = f.same_limit ∙ v.limit;
      exact = λ j h. ground (arith, f.counts j h, v.exact j h, e);
      queue_bounded = v.queue_bounded;
    }

take_up-Inv : (s : Server) (stop : Bool) → Inv s → Inv (take_up s (pop stop s.queue))
unfolding take_up pop held tally
take_up-Inv s stop v = record {
  limiter_valid = ground (arith, v.limiter_valid);
  limit = ground (arith, v.limit);
  exact = λ j h. ground (arith, v.exact j h);
  queue_bounded = ground arith;
}

worker_ends-Inv :
    (s : Server) (before : List Socket) (socket : Socket) (after : List Socket)
    → s.active ≡ before ++ (socket ∷ after)
    → Inv s
    → Inv (record s { limiter = release s.limiter socket.peer_address; active = before ++ after })
unfolding held tally
worker_ends-Inv s before socket after e v =
    let f = release-Frees s.limiter socket.peer_address v.limiter_valid in
    record {
      limiter_valid = f.valid;
      limit = f.same_limit ∙ v.limit;
      exact = λ j h. ground (
        arith,
        f.counts j h,
        v.exact j h,
        ap (tally j) e,
        tally-append j before (socket ∷ after),
        tally-append j before after,
      );
      queue_bounded = v.queue_bounded;
    }

closes-Inv : (s : Server) → Inv s → Inv (record s { queue = close s.queue })
unfolding held close
closes-Inv s v = record {
  limiter_valid = v.limiter_valid;
  limit = v.limit;
  exact = v.exact;
  queue_bounded = v.queue_bounded;
}

handle_accept_result-Inv :
    (s : Server) (error : AcceptError)
    → s.acceptor ≡ accepting
    → Inv s
    → Inv (handle_accept_result s error)
unfolding handle_accept_result held
handle_accept_result-Inv s error e v = elim (Bool-cases error.fatal) [
  | inl f ↦ rw f (record {
    limiter_valid = v.limiter_valid;
    limit = v.limit;
    exact = λ j h. rw e at (v.exact j h);
    queue_bounded = v.queue_bounded;
  })
  | inr f ↦ rw f v
]

Step-Inv : {s t : Server} → Step s t → Inv s → Inv t
Step-Inv {s} (accepts socket e) v =
    admit-Inv s socket (try_acquire s.limiter socket.peer_address) e
      (try_acquire-Admits s.limiter socket.peer_address v.limiter_valid) v
Step-Inv {s} (accept_fails error e) v = handle_accept_result-Inv s error e v
Step-Inv {s} (tries_push socket e) v =
    enqueue-Inv s socket (try_push socket s.queue) e (try_push-Pushes s.queue socket) v
Step-Inv {s} (gives_back socket r e) v = give_back-Inv s socket r e v
Step-Inv {s} (worker_pops stop) v = take_up-Inv s stop v
Step-Inv {s} (worker_ends before socket after e) v = worker_ends-Inv s before socket after e v
Step-Inv {s} closes v = closes-Inv s v

initial-Inv : (capacity : ℕ) → Inv (initial capacity)
unfolding initial held tally
initial-Inv capacity = record {
  limiter_valid = record { limit_positive = omega arith; entries = tt };
  limit = refl;
  exact = λ j h. count_empty max_connections_per_ip j;
  queue_bounded = omega arith;
}

Reach-Inv : {s t : Server} → Inv s → Reach s t → Inv t
Reach-Inv v start = v
Reach-Inv v (then_step r st) = Step-Inv st (Reach-Inv v r)

-- However the steps of the accept loop and of the workers interleave: for every address that is
-- not empty the limiter's count is the number of its connections that are being admitted, queued
-- or handled, so that no admission is lost or released twice; these are at most eight; and the
-- queue holds at most its capacity.
pub Reach-admission :
    (capacity : ℕ) (s : Server) (address : Bytes)
    → Reach (initial capacity) s
    → address ≢ []
    → (count s.limiter address ≡ held s address)
      × (held s address ≤ max_connections_per_ip)
      × (length s.queue.sockets ≤ s.queue.capacity)
Reach-admission capacity s address r h =
    let v = Reach-Inv (initial-Inv capacity) r in
    (
      v.exact address h,
      omega (arith, v.exact address h, v.limit, count-le-limit s.limiter address v.limiter_valid),
      v.queue_bounded,
    )
