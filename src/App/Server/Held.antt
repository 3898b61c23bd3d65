-- ===== src/App/Server/Held.antt =====
-- What the limiter counts: the connections that are held.
use garcon.Prelude.{
  if◌then◌else◌, ℕ, ◌+◌, ◌-◌, ◌≤◌, ◌≡◌, ◌≢◌, refl, ◌∙◌, Bool, true, false, List, [], ◌∷◌, ◌++◌,
  length, length-append, arith,
}
use garcon.Text.{Bytes}
use garcon.Text.Search.{equal_iff}
use garcon.App.Limiter.{Limiter, try_acquire, release}
use garcon.App.Limiter.Counts.{
  IsValid, count, one_at, try_acquire-Acquired, release-Released, try_acquire_nil, release_nil,
}
use garcon.App.Queue.{QueuePushResult, queued, WorkQueue, try_push}
use garcon.App.Server.{
  Socket, Acceptor, accepting, admitted, not_queued, stopped, Server, admit, max_connections_per_ip,
}

-- How many of the sockets come from this address.
unfoldable pub tally : Bytes → List Socket → ℕ
tally j [] = 0
tally j (socket ∷ sockets) = one_at socket.peer_address j + tally j sockets

abbrev pub in_hand : Acceptor → List Socket
in_hand accepting = []
in_hand (admitted socket) = socket ∷ []
in_hand (not_queued socket r) = socket ∷ []
in_hand stopped = []

-- The connections of an address that the server holds: accepted, queued, or with a worker.
unfoldable pub held : Server → Bytes → ℕ
held s j = tally j (in_hand s.acceptor) + tally j s.queue.sockets + tally j s.active

pub record Inv (s : Server) : Type 0 where
  pub limiter_valid : IsValid s.limiter
  pub limit : s.limiter.per_ip_limit ≡ max_connections_per_ip
  pub exact : (j : Bytes) → j ≢ [] → count s.limiter j ≡ held s j
  pub queue_bounded : length s.queue.sockets ≤ s.queue.capacity

pub tally-append : (j : Bytes) (a b : List Socket) → tally j (a ++ b) ≡ tally j a + tally j b
unfolding tally
tally-append j [] b = omega arith
tally-append j (s ∷ a) b = omega (arith, tally-append j a b)

one_at_nil : (j : Bytes) → j ≢ [] → one_at [] j ≡ 0
one_at_nil [] h = absurd (h refl)
one_at_nil (c ∷ j) h = ground (arith, equal_iff [] (c ∷ j))

-- What admission does to the counts of real addresses, whatever the socket's address.
pub record Admits (l : Limiter) (k : Bytes) (r : Limiter × Bool) : Type 0 where
  pub valid : IsValid r.0
  pub same_limit : r.0.per_ip_limit ≡ l.per_ip_limit
  pub counts : (j : Bytes) → j ≢ [] → count r.0 j ≡ count l j + (if r.1 then one_at k j else 0)

pub try_acquire-Admits : (l : Limiter) (k : Bytes) → IsValid l → Admits l k (try_acquire l k)
try_acquire-Admits l [] v =
    rw (try_acquire_nil l)
      (record { valid = v; same_limit = refl; counts = λ j h. omega (arith, one_at_nil j h) })
try_acquire-Admits l (c ∷ k) v =
    let a = try_acquire-Acquired l (c ∷ k) v (λ e. cc) in
    record { valid = a.valid; same_limit = a.same_limit; counts = λ j h. a.counts j }

pub record Frees (l : Limiter) (k : Bytes) (l' : Limiter) : Type 0 where
  pub valid : IsValid l'
  pub same_limit : l'.per_ip_limit ≡ l.per_ip_limit
  pub counts : (j : Bytes) → j ≢ [] → count l' j ≡ count l j - one_at k j

pub release-Frees : (l : Limiter) (k : Bytes) → IsValid l → Frees l k (release l k)
release-Frees l [] v =
    rw (release_nil l)
      (record { valid = v; same_limit = refl; counts = λ j h. omega (arith, one_at_nil j h) })
release-Frees l (c ∷ k) v =
    let a = release-Released l (c ∷ k) v (λ e. cc) in
    record { valid = a.valid; same_limit = a.same_limit; counts = λ j h. a.counts j }

pub admit-Inv :
    (s : Server) (socket : Socket) (r : Limiter × Bool)
    → s.acceptor ≡ accepting
    → Admits s.limiter socket.peer_address r
    → Inv s
    → Inv (admit s socket r)
unfolding admit held tally
admit-Inv s socket (l, true) e a v = record {
  limiter_valid = a.valid;
  limit = a.same_limit ∙ v.limit;
  exact = λ j h. ground (arith, a.counts j h, v.exact j h, e);
  queue_bounded = v.queue_bounded;
}
admit-Inv s socket (l, false) e a v = record {
  limiter_valid = a.valid;
  limit = a.same_limit ∙ v.limit;
  exact = λ j h. ground (arith, a.counts j h, v.exact j h, e);
  queue_bounded = v.queue_bounded;
}

-- `try_push` adds the socket exactly when it says so, within the capacity.
pub record Pushes (q : WorkQueue Socket) (socket : Socket) (r : WorkQueue Socket × QueuePushResult)
    : Type 0 where
  pub took : r.1 ≡ queued → r.0.sockets ≡ q.sockets ++ (socket ∷ [])
  pub refused : r.1 ≢ queued → r.0.sockets ≡ q.sockets
  pub bounded : length q.sockets ≤ q.capacity → length r.0.sockets ≤ r.0.capacity

pub try_push-Pushes : (q : WorkQueue Socket) (socket : Socket) → Pushes q socket (try_push socket q)
unfolding try_push
try_push-Pushes q socket = record {
  took = λ e. ground arith;
  refused = λ e. ground arith;
  bounded = λ h. ground (arith, length-append q.sockets (socket ∷ []));
}
