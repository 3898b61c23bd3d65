-- ===== src/App/Server/Tests.antt =====
-- A connection that is accepted, queued and taken by a worker.
use garcon.Prelude.{false, ◌≡◌, ◌≤◌, refl, length}
use garcon.Text.{bytes, equal}
use garcon.Text.Map.{find, put}
use garcon.App.Limiter.{try_acquire}
use garcon.App.Queue.{try_push, pop}
use garcon.App.Limiter.Counts.{count}
use garcon.App.Server.{
  Socket, Server, Reach, start, then_step, accepts, tries_push, worker_pops, initial, admit,
  enqueue, take_up, max_connections_per_ip, accepting,
}
use garcon.App.Server.Held.{held}
use garcon.App.Server.Admission.{Reach-admission}

abbrev client : Socket
client = record { fd = 4; peer_address = bytes "::1" }

abbrev accepted : Server
accepted = admit (initial 2) client (try_acquire (initial 2).limiter client.peer_address)

abbrev in_queue : Server
in_queue = enqueue accepted client (try_push client accepted.queue)

abbrev taken : Server
taken = take_up in_queue (pop false in_queue.queue)

initial-accepts : (initial 2).acceptor ≡ accepting
unfolding initial
initial-accepts = refl

Reach-taken : Reach (initial 2) taken
unfolding initial admit try_acquire find put equal
Reach-taken =
    then_step
      (then_step (then_step start (accepts client initial-accepts)) (tries_push client refl))
      (worker_pops false)

Reach-admission_example :
    (count taken.limiter (bytes "::1") ≡ held taken (bytes "::1"))
    × (held taken (bytes "::1") ≤ max_connections_per_ip)
    × (length taken.queue.sockets ≤ taken.queue.capacity)
Reach-admission_example = Reach-admission 2 taken (bytes "::1") Reach-taken (λ e. cc)
