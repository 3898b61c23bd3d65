-- ===== src/App/Queue/WakeUps/Tests.antt =====
-- A consumer sleeps on an empty queue, a producer comes, and the consumer is notified.
use garcon.Prelude.{ℕ, ◌≡◌, refl, false, [], ok, ◌+◌, ◌<◌, ◌≤◌, length}
use garcon.App.Queue.{WorkQueue, make_queue, push, pop}
use garcon.App.Queue.WakeUps.{
  Threads, with_queue, after_push, after_pop, notify_not_empty, pushes, pops, notifies_not_empty,
  Reaches, start, then_step,
}
use garcon.App.Queue.WakeUps.Kept.{IsAwake}
use garcon.App.Queue.WakeUps.Awake.{wakeups_kept}

abbrev empty_queue : WorkQueue ℕ
empty_queue = record { capacity = 1; sockets = []; is_closed = false }

made : make_queue 1 ≡ ok empty_queue
unfolding make_queue
made = refl

abbrev asleep : Threads ℕ
asleep = after_pop (with_queue empty_queue) (pop false empty_queue)

abbrev after_socket : Threads ℕ
after_socket = after_push asleep (push false 7 asleep.queue)

abbrev woken : Threads ℕ
woken = notify_not_empty (record after_socket { not_empty_due = 0 })

due_once : after_socket.not_empty_due ≡ 1
unfolding after_push after_pop with_queue push pop
due_once = refl

consumer_woken : woken.consumers_woken ≡ 1
unfolding notify_not_empty after_push after_pop with_queue push pop
consumer_woken = refl

woken-Reaches : Reaches (with_queue empty_queue) woken
unfolding with_queue
woken-Reaches =
    then_step (then_step (then_step start (pops false)) (pushes false 7))
      (notifies_not_empty 0 due_once)

wakeups_kept_example :
    IsAwake woken
    × (woken.consumers_woken + woken.not_empty_due ≡ 0
        → 0 < woken.consumers_asleep
        → (woken.queue.sockets ≡ []) × (woken.queue.is_closed ≡ false))
    × (woken.producers_woken + woken.not_full_due ≡ 0
        → 0 < woken.producers_asleep
        → (woken.queue.capacity ≤ length woken.queue.sockets) × (woken.queue.is_closed ≡ false))
    × (woken.consumers_woken + woken.not_empty_due ≡ 0
        → woken.producers_woken + woken.not_full_due ≡ 0
        → 0 < woken.consumers_asleep
        → 0 < woken.producers_asleep
        → ⊥)
wakeups_kept_example = wakeups_kept 1 empty_queue made woken woken-Reaches
