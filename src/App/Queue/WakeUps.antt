-- ===== src/App/Queue/WakeUps.antt =====
-- work_queue.cpp: the condition variables `_not_empty` and `_not_full`. Of the threads in `push` and
-- `pop` it is counted how many sleep and how many are woken but have not got the mutex back; of the
-- calls that have let the mutex go it is counted how many have their `notify_one` before them. The
-- sockets of the waiting producers are left out: a woken producer comes back with any socket.
pub mod Calls
pub mod Kept
pub mod Awake
mod Tests
use garcon.Prelude.{
  ℕ, zero, suc, ◌+◌, ◌≤◌, ◌<◌, ◌≡◌, refl, ap, sym, Bool, true, false, Bool-cases, inl, inr, ◌||◌,
  Option, none, some, List, [], ◌∷◌, length, length-append, is_empty, not, ltb, arith, ok, ◌==◌,
}
use garcon.App.Queue.{
  QueuePushResult, queued, full, closed, WorkQueue, Call, returns, waits, make_queue, push,
  try_push, pop, close,
}

pub record Threads (A : Type 0) : Type 0 where
  pub queue : WorkQueue A
  pub producers_asleep : ℕ
  pub producers_woken : ℕ
  pub consumers_asleep : ℕ
  pub consumers_woken : ℕ
  -- Calls of `notify_one` that are still to be made.
  pub not_full_due : ℕ
  pub not_empty_due : ℕ

module _ {A : Type 0} where
  pub with_queue : WorkQueue A → Threads A
  with_queue q = record {
    queue = q;
    producers_asleep = 0;
    producers_woken = 0;
    consumers_asleep = 0;
    consumers_woken = 0;
    not_full_due = 0;
    not_empty_due = 0;
  }

  -- A call of `push` up to where it lets the mutex go.
  pub after_push : Threads A → WorkQueue A × Call QueuePushResult → Threads A
  after_push t (q, returns queued) = record t { queue = q; not_empty_due = suc t.not_empty_due }
  after_push t (q, returns full) = record t { queue = q }
  after_push t (q, returns closed) = record t { queue = q }
  after_push t (q, waits) = record t { queue = q; producers_asleep = suc t.producers_asleep }

  pub after_try_push : Threads A → WorkQueue A × QueuePushResult → Threads A
  after_try_push t (q, queued) = record t { queue = q; not_empty_due = suc t.not_empty_due }
  after_try_push t (q, full) = record t { queue = q }
  after_try_push t (q, closed) = record t { queue = q }

  pub after_pop : Threads A → WorkQueue A × Call (Option A) → Threads A
  after_pop t (q, returns (some socket)) = record t { queue = q; not_full_due = suc t.not_full_due }
  after_pop t (q, returns none) = record t { queue = q }
  after_pop t (q, waits) = record t { queue = q; consumers_asleep = suc t.consumers_asleep }

  -- `_not_empty.notify_one()` and `_not_full.notify_one()`
  pub notify_not_empty : Threads A → Threads A
  notify_not_empty t = elim t.consumers_asleep [
    | zero ↦ t
    | suc n ↦ record t { consumers_asleep = n; consumers_woken = suc t.consumers_woken }
  ]

  pub notify_not_full : Threads A → Threads A
  notify_not_full t = elim t.producers_asleep [
    | zero ↦ t
    | suc n ↦ record t { producers_asleep = n; producers_woken = suc t.producers_woken }
  ]

  -- `close` with both calls of `notify_all`, which it makes under the mutex.
  pub close_all : Threads A → Threads A
  close_all t = record t {
    queue = close t.queue;
    producers_asleep = 0;
    producers_woken = t.producers_asleep + t.producers_woken;
    consumers_asleep = 0;
    consumers_woken = t.consumers_asleep + t.consumers_woken;
  }

  -- What any thread may do next. A sleeper also wakes by itself, or since a stop is requested.
  pub data WakeStep (t : Threads A) : Threads A → Type 0 where
    pushes : (stop : Bool) (socket : A) → WakeStep t (after_push t (push stop socket t.queue))
    pushes_again :
        (stop : Bool) (socket : A) (n : ℕ)
        → t.producers_woken ≡ suc n
        → WakeStep t (after_push (record t { producers_woken = n }) (push stop socket t.queue))
    tries : (socket : A) → WakeStep t (after_try_push t (try_push socket t.queue))
    pops : (stop : Bool) → WakeStep t (after_pop t (pop stop t.queue))
    pops_again :
        (stop : Bool) (n : ℕ)
        → t.consumers_woken ≡ suc n
        → WakeStep t (after_pop (record t { consumers_woken = n }) (pop stop t.queue))
    notifies_not_empty :
        (n : ℕ)
        → t.not_empty_due ≡ suc n
        → WakeStep t (notify_not_empty (record t { not_empty_due = n }))
    notifies_not_full :
        (n : ℕ)
        → t.not_full_due ≡ suc n
        → WakeStep t (notify_not_full (record t { not_full_due = n }))
    consumer_wakes : WakeStep t (notify_not_empty t)
    producer_wakes : WakeStep t (notify_not_full t)
    closes_all : WakeStep t (close_all t)

  pub data Reaches (t : Threads A) : Threads A → Type 0 where
    start : Reaches t t
    then_step : {u v : Threads A} → Reaches t u → WakeStep u v → Reaches t v
