-- ===== src/App/Queue.antt =====
-- work_queue.h and work_queue.cpp: the bounded queue between the accept loop and the workers. A
-- method runs under the queue's mutex, so it is one step; a wait on a condition variable gives the
-- mutex up, so a call that waits leaves the queue alone, and is made again when it is woken. Who waits and
-- who is woken is in the child WakeUps.
pub mod History
pub mod WakeUps
mod Tests
use garcon.Prelude.{
  ℕ, Bool, true, false, ◌||◌, not, Option, none, some, List, [], ◌∷◌, ◌++◌, length, is_empty, ltb,
  leb, ◌==◌, if◌then◌else◌, Result, ok, throw_if, ◌>>=◌, ◌>>◌,
}

pub data QueuePushResult : Type 0 where
  queued full closed : QueuePushResult

pub record WorkQueue (A : Type 0) : Type 0 where
  pub capacity : ℕ
  pub sockets : List A
  pub is_closed : Bool

-- What a call comes to: it returns, or it waits.
pub data Call (R : Type 0) : Type 0 where
  returns : R → Call R
  waits : Call R

module _ {A : Type 0} where
  pub make_queue : ℕ → Result (WorkQueue A)
  make_queue capacity = do
    throw_if (capacity == 0) "work_queue capacity must be greater than zero"
    ok (record { capacity = capacity; sockets = []; is_closed = false })

  abbrev pub push_back : WorkQueue A → A → WorkQueue A
  push_back q socket = record q { sockets = q.sockets ++ socket ∷ [] }

  -- The flag says whether the stop token has been triggered.
  pub push : Bool → A → WorkQueue A → WorkQueue A × Call QueuePushResult
  push stop socket q =
      if q.is_closed || ltb (length q.sockets) q.capacity
      then if q.is_closed then (q, returns closed) else (push_back q socket, returns queued)
      else if stop
      then (q, returns closed)
      else (q, waits)

  unfoldable pub try_push : A → WorkQueue A → WorkQueue A × QueuePushResult
  try_push socket q =
      if q.is_closed || leb q.capacity (length q.sockets)
      then (q, if q.is_closed then closed else full)
      else (push_back q socket, queued)

  abbrev pub pop_front : WorkQueue A → List A → WorkQueue A × Call (Option A)
  pop_front q [] = (q, returns none)
  pop_front q (socket ∷ rest) = (record q { sockets = rest }, returns (some socket))

  unfoldable pub pop : Bool → WorkQueue A → WorkQueue A × Call (Option A)
  pop stop q =
      if q.is_closed || not (is_empty q.sockets)
      then pop_front q q.sockets
      else if stop
      then (q, returns none)
      else (q, waits)

  unfoldable pub close : WorkQueue A → WorkQueue A
  close q = record q { is_closed = true }

  pub size : WorkQueue A → ℕ
  size q = length q.sockets
