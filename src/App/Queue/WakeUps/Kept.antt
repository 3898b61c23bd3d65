-- ===== src/App/Queue/WakeUps/Kept.antt =====
-- What sleeping threads can rely on, and the calls and notifications that keep it.
use garcon.Prelude.{
  ap, ℕ, zero, suc, ◌+◌, ◌≤◌, ◌<◌, ◌≡◌, refl, false, inl, inr, Option, [], ◌∷◌, length,
  length-append, arith,
}
use garcon.App.Queue.{QueuePushResult, queued, full, closed, WorkQueue, Call}
use garcon.App.Queue.WakeUps.{
  Threads, after_push, after_try_push, after_pop, notify_not_empty, notify_not_full,
}
use garcon.App.Queue.WakeUps.Calls.{
  Pushed, took, refused, must_wait, Tried, tried, not_tried, Popped, got, got_none, must_sleep,
}

module _ {A : Type 0} where
  -- But for `c` sockets and `p` places: while a consumer sleeps, the queue is open and for each
  -- socket in it a consumer is woken or a notification is due; while a producer sleeps, the queue is
  -- open and the same is so of each free place in it.
  pub record AwakeBut (c p : ℕ) (t : Threads A) : Type 0 where
    pub room : 0 < t.queue.capacity
    pub consumers :
        0 < t.consumers_asleep
        → (t.queue.is_closed ≡ false)
          × (length t.queue.sockets ≤ c + (t.consumers_woken + t.not_empty_due))
    pub producers :
        0 < t.producers_asleep
        → (t.queue.is_closed ≡ false)
          × (t.queue.capacity ≤ p + (length t.queue.sockets + (t.producers_woken + t.not_full_due)))

  abbrev pub IsAwake : Threads A → Type 0
  IsAwake t = AwakeBut 0 0 t

  pub IsAwake-push :
      (t : Threads A) (socket : A) (r : WorkQueue A × Call QueuePushResult)
      → AwakeBut 0 1 t
      → Pushed t.queue socket r
      → IsAwake (after_push t r)
  unfolding after_push
  IsAwake-push t socket _ a (took o) =
      let longer = length-append t.queue.sockets (socket ∷ []) in
      record {
        room = a.room;
        consumers = λ h. (o, omega (arith, (a.consumers h).1, longer));
        producers = λ h. (o, omega (arith, (a.producers h).1, longer));
      }
  IsAwake-push t socket _ a (refused (inl c)) = record {
    room = a.room;
    consumers = a.consumers;
    producers = λ h. absurd (let k = (a.producers h).0 in cc);
  }
  IsAwake-push t socket _ a (refused (inr l)) = record {
    room = a.room;
    consumers = a.consumers;
    producers = λ h. ((a.producers h).0, omega arith);
  }
  IsAwake-push t socket _ a (must_wait o l) = record {
    room = a.room;
    consumers = a.consumers;
    producers = λ h. (o, omega arith);
  }

  pub IsAwake-try_push :
      (t : Threads A) (socket : A) (r : WorkQueue A × QueuePushResult)
      → IsAwake t
      → Tried t.queue socket r
      → IsAwake (after_try_push t r)
  unfolding after_try_push
  IsAwake-try_push t socket _ a tried =
      let longer = length-append t.queue.sockets (socket ∷ []) in
      record {
        room = a.room;
        consumers = λ h. ((a.consumers h).0, omega (arith, (a.consumers h).1, longer));
        producers = λ h. ((a.producers h).0, omega (arith, (a.producers h).1, longer));
      }
  IsAwake-try_push t socket _ a (not_tried queued n) = absurd (n refl)
  IsAwake-try_push t socket _ a (not_tried full n) = record {
    room = a.room;
    consumers = a.consumers;
    producers = a.producers;
  }
  IsAwake-try_push t socket _ a (not_tried closed n) = record {
    room = a.room;
    consumers = a.consumers;
    producers = a.producers;
  }

  pub IsAwake-pop :
      (t : Threads A) (r : WorkQueue A × Call (Option A))
      → AwakeBut 1 0 t
      → Popped t.queue r
      → IsAwake (after_pop t r)
  unfolding after_pop
  IsAwake-pop t _ a (got socket rest e) =
      let one : length t.queue.sockets ≡ suc (length rest) = ap length e in
      record {
        room = a.room;
        consumers = λ h. ((a.consumers h).0, omega (arith, (a.consumers h).1, one));
        producers = λ h. ((a.producers h).0, omega (arith, (a.producers h).1, one));
      }
  IsAwake-pop t _ a (got_none e) =
      let nil : length t.queue.sockets ≡ 0 = ap length e in
      record {
        room = a.room;
        consumers = λ h. ((a.consumers h).0, omega arith);
        producers = a.producers;
      }
  IsAwake-pop t _ a (must_sleep o e) =
      let nil : length t.queue.sockets ≡ 0 = ap length e in
      record { room = a.room; consumers = λ h. (o, omega arith); producers = a.producers }

  pub IsAwake-notify_not_empty : (t : Threads A) → AwakeBut 1 0 t → IsAwake (notify_not_empty t)
  unfolding notify_not_empty
  IsAwake-notify_not_empty t a = go t.consumers_asleep refl
    where
      go : (n : ℕ) → t.consumers_asleep ≡ n → IsAwake (notify_not_empty t)
      go zero e =
          rw e (record {
            room = a.room;
            consumers = λ h. absurd (omega arith);
            producers = a.producers;
          })
      go (suc n) e =
          let k = a.consumers (omega arith) in
          rw e (record {
            room = a.room;
            consumers = λ h. (k.0, omega (arith, k.1));
            producers = a.producers;
          })

  pub IsAwake-notify_not_full : (t : Threads A) → AwakeBut 0 1 t → IsAwake (notify_not_full t)
  unfolding notify_not_full
  IsAwake-notify_not_full t a = go t.producers_asleep refl
    where
      go : (n : ℕ) → t.producers_asleep ≡ n → IsAwake (notify_not_full t)
      go zero e =
          rw e (record {
            room = a.room;
            consumers = a.consumers;
            producers = λ h. absurd (omega arith);
          })
      go (suc n) e =
          let k = a.producers (omega arith) in
          rw e (record {
            room = a.room;
            consumers = a.consumers;
            producers = λ h. (k.0, omega (arith, k.1));
          })

  pub weaker_c : (t : Threads A) → IsAwake t → AwakeBut 1 0 t
  weaker_c t a = record {
    room = a.room;
    consumers = λ h. ((a.consumers h).0, omega (arith, (a.consumers h).1));
    producers = a.producers;
  }

  pub weaker_p : (t : Threads A) → IsAwake t → AwakeBut 0 1 t
  weaker_p t a = record {
    room = a.room;
    consumers = a.consumers;
    producers = λ h. ((a.producers h).0, omega (arith, (a.producers h).1));
  }
