-- ===== src/App/Queue/WakeUps/Awake.antt =====
-- No wake-up of the work queue is lost.
use garcon.Prelude.{
  ◌==◌, ap, ℕ, zero, suc, ◌+◌, ◌≤◌, ◌<◌, ◌≡◌, refl, false, List, [], ◌∷◌, length, arith, ok,
}
use garcon.App.Queue.{WorkQueue, make_queue, close}
use garcon.App.Queue.WakeUps.{
  Threads, with_queue, close_all, WakeStep, pushes, pushes_again, tries, pops, pops_again,
  notifies_not_empty, notifies_not_full, consumer_wakes, producer_wakes, closes_all, Reaches, start,
  then_step,
}
use garcon.App.Queue.WakeUps.Calls.{push-Pushed, try_push-Tried, pop-Popped}
use garcon.App.Queue.WakeUps.Kept.{
  IsAwake, IsAwake-push, IsAwake-try_push, IsAwake-pop, IsAwake-notify_not_empty,
  IsAwake-notify_not_full, weaker_c, weaker_p,
}

module _ {A : Type 0} where
  WakeStep-IsAwake : {t u : Threads A} → WakeStep t u → IsAwake t → IsAwake u
  unfolding close_all close
  WakeStep-IsAwake {t} (pushes stop socket) a =
      IsAwake-push t socket _ (weaker_p t a) (push-Pushed t.queue stop socket)
  WakeStep-IsAwake {t} (pushes_again stop socket n e) a =
      IsAwake-push (record t { producers_woken = n }) socket _
        (record {
          room = a.room;
          consumers = a.consumers;
          producers = λ h. ((a.producers h).0, omega (arith, (a.producers h).1));
        })
        (push-Pushed t.queue stop socket)
  WakeStep-IsAwake {t} (tries socket) a =
      IsAwake-try_push t socket _ a (try_push-Tried t.queue socket)
  WakeStep-IsAwake {t} (pops stop) a = IsAwake-pop t _ (weaker_c t a) (pop-Popped t.queue stop)
  WakeStep-IsAwake {t} (pops_again stop n e) a =
      IsAwake-pop (record t { consumers_woken = n }) _
        (record {
          room = a.room;
          consumers = λ h. ((a.consumers h).0, omega (arith, (a.consumers h).1));
          producers = a.producers;
        })
        (pop-Popped t.queue stop)
  WakeStep-IsAwake {t} (notifies_not_empty n e) a =
      IsAwake-notify_not_empty (record t { not_empty_due = n })
        (record {
          room = a.room;
          consumers = λ h. ((a.consumers h).0, omega (arith, (a.consumers h).1));
          producers = a.producers;
        })
  WakeStep-IsAwake {t} (notifies_not_full n e) a =
      IsAwake-notify_not_full (record t { not_full_due = n })
        (record {
          room = a.room;
          consumers = a.consumers;
          producers = λ h. ((a.producers h).0, omega (arith, (a.producers h).1));
        })
  WakeStep-IsAwake {t} consumer_wakes a = IsAwake-notify_not_empty t (weaker_c t a)
  WakeStep-IsAwake {t} producer_wakes a = IsAwake-notify_not_full t (weaker_p t a)
  WakeStep-IsAwake {t} closes_all a = record {
    room = a.room;
    consumers = λ h. absurd (omega arith);
    producers = λ h. absurd (omega arith);
  }

  Reaches-IsAwake : {t u : Threads A} → Reaches t u → IsAwake t → IsAwake u
  Reaches-IsAwake start a = a
  Reaches-IsAwake (then_step r s) a = WakeStep-IsAwake s (Reaches-IsAwake r a)

  make_queue_room : (capacity : ℕ) (q : WorkQueue A) → make_queue capacity ≡ ok q → 0 < q.capacity
  unfolding make_queue
  make_queue_room zero q e = absurd cc
  make_queue_room (suc n) q e =
      let made : WorkQueue A = record { capacity = suc n; sockets = []; is_closed = false } in
      let z : (suc n == 0) ≡ false = ground arith in
      let k : ok made ≡ ok q = rw z at e in
      let m : made ≡ q = cc in let c : suc n ≡ q.capacity = ap (λ x. x.capacity) m in omega arith

  length_nil : (xs : List A) → length xs ≤ 0 → xs ≡ []
  length_nil [] h = refl
  length_nil (x ∷ xs) h = absurd (omega arith)

  -- No wake-up is lost. However the threads that call `push`, `try_push`, `pop` and `close` on a new
  -- queue interleave: while a consumer sleeps, the queue is open and holds no more sockets than there
  -- are consumers woken and notifications of `_not_empty` due; while a producer sleeps, the queue is
  -- open and has no more free places than there are producers woken and notifications of `_not_full`
  -- due. So where nobody is woken and no notification is due, a sleeping consumer means an empty
  -- queue, a sleeping producer a full one, and no two of them sleep at once.
  pub wakeups_kept :
      (capacity : ℕ) (q : WorkQueue A)
      → make_queue capacity ≡ ok q
      → (t : Threads A) → Reaches (with_queue q) t
      → IsAwake t
        × (t.consumers_woken + t.not_empty_due ≡ 0
            → 0 < t.consumers_asleep
            → (t.queue.sockets ≡ []) × (t.queue.is_closed ≡ false))
        × (t.producers_woken + t.not_full_due ≡ 0
            → 0 < t.producers_asleep
            → (t.queue.capacity ≤ length t.queue.sockets) × (t.queue.is_closed ≡ false))
        × (t.consumers_woken + t.not_empty_due ≡ 0
            → t.producers_woken + t.not_full_due ≡ 0
            → 0 < t.consumers_asleep
            → 0 < t.producers_asleep
            → ⊥)
  unfolding make_queue with_queue
  wakeups_kept capacity q e t r =
      let begun : IsAwake (with_queue q) = record {
        room = make_queue_room capacity q e;
        consumers = λ h. absurd (omega arith);
        producers = λ h. absurd (omega arith);
      } in
      let a : IsAwake t = Reaches-IsAwake r begun in
      (
        a,
        λ z h. (length_nil t.queue.sockets (omega (arith, (a.consumers h).1)), (a.consumers h).0),
        λ z h. (omega (arith, (a.producers h).1), (a.producers h).0),
        λ z y h k. omega (arith, a.room, (a.consumers h).1, (a.producers k).1),
      )
