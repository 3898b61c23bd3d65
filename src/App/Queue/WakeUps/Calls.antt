-- ===== src/App/Queue/WakeUps/Calls.antt =====
-- What a call of the work queue comes to, by the state of the queue.
use garcon.Prelude.{
  sym, ◌⊎◌, ◌||◌, if◌then◌else◌, ◌≤◌, ◌≡◌, refl, Bool, true, false, Bool-cases, inl, inr, Option,
  none, some, List, [], ◌∷◌, ◌++◌, length, ltb, arith, subst, leb,
}
use garcon.App.Queue.{
  QueuePushResult, queued, full, closed, WorkQueue, Call, returns, waits, push, try_push, pop,
}

module _ {A : Type 0} where
  -- What a call of `push`, `try_push` or `pop` comes to.
  pub data Pushed (q : WorkQueue A) (socket : A) : WorkQueue A × Call QueuePushResult → Type 0 where
    took :
        q.is_closed ≡ false
        → Pushed q socket (record q { sockets = q.sockets ++ socket ∷ [] }, returns queued)
    refused :
        (q.is_closed ≡ true) ⊎ (q.capacity ≤ length q.sockets) → Pushed q socket (q, returns closed)
    must_wait : q.is_closed ≡ false → q.capacity ≤ length q.sockets → Pushed q socket (q, waits)

  pub data Tried (q : WorkQueue A) (socket : A) : WorkQueue A × QueuePushResult → Type 0 where
    tried : Tried q socket (record q { sockets = q.sockets ++ socket ∷ [] }, queued)
    not_tried : (r : QueuePushResult) → (r ≡ queued → ⊥) → Tried q socket (q, r)

  pub data Popped (q : WorkQueue A) : WorkQueue A × Call (Option A) → Type 0 where
    got :
        (socket : A) (rest : List A)
        → q.sockets ≡ socket ∷ rest
        → Popped q (record q { sockets = rest }, returns (some socket))
    got_none : q.sockets ≡ [] → Popped q (q, returns none)
    must_sleep : q.is_closed ≡ false → q.sockets ≡ [] → Popped q (q, waits)

  pub push-Pushed :
      (q : WorkQueue A) (stop : Bool) (socket : A) → Pushed q socket (push stop socket q)
  unfolding push
  push-Pushed q stop socket = elim (Bool-cases q.is_closed) [
    | inl c ↦
        let e : push stop socket q ≡ (q, returns closed) = ground arith in
        subst (Pushed q socket) (sym e) (refused (inl c))
    | inr o ↦ elim (Bool-cases (ltb (length q.sockets) q.capacity)) [
      | inl l ↦
          let e : push stop socket q
              ≡ (record q { sockets = q.sockets ++ socket ∷ [] }, returns queued) =
            ground arith in
          subst (Pushed q socket) (sym e) (took o)
      | inr l ↦ elim (Bool-cases stop) [
        | inl s ↦
            let e : push stop socket q ≡ (q, returns closed) = ground arith in
            subst (Pushed q socket) (sym e) (refused (inr (ground arith)))
        | inr s ↦
            let e : push stop socket q ≡ (q, waits) = ground arith in
            subst (Pushed q socket) (sym e) (must_wait o (ground arith))
      ]
    ]
  ]

  pub try_push-Tried : (q : WorkQueue A) (socket : A) → Tried q socket (try_push socket q)
  unfolding try_push
  try_push-Tried q socket = elim (Bool-cases (q.is_closed || leb q.capacity (length q.sockets))) [
    | inl c ↦
        let r = if q.is_closed then closed else full in
        let e : try_push socket q ≡ (q, if q.is_closed then closed else full) = ground arith in
        subst (Tried q socket) (sym e) (not_tried r (λ k. ground arith))
    | inr o ↦
        let e : try_push socket q ≡ (record q { sockets = q.sockets ++ socket ∷ [] }, queued) =
          ground arith in
        subst (Tried q socket) (sym e) tried
  ]

  pub pop-Popped : (q : WorkQueue A) (stop : Bool) → Popped q (pop stop q)
  unfolding pop
  pop-Popped q stop = go q.sockets refl
    where
      go : (xs : List A) → q.sockets ≡ xs → Popped q (pop stop q)
      go (x ∷ rest) h =
          let e : pop stop q ≡ (record q { sockets = rest }, returns (some x)) = ground arith in
          subst (Popped q) (sym e) (got x rest h)
      go [] h = elim (Bool-cases (q.is_closed || stop)) [
        | inl c ↦
            let e : pop stop q ≡ (q, returns none) = ground arith in
            subst (Popped q) (sym e) (got_none h)
        | inr c ↦
            let e : pop stop q ≡ (q, waits) = ground arith in
            subst (Popped q) (sym e) (must_sleep (ground arith) h)
      ]
