-- ===== src/App/Queue/History.antt =====
-- Any interleaving of calls by producers and consumers: the queue stays bounded, hands the sockets
-- out in the order in which it took them, each once, and takes none after it is closed.
use garcon.Prelude.{
  ◌≤◌, ◌≡◌, refl, ap, sym, ◌∙◌, Bool, true, Option, none, some, List, [], ◌∷◌, ◌++◌, length,
  length-append, append_assoc, append-nil, arith,
}
use garcon.App.Queue.{
  QueuePushResult, queued, full, closed, WorkQueue, Call, returns, waits, push, try_push, pop,
  close,
}

pub data Operation (A : Type 0) : Type 0 where
  pushes : Bool → A → Operation A
  tries : A → Operation A
  pops : Bool → Operation A
  closes : Operation A

-- What a call moved: the sockets that the queue took, and those that it handed out.
pub record Moved (A : Type 0) : Type 0 where
  pub taken : List A
  pub handed : List A

module _ {A : Type 0} where
  abbrev if_queued : A → QueuePushResult → List A
  if_queued socket queued = socket ∷ []
  if_queued socket full = []
  if_queued socket closed = []

  abbrev taken_by : A → Call QueuePushResult → List A
  taken_by socket (returns r) = if_queued socket r
  taken_by socket waits = []

  abbrev handed_by : Call (Option A) → List A
  handed_by (returns none) = []
  handed_by (returns (some socket)) = socket ∷ []
  handed_by waits = []

  -- The moves are read off the results that the callers get.
  pub step : WorkQueue A → Operation A → WorkQueue A × Moved A
  step q (pushes stop socket) =
      let (q', r) = push stop socket q in (q', record { taken = taken_by socket r; handed = [] })
  step q (tries socket) =
      let (q', r) = try_push socket q in (q', record { taken = if_queued socket r; handed = [] })
  step q (pops stop) = let (q', r) = pop stop q in (q', record { taken = []; handed = handed_by r })
  step q closes = (close q, record { taken = []; handed = [] })

  abbrev both : Moved A → Moved A → Moved A
  both m n = record { taken = m.taken ++ n.taken; handed = m.handed ++ n.handed }

  pub run : WorkQueue A → List (Operation A) → WorkQueue A × Moved A
  run q [] = (q, record { taken = []; handed = [] })
  run q (o ∷ os) = let (q', m) = step q o in let (q'', n) = run q' os in (q'', both m n)

  pub record Step (q : WorkQueue A) (r : WorkQueue A × Moved A) : Type 0 where
    pub in_order : q.sockets ++ r.1.taken ≡ r.1.handed ++ r.0.sockets
    pub bounded : length q.sockets ≤ q.capacity → length r.0.sockets ≤ r.0.capacity
    pub same_capacity : r.0.capacity ≡ q.capacity
    pub stays_closed : q.is_closed ≡ true → r.0.is_closed ≡ true
    pub takes_none : q.is_closed ≡ true → r.1.taken ≡ []

  step-Step : (q : WorkQueue A) (o : Operation A) → Step q (step q o)
  unfolding step push try_push pop close
  step-Step q (pushes stop socket) = record {
    in_order = ground (arith, append-nil q.sockets);
    bounded = λ h. ground (arith, length-append q.sockets (socket ∷ []));
    same_capacity = ground arith;
    stays_closed = λ h. ground arith;
    takes_none = λ h. ground arith;
  }
  step-Step q (tries socket) = record {
    in_order = ground (arith, append-nil q.sockets);
    bounded = λ h. ground (arith, length-append q.sockets (socket ∷ []));
    same_capacity = ground arith;
    stays_closed = λ h. ground arith;
    takes_none = λ h. ground arith;
  }
  step-Step q (pops stop) = record {
    in_order = ground (arith, append-nil q.sockets);
    bounded = λ h. ground arith;
    same_capacity = ground arith;
    stays_closed = λ h. ground arith;
    takes_none = λ h. ground arith;
  }
  step-Step q closes = record {
    in_order = append-nil q.sockets;
    bounded = λ h. h;
    same_capacity = refl;
    stays_closed = λ h. refl;
    takes_none = λ h. refl;
  }

  chain_order :
      (before t u h i middle after : List A)
      → before ++ t ≡ h ++ middle
      → middle ++ u ≡ i ++ after
      → before ++ (t ++ u) ≡ (h ++ i) ++ after
  chain_order before t u h i middle after p q =
      sym (append_assoc before t u)
      ∙ ap (λ s. s ++ u) p
      ∙ append_assoc h middle u
      ∙ ap (λ s. h ++ s) q
      ∙ sym (append_assoc h i after)

  -- Whatever calls producers and consumers make, in any order: the sockets that the queue held and
  -- those that it took are, in this order, the sockets that it handed out and those that it still
  -- holds; its length stays within the capacity, which does not change; and once it is closed it
  -- stays closed and takes no socket.
  pub run-Step : (q : WorkQueue A) (os : List (Operation A)) → Step q (run q os)
  unfolding run
  run-Step q [] = record {
    in_order = append-nil q.sockets;
    bounded = λ h. h;
    same_capacity = refl;
    stays_closed = λ h. h;
    takes_none = λ h. refl;
  }
  run-Step q (o ∷ os) =
      let first = step-Step q o in
      let later = run-Step (step q o).0 os in
      record {
        in_order =
            chain_order q.sockets (step q o).1.taken _ (step q o).1.handed _ (step q o).0.sockets _
              first.in_order later.in_order;
        bounded = λ h. later.bounded (first.bounded h);
        same_capacity = later.same_capacity ∙ first.same_capacity;
        stays_closed = λ h. later.stays_closed (first.stays_closed h);
        takes_none =
            λ h. ground (arith, first.takes_none h, later.takes_none (first.stays_closed h));
      }
