-- ===== src/App/Connection/Ending.antt =====
-- The loop over the requests of a connection ends.
use garcon.Prelude.{
  ℕ, zero, suc, ◌≡◌, ◌≢◌, ◌∙◌, sym, ap, ◌≤◌, ◌<◌, refl, length, length-append, Bool, Bool-cases,
  inl, inr, true, false, ◌&&◌, not, Option, none, some, Result, ok, throw, undefined, is_empty,
  arith,
}
use garcon.Prelude.Expected.{Expected, expected, unexpected}
use garcon.Text.{Bytes}
use garcon.Http.Request.{Request, RequestParseError, parse, keep_alive_requested}
use garcon.Http.Response.{Response, ConnectionPolicy, serialize}
use garcon.Http.Framing.{
  Reading, HeaderReadError, closed, timeout, too_large, failed, IoStatus, io_ok, io_closed,
  io_timeout, io_error, ReadResult, as_string_view,
}
use garcon.Http.Framing.Progress.{Drains, read_header_block-less}
use garcon.Http.Framing.Block.{Receives, read_header_block-Finished}
use garcon.App.Connection.{
  Transport, Round, returns, throws, undefined_round, unfinished, goes_on, Served, sent_ok,
  policy_of, persists, after_error, send_error, after_send, respond_to, to_round, parsed_round,
  header_round, timed_round, round, again, serve, max_request_header_bytes, bad_request,
  request_timeout, header_too_large,
}

-- The peer sends finitely many bytes: `unread` are those still to come, which reads give in order;
-- setting a timeout and sending make them no more.
pub record IsFinite {S : Type 0} (unread : S → Bytes) (transport : Transport S) : Type 0 where
  pub receives : Receives unread transport.recv_some
  pub set_keeps :
      (s : S) (idle : Bool)
      → length (unread (transport.set_receive_timeout s idle).0) ≤ length (unread s)
  pub send_keeps :
      (s : S) (wire : Bytes) → length (unread (transport.send_all s wire).0) ≤ length (unread s)

Receives-Drains :
    {S : Type 0} (unread : S → Bytes) (recv_some : S → ℕ → S × ReadResult)
    → Receives unread recv_some
    → Drains (λ s. length (unread s)) recv_some
Receives-Drains {S} unread recv_some receives = record {
  no_more = λ s n. no_more s n (recv_some s n).1.status refl;
  less = λ s n e. omega (
    arith,
    ap length (receives.delivers s n e),
    length-append (recv_some s n).1.received (unread (recv_some s n).0),
    (receives.fits s n e).0,
  );
}
  where
    no_more :
        (s : S) (n : ℕ) (status : IoStatus)
        → (recv_some s n).1.status ≡ status
        → length (unread (recv_some s n).0) ≤ length (unread s)
    no_more s n io_ok e = omega (
      arith,
      ap length (receives.delivers s n e),
      length-append (recv_some s n).1.received (unread (recv_some s n).0),
    )
    no_more s n io_closed e = omega (arith, ap length (receives.takes_none s n (λ k. cc)))
    no_more s n io_timeout e = omega (arith, ap length (receives.takes_none s n (λ k. cc)))
    no_more s n io_error e = omega (arith, ap length (receives.takes_none s n (λ k. cc)))

module _ {S : Type 0} (transport : Transport S) (handler : Request → Result Response)
    (https_enabled : Bool) (unread : S → Bytes) (finite : IsFinite unread transport) where
  abbrev remaining : S → ℕ
  remaining s = length (unread s)

  -- A round comes to an end, and one that goes on has left less than `n`.
  abbrev GoesBelow : ℕ → Round S → Type 0
  GoesBelow n (goes_on s sent) = remaining s < n
  GoesBelow n (returns s sent) = Unit
  GoesBelow n (throws s message) = Unit
  GoesBelow n (undefined_round s) = Unit
  GoesBelow n (unfinished s) = ⊥

  send_error-GoesBelow :
      (n : ℕ) (s : S) (response : Response)
      → GoesBelow n (send_error transport handler https_enabled s response)
  unfolding send_error after_error
  send_error-GoesBelow n s response = tt

  after_send-GoesBelow :
      (n : ℕ) (request : Request) (response : Response) (policy : ConnectionPolicy)
      (after : S × IoStatus)
      → length (unread after.0) < n
      → GoesBelow n (after_send transport handler https_enabled request response policy after)
  unfolding after_send
  after_send-GoesBelow n request response policy (s, status) h =
      elim (Bool-cases (sent_ok status && persists policy)) [ inl k ↦ rw k h | inr k ↦ rw k tt ]

  to_round-GoesBelow :
      (n : ℕ) (request : Request) (s : S) (result : Result Response)
      → remaining s < n
      → GoesBelow n (to_round transport handler https_enabled request s result)
  unfolding to_round respond_to
  to_round-GoesBelow n request s (ok response) h =
      after_send-GoesBelow n request response _
        (transport.send_all s (serialize response (policy_of (keep_alive_requested request))))
        (omega (
          arith,
          finite.send_keeps s (serialize response (policy_of (keep_alive_requested request))),
        ))
  to_round-GoesBelow n request s (throw message) h = tt
  to_round-GoesBelow n request s undefined h = tt

  parsed_round-GoesBelow :
      (n : ℕ) (s : S) (parsed : Expected RequestParseError Request)
      → remaining s < n
      → GoesBelow n (parsed_round transport handler https_enabled s parsed)
  unfolding parsed_round
  parsed_round-GoesBelow n s (unexpected e) h = send_error-GoesBelow n s bad_request
  parsed_round-GoesBelow n s (expected request) h = to_round-GoesBelow n request s _ h

  header_round-GoesBelow :
      (n : ℕ) (first_request : Bool) (r : Reading S) (o : Option (Expected HeaderReadError Bytes))
      → (o ≢ none)
      → ((block : Bytes) → o ≡ some (expected block) → remaining r.stream < n)
      → GoesBelow n (header_round transport handler https_enabled first_request r o)
  unfolding header_round
  header_round-GoesBelow n first_request r (some (expected block)) w h =
      parsed_round-GoesBelow n r.stream (parse block) (h block refl)
  header_round-GoesBelow n first_request r (some (unexpected timeout)) w h =
      elim (Bool-cases (not first_request && is_empty (as_string_view r.buffer))) [
        | inl e ↦ rw e tt
        | inr e ↦ rw e (send_error-GoesBelow n r.stream request_timeout)
      ]
  header_round-GoesBelow n first_request r (some (unexpected too_large)) w h =
      send_error-GoesBelow n r.stream header_too_large
  header_round-GoesBelow n first_request r (some (unexpected closed)) w h = tt
  header_round-GoesBelow n first_request r (some (unexpected failed)) w h = tt
  header_round-GoesBelow n first_request r none w h = w refl

  timed_round-GoesBelow :
      (n : ℕ) (first_request : Bool) (set : S × Bool)
      → remaining set.0 ≤ n
      → GoesBelow n (timed_round transport handler https_enabled first_request set)
  unfolding timed_round
  timed_round-GoesBelow n first_request (s, false) h = tt
  timed_round-GoesBelow n first_request (s, true) h =
      let read =
        read_header_block-Finished unread transport.recv_some finite.receives
          max_request_header_bytes s in
      header_round-GoesBelow n first_request _ _
        (λ e. let k = read.returned in let m : none ≡ some read.outcome = sym e ∙ k in cc)
        (λ block e. omega (
          arith,
          h,
          read_header_block-less remaining transport.recv_some
              (Receives-Drains unread transport.recv_some finite.receives) max_request_header_bytes
              (suc max_request_header_bytes) s block e,
        ))

  again-ended :
      (n : ℕ) (rest : S → Served S) (r : Round S)
      → ((s : S) → remaining s < n → (rest s).ended ≡ true)
      → GoesBelow n r
      → (again transport handler https_enabled rest r).ended ≡ true
  unfolding again
  again-ended n rest (returns s sent) later g = refl
  again-ended n rest (throws s message) later g = refl
  again-ended n rest (undefined_round s) later g = refl
  again-ended n rest (unfinished s) later g = absurd g
  again-ended n rest (goes_on s sent) later g = later s g

  -- Where the peer sends finitely many bytes, which each successful read takes some of, the loop over
  -- the requests of its connection ends within one round more than there are bytes, and in none of
  -- its rounds does the reading of the header go on without end.
  pub serve-ended :
      (fuel : ℕ) (first_request : Bool) (s : S)
      → length (unread s) < fuel
      → (serve transport handler https_enabled fuel first_request s).ended ≡ true
  unfolding serve round
  serve-ended zero first_request s h = absurd (omega arith)
  serve-ended (suc fuel) first_request s h =
      again-ended (remaining s) (serve transport handler https_enabled fuel false)
        (round transport handler https_enabled first_request s)
        (λ t g. serve-ended fuel false t (omega (arith, h, g)))
        (timed_round-GoesBelow (remaining s) first_request
          (transport.set_receive_timeout s first_request) (finite.set_keeps s first_request))
