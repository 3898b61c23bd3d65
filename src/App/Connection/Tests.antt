-- ===== src/App/Connection/Tests.antt =====
-- A stream in memory that gives one text at once, and a handler that greets.
use garcon.Prelude.{
  ℕ, ◌≡◌, ◌≤◌, ◌<◌, ◌≢◌, ◌++◌, refl, append-nil, true, [], ◌∷◌, Result, ok, length, if◌then◌else◌,
  arith, leb,
}
use garcon.Text.{Bytes, bytes}
use garcon.Http.Request.{Request}
use garcon.Http.Response.{Response, default_response}
use garcon.Http.Framing.{ReadResult, io_ok, io_closed}
use garcon.App.Connection.{Transport, serve}
use garcon.App.Connection.Ending.{IsFinite, serve-ended}

-- What is still to come, and what has gone out.
abbrev Peer : Type 0
Peer = Bytes × Bytes

abbrev unread : Peer → Bytes
unread s = s.0

abbrev out : Peer → Bytes
out s = s.1

recv_all : Peer → ℕ → Peer × ReadResult
recv_all ([], o) n = (([], o), record { status = io_closed; received = [] })
recv_all (b ∷ bs, o) n =
    if leb (length (b ∷ bs)) n
    then (([], o), record { status = io_ok; received = b ∷ bs })
    else ((b ∷ bs, o), record { status = io_closed; received = [] })

abbrev memory : Transport Peer
memory = record {
  set_receive_timeout = λ s idle. (s, true);
  recv_some = recv_all;
  send_all = λ s wire. ((unread s, out s ++ wire), io_ok);
}

memory-IsFinite : IsFinite unread memory
unfolding recv_all
memory-IsFinite = record {
  receives = record { fits = fits; delivers = delivers; takes_none = takes_none };
  set_keeps = λ s idle. omega arith;
  send_keeps = λ s wire. omega arith;
}
  where
    fits :
        (s : Peer) (n : ℕ)
        → (recv_all s n).1.status ≡ io_ok
        → (0 < length (recv_all s n).1.received) × (length (recv_all s n).1.received ≤ n)
    fits ([], o) n e = absurd cc
    fits (b ∷ bs, o) n e = ground arith

    delivers :
        (s : Peer) (n : ℕ)
        → (recv_all s n).1.status ≡ io_ok
        → unread s ≡ (recv_all s n).1.received ++ unread (recv_all s n).0
    delivers ([], o) n e = absurd cc
    delivers (b ∷ bs, o) n e = ground (arith, append-nil bs)

    takes_none :
        (s : Peer) (n : ℕ) → (recv_all s n).1.status ≢ io_ok → unread s ≡ unread (recv_all s n).0
    takes_none ([], o) n e = refl
    takes_none (b ∷ bs, o) n e = ground arith

abbrev greet : Request → Result Response
greet request = ok (record default_response { body = bytes "hello" })

abbrev wire : Bytes
wire = bytes "GET / HTTP/1.1\r\n\r\n"

serve-ended_example : (serve memory greet true 19 true (wire, [])).ended ≡ true
serve-ended_example =
    serve-ended memory greet true unread memory-IsFinite 19 true (wire, []) (omega arith)
