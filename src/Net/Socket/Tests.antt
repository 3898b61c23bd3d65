-- ===== src/Net/Socket/Tests.antt =====
-- A peer that takes two bytes at a time and sends what it has, behind some interruptions.
use garcon.Prelude.{
  ℕ, zero, suc, ◌≡◌, refl, some, [], ◌∷◌, ◌++◌, append-nil, sym, length, length-take, take, drop,
  ◌≤◌, ◌<◌, arith, subst,
}
use garcon.Prelude.Integers.{pos}
use garcon.Text.{Bytes, bytes}
use garcon.Text.Search.{take-drop}
use garcon.Http.Framing.{io_ok, empty_buffer, read_header_block}
use garcon.Http.Framing.Block.{Finished}
use garcon.Net.Calls.{eintr, Received, received, not_received, Sent, sent, not_sent, is_eintr}
use garcon.Net.Socket.{close, move, send_all, send_round}
use garcon.Net.Socket.Receiving.{recv_stream, socket_header_block-Finished}
use garcon.Net.Socket.Sending.{IsHanded, send_all-IsHanded}

-- The interruptions to come, and what was sent or is to be received.
abbrev Peer : Type 0
Peer = ℕ × Bytes

send_two : Peer → Bytes → Peer × Sent
send_two (suc i, out) content = ((i, out), not_sent eintr)
send_two (zero, out) [] = ((zero, out), sent 0)
send_two (zero, out) (a ∷ []) = ((zero, out ++ (a ∷ [])), sent 1)
send_two (zero, out) (a ∷ b ∷ content) = ((zero, out ++ (a ∷ b ∷ [])), sent 2)

abbrev to_come : Peer → ℕ
to_come (i, out) = i

abbrev out_of : Peer → Bytes
out_of (i, out) = out

-- What the peer does, by what it returns.
abbrev Behaves : Peer → Bytes → Peer × Sent → Type 0
Behaves w content (v, sent n) =
    (n ≤ length content) × (out_of v ≡ out_of w ++ take n content) × (to_come v ≤ to_come w)
Behaves w content (v, not_sent error) = (out_of v ≡ out_of w) × (to_come v < to_come w)

send_two-Behaves : (w : Peer) (content : Bytes) → Behaves w content (send_two w content)
unfolding send_two
send_two-Behaves (suc i, out) content = (refl, omega arith)
send_two-Behaves (zero, out) [] = (omega arith, sym (append-nil out), omega arith)
send_two-Behaves (zero, out) (a ∷ []) = (omega arith, refl, omega arith)
send_two-Behaves (zero, out) (a ∷ b ∷ content) = (omega arith, refl, omega arith)

send_all-IsHanded_example :
    IsHanded out_of [] (bytes "abc") (send_all send_two 6 (bytes "abc") (2, []))
send_all-IsHanded_example =
    send_all-IsHanded send_two out_of to_come
      (λ w content v n e. subst (Behaves w content) e (send_two-Behaves w content))
      (λ w content v error e. (subst (Behaves w content) e (send_two-Behaves w content)).0)
      (λ w content v e. (subst (Behaves w content) e (send_two-Behaves w content)).1) (bytes "abc")
      (2, [])

sent_in_two : send_all send_two 6 (bytes "abc") (2, []) ≡ ((0, bytes "abc"), some io_ok)
unfolding send_all send_round send_two is_eintr
sent_in_two = refl

recv_waiting : Peer → ℕ → Peer × Received
recv_waiting (suc i, wire) size = ((i, wire), not_received eintr)
recv_waiting (zero, wire) size = ((zero, drop size wire), received (take size wire))

abbrev Gives : Peer → ℕ → Peer × Received → Type 0
Gives w size (v, received bs) = (length bs ≤ size) × (out_of w ≡ bs ++ out_of v)
Gives w size (v, not_received error) = (to_come v < to_come w) × (out_of w ≡ out_of v)

recv_waiting-Gives : (w : Peer) (size : ℕ) → Gives w size (recv_waiting w size)
unfolding recv_waiting
recv_waiting-Gives (suc i, wire) size = (omega arith, refl)
recv_waiting-Gives (zero, wire) size = (omega (arith, length-take size wire), take-drop size wire)

waiting_finite :
    (w : Peer) (size : ℕ) (v : Peer)
    → recv_waiting w size ≡ (v, not_received eintr)
    → to_come v < to_come w
waiting_finite w size v e = (subst (Gives w size) e (recv_waiting-Gives w size)).0

abbrev wire : Bytes
wire = bytes "GET / HTTP/1.1\r\n\r\nrest"

socket_header_block-Finished_example :
    Finished out_of (recv_stream recv_waiting to_come waiting_finite) 64 wire (
      read_header_block
        (recv_stream recv_waiting to_come waiting_finite)
        65
        64
        (3, wire)
        empty_buffer)
socket_header_block-Finished_example =
    socket_header_block-Finished recv_waiting to_come waiting_finite out_of
      (λ w size v bs e. subst (Gives w size) e (recv_waiting-Gives w size))
      (λ w size v error e. (subst (Gives w size) e (recv_waiting-Gives w size)).1) 64 (3, wire)

-- A socket that was moved from has nothing to close.
moved_once :
    (fd : ℕ) (address : Bytes)
    → (close (move (record { fd = pos fd; peer_address = address })).1).1 ≡ []
unfolding close move
moved_once fd address = refl
