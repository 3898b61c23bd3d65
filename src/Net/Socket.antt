-- ===== src/Net/Socket.antt =====
-- socket.cpp and plain_stream.cpp. The loops around `recv` and `send` run on fuel; `none` means that
-- it ran out.
pub mod Receiving
pub mod Sending
mod Tests
use garcon.Prelude.{
  ℕ, zero, suc, ◌/◌, ◌%◌, ◌*◌, Bool, true, false, Option, none, some, List, [], ◌∷◌, length,
  is_empty, drop, leb, ◌==◌, if◌then◌else◌,
}
use garcon.Prelude.Integers.{ℤ, pos, negsuc}
use garcon.Text.{Bytes}
use garcon.Http.Framing.{IoStatus, io_ok, io_closed, ReadResult}
use garcon.Net.Calls.{
  Errno, Received, received, not_received, Sent, sent, not_sent, is_eintr, status_from_errno,
}

pub record Timeval : Type 0 where
  pub tv_sec : ℕ
  pub tv_usec : ℕ

-- On milliseconds, of which a negative number counts as none.
pub to_timeval : ℤ → Timeval
to_timeval (negsuc n) = record { tv_sec = 0; tv_usec = 0 }
to_timeval (pos n) = record { tv_sec = n / 1000; tv_usec = n % 1000 * 1000 }

-- The descriptor, which is -1 where there is none.
pub record Socket : Type 0 where
  pub fd : ℤ
  pub peer_address : Bytes

abbrev pub no_fd : ℤ
no_fd = negsuc 0

unfoldable pub is_valid : Socket → Bool
is_valid s = elim s.fd [ pos n ↦ true | negsuc n ↦ false ]

-- The socket behind a `close`, and the descriptors that the call shuts down and closes.
unfoldable pub close : Socket → Socket × List ℕ
close s = elim s.fd [ pos n ↦ (record s { fd = no_fd }, n ∷ []) | negsuc n ↦ (s, []) ]

-- `socket(socket&& o)`: the new socket, and what is left of `o`, whose text is taken as empty.
unfoldable pub move : Socket → Socket × Socket
move o =
    (record { fd = o.fd; peer_address = o.peer_address }, record { fd = no_fd; peer_address = [] })

-- `operator=` from another socket: both sockets, and what is closed.
pub assign : Socket → Socket → Socket × Socket × List ℕ
unfolding move close
assign s o = let (target, source) = move o in (target, source, (close s).1)

received_status : Bytes → ReadResult
received_status [] = record { status = io_closed; received = [] }
received_status (b ∷ bs) = record { status = io_ok; received = b ∷ bs }

module _ {W : Type 0} (recv : W → ℕ → W × Received) where
  -- A round of the loop: on an interruption it goes on.
  recv_round : (W → W × Option ReadResult) → W × Received → W × Option ReadResult
  recv_round again (w, received bs) = (w, some (received_status bs))
  recv_round again (w, not_received error) =
      if is_eintr error
      then again w
      else (w, some (record { status = status_from_errno error; received = [] }))

  pub recv_some : ℕ → ℕ → W → W × Option ReadResult
  recv_some zero size w = (w, none)
  recv_some (suc fuel) size w = recv_round (recv_some fuel size) (recv w size)

module _ {W : Type 0} (send : W → Bytes → W × Sent) where
  -- A round of the loop over the bytes that are left.
  send_round : (Bytes → W → W × Option IoStatus) → Bytes → W × Sent → W × Option IoStatus
  send_round again left (w, sent n) = if n == 0 then (w, some io_closed) else again (drop n left) w
  send_round again left (w, not_sent error) =
      if is_eintr error then again left w else (w, some (status_from_errno error))

  pub send_all : ℕ → Bytes → W → W × Option IoStatus
  send_all fuel [] w = (w, some io_ok)
  send_all zero (b ∷ bs) w = (w, none)
  send_all (suc fuel) (b ∷ bs) w = send_round (send_all fuel) (b ∷ bs) (send w (b ∷ bs))
