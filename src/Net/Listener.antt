-- ===== src/Net/Listener.antt =====
-- listener.cpp: opening the listening socket, and the loop around `accept`, which runs on fuel.
mod Tests
pub mod Accepting
use Prim.Native.String.{String}
use garcon.Prelude.{
  ℕ, zero, suc, ◌%◌, Bool, true, false, not, Option, none, some, List, [], ◌∷◌, Result, ok, throw,
  throw_if, ◌>>=◌, ◌>>◌, if◌then◌else◌,
}
use garcon.Prelude.Expected.{Expected, expected, unexpected}
use garcon.Prelude.Integers.{ℤ, pos}
use garcon.Text.{Bytes}
use garcon.Net.Calls.{Errno, ebadf, efault, einval, enotsock, eopnotsupp, is_eintr}
use garcon.Net.Socket.{Socket, is_valid}

pub record AcceptError : Type 0 where
  pub error : Errno
  pub fatal : Bool

pub is_fatal_accept_error : Errno → Bool
is_fatal_accept_error ebadf = true
is_fatal_accept_error efault = true
is_fatal_accept_error einval = true
is_fatal_accept_error enotsock = true
is_fatal_accept_error eopnotsupp = true
is_fatal_accept_error error = false

pub make_accept_error : Errno → AcceptError
make_accept_error error = record { error = error; fatal = is_fatal_accept_error error }

-- What the calls of the constructor return: the descriptor, and whether each of the others worked.
-- `bind` is given the address and the port as 16 bits.
pub record Opening : Type 0 where
  pub socket : ℤ
  pub reuse_address : Bool
  pub inet_pton : Bytes → Option ℕ
  pub bind : ℕ → ℕ → Bool
  pub listen : Bool

abbrev address_or_throw : Option ℕ → Result ℕ
address_or_throw none = throw "invalid IPv4 bind address"
address_or_throw (some address) = ok address

pub make_listener : Opening → Bytes → ℕ → Result Socket
make_listener calls bind_address port =
    let sock : Socket = record { fd = calls.socket; peer_address = [] } in
    do
      throw_if (not (is_valid sock)) "socket() failed"
      throw_if (not calls.reuse_address) "setsockopt(SO_REUSEADDR) failed"
      address ← address_or_throw (calls.inet_pton bind_address)
      throw_if (not (calls.bind address (port % 65536))) "bind() failed"
      throw_if (not calls.listen) "listen() failed"
      ok sock

-- `accept`: a descriptor with the client's address, or the `errno`.
pub data Accepted : Type 0 where
  connected : ℕ → ℕ → Accepted
  not_connected : Errno → Accepted

module _ {W : Type 0} (accept_call : W → W × Accepted) (inet_ntop : ℕ → Option Bytes) where
  -- The empty text where the address cannot be printed.
  format_client_address : ℕ → Bytes
  format_client_address client = elim (inet_ntop client) [ none ↦ [] | some text ↦ text ]

  accept_round :
      (W → W × Option (Expected AcceptError Socket))
      → W × Accepted
      → W × Option (Expected AcceptError Socket)
  accept_round again (w, connected cfd client) =
      (w, some (expected (record { fd = pos cfd; peer_address = format_client_address client })))
  accept_round again (w, not_connected error) =
      if is_eintr error then again w else (w, some (unexpected (make_accept_error error)))

  pub accept : ℕ → W → W × Option (Expected AcceptError Socket)
  accept zero w = (w, none)
  accept (suc fuel) w = accept_round (accept fuel) (accept_call w)
