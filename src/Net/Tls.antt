-- ===== src/Net/Tls.antt =====
-- tls/stream.cpp, over the calls of OpenSSL that it makes. The loop of `send_all` runs on fuel.
pub mod Sending
mod Tests
use garcon.Prelude.{ℕ, zero, suc, Option, none, some, List, [], ◌∷◌, drop}
use garcon.Text.{Bytes}
use garcon.Http.Framing.{IoStatus, io_ok, io_closed, io_timeout, io_error, ReadResult}
use garcon.Net.Calls.{Errno, status_from_errno}

-- `SSL_get_error`, with `errno` for a failed system call, or none where it is 0.
pub data SslError : Type 0 where
  zero_return want_read want_write other_error : SslError
  syscall : Option Errno → SslError

pub map_ssl_status : SslError → IoStatus
unfolding status_from_errno
map_ssl_status zero_return = io_closed
map_ssl_status want_read = io_timeout
map_ssl_status want_write = io_timeout
map_ssl_status (syscall none) = io_closed
map_ssl_status (syscall (some error)) = status_from_errno error
map_ssl_status other_error = io_error

-- A call that gave what it is for, or failed.
pub data SslResult (A : Type 0) : Type 0 where
  done : A → SslResult A
  ssl_failed : SslError → SslResult A

read_status : SslResult Bytes → ReadResult
read_status (done bs) = record { status = io_ok; received = bs }
read_status (ssl_failed error) = record { status = map_ssl_status error; received = [] }

module _ {W : Type 0} where
  -- `SSL_accept`
  pub handshake : (W → W × SslResult (Unit {0})) → W → W × IoStatus
  handshake ssl_accept w = elim (ssl_accept w).1 [
    | done u ↦ ((ssl_accept w).0, io_ok)
    | ssl_failed error ↦ ((ssl_accept w).0, map_ssl_status error)
  ]

  -- `SSL_read_ex`, with the bytes that it wrote
  pub recv_some : (W → ℕ → W × SslResult Bytes) → W → ℕ → W × ReadResult
  recv_some ssl_read w size = ((ssl_read w size).0, read_status (ssl_read w size).1)

module _ {W : Type 0} (ssl_write : W → Bytes → W × SslResult ℕ) where
  -- A round of the loop over the bytes that are left; `SSL_write_ex` gives how many it took.
  write_round : (Bytes → W → W × Option IoStatus) → Bytes → W × SslResult ℕ → W × Option IoStatus
  write_round again left (w, done n) = again (drop n left) w
  write_round again left (w, ssl_failed error) = (w, some (map_ssl_status error))

  pub send_all : ℕ → Bytes → W → W × Option IoStatus
  send_all fuel [] w = (w, some io_ok)
  send_all zero (b ∷ bs) w = (w, none)
  send_all (suc fuel) (b ∷ bs) w = write_round (send_all fuel) (b ∷ bs) (ssl_write w (b ∷ bs))
