-- ===== src/Net/Calls.antt =====
-- What a system call returns: its count, or the `errno` of its failure.
use garcon.Prelude.{ℕ, Bool, true, false, ◌≡◌, ◌≢◌, refl}
use garcon.Text.{Bytes}
use garcon.Http.Framing.{IoStatus, io_ok, io_timeout, io_error}

pub data Errno : Type 0 where
  eintr eagain ewouldblock ebadf efault einval enotsock eopnotsupp : Errno
  other_errno : ℕ → Errno

-- `recv`, with the bytes that it wrote, whose number is its count.
pub data Received : Type 0 where
  received : Bytes → Received
  not_received : Errno → Received

-- `send`, with the number of bytes that it took.
pub data Sent : Type 0 where
  sent : ℕ → Sent
  not_sent : Errno → Sent

unfoldable pub is_eintr : Errno → Bool
is_eintr eintr = true
is_eintr error = false

unfoldable pub status_from_errno : Errno → IoStatus
status_from_errno eagain = io_timeout
status_from_errno ewouldblock = io_timeout
status_from_errno error = io_error

-- A failure is never reported as success.
pub status_from_errno-ne-ok : (error : Errno) → status_from_errno error ≢ io_ok
unfolding status_from_errno
status_from_errno-ne-ok eintr h = cc
status_from_errno-ne-ok eagain h = cc
status_from_errno-ne-ok ewouldblock h = cc
status_from_errno-ne-ok ebadf h = cc
status_from_errno-ne-ok efault h = cc
status_from_errno-ne-ok einval h = cc
status_from_errno-ne-ok enotsock h = cc
status_from_errno-ne-ok eopnotsupp h = cc
status_from_errno-ne-ok (other_errno n) h = cc

pub is_eintr-eintr : (error : Errno) → is_eintr error ≡ true → error ≡ eintr
unfolding is_eintr
is_eintr-eintr eintr h = refl
is_eintr-eintr eagain h = cc
is_eintr-eintr ewouldblock h = cc
is_eintr-eintr ebadf h = cc
is_eintr-eintr efault h = cc
is_eintr-eintr einval h = cc
is_eintr-eintr enotsock h = cc
is_eintr-eintr eopnotsupp h = cc
is_eintr-eintr (other_errno n) h = cc
