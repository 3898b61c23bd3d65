-- ===== src/Http/Framing.antt =====
-- buffer.h, buffer.cpp and framing.cpp: the receive buffer, and reading one header block from a
-- stream.
pub mod Storage
pub mod Block
pub mod Progress
mod Tests
use garcon.Prelude.{
  ℕ, zero, suc, ◌+◌, ◌-◌, Bool, true, false, Option, none, some, List, [], ◌∷◌, ◌++◌, length, take,
  drop, leb, ltb, if◌then◌else◌,
}
use garcon.Prelude.Expected.{Expected, expected, unexpected}
use garcon.Text.{Bytes, bytes, cut_at}

-- `_data` is the storage, and `_size` counts the bytes of it that are committed.
pub record Buffer : Type 0 where
  pub data_ : Bytes
  pub size : ℕ

abbrev pub empty_buffer : Buffer
empty_buffer = record { data_ = []; size = 0 }

pub zeros : ℕ → Bytes
zeros zero = []
zeros (suc n) = 0 ∷ zeros n

-- The storage behind a call of `write_span`; the span is what lies behind `_size`.
pub grow : Buffer → ℕ → Buffer
grow b min_free =
    if ltb (length b.data_) (b.size + min_free)
    then record b { data_ = b.data_ ++ zeros (b.size + min_free - length b.data_) }
    else b

abbrev pub span_size : Buffer → ℕ
span_size b = length b.data_ - b.size

-- Bytes received into the span.
pub fill : Buffer → Bytes → Buffer
fill b received = record b {
  data_ = take b.size b.data_ ++ (received ++ drop (b.size + length received) b.data_);
}

pub commit : Buffer → ℕ → Buffer
commit b n =
    if ltb (length b.data_) (b.size + n)
    then record b { size = length b.data_ }
    else record b { size = b.size + n }

unfoldable pub as_string_view : Buffer → Bytes
as_string_view b = take b.size b.data_

-- io.h
pub data IoStatus : Type 0 where
  io_ok io_closed io_timeout io_error : IoStatus

-- `read_result`, with the bytes that the call wrote; `bytes_read` is their number.
pub record ReadResult : Type 0 where
  pub status : IoStatus
  pub received : Bytes

pub data HeaderReadError : Type 0 where
  closed timeout too_large failed : HeaderReadError

unfoldable pub delimiter : Bytes
delimiter = b'\r' ∷ b'\n' ∷ b'\r' ∷ b'\n' ∷ []

-- The text up to the end of the first delimiter, as `view.substr(0, end)`.
abbrev block_of : Option (Bytes × Bytes) → Option Bytes
block_of none = none
block_of (some (before, after)) = some (before ++ delimiter)

pub find_header_block : Bytes → Option Bytes
find_header_block view = block_of (cut_at delimiter view)

-- What the call leaves: the stream, the buffer, and its result; `none` means that the fuel of the
-- model ran out.
pub record Reading (S : Type 0) : Type 0 where
  pub stream : S
  pub buffer : Buffer
  pub result : Option (Expected HeaderReadError Bytes)

module _ {S : Type 0} (recv_some : S → ℕ → S × ReadResult) where
  read_round : (S → Buffer → Reading S) → Buffer → S × ReadResult → Reading S
  read_round again b (s, r) = elim r.status [
    | io_closed ↦ record { stream = s; buffer = b; result = some (unexpected closed) }
    | io_timeout ↦ record { stream = s; buffer = b; result = some (unexpected timeout) }
    | io_error ↦ record { stream = s; buffer = b; result = some (unexpected failed) }
    | io_ok ↦ again s (commit (fill b r.received) (length r.received))
  ]

  pub read_header_block : ℕ → ℕ → S → Buffer → Reading S
  read_header_block zero max_bytes s b = record { stream = s; buffer = b; result = none }
  read_header_block (suc fuel) max_bytes s b = elim (find_header_block (as_string_view b)) [
    | some block ↦ record { stream = s; buffer = b; result = some (expected block) }
    | none ↦ elim (leb max_bytes (length (as_string_view b))) [
      | true ↦ record { stream = s; buffer = b; result = some (unexpected too_large) }
      | false ↦
          read_round (read_header_block fuel max_bytes) (grow b 2048)
            (recv_some s (span_size (grow b 2048)))
    ]
  ]
