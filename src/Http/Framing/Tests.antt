-- ===== src/Http/Framing/Tests.antt =====
-- A stream that gives one text, a piece at a time.
use garcon.Prelude.{ℕ, ◌≡◌, ◌≢◌, ◌<◌, ◌≤◌, refl, length, ◌++◌, [], ◌∷◌, if◌then◌else◌, arith, leb}
use garcon.Text.{Bytes, bytes}
use garcon.Http.Framing.{Buffer, empty_buffer, ReadResult, io_ok, io_closed, read_header_block}
use garcon.Http.Framing.Block.{Receives, Finished, read_header_block-Finished}

-- Two bytes at a time, as long as there is room and something left.
recv_two : Bytes → ℕ → Bytes × ReadResult
recv_two (a ∷ b ∷ rest) n =
    if leb 2 n
    then (rest, record { status = io_ok; received = a ∷ b ∷ [] })
    else (a ∷ b ∷ rest, record { status = io_closed; received = [] })
recv_two rest n = (rest, record { status = io_closed; received = [] })

abbrev to_come : Bytes → Bytes
to_come rest = rest

recv_two-Receives : Receives to_come recv_two
unfolding recv_two
recv_two-Receives = record { fits = fits; delivers = delivers; takes_none = takes_none }
  where
    fits :
        (s : Bytes) (n : ℕ)
        → (recv_two s n).1.status ≡ io_ok
        → (0 < length (recv_two s n).1.received) × (length (recv_two s n).1.received ≤ n)
    fits [] n e = absurd cc
    fits (a ∷ []) n e = absurd cc
    fits (a ∷ b ∷ rest) n e = ground arith

    delivers :
        (s : Bytes) (n : ℕ)
        → (recv_two s n).1.status ≡ io_ok
        → s ≡ (recv_two s n).1.received ++ (recv_two s n).0
    delivers [] n e = absurd cc
    delivers (a ∷ []) n e = absurd cc
    delivers (a ∷ b ∷ rest) n e = ground arith

    takes_none : (s : Bytes) (n : ℕ) → (recv_two s n).1.status ≢ io_ok → s ≡ (recv_two s n).0
    takes_none [] n e = refl
    takes_none (a ∷ []) n e = refl
    takes_none (a ∷ b ∷ rest) n e = ground arith

abbrev wire : Bytes
wire = bytes "GET / HTTP/1.1\r\n\r\nrest"

read_header_block-Finished_example :
    Finished to_come recv_two 64 wire (read_header_block recv_two 65 64 wire empty_buffer)
read_header_block-Finished_example =
    read_header_block-Finished to_come recv_two recv_two-Receives 64 wire

abbrev buffer : Buffer
buffer = record { data_ = 7 ∷ 0 ∷ 0 ∷ 0 ∷ []; size = 1 }
