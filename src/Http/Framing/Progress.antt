-- ===== src/Http/Framing/Progress.antt =====
-- A header block is read at the cost of input.
use garcon.Prelude.{
  ℕ, zero, suc, ◌≡◌, ◌∙◌, ◌≤◌, ◌<◌, refl, Bool-cases, Option-cases, inl, inr, none, some, arith,
  length, leb,
}
use garcon.Prelude.Expected.{expected}
use garcon.Text.{Bytes, cut_at}
use garcon.Http.Framing.{
  Buffer, empty_buffer, grow, span_size, as_string_view, ReadResult, IoStatus, io_ok, io_closed,
  io_timeout, io_error, delimiter, find_header_block, Reading, read_round, read_header_block,
}

-- What is left to be read gets less with each successful read, and with no read more.
pub record Drains {S : Type 0} (remaining : S → ℕ) (recv_some : S → ℕ → S × ReadResult)
    : Type 0 where
  pub no_more : (s : S) (n : ℕ) → remaining (recv_some s n).0 ≤ remaining s
  pub less :
      (s : S) (n : ℕ) → (recv_some s n).1.status ≡ io_ok → remaining (recv_some s n).0 < remaining s

module _ {S : Type 0} (remaining : S → ℕ) (recv_some : S → ℕ → S × ReadResult)
    (drains : Drains remaining recv_some) (max_bytes : ℕ) where
  -- The call leaves no more input, and less if it went past its first test.
  record Progress (s : S) (view : Bytes) (r : Reading S) : Type 0 where
    left : remaining r.stream ≤ remaining s
    used :
        (block : Bytes)
        → find_header_block view ≡ none
        → r.result ≡ some (expected block)
        → remaining r.stream < remaining s

  read_round-Progress :
      (again : S → Buffer → Reading S) (s : S) (b : Buffer) (n : ℕ) (view : Bytes)
      (status : IoStatus)
      → ((t : S) (c : Buffer) → remaining (again t c).stream ≤ remaining t)
      → (recv_some s n).1.status ≡ status
      → Progress s view (read_round recv_some again b (recv_some s n))
  unfolding read_round
  read_round-Progress again s b n view io_ok later e = rw e (record {
    left = omega (arith, drains.no_more s n, later (recv_some s n).0 _);
    used = λ block m f. omega (arith, drains.less s n e, later (recv_some s n).0 _);
  })
  read_round-Progress again s b n view io_closed later e =
      rw e (record { left = drains.no_more s n; used = λ block m f. absurd cc })
  read_round-Progress again s b n view io_timeout later e =
      rw e (record { left = drains.no_more s n; used = λ block m f. absurd cc })
  read_round-Progress again s b n view io_error later e =
      rw e (record { left = drains.no_more s n; used = λ block m f. absurd cc })

  read_header_block-Progress :
      (fuel : ℕ) (s : S) (b : Buffer)
      → Progress s (as_string_view b) (read_header_block recv_some fuel max_bytes s b)
  unfolding read_header_block
  read_header_block-Progress zero s b = record { left = omega arith; used = λ block m f. absurd cc }
  read_header_block-Progress (suc fuel) s b =
      elim (Option-cases (find_header_block (as_string_view b))) [
        | inl e ↦ elim (Bool-cases (leb max_bytes (length (as_string_view b)))) [
          | inl l ↦
              rw (e, l, read_header_block)
                (record { left = omega arith; used = λ block m f. absurd cc })
          | inr l ↦
              rw (e, l, read_header_block)
                (read_round-Progress (read_header_block recv_some fuel max_bytes) s (grow b 2048)
                  (span_size (grow b 2048)) (as_string_view b) _
                  (λ t c. (read_header_block-Progress fuel t c).left) refl)
        ]
        | inr (block, e) ↦
            rw (e, read_header_block)
              (record {
                left = omega arith;
                used = λ block' m f. absurd (let k : none ≡ some block = cc in cc);
              })
      ]

  -- A header block that is read into a fresh buffer takes some of the input.
  pub read_header_block-less :
      (fuel : ℕ) (s : S) (block : Bytes)
      → (read_header_block recv_some fuel max_bytes s empty_buffer).result ≡ some (expected block)
      → remaining (read_header_block recv_some fuel max_bytes s empty_buffer).stream < remaining s
  read_header_block-less fuel s block e =
      (read_header_block-Progress fuel s empty_buffer).used block fresh e
    where
      fresh : find_header_block (as_string_view empty_buffer) ≡ none
      fresh =
          unfold find_header_block in
          unfold as_string_view in unfold delimiter in unfold cut_at in refl

-- What no read changes, the call does not change.
module _ {S A : Type 0} (f : S → A) (recv_some : S → ℕ → S × ReadResult)
    (keeps : (s : S) (n : ℕ) → f (recv_some s n).0 ≡ f s) (max_bytes : ℕ) where
  read_round_keeps :
      (again : S → Buffer → Reading S) (s : S) (b : Buffer) (n : ℕ) (status : IoStatus)
      → ((t : S) (c : Buffer) → f (again t c).stream ≡ f t)
      → (recv_some s n).1.status ≡ status
      → f (read_round recv_some again b (recv_some s n)).stream ≡ f s
  unfolding read_round
  read_round_keeps again s b n io_ok later e = rw e (later (recv_some s n).0 _ ∙ keeps s n)
  read_round_keeps again s b n io_closed later e = rw e (keeps s n)
  read_round_keeps again s b n io_timeout later e = rw e (keeps s n)
  read_round_keeps again s b n io_error later e = rw e (keeps s n)

  pub read_header_block_keeps :
      (fuel : ℕ) (s : S) (b : Buffer)
      → f (read_header_block recv_some fuel max_bytes s b).stream ≡ f s
  unfolding read_header_block
  read_header_block_keeps zero s b = refl
  read_header_block_keeps (suc fuel) s b =
      elim (Option-cases (find_header_block (as_string_view b))) [
        | inl e ↦ elim (Bool-cases (leb max_bytes (length (as_string_view b)))) [
          | inl l ↦ rw (e, l, read_header_block) refl
          | inr l ↦
              rw (e, l, read_header_block)
                (read_round_keeps (read_header_block recv_some fuel max_bytes) s (grow b 2048)
                  (span_size (grow b 2048)) _ (λ t c. read_header_block_keeps fuel t c) refl)
        ]
        | inr (block, e) ↦ rw (e, read_header_block) refl
      ]
