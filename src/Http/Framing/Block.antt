-- ===== src/Http/Framing/Block.antt =====
-- Reading one header block: it ends, it is cut at the first delimiter, and memory stays bounded.
use garcon.Prelude.{
  ℕ, zero, suc, ◌+◌, ◌≤◌, ◌<◌, ◌≡◌, ◌≢◌, subst, refl, ap, sym, ◌∙◌, none, some, [], ◌++◌, length,
  length-take, append_assoc, arith, leb, inl, inr, Bool-cases, Option-cases,
}
use garcon.Prelude.Expected.{Expected, expected, unexpected}
use garcon.Text.{Bytes, cut_at}
use garcon.Text.Search.{cut_at-eq-some}
use garcon.Http.Framing.{
  Buffer, empty_buffer, grow, span_size, fill, commit, as_string_view, ReadResult, IoStatus, io_ok,
  io_closed, io_timeout, io_error, HeaderReadError, closed, timeout, too_large, failed, delimiter,
  find_header_block, Reading, read_round, read_header_block,
}
use garcon.Http.Framing.Storage.{IsValid, grow_room, length-grow, as_string_view-grow, commit-fill}

-- What `recv` and `SSL_read_ex` promise of a stream with the bytes `unread` still to come: a
-- successful read yields the next of them, at least one, and no more than the span holds; any other
-- takes none.
pub record Receives {S : Type 0} (unread : S → Bytes) (recv_some : S → ℕ → S × ReadResult)
    : Type 0 where
  pub fits :
      (s : S) (n : ℕ)
      → (recv_some s n).1.status ≡ io_ok
      → (0 < length (recv_some s n).1.received) × (length (recv_some s n).1.received ≤ n)
  pub delivers :
      (s : S) (n : ℕ)
      → (recv_some s n).1.status ≡ io_ok
      → unread s ≡ (recv_some s n).1.received ++ unread (recv_some s n).0
  pub takes_none :
      (s : S) (n : ℕ) → (recv_some s n).1.status ≢ io_ok → unread s ≡ unread (recv_some s n).0

-- The block is the text up to the end of the first delimiter in what was read.
pub record IsFirstBlock (view block : Bytes) : Type 0 where
  pub before : Bytes
  pub after : Bytes
  pub first : cut_at delimiter view ≡ some (before, after)
  pub ends : block ≡ before ++ delimiter
  pub whole : view ≡ block ++ after

module _ {S : Type 0} (unread : S → Bytes) (recv_some : S → ℕ → S × ReadResult) where
  -- A read that left the stream as it is had this status.
  abbrev pub LastRead : IoStatus → S → Type 0
  LastRead status s =
      (t : S) × (n : ℕ) × ((recv_some t n).0 ≡ s) × ((recv_some t n).1.status ≡ status)

  -- Each result, by what was read.
  abbrev pub Explains : ℕ → Bytes → S → Expected HeaderReadError Bytes → Type 0
  Explains max_bytes view s (expected block) = IsFirstBlock view block
  Explains max_bytes view s (unexpected too_large) =
      (max_bytes ≤ length view) × (find_header_block view ≡ none)
  Explains max_bytes view s (unexpected closed) =
      (find_header_block view ≡ none) × LastRead io_closed s
  Explains max_bytes view s (unexpected timeout) =
      (find_header_block view ≡ none) × LastRead io_timeout s
  Explains max_bytes view s (unexpected failed) =
      (find_header_block view ≡ none) × LastRead io_error s

  -- A finished call, where `input` is what had been read before and what was still to come.
  pub record Finished (max_bytes : ℕ) (input : Bytes) (r : Reading S) : Type 0 where
    pub outcome : Expected HeaderReadError Bytes
    pub returned : r.result ≡ some outcome
    pub explained : Explains max_bytes (as_string_view r.buffer) r.stream outcome
    pub read : input ≡ as_string_view r.buffer ++ unread r.stream
    pub bounded : length r.buffer.data_ ≤ max_bytes + 2048

find_header_block-IsFirstBlock :
    (view block : Bytes) → find_header_block view ≡ some block → IsFirstBlock view block
unfolding find_header_block
find_header_block-IsFirstBlock view block e = elim (Option-cases (cut_at delimiter view)) [
  | inl missing ↦ cc (rw missing at e)
  | inr ((before, after), found) ↦
      let ends : block ≡ before ++ delimiter = ground arith in
      record {
        before = before;
        after = after;
        first = found;
        ends = ends;
        whole =
            cut_at-eq-some delimiter view before after found
            ∙ sym (append_assoc before delimiter after)
            ∙ ap (λ t. t ++ after) (sym ends);
      }
]

length-as_string_view : (b : Buffer) → IsValid b → length (as_string_view b) ≡ b.size
unfolding as_string_view
length-as_string_view b v = omega (arith, length-take b.size b.data_)

module _ {S : Type 0} (unread : S → Bytes) (recv_some : S → ℕ → S × ReadResult)
    (receives : Receives unread recv_some) (max_bytes : ℕ) where
  abbrev Done : Bytes → Reading S → Type 0
  Done input r = Finished unread recv_some max_bytes input r

  -- What holds between two rounds.
  record Open (b : Buffer) : Type 0 where
    valid : IsValid b
    room : length b.data_ ≤ max_bytes + 2048

  stopped :
      (b : Buffer) (s : S) (outcome : Expected HeaderReadError Bytes)
      → Open b
      → Explains unread recv_some max_bytes (as_string_view b) s outcome
      → Done
          (as_string_view b ++ unread s)
          (record { stream = s; buffer = b; result = some outcome })
  stopped b s outcome o e = record {
    outcome = outcome;
    returned = refl;
    explained = e;
    read = refl;
    bounded = o.room;
  }

  grow-Open : (b : Buffer) → Open b → b.size < max_bytes → Open (grow b 2048)
  grow-Open b o h = record {
    valid = (grow_room b 2048 o.valid).2;
    room = length-grow b 2048 (max_bytes + 2048) o.room (omega arith);
  }

  read_round-Finished :
      (again : S → Buffer → Reading S) (b : Buffer) (s : S)
      → Open b
      → find_header_block (as_string_view b) ≡ none
      → ((s' : S) (b' : Buffer)
          → Open b'
          → b.size < b'.size
          → Done (as_string_view b' ++ unread s') (again s' b'))
      → Done
          (as_string_view b ++ unread s)
          (read_round recv_some again b (recv_some s (span_size b)))
  unfolding read_round
  read_round-Finished again b s o missing later = go (recv_some s (span_size b)).1.status refl
    where
      r : ReadResult
      r = (recv_some s (span_size b)).1

      s' : S
      s' = (recv_some s (span_size b)).0

      go :
          (status : IoStatus)
          → r.status ≡ status
          → Done
              (as_string_view b ++ unread s)
              (read_round recv_some again b (recv_some s (span_size b)))
      go io_closed e =
          rw (e, read_round, receives.takes_none s (span_size b) (λ k. cc))
            (stopped b s' (unexpected closed) o (missing, (s, span_size b, refl, e)))
      go io_timeout e =
          rw (e, read_round, receives.takes_none s (span_size b) (λ k. cc))
            (stopped b s' (unexpected timeout) o (missing, (s, span_size b, refl, e)))
      go io_error e =
          rw (e, read_round, receives.takes_none s (span_size b) (λ k. cc))
            (stopped b s' (unexpected failed) o (missing, (s, span_size b, refl, e)))
      go io_ok e =
          let got = receives.fits s (span_size b) e in
          let held = commit-fill b r.received (omega (arith, o.valid, got.0, got.1)) in
          let read_on =
            later s' (commit (fill b r.received) (length r.received))
              (record {
                valid = omega (arith, held.1, held.2, o.valid, got.0, got.1);
                room = omega (arith, held.1, o.room);
              })
              (omega (arith, held.2, got.0)) in
          let whole : as_string_view b ++ unread s
              ≡ as_string_view (commit (fill b r.received) (length r.received)) ++ unread s' =
            ap (λ t. as_string_view b ++ t) (receives.delivers s (span_size b) e)
            ∙ sym (append_assoc (as_string_view b) r.received (unread s'))
            ∙ ap (λ t. t ++ unread s') (sym held.0) in
          rw (e, read_round) (rw whole read_on)

  -- One round, where reading on is known to end.
  one_more_round :
      (fuel : ℕ) (s : S) (b : Buffer)
      → Open b
      → ((s' : S) (b' : Buffer)
          → Open b'
          → b.size < max_bytes
          → b.size < b'.size
          → Done
              (as_string_view b' ++ unread s')
              (read_header_block recv_some fuel max_bytes s' b'))
      → Done (as_string_view b ++ unread s) (read_header_block recv_some (suc fuel) max_bytes s b)
  unfolding read_header_block
  one_more_round fuel s b o later = elim (Option-cases (find_header_block (as_string_view b))) [
    | inr (block, found) ↦
        rw (found, read_header_block)
          (stopped b s (expected block) o
            (find_header_block-IsFirstBlock (as_string_view b) block found))
    | inl missing ↦ elim (Bool-cases (leb max_bytes (length (as_string_view b)))) [
      | inl full ↦
          rw (missing, full, read_header_block)
            (stopped b s (unexpected too_large) o (ground arith, missing))
      | inr more ↦
          let below : b.size < max_bytes = ground (arith, length-as_string_view b o.valid) in
          let same = as_string_view-grow b 2048 o.valid in
          let size_same = (grow_room b 2048 o.valid).1 in
          rw (missing, more, read_header_block)
            (rw same at (
              read_round-Finished (read_header_block recv_some fuel max_bytes) (grow b 2048) s
                (grow-Open b o below) (rw same missing)
                (λ s' b' o' lt. later s' b' o' below (omega (arith, lt, size_same)))))
    ]
  ]

  -- Each round adds a byte, so more fuel than the bytes still allowed is enough.
  read_header_block-Open :
      (fuel : ℕ) (s : S) (b : Buffer)
      → Open b
      → max_bytes ≤ b.size + fuel
      → Done (as_string_view b ++ unread s) (read_header_block recv_some (suc fuel) max_bytes s b)
  read_header_block-Open zero s b o f =
      one_more_round zero s b o (λ s' b' o' below lt. absurd (omega arith))
  read_header_block-Open (suc fuel) s b o f =
      one_more_round (suc fuel) s b o
        (λ s' b' o' below lt. read_header_block-Open fuel s' b' o' (omega arith))

  -- If a successful read yields the next bytes of the stream, at least one and at most as many as it
  -- was offered room for, and any other read takes none, `read_header_block` on a fresh buffer returns
  -- within `max_bytes + 1` rounds. The buffer then holds what has left the stream, byte for byte. A
  -- block that is returned is the text up to the end of the first CRLFCRLF of that; with any error
  -- there was no CRLFCRLF, `too_large` is given only from `max_bytes` bytes on, and the other three
  -- only behind a read with that status; and the storage never grows beyond `max_bytes + 2048` bytes.
  pub read_header_block-Finished :
      (s : S)
      → Finished unread recv_some max_bytes
          (unread s)
          (read_header_block recv_some (suc max_bytes) max_bytes s empty_buffer)
  read_header_block-Finished s =
      subst
        (λ t.
          Done (t ++ unread s)
            (read_header_block recv_some (suc max_bytes) max_bytes s empty_buffer))
        fresh
        (read_header_block-Open max_bytes s empty_buffer
          (record { valid = omega arith; room = omega arith }) (omega arith))
    where
      fresh : as_string_view empty_buffer ≡ []
      fresh = unfold as_string_view in refl
