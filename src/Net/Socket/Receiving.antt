-- ===== src/Net/Socket/Receiving.antt =====
-- A socket as the stream that headers are read from.
use garcon.Prelude.{
  ℕ, zero, suc, ◌≡◌, ◌≢◌, ◌∙◌, ap, ◌++◌, refl, Option, none, some, [], ◌∷◌, length, ◌≤◌, ◌<◌, arith,
  Bool-cases, inl, inr,
}
use garcon.Text.{Bytes}
use garcon.Http.Framing.{io_ok, ReadResult, empty_buffer, read_header_block}
use garcon.Http.Framing.Block.{Receives, Finished, read_header_block-Finished}
use garcon.Net.Calls.{
  Errno, eintr, Received, received, not_received, is_eintr, is_eintr-eintr, status_from_errno-ne-ok,
}
use garcon.Net.Socket.{recv_some, recv_round, received_status}

abbrev HasResult : {W : Type 0} → W × Option ReadResult → Type 0
HasResult (v, some result) = Unit
HasResult (v, none) = ⊥

abbrev result_of : {W : Type 0} → (r : W × Option ReadResult) → HasResult r → W × ReadResult
result_of (v, some result) h = (v, result)
result_of (v, none) h = absurd h

module _ {W : Type 0} (recv : W → ℕ → W × Received) (interrupts : W → ℕ)
    (finite : (w : W) (size : ℕ) (v : W)
      → recv w size ≡ (v, not_received eintr)
      → interrupts v < interrupts w) where
  round-HasResult :
      (again : W → W × Option ReadResult) (size : ℕ) (w : W) (c : W × Received)
      → ((v : W) → interrupts v < interrupts w → HasResult (again v))
      → recv w size ≡ c
      → HasResult (recv_round recv again c)
  unfolding recv_round
  round-HasResult again size w (v, received bs) k e = tt
  round-HasResult again size w (v, not_received error) k e = elim (Bool-cases (is_eintr error)) [
    | inl i ↦
        let f : recv w size ≡ (v, not_received eintr) = rw (is_eintr-eintr error i) at e in
        rw i (k v (finite w size v f))
    | inr i ↦ rw i tt
  ]

  -- With more rounds than there are interruptions to come, the loop of `recv_some` returns.
  recv_some-HasResult :
      (fuel size : ℕ) (w : W) → interrupts w < fuel → HasResult (recv_some recv fuel size w)
  unfolding recv_some
  recv_some-HasResult zero size w h = absurd (omega arith)
  recv_some-HasResult (suc fuel) size w h =
      round-HasResult (recv_some recv fuel size) size w (recv w size)
        (λ v less. recv_some-HasResult fuel size v (omega arith)) refl

  -- What `recv_some` returns, with rounds enough for the interruptions that are to come.
  pub recv_stream : W → ℕ → W × ReadResult
  recv_stream w size =
      result_of (recv_some recv (suc (interrupts w)) size w)
        (recv_some-HasResult (suc (interrupts w)) size w (omega arith))

  module _ (unread : W → Bytes)
      (within : (w : W) (size : ℕ) (v : W) (bs : Bytes)
        → recv w size ≡ (v, received bs)
        → (length bs ≤ size) × (unread w ≡ bs ++ unread v))
      (waits : (w : W) (size : ℕ) (v : W) (error : Errno)
        → recv w size ≡ (v, not_received error)
        → unread w ≡ unread v) where
    -- What `recv` promises is kept by a result, where `input` was to come.
    abbrev IsSound : ℕ → Bytes → W × Option ReadResult → Type 0
    IsSound size input (v, none) = Unit
    IsSound size input (v, some result) =
        (result.status ≡ io_ok → (0 < length result.received) × (length result.received ≤ size))
        × (input ≡ result.received ++ unread v)
        × (result.status ≢ io_ok → result.received ≡ [])

    received_status-IsSound :
        (size : ℕ) (v w : W) (bs : Bytes)
        → recv w size ≡ (v, received bs)
        → IsSound size (unread w) (v, some (received_status bs))
    unfolding received_status
    received_status-IsSound size v w [] e =
        ((λ h. absurd cc), (within w size v [] e).1, (λ n. refl))
    received_status-IsSound size v w (b ∷ bs) e = (
      (λ h. (omega arith, (within w size v (b ∷ bs) e).0)),
      (within w size v (b ∷ bs) e).1,
      (λ n. absurd (n refl)),
    )

    recv_round-IsSound :
        (again : W → W × Option ReadResult) (size : ℕ) (w : W) (c : W × Received)
        → ((v : W) → IsSound size (unread v) (again v))
        → recv w size ≡ c
        → IsSound size (unread w) (recv_round recv again c)
    unfolding recv_round
    recv_round-IsSound again size w (v, received bs) k e = received_status-IsSound size v w bs e
    recv_round-IsSound again size w (v, not_received error) k e =
        elim (Bool-cases (is_eintr error)) [
          | inl i ↦ rw (i, waits w size v error e) (k v)
          | inr i ↦
              rw i (
                (λ j. absurd (status_from_errno-ne-ok error j)),
                waits w size v error e,
                (λ n. refl),
              )
        ]

    recv_some-IsSound :
        (fuel size : ℕ) (w : W) → IsSound size (unread w) (recv_some recv fuel size w)
    unfolding recv_some
    recv_some-IsSound zero size w = tt
    recv_some-IsSound (suc fuel) size w =
        recv_round-IsSound (recv_some recv fuel size) size w (recv w size)
          (λ v. recv_some-IsSound fuel size v) refl

    result_of-IsSound :
        (size : ℕ) (input : Bytes) (r : W × Option ReadResult) (h : HasResult r)
        → IsSound size input r
        → IsSound size input ((result_of r h).0, some (result_of r h).1)
    result_of-IsSound size input (v, none) h k = absurd h
    result_of-IsSound size input (v, some result) h k = k

    recv_stream-IsSound :
        (w : W) (size : ℕ)
        → IsSound size (unread w) ((recv_stream w size).0, some (recv_stream w size).1)
    unfolding recv_stream
    recv_stream-IsSound w size =
        result_of-IsSound size (unread w) (recv_some recv (suc (interrupts w)) size w) _
          (recv_some-IsSound (suc (interrupts w)) size w)

    recv_stream-Receives : Receives unread recv_stream
    recv_stream-Receives = record {
      fits = λ w size e. (recv_stream-IsSound w size).0 e;
      delivers = λ w size e. (recv_stream-IsSound w size).1;
      takes_none = λ w size n.
          let k = recv_stream-IsSound w size in
          k.1 ∙ ap (λ t. t ++ unread (recv_stream w size).0) (k.2 n);
    }

    -- Headers are read over a socket to an end. Where each interruption leaves fewer to come, `recv`
    -- gives the next bytes of the stream and no more than it is asked for, and a failed call takes
    -- none, each call of `recv_some` returns and the buffer holds what has left the stream. The block
    -- is the text up to the first CRLFCRLF of that; with an error there is none, and it is
    -- `too_large` from `max_bytes` bytes on, or it tells how the last read went.
    pub socket_header_block-Finished :
        (max_bytes : ℕ) (w : W)
        → Finished unread recv_stream max_bytes
            (unread w)
            (read_header_block recv_stream (suc max_bytes) max_bytes w empty_buffer)
    socket_header_block-Finished max_bytes w =
        read_header_block-Finished unread recv_stream recv_stream-Receives max_bytes w
