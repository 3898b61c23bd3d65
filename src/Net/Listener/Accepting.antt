-- ===== src/Net/Listener/Accepting.antt =====
-- What `accept` gives.
use garcon.Prelude.{
  ℕ, zero, suc, ◌≡◌, refl, true, false, Option, none, some, ◌<◌, arith, Bool-cases, inl, inr,
}
use garcon.Prelude.Expected.{Expected, expected, unexpected}
use garcon.Text.{Bytes}
use garcon.Net.Calls.{eintr, is_eintr, is_eintr-eintr}
use garcon.Net.Socket.{Socket, is_valid}
use garcon.Net.Listener.{
  AcceptError, make_accept_error, is_fatal_accept_error, Accepted, connected, not_connected,
  accept_round, accept,
}

-- A socket that is open, or an error that is no interruption.
abbrev pub IsAnswer : {W : Type 0} → W × Option (Expected AcceptError Socket) → Type 0
IsAnswer (w, none) = ⊥
IsAnswer (w, some (expected s)) = is_valid s ≡ true
IsAnswer (w, some (unexpected e)) =
    (is_eintr e.error ≡ false) × (e.fatal ≡ is_fatal_accept_error e.error)

module _ {W : Type 0} (accept_call : W → W × Accepted) (inet_ntop : ℕ → Option Bytes)
    (interrupts : W → ℕ)
    (finite : (w v : W)
      → accept_call w ≡ (v, not_connected eintr)
      → interrupts v < interrupts w) where
  round_IsAnswer :
      (again : W → W × Option (Expected AcceptError Socket)) (w : W) (c : W × Accepted)
      → ((v : W) → interrupts v < interrupts w → IsAnswer (again v))
      → accept_call w ≡ c
      → IsAnswer (accept_round accept_call inet_ntop again c)
  unfolding accept_round make_accept_error is_valid
  round_IsAnswer again w (v, connected cfd client) k e = refl
  round_IsAnswer again w (v, not_connected error) k e = elim (Bool-cases (is_eintr error)) [
    | inl i ↦
        let f : accept_call w ≡ (v, not_connected eintr) = rw (is_eintr-eintr error i) at e in
        rw i (k v (finite w v f))
    | inr i ↦ rw i ((i, refl))
  ]

  -- `accept` returns an open socket, or an error that is no interruption.
  pub accept-IsAnswer :
      (fuel : ℕ) (w : W) → interrupts w < fuel → IsAnswer (accept accept_call inet_ntop fuel w)
  unfolding accept
  accept-IsAnswer zero w h = absurd (omega arith)
  accept-IsAnswer (suc fuel) w h =
      round_IsAnswer (accept accept_call inet_ntop fuel) w (accept_call w)
        (λ v less. accept-IsAnswer fuel v (omega arith)) refl
