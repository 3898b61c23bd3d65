-- ===== src/Net/Tls/Sending.antt =====
-- What `send_all` of a TLS stream hands over, and what its reads are to the reader of headers.
use garcon.Prelude.{
  ℕ, zero, suc, ◌≡◌, ◌≢◌, refl, sym, ◌∙◌, Option, none, some, [], ◌∷◌, ◌++◌, append-nil, length,
  take, drop, take-append-drop, length-drop, ◌≤◌, ◌<◌, arith, subst,
}
use garcon.Text.{Bytes}
use garcon.Http.Framing.{IoStatus, io_ok}
use garcon.Net.Calls.{status_from_errno-ne-ok}
use garcon.Net.Socket.Sending.{IsHanded, whole, part, further}
use garcon.Net.Tls.{
  SslError, zero_return, want_read, want_write, syscall, other_error, map_ssl_status, SslResult,
  done, ssl_failed, send_all, write_round,
}

map_ssl_status-ne-ok : (error : SslError) → map_ssl_status error ≢ io_ok
unfolding map_ssl_status
map_ssl_status-ne-ok zero_return h = cc
map_ssl_status-ne-ok want_read h = cc
map_ssl_status-ne-ok want_write h = cc
map_ssl_status-ne-ok (syscall none) h = cc
map_ssl_status-ne-ok (syscall (some error)) h = status_from_errno-ne-ok error h
map_ssl_status-ne-ok other_error h = cc

module _ {W : Type 0} (ssl_write : W → Bytes → W × SslResult ℕ) (delivered : W → Bytes)
    (taken : (w : W) (content : Bytes) (v : W) (n : ℕ)
      → ssl_write w content ≡ (v, done n)
      → (0 < n) × (n ≤ length content) × (delivered v ≡ delivered w ++ take n content))
    (kept : (w : W) (content : Bytes) (v : W) (error : SslError)
      → ssl_write w content ≡ (v, ssl_failed error)
      → delivered v ≡ delivered w) where
  round_IsHanded :
      (again : Bytes → W → W × Option IoStatus) (content : Bytes) (w : W) (c : W × SslResult ℕ)
      → ((rest : Bytes) (v : W)
          → length rest < length content
          → IsHanded delivered (delivered v) rest (again rest v))
      → ssl_write w content ≡ c
      → IsHanded delivered (delivered w) content (write_round ssl_write again content c)
  unfolding write_round
  round_IsHanded again content w (v, done n) k e =
      let (some_taken, le, d) = taken w content v n e in
      let less : length (drop n content) < length content = ground (arith, length-drop n content) in
      let later =
        subst (λ t. IsHanded delivered t (drop n content) (again (drop n content) v)) d
          (k (drop n content) v less) in
      subst (λ t. IsHanded delivered (delivered w) t (again (drop n content) v))
        (take-append-drop n content)
        (further delivered (delivered w) (take n content) (drop n content) _ later)
  round_IsHanded again content w (v, ssl_failed error) k e =
      part [] content refl (kept w content v error e ∙ sym (append-nil (delivered w)))
        (map_ssl_status-ne-ok error)

  all_IsHanded :
      (fuel : ℕ) (content : Bytes) (w : W)
      → length content < fuel
      → IsHanded delivered (delivered w) content (send_all ssl_write fuel content w)
  unfolding send_all
  all_IsHanded fuel [] w h = whole (sym (append-nil (delivered w)))
  all_IsHanded zero (b ∷ bs) w h = absurd (omega arith)
  all_IsHanded (suc fuel) (b ∷ bs) w h =
      round_IsHanded (send_all ssl_write fuel) (b ∷ bs) w (ssl_write w (b ∷ bs))
        (λ rest v less. all_IsHanded fuel rest v (omega arith)) refl

  -- `send_all` of a TLS stream returns, and with `ok` where the whole content was handed over in
  -- order and once, or with another status where a front part of it was; where `SSL_write_ex` takes
  -- a front part that is not empty of what it is given, or fails and takes nothing.
  pub tls_send_all-IsHanded :
      (content : Bytes) (w : W)
      → IsHanded delivered
          (delivered w)
          content
          (send_all ssl_write (suc (length content)) content w)
  tls_send_all-IsHanded content w = all_IsHanded (suc (length content)) content w (omega arith)
