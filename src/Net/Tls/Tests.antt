-- ===== src/Net/Tls/Tests.antt =====
-- A TLS peer that takes everything at once.
use garcon.Prelude.{ℕ, ◌≡◌, refl, some, [], ◌∷◌, ◌++◌, length, take, ◌≤◌, ◌<◌, arith}
use garcon.Text.{Bytes, bytes}
use garcon.Http.Framing.{io_ok}
use garcon.Net.Tls.{other_error, SslResult, done, ssl_failed, send_all, write_round}

write_one : Bytes → Bytes → Bytes × SslResult ℕ
write_one out [] = (out, ssl_failed other_error)
write_one out (b ∷ content) = (out ++ (b ∷ []), done 1)

abbrev Behaves : Bytes → Bytes → Bytes × SslResult ℕ → Type 0
Behaves w content (v, done n) = (0 < n) × (n ≤ length content) × (v ≡ w ++ take n content)
Behaves w content (v, ssl_failed error) = v ≡ w

write_one-Behaves : (w content : Bytes) → Behaves w content (write_one w content)
unfolding write_one
write_one-Behaves w [] = refl
write_one-Behaves w (b ∷ content) = (omega arith, omega arith, refl)

sent_at_once : send_all write_one 3 (bytes "ab") [] ≡ (bytes "ab", some io_ok)
unfolding send_all write_round write_one
sent_at_once = refl
