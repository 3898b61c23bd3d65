-- ===== src/App/Limiter/Tests.antt =====
-- A limiter that holds one connection of one address.
use garcon.Prelude.{refl, [], ◌∷◌, arith}
use garcon.Text.{bytes}
use garcon.Text.Map.{find}
use garcon.App.Limiter.{Limiter, try_acquire, release}
use garcon.App.Limiter.Counts.{IsValid, Acquired, try_acquire-Acquired, Released, release-Released}

abbrev limiter : Limiter
limiter = record { per_ip_limit = 2; inflight_by_ip = (bytes "::1", 1) ∷ [] }

limiter-IsValid : IsValid limiter
unfolding find
limiter-IsValid = record {
  limit_positive = omega arith;
  entries = (refl, omega arith, omega arith, tt);
}

try_acquire-Acquired_example : Acquired limiter (bytes "::1") (try_acquire limiter (bytes "::1"))
try_acquire-Acquired_example = try_acquire-Acquired limiter (bytes "::1") limiter-IsValid (λ e. cc)

release-Released_example : Released limiter (bytes "::1") (release limiter (bytes "::1"))
release-Released_example = release-Released limiter (bytes "::1") limiter-IsValid (λ e. cc)
