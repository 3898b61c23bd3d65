-- ===== src/App/Limiter.antt =====
-- ip_connection_limiter: how many connections each peer address holds.
pub mod Counts
mod Tests
use garcon.Prelude.{
  ℕ, ◌+◌, ◌-◌, Bool, true, false, Option, none, some, List, [], ◌∷◌, ltb, leb, is_empty, ◌==◌,
  if◌then◌else◌, Result, ok, throw_if, ◌>>=◌, ◌>>◌,
}
use garcon.Text.{Bytes, equal}
use garcon.Text.Map.{find, put}

-- `std::unordered_map<std::string, std::size_t>`, as the list of its entries.
abbrev pub Inflight : Type 0
Inflight = List (Bytes × ℕ)

pub record Limiter : Type 0 where
  pub per_ip_limit : ℕ
  pub inflight_by_ip : Inflight

erase : Bytes → Inflight → Inflight
erase k [] = []
erase k ((j, n) ∷ m) = if equal j k then m else (j, n) ∷ erase k m

pub make_limiter : ℕ → Result Limiter
make_limiter per_ip_limit = do
  throw_if (per_ip_limit == 0) "ip_connection_limiter limit must be greater than zero"
  ok (record { per_ip_limit = per_ip_limit; inflight_by_ip = [] })

-- `_inflight_by_ip[address]`: a missing address is entered with 0.
abbrev pub count_of : Option ℕ → ℕ
count_of none = 0
count_of (some n) = n

unfoldable pub try_acquire : Limiter → Bytes → Limiter × Bool
try_acquire l peer_address =
    if is_empty peer_address
    then (l, true)
    else let count = count_of (find peer_address l.inflight_by_ip) in
      if leb l.per_ip_limit count
      then (record l { inflight_by_ip = put peer_address count l.inflight_by_ip }, false)
      else (record l { inflight_by_ip = put peer_address (count + 1) l.inflight_by_ip }, true)

-- `release` at the entry that it finds.
release_at : Limiter → Bytes → Option ℕ → Limiter
release_at l peer_address none = l
release_at l peer_address (some n) =
    if ltb 1 n
    then record l { inflight_by_ip = put peer_address (n - 1) l.inflight_by_ip }
    else record l { inflight_by_ip = erase peer_address l.inflight_by_ip }

pub release : Limiter → Bytes → Limiter
release l peer_address =
    if is_empty peer_address
    then l
    else release_at l peer_address (find peer_address l.inflight_by_ip)
