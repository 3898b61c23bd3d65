-- ===== src/Modules/RateLimit.antt =====
-- rate_limit_module.cpp: token buckets by rule and subject. A `double` is a parameter with the
-- operations that the source uses, and the steady clock is given in ticks since its epoch, as it
-- reads in each request. Requests are taken one at a time, though the second look at a bucket stands
-- behind the first lock.
pub mod Rules
pub mod Keys
pub mod Buckets
mod Tests
use garcon.Prelude.{
  ℕ, Bool, true, false, ◌&&◌, not, Option, none, some, List, [], ◌∷◌, ◌++◌, is_empty, ltb, leb,
  ◌==◌, Result, ok, ◌>>=◌, ◌+◌, if◌then◌else◌,
}
use garcon.Prelude.Integers.{ℤ, pos, negsuc}
use garcon.Text.{Bytes, bytes, equal, ascii_lowercase, to_string}
use garcon.Text.Map.{find, put}
use garcon.Http.Header.{HeaderField, find_header}
use garcon.Http.Request.{Request}
use garcon.Http.Response.{Response, text, set_header}
use garcon.Modules.Abi.{Reply, pass_reply, respond_reply, add_response_header}
use garcon.Modules.Config.{method_matches, target_matches}
use garcon.Modules.RateLimit.Rules.{Rule, KeyKind, global, header}

-- `double`: the number of an `int`, the arithmetic, `<` and `>=`, the conversion to `int`, the
-- seconds between two ticks of the clock, and the literal 0.999.
pub record Doubles : Type 1 where
  pub Double : Type 0
  pub of_int : ℕ → Double
  pub plus : Double → Double → Double
  pub minus : Double → Double → Double
  pub times : Double → Double → Double
  pub over : Double → Double → Double
  pub less : Double → Double → Bool
  pub not_below : Double → Double → Bool
  pub to_int : Double → ℤ
  pub seconds_between : ℕ → ℕ → Double
  pub almost_one : Double

-- The first field whose name is the wanted one in another case.
abbrev find_header_icase : List HeaderField → Bytes → Option Bytes
find_header_icase [] name = none
find_header_icase (h ∷ headers) name =
    let later = find_header_icase headers name in
    if equal (ascii_lowercase h.name) (ascii_lowercase name) then some h.value else later

abbrev known : Option Bytes → Bytes
known none = bytes "<anonymous>"
known (some value) = if is_empty value then bytes "<anonymous>" else value

pub extract_subject : Request → Rule → Bytes
extract_subject request r = elim r.key_type [
  | global ↦ bytes "global"
  | header ↦ known (find_header_icase request.headers r.key_name)
]

pub make_rate_limit_response : ℕ → ℕ → ℕ → Result Response
make_rate_limit_response limit window_seconds retry_after_seconds =
    let first = text 429 (bytes "Too Many Requests") (bytes "rate limit exceeded\n") in
    do
      second ← set_header first (bytes "X-RateLimit-Limit") (to_string limit)
      third ←
          set_header second (bytes "Retry-After")
            (to_string (if ltb 0 retry_after_seconds then retry_after_seconds else 1))
      set_header third (bytes "X-RateLimit-Reset") (to_string window_seconds)

unfoldable pub make_state_key : ℕ → Bytes → Bytes
make_state_key rule_index subject = to_string rule_index ++ (b':' ∷ subject)

pub rule_applies : Request → Rule → Bool
rule_applies request r =
    method_matches r.method_pattern request.method
    && target_matches r.target_kind r.target_pattern request.target

module _ (d : Doubles) where
  pub record TokenBucket : Type 0 where
    pub tokens : d.Double
    pub last_refill : ℕ

  abbrev pub Store : Type 0
  Store = List (Bytes × TokenBucket)

  abbrev pub rate_per_sec : Rule → d.Double
  rate_per_sec r =
      d.over (d.of_int r.limit) (d.of_int (if ltb 0 r.window_seconds then r.window_seconds else 1))

  -- `_buckets[skey]`, which enters an empty bucket at a missing key, and its first fill.
  abbrev pub entered : Option TokenBucket → TokenBucket
  entered none = record { tokens = d.of_int 0; last_refill = 0 }
  entered (some bucket) = bucket

  pub filled : Rule → ℕ → TokenBucket → TokenBucket
  filled r now bucket =
      if bucket.last_refill == 0
      then record { tokens = d.of_int r.burst; last_refill = now }
      else bucket

  -- `std::min`
  abbrev pub min_of : d.Double → d.Double → d.Double
  min_of a b = if d.less b a then b else a

  pub refilled : Rule → ℕ → TokenBucket → TokenBucket
  refilled r now bucket =
      let elapsed = d.seconds_between bucket.last_refill now in
      if d.less (d.of_int 0) elapsed
      then record {
        tokens =
            min_of (d.plus bucket.tokens (d.times elapsed (rate_per_sec r))) (d.of_int r.burst);
        last_refill = now;
      }
      else bucket

  abbrev at_least_one : ℤ → ℕ
  at_least_one (negsuc n) = 1
  at_least_one (pos n) = if ltb n 1 then 1 else n

  abbrev within : ℕ → ℕ → ℕ
  within window n = if ltb window n then window else n

  pub retry_after_of : Rule → d.Double → ℕ
  retry_after_of r tokens =
      if d.less (d.of_int 0) (rate_per_sec r)
      then within r.window_seconds (
          at_least_one (
            d.to_int (d.plus (d.over (d.minus (d.of_int 1) tokens) (rate_per_sec r)) d.almost_one)))
      else 1

  -- What a request does to its bucket, and whether it is allowed.
  pub consume : Rule → ℕ → TokenBucket → TokenBucket × Bool
  consume r now bucket =
      let full = refilled r now (filled r now bucket) in
      if d.not_below full.tokens (d.of_int 1)
      then (record full { tokens = d.minus full.tokens (d.of_int 1) }, true)
      else (full, false)

  abbrev answer : Rule → TokenBucket × Bool → Result (Option Response)
  answer r (bucket, true) = ok none
  answer r (bucket, false) =
      make_rate_limit_response r.limit r.window_seconds (retry_after_of r bucket.tokens)
      >>= λ response. ok (some response)

  pub check_and_consume : Rule → ℕ → Bytes → ℕ → Store → Result (Option Response × Store)
  check_and_consume r rule_index subject now buckets =
      let skey = make_state_key rule_index subject in
      let after = consume r now (entered (find skey buckets)) in
      (answer r after >>= λ response. ok (response, put skey after.0 buckets))

  abbrev not_negative : ℤ → ℕ
  not_negative (pos n) = n
  not_negative (negsuc n) = 0

  abbrev remaining_of : Rule → Option TokenBucket → ℕ
  remaining_of r none = r.burst
  remaining_of r (some bucket) = not_negative (d.to_int bucket.tokens)

  pub allowed_reply : Rule → ℕ → Reply
  allowed_reply r remaining =
      add_response_header
        (add_response_header
          (add_response_header pass_reply (bytes "X-RateLimit-Limit") (to_string r.limit))
          (bytes "X-RateLimit-Remaining") (to_string remaining))
        (bytes "X-RateLimit-Reset") (to_string r.window_seconds)

  -- The header that the response should have by then.
  ensured : Rule → Response → Result Response
  ensured r response = elim (find_header response.headers (bytes "X-RateLimit-Limit")) [
    | some h ↦ ok response
    | none ↦ set_header response (bytes "X-RateLimit-Limit") (to_string r.limit)
  ]

  reply_of : Rule → Bytes → Option Response × Store → Result (Reply × Store)
  reply_of r skey (some response, buckets) =
      ensured r response >>= λ sent. ok (respond_reply sent, buckets)
  reply_of r skey (none, buckets) =
      ok (allowed_reply r (remaining_of r (find skey buckets)), buckets)

  -- The loop over the rules from the one with this index on; the first that is for the request
  -- decides.
  handle_from : ℕ → List Rule → ℕ → Store → Request → Result (Reply × Store)
  handle_from i [] now buckets request = ok (pass_reply, buckets)
  handle_from i (r ∷ rules) now buckets request =
      let later = handle_from (i + 1) rules now buckets request in
      if rule_applies request r
      then (check_and_consume r i (extract_subject request r) now buckets >>= λ checked.
          reply_of r (make_state_key i (extract_subject request r)) checked)
      else later

  pub handle : List Rule → ℕ → Store → Request → Result (Reply × Store)
  handle rules now buckets request = handle_from 0 rules now buckets request
