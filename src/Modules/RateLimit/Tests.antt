-- ===== src/Modules/RateLimit/Tests.antt =====
-- Two rules, with thousandths for `double` and a clock that ticks in thousandths of a second.
use garcon.Prelude.{
  ℕ, suc, ◌+◌, ◌-◌, ◌*◌, ◌/◌, ◌≡◌, refl, true, false, none, [], ◌∷◌, ltb, leb, ok, arith, ◌≤◌, ◌<◌,
}
use garcon.Prelude.Integers.{pos}
use garcon.Text.{bytes, equal, int_max, to_string, ascii_lowercase, ascii_lower}
use garcon.Text.Map.{find, put}
use garcon.Http.Request.{Request}
use garcon.Modules.Config.{prefix, method_matches, target_matches}
use garcon.Modules.RateLimit.{
  Doubles, TokenBucket, Store, make_state_key, filled, refilled, consume, check_and_consume,
  allowed_reply, extract_subject, rule_applies, handle_from, handle, reply_of,
}
use garcon.Modules.RateLimit.Rules.{Rule, header}
use garcon.Modules.RateLimit.Buckets.{check_and_consume-other, serve, granted, serve-granted}

abbrev thousandths : Doubles
thousandths = record {
  Double = ℕ;
  of_int = λ n. n * 1000;
  plus = λ a b. a + b;
  minus = λ a b. a - b;
  times = λ a b. a * b / 1000;
  over = λ a b. a * 1000 / b;
  less = λ a b. ltb a b;
  not_below = λ a b. leb b a;
  to_int = λ a. pos (a / 1000);
  seconds_between = λ a b. b - a;
  almost_one = 999;
}

abbrev two_at_once : Rule
two_at_once = record {
  method_pattern = bytes "*";
  target_pattern = bytes "/api/";
  target_kind = prefix;
  key_type = header;
  key_name = bytes "X-Key";
  limit = 1;
  window_seconds = 1;
  burst = 2;
}

abbrev asked : Request
asked = record {
  method = bytes "GET";
  target = bytes "/api/a";
  version_major = 1;
  version_minor = 1;
  headers = record { name = bytes "x-key"; value = bytes "k" } ∷ [];
}

still : (t : ℕ) → ltb (0 * 1000) (t - t) ≡ false
still t = ground arith

compared : (n : ℕ) → n ≤ int_max → leb (1 * 1000) (n * 1000) ≡ leb 1 n
compared n h = ground arith

decremented : (n : ℕ) → n < int_max → suc n * 1000 - 1 * 1000 ≡ n * 1000
decremented n h = omega arith

serve-granted_example :
    serve thousandths still compared decremented two_at_once 7 (omega arith) 0 (bytes "k") 3 []
    ≡ ok (granted 3 2)
unfolding find
serve-granted_example =
    serve-granted thousandths still compared decremented two_at_once 7 (omega arith) 0 (bytes "k") 3
      [] (omega arith) refl

three_answers : granted 3 2 ≡ true ∷ true ∷ false ∷ []
unfolding granted
three_answers = refl

abbrev after_one : Store thousandths
after_one = (bytes "0:k", record { tokens = 1000; last_refill = 7 }) ∷ []

first_checked : check_and_consume thousandths two_at_once 0 (bytes "k") 7 [] ≡ ok (none, after_one)
unfolding check_and_consume consume refilled filled make_state_key find put equal to_string
first_checked = refl

check_and_consume-other_example :
    find {A = TokenBucket thousandths} (make_state_key 1 (bytes "k")) after_one
    ≡ find (make_state_key 1 (bytes "k")) []
check_and_consume-other_example =
    check_and_consume-other thousandths two_at_once 0 (bytes "k") 7 [] after_one none 1 (bytes "k")
      first_checked (λ e. cc)

allowed :
    handle thousandths (two_at_once ∷ []) 7 [] asked
    ≡ ok (allowed_reply thousandths two_at_once 1, after_one)
unfolding handle handle_from reply_of rule_applies extract_subject check_and_consume consume
    refilled filled make_state_key find put equal to_string method_matches target_matches
    ascii_lowercase ascii_lower
allowed = refl
