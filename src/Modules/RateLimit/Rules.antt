-- ===== src/Modules/RateLimit/Rules.antt =====
-- The rules of rate_limit_module.cpp and their reading.
pub mod Checked
mod Tests
use Prim.Native.String.{String, ◌++◌}
use garcon.Prelude.{
  ℕ, ◌*◌, ◌-◌, Bool, true, false, ◌&&◌, ◌||◌, not, Option, none, some, List, [], ◌∷◌, is_empty,
  length, drop, ltb, ◌==◌, Result, ok, throw, throw_if, ◌>>=◌, ◌>>◌, if◌then◌else◌,
}
use garcon.Text.{Bytes, bytes, equal, has, starts_with, split_fields, parse_int}
use garcon.Modules.Config.{PatternKind, classify_target_pattern, parse_config}

pub data KeyKind : Type 0 where
  global header : KeyKind

pub record Rule : Type 0 where
  pub method_pattern : Bytes
  pub target_pattern : Bytes
  pub target_kind : PatternKind
  pub key_type : KeyKind
  pub key_name : Bytes
  pub limit : ℕ
  pub window_seconds : ℕ
  pub burst : ℕ

unfoldable pub parse_positive_int : Bytes → String → Result ℕ
unfolding parse_int
parse_positive_int value what = do
  throw_if (is_empty value) ("rate_limit: " ++ (what ++ " must not be empty"))
  v ← parse_int ("rate_limit: invalid " ++ what) 0 value
  throw_if (v == 0) ("rate_limit: " ++ (what ++ " must be positive"))
  ok v

-- `value.back()` and what is before it.
split_last : Bytes → Option (Bytes × ℕ)
split_last [] = none
split_last (c ∷ cs) = elim (split_last cs) [
  | none ↦ some ([], c)
  | some (front, last) ↦ some (c ∷ front, last)
]

-- The number part and the multiplier of its unit.
abbrev by_unit : Bytes → Bytes → ℕ → Bytes × ℕ
by_unit value front last =
    if last == b's' || last == b'S'
    then (front, 1)
    else if last == b'm' || last == b'M'
    then (front, 60)
    else if last == b'h' || last == b'H'
    then (front, 3600)
    else (value, 1)

abbrev unit_of : Bytes → Option (Bytes × ℕ) → Bytes × ℕ
unit_of value none = (value, 1)
unit_of value (some (front, last)) = by_unit value front last

pub parse_window_seconds : Bytes → Result ℕ
parse_window_seconds value =
    let (num_part, multiplier) = unit_of value (split_last value) in
    do
      throw_if (is_empty value) "rate_limit: window must not be empty"
      seconds ← parse_positive_int num_part "window"
      throw_if (ltb 1000000000 (seconds * multiplier)) "rate_limit: window too large"
      ok (seconds * multiplier)

pub parse_key_spec : Bytes → Result (KeyKind × Bytes)
parse_key_spec spec =
    if equal spec (bytes "global")
    then ok (global, [])
    else if ltb 7 (length spec) && starts_with (bytes "header:") spec
    then if is_empty (drop 7 spec)
      then throw "rate_limit: header key name must not be empty"
      else ok (header, drop 7 spec)
    else if not (is_empty spec) && not (has b':' spec)
    then ok (header, spec)
    else throw "rate_limit: key must be 'global' or 'header:NAME' (or bare NAME)"

-- The sixth field, where it is there and not empty.
parse_burst : ℕ → List Bytes → Result ℕ
parse_burst limit [] = ok limit
parse_burst limit (field ∷ fields) =
    if is_empty field then ok limit else parse_positive_int field "burst"

abbrev at_least : ℕ → ℕ → ℕ
at_least limit burst = if ltb burst limit then limit else burst

pub parse_rule_fields : List Bytes → Result Rule
parse_rule_fields (method ∷ target ∷ key ∷ limit_field ∷ window ∷ more) =
    let (kind, pattern) = classify_target_pattern target in
    do
      throw_if (is_empty method) "rate_limit: method pattern must not be empty"
      throw_if (is_empty pattern) "rate_limit: target pattern must not be empty"
      spec ← parse_key_spec key
      limit ← parse_positive_int limit_field "limit"
      seconds ← parse_window_seconds window
      burst ← parse_burst limit more
      ok (record {
        method_pattern = method;
        target_pattern = pattern;
        target_kind = kind;
        key_type = spec.0;
        key_name = spec.1;
        limit = limit;
        window_seconds = seconds;
        burst = at_least limit burst;
      })
parse_rule_fields fields =
    throw "rate_limit: rule requires at least 5 fields (method|target|key|limit|window)"

pub parse_rule_line : Bytes → Result Rule
parse_rule_line line = parse_rule_fields (split_fields (drop 5 line) b'|')

-- The constructor, whose loop over the lines is that of the other modules.
pub create_rules : Bytes → Result (List Rule)
create_rules config_text = do
  parsed ← parse_config (bytes "rule=") parse_rule_line config_text
  throw_if (is_empty parsed) "rate_limit: at least one rule= line is required"
  ok parsed
