-- ===== src/Modules/RateLimit/Rules/Checked.antt =====
-- The bounds of the rules that are read.
use Prim.Native.String.{String, ◌++◌}
use native.Mathlib.Nat.{one-le-mul}
use garcon.Prelude.{
  ℕ, ◌≡◌, ◌≢◌, true, false, Option, none, some, List, [], ◌∷◌, is_empty, ltb, ◌==◌, ◌≤◌, ◌*◌, arith,
  All, ok, throw_if, >>=-eq-ok, throw_if-eq-ok, subst, Bool-cases, inl, inr,
}
use garcon.Text.{Bytes, bytes, int_max, parse_int}
use garcon.Text.Decimal.{parse_int-le}
use garcon.Modules.Config.{classify_target_pattern, parse_config}
use garcon.Modules.Config.Entries.{parse_config-All}
use garcon.Modules.RateLimit.Rules.{
  Rule, parse_positive_int, parse_window_seconds, split_last, unit_of, by_unit, parse_key_spec,
  parse_burst, at_least, parse_rule_fields, parse_rule_line, create_rules,
}

abbrev pub IsRule : Rule → Type 0
IsRule r =
    (1 ≤ r.limit)
    × (r.limit ≤ r.burst)
    × (r.burst ≤ int_max)
    × (1 ≤ r.window_seconds)
    × (r.window_seconds ≤ 1000000000)

parse_positive_int_sound :
    (value : Bytes) (what : String) (n : ℕ)
    → parse_positive_int value what ≡ ok n
    → (1 ≤ n) × (n ≤ int_max)
unfolding parse_positive_int
parse_positive_int_sound value what n h =
    let (u, _, h1) = >>=-eq-ok (throw_if (is_empty value) _) _ h in
    let (v, e, h2) = >>=-eq-ok (parse_int ("rate_limit: invalid " ++ what) 0 value) _ h1 in
    let (w, f, h3) = >>=-eq-ok (throw_if (v == 0) _) _ h2 in
    let positive = throw_if-eq-ok (v == 0) _ f in
    let bound = parse_int-le _ 0 value v (omega arith) e in (ground arith, ground arith)

burst_sound :
    (limit : ℕ) (fields : List Bytes) (n : ℕ)
    → limit ≤ int_max
    → parse_burst limit fields ≡ ok n
    → n ≤ int_max
unfolding parse_burst
burst_sound limit [] n b h = ground arith
burst_sound limit (field ∷ fields) n b h = elim (Bool-cases (is_empty field)) [
  | inl e ↦ let k : ok limit ≡ ok n = rw e at h in ground arith
  | inr e ↦ (parse_positive_int_sound field "burst" n (rw e at h)).1
]

one_of_units : (value front : Bytes) (last : ℕ) → 1 ≤ (by_unit value front last).1
one_of_units value front last = ground arith

unit_positive : (value : Bytes) (o : Option (Bytes × ℕ)) → 1 ≤ (unit_of value o).1
unit_positive value none = omega arith
unit_positive value (some (front, last)) = one_of_units value front last

parse_window_seconds_sound :
    (value : Bytes) (n : ℕ) → parse_window_seconds value ≡ ok n → (1 ≤ n) × (n ≤ 1000000000)
unfolding parse_window_seconds
parse_window_seconds_sound value n h =
    let unit = unit_of value (split_last value) in
    let (u, _, h1) = >>=-eq-ok (throw_if (is_empty value) _) _ h in
    let (seconds, e, h2) = >>=-eq-ok (parse_positive_int unit.0 "window") _ h1 in
    let (w, f, h3) = >>=-eq-ok (throw_if (ltb 1000000000 (seconds * unit.1)) _) _ h2 in
    let small = throw_if-eq-ok (ltb 1000000000 (seconds * unit.1)) _ f in
    let g : seconds * unit.1 ≡ n = cc in
    let p = (parse_positive_int_sound unit.0 "window" seconds e).0 in
    let q = unit_positive value (split_last value) in
    let m : 1 ≤ seconds * unit.1 = one-le-mul p q in (ground arith, ground arith)

at_least_bounds :
    (limit burst : ℕ)
    → limit ≤ int_max
    → burst ≤ int_max
    → (limit ≤ at_least limit burst) × (at_least limit burst ≤ int_max)
at_least_bounds limit burst h k = (ground arith, ground arith)

parse_rule_fields-IsRule :
    (fields : List Bytes) (r : Rule) → parse_rule_fields fields ≡ ok r → IsRule r
unfolding parse_rule_fields
parse_rule_fields-IsRule [] r h = cc
parse_rule_fields-IsRule (a ∷ []) r h = cc
parse_rule_fields-IsRule (a ∷ b ∷ []) r h = cc
parse_rule_fields-IsRule (a ∷ b ∷ c ∷ []) r h = cc
parse_rule_fields-IsRule (a ∷ b ∷ c ∷ e ∷ []) r h = cc
parse_rule_fields-IsRule (method ∷ target ∷ key ∷ limit_field ∷ window ∷ more) r h =
    let (kind, pattern) = classify_target_pattern target in
    let (u, _, h1) = >>=-eq-ok (throw_if (is_empty method) _) _ h in
    let (v, _, h2) = >>=-eq-ok (throw_if (is_empty pattern) _) _ h1 in
    let (spec, _, h3) = >>=-eq-ok (parse_key_spec key) _ h2 in
    let (limit, l, h4) = >>=-eq-ok (parse_positive_int limit_field "limit") _ h3 in
    let (seconds, w, h5) = >>=-eq-ok (parse_window_seconds window) _ h4 in
    let (burst, b, h6) = >>=-eq-ok (parse_burst limit more) _ h5 in
    let (l1, l2) = parse_positive_int_sound limit_field "limit" limit l in
    let (w1, w2) = parse_window_seconds_sound window seconds w in
    let b1 = burst_sound limit more burst l2 b in
    let made : Rule = record {
      method_pattern = method;
      target_pattern = pattern;
      target_kind = kind;
      key_type = spec.0;
      key_name = spec.1;
      limit = limit;
      window_seconds = seconds;
      burst = at_least limit burst;
    } in
    let g : made ≡ r = cc in
    let (b2, b3) = at_least_bounds limit burst l2 b1 in subst IsRule g (l1, b2, b3, w1, w2)

parse_rule_line-IsRule : (line : Bytes) (r : Rule) → parse_rule_line line ≡ ok r → IsRule r
unfolding parse_rule_line
parse_rule_line-IsRule line r h = parse_rule_fields-IsRule _ r h

-- A configuration that is read has at least one rule, and in each rule the limit and the window are
-- at least 1, the burst at least the limit, the window at most 10^9 seconds and all of them an
-- `int`.
pub create_rules-IsRule :
    (config_text : Bytes) (rules : List Rule)
    → create_rules config_text ≡ ok rules
    → (rules ≢ []) × All IsRule rules
unfolding create_rules
create_rules-IsRule config_text rules h =
    let (parsed, e, h1) =
      >>=-eq-ok (parse_config (bytes "rule=") parse_rule_line config_text) _ h in
    let (u, f, h2) = >>=-eq-ok (throw_if (is_empty parsed) _) _ h1 in
    let g : parsed ≡ rules = cc in
    let some_rule = throw_if-eq-ok (is_empty parsed) _ f in
    subst (λ rs. (rs ≢ []) × All IsRule rs) g
      (
        λ n. (let k : true ≡ false = rw n at some_rule in cc),
        parse_config-All (bytes "rule=") parse_rule_line IsRule parse_rule_line-IsRule config_text
            parsed e,
      )
