-- ===== src/Modules/Config/Status.antt =====
-- Status codes in the configuration.
use Prim.Native.String.{String, ◌++◌}
use garcon.Prelude.{
  ℕ, ◌≡◌, ◌≤◌, ◌<◌, refl, true, [], ◌∷◌, all, arith, ok, throw, Result, undefined, throw_if, ltb,
  ◌||◌, ◌>>=◌,
}
use garcon.Text.{Bytes, is_digit, int_max, parse_int}
use garcon.Text.Decimal.{decimal, parse_int_sound, parse_int_complete, parse_int_overflow}
use garcon.Modules.Config.{parse_status_code}

-- A status code that is read is the decimal value of its digits, and has three of them but for
-- leading zeros.
pub parse_status_code_sound :
    (module_name : String) (value : Bytes) (status : ℕ)
    → parse_status_code module_name value ≡ ok status
    → (all is_digit value ≡ true) × (decimal 0 value ≡ status) × (100 ≤ status) × (status ≤ 999)
unfolding parse_status_code decimal
parse_status_code_sound module_name [] status h = absurd cc
parse_status_code_sound module_name (c ∷ s) status h = go (parse_int _ 0 (c ∷ s)) refl
  where
    go :
        (r : Result ℕ)
        → parse_int (module_name ++ "invalid status code") 0 (c ∷ s) ≡ r
        → (all is_digit (c ∷ s) ≡ true)
          × (decimal 0 (c ∷ s) ≡ status)
          × (100 ≤ status)
          × (status ≤ 999)
    go (ok n) e =
        let k : (throw_if (ltb n 100 || ltb 999 n) (module_name ++ "status code out of range")
              >>= λ _. ok n)
            ≡ ok status =
          rw e at h in
        let (d, v) = parse_int_sound _ 0 (c ∷ s) n e in ground arith
    go (throw m) e = let k : throw m ≡ ok status = rw e at h in absurd cc
    go undefined e = let k : undefined ≡ ok status = rw e at h in absurd cc

-- Every number from 100 to 999, with any leading zeros, is read.
pub parse_status_code_complete :
    (module_name : String) (value : Bytes)
    → all is_digit value ≡ true
    → 100 ≤ decimal 0 value
    → decimal 0 value ≤ 999
    → parse_status_code module_name value ≡ ok (decimal 0 value)
unfolding parse_status_code decimal
parse_status_code_complete module_name [] d l u = absurd (omega arith)
parse_status_code_complete module_name (c ∷ s) d l u =
    rw (parse_int_complete _ 0 (c ∷ s) d (omega arith)) (ground arith)

-- Digits worth more than INT_MAX are no exception but undefined behaviour: the range is looked at
-- behind the loop.
pub parse_status_code_overflow :
    (module_name : String) (value : Bytes)
    → all is_digit value ≡ true
    → int_max < decimal 0 value
    → parse_status_code module_name value ≡ undefined
unfolding parse_status_code decimal
parse_status_code_overflow module_name [] d u = absurd (omega arith)
parse_status_code_overflow module_name (c ∷ s) d u =
    rw (parse_int_overflow _ 0 (c ∷ s) d (omega arith) u)
