-- ===== src/Modules/JwtAuth/Json/Numbers.antt =====
-- Reading a number that was printed.
use garcon.Prelude.{
  ℕ, ◌≡◌, refl, Bool, true, false, some, [], ◌∷◌, ◌++◌, ◌+◌, ◌-◌, ◌*◌, ◌≤◌, ◌<◌, all, arith, leb,
  ◌==◌, if◌then◌else◌, Result, ok, undefined, Bool-cases, inl, inr,
}
use garcon.Prelude.Integers.{ℤ, pos}
use garcon.Text.{Bytes, cut_at, is_space, is_digit}
use garcon.Text.Decimal.{decimal, decimal-le}
use garcon.Modules.JwtAuth.Json.{
  long_max, searched, skip_spaces, read_digits, read_int, extract_json_int,
}

-- What stands behind the digits does not begin with one.
abbrev pub Ended : Bytes → Type 0
Ended [] = Unit
Ended (c ∷ rest) = is_digit c ≡ false

read_digits-append :
    (v : ℕ) (s rest : Bytes)
    → all is_digit s ≡ true
    → Ended rest
    → decimal v s ≤ long_max
    → read_digits v true (s ++ rest) ≡ ok (some (decimal v s))
unfolding read_digits decimal
read_digits-append v [] [] d e h = refl
read_digits-append v [] (c ∷ rest) d e h = rw e refl
read_digits-append v (c ∷ s) rest d e h = ground (
  arith,
  decimal-le (v * 10 + (c - b'0')) s,
  read_digits-append (v * 10 + (c - b'0')) s rest (ground arith) e h,
)

read_digits_overflow :
    (v : ℕ) (seen : Bool) (s rest : Bytes)
    → all is_digit s ≡ true
    → v ≤ long_max
    → long_max < decimal v s
    → read_digits v seen (s ++ rest) ≡ undefined
unfolding read_digits decimal
read_digits_overflow v seen [] rest d b h = absurd (omega arith)
read_digits_overflow v seen (c ∷ s) rest d b h =
    ground (arith, read_digits_overflow (v * 10 + (c - b'0')) true s rest)

skip_spaces-append :
    (spaces : Bytes) (c : ℕ) (s : Bytes)
    → all is_space spaces ≡ true
    → is_digit c ≡ true
    → skip_spaces (spaces ++ (c ∷ s)) ≡ c ∷ s
unfolding skip_spaces is_space is_digit
skip_spaces-append [] c s h d = ground arith
skip_spaces-append (b ∷ spaces) c s h d = ground (arith, skip_spaces-append spaces c s)

-- The number for which digits stand, where a `long long` can hold it.
abbrev pub number_of : Bytes → Result ℤ
number_of digits =
    if leb (decimal 0 digits) long_max then ok (pos (decimal 0 digits)) else undefined

digit_is_no_minus : (c : ℕ) → is_digit c ≡ true → (c == b'-') ≡ false
unfolding is_digit
digit_is_no_minus c h = ground arith

read_digits-first :
    (c : ℕ) (s rest : Bytes)
    → all is_digit (c ∷ s) ≡ true
    → Ended rest
    → decimal 0 (c ∷ s) ≤ long_max
    → read_digits 0 false (c ∷ (s ++ rest)) ≡ ok (some (decimal 0 (c ∷ s)))
unfolding read_digits decimal
read_digits-first c s rest d e h = ground (
  arith,
  decimal-le (0 * 10 + (c - b'0')) s,
  read_digits-append (0 * 10 + (c - b'0')) s rest (ground arith) e h,
)

read_int-digits :
    (def : ℤ) (c : ℕ) (s rest : Bytes)
    → all is_digit (c ∷ s) ≡ true
    → Ended rest
    → read_int def (c ∷ (s ++ rest)) ≡ number_of (c ∷ s)
unfolding read_int
read_int-digits def c s rest d e = elim (Bool-cases (leb (decimal 0 (c ∷ s)) long_max)) [
  | inl h ↦
      rw (digit_is_no_minus c (ground arith), h, read_digits-first c s rest d e (ground arith)) refl
  | inr h ↦
      rw
        (
          digit_is_no_minus c (ground arith),
          h,
          read_digits_overflow 0 false (c ∷ s) rest d (omega arith) (ground arith),
        )
        refl
]

-- Where spaces and digits stand behind the claim's first `"name":`, the claim is the number of the
-- digits, and above the greatest `long long` the behaviour is undefined.
pub extract_json_int-digits :
    (payload claim : Bytes) (def : ℤ) (before spaces : Bytes) (c : ℕ) (s rest : Bytes)
    → cut_at (searched claim "\":") payload ≡ some (before, spaces ++ (c ∷ (s ++ rest)))
    → all is_space spaces ≡ true
    → all is_digit (c ∷ s) ≡ true
    → Ended rest
    → extract_json_int payload claim def ≡ number_of (c ∷ s)
unfolding extract_json_int
extract_json_int-digits payload claim def before spaces c s rest h p d e =
    rw (extract_json_int, h, skip_spaces-append spaces c (s ++ rest) p (ground arith))
      (read_int-digits def c s rest d e)
