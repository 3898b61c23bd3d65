-- ===== src/Text/Decimal.antt =====
-- Numbers in configuration text.
use Prim.Native.String.{String}
use garcon.Prelude.{
  is_empty, false, ℕ, zero, suc, ◌+◌, ◌/◌, ◌%◌, ltb, Bool-cases, inl, inr, ◌++◌, ◌∙◌, all-append,
  ◌-◌, ◌*◌, ◌≤◌, ◌<◌, ◌≡◌, refl, true, [], ◌∷◌, all, arith, ok, undefined,
}
use garcon.Text.{Bytes, is_digit, int_max, parse_int, print_digits, to_string}

-- The number that a text of digits stands for, behind digits worth `v`.
unfoldable pub decimal : ℕ → Bytes → ℕ
decimal v [] = v
decimal v (c ∷ s) = decimal (v * 10 + (c - b'0')) s

pub decimal-le : (v : ℕ) (s : Bytes) → v ≤ decimal v s
unfolding decimal
decimal-le v [] = omega arith
decimal-le v (c ∷ s) = omega (arith, decimal-le (v * 10 + (c - b'0')) s)

pub parse_int_sound :
    (e : String) (v : ℕ) (s : Bytes) (n : ℕ)
    → parse_int e v s ≡ ok n
    → (all is_digit s ≡ true) × (decimal v s ≡ n)
unfolding parse_int decimal
parse_int_sound e v [] n h = (refl, ground arith)
parse_int_sound e v (c ∷ s) n h = ground (arith, parse_int_sound e (v * 10 + (c - b'0')) s n)

-- What is read is an `int`.
pub parse_int-le :
    (e : String) (v : ℕ) (s : Bytes) (n : ℕ) → v ≤ int_max → parse_int e v s ≡ ok n → n ≤ int_max
unfolding parse_int
parse_int-le e v [] n b h = ground arith
parse_int-le e v (c ∷ s) n b h = ground (arith, parse_int-le e (v * 10 + (c - b'0')) s n)

pub parse_int_complete :
    (e : String) (v : ℕ) (s : Bytes)
    → all is_digit s ≡ true
    → decimal v s ≤ int_max
    → parse_int e v s ≡ ok (decimal v s)
unfolding parse_int decimal
parse_int_complete e v [] h k = refl
parse_int_complete e v (c ∷ s) h k =
    ground (arith, parse_int_complete e (v * 10 + (c - b'0')) s, decimal-le (v * 10 + (c - b'0')) s)

-- Digits worth more than INT_MAX overflow the `int`.
pub parse_int_overflow :
    (e : String) (v : ℕ) (s : Bytes)
    → all is_digit s ≡ true
    → v ≤ int_max
    → int_max < decimal v s
    → parse_int e v s ≡ undefined
unfolding parse_int decimal
parse_int_overflow e v [] h b k = absurd (omega arith)
parse_int_overflow e v (c ∷ s) h b k = ground (arith, parse_int_overflow e (v * 10 + (c - b'0')) s)

decimal-append :
    (v : ℕ) (s : Bytes) (c : ℕ) → decimal v (s ++ (c ∷ [])) ≡ decimal v s * 10 + (c - b'0')
unfolding decimal
decimal-append v [] c = refl
decimal-append v (d ∷ s) c = decimal-append (v * 10 + (d - b'0')) s c

decimal-print_digits : (fuel n : ℕ) → n < fuel → decimal 0 (print_digits fuel n) ≡ n
unfolding print_digits
decimal-print_digits zero n h = absurd (omega arith)
decimal-print_digits (suc fuel) n h = elim (Bool-cases (ltb n 10)) [
  | inl small ↦ rw small (unfold decimal in omega arith)
  | inr large ↦ rw large (
      decimal-append 0 (print_digits fuel (n / 10)) (n % 10 + b'0')
      ∙ tens n (decimal-print_digits fuel (n / 10) (ground arith)))
]
  where
    tens : (n : ℕ) {d : ℕ} → d ≡ n / 10 → d * 10 + (n % 10 + b'0' - b'0') ≡ n
    tens n e = omega arith

-- What is printed stands for the number.
pub decimal-to_string : (n : ℕ) → decimal 0 (to_string n) ≡ n
unfolding to_string
decimal-to_string n = decimal-print_digits (suc n) n (omega arith)

all-is_digit-print_digits : (fuel n : ℕ) → all is_digit (print_digits fuel n) ≡ true
unfolding print_digits is_digit
all-is_digit-print_digits zero n = refl
all-is_digit-print_digits (suc fuel) n = ground (
  arith,
  all-append is_digit (print_digits fuel (n / 10)) ((n % 10 + b'0') ∷ []),
  all-is_digit-print_digits fuel (n / 10),
)

pub all-is_digit-to_string : (n : ℕ) → all is_digit (to_string n) ≡ true
unfolding to_string
all-is_digit-to_string n = all-is_digit-print_digits (suc n) n

is_empty-snoc : (s : Bytes) (c : ℕ) → is_empty (s ++ (c ∷ [])) ≡ false
is_empty-snoc [] c = refl
is_empty-snoc (b ∷ s) c = refl

-- A number is printed in at least one digit.
pub is_empty-to_string : (n : ℕ) → is_empty (to_string n) ≡ false
unfolding to_string print_digits
is_empty-to_string n = elim (Bool-cases (ltb n 10)) [
  | inl small ↦ rw small refl
  | inr large ↦ rw large (is_empty-snoc (print_digits n (n / 10)) (n % 10 + b'0'))
]
