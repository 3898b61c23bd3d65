-- ===== src/App/CommandLine/Numbers.antt =====
-- Numbers on the command line.
use mathlib.Core.Option
use garcon.Prelude.{
  ℕ, ◌≡◌, refl, true, false, Option, none, some, [], ◌∷◌, all, is_empty, arith, ◌==◌, ◌≤◌,
}
use garcon.Prelude.Integers.{ℤ, pos, negsuc}
use garcon.Text.{Bytes, is_digit, int_max, to_string}
use garcon.Text.Decimal.{decimal-to_string, all-is_digit-to_string, is_empty-to_string}
use garcon.App.CommandLine.{
  CliOptions, from_chars, from_chars_int, port_of, positive, parse_port, parse_count, size_max,
}

abbrev pub IsPort : ℕ → Type 0
IsPort n = (1 ≤ n) × (n ≤ 65535)

abbrev pub IsCount : ℕ → Type 0
IsCount n = (1 ≤ n) × (n ≤ size_max)

abbrev pub IfSet : (ℕ → Type 0) → Option ℕ → Type 0
IfSet P none = Unit
IfSet P (some n) = P n

-- The numbers that are set are in their ranges.
abbrev pub IsInRange : CliOptions → Type 0
IsInRange out =
    IfSet IsPort out.port
    × IfSet IsCount out.worker_threads
    × IfSet IsCount out.connection_queue_capacity

port_of_sound : (o : Option ℤ) (n : ℕ) → port_of o ≡ some n → (1 ≤ n) × (n ≤ 65535)
port_of_sound none n h = cc
port_of_sound (some (pos m)) n h = (ground arith, ground arith)
port_of_sound (some (negsuc m)) n h = cc

pub parse_port_sound : (value : Bytes) (n : ℕ) → parse_port value ≡ some n → (1 ≤ n) × (n ≤ 65535)
unfolding parse_port
parse_port_sound value n h = port_of_sound (from_chars_int value) n h

from_chars_le : (max : ℕ) (value : Bytes) (n : ℕ) → from_chars max value ≡ some n → n ≤ max
unfolding from_chars
from_chars_le max value n h = ground arith

positive_sound : (o : Option ℕ) (n : ℕ) → positive o ≡ some n → (o ≡ some n) × (1 ≤ n)
positive_sound none n h = cc
positive_sound (some m) n h = (ground arith, ground arith)

pub parse_count_sound :
    (value : Bytes) (n : ℕ) → parse_count value ≡ some n → (1 ≤ n) × (n ≤ size_max)
unfolding parse_count
parse_count_sound value n h =
    let (e, p) = positive_sound (from_chars size_max value) n h in
    (p, from_chars_le size_max value n e)

from_chars-to_string : (max n : ℕ) → n ≤ max → from_chars max (to_string n) ≡ some n
unfolding from_chars
from_chars-to_string max n h =
    rw (from_chars, is_empty-to_string n, all-is_digit-to_string n, decimal-to_string n)
      (ground arith)

pub parse_count-to_string : (n : ℕ) → 1 ≤ n → n ≤ size_max → parse_count (to_string n) ≡ some n
unfolding parse_count
parse_count-to_string n h k = rw (parse_count, from_chars-to_string size_max n k) (ground arith)

from_chars_int-digits :
    (s : Bytes)
    → is_empty s ≡ false
    → all is_digit s ≡ true
    → from_chars_int s ≡ Option.map pos (from_chars int_max s)
unfolding from_chars_int is_digit
from_chars_int-digits [] h k = cc
from_chars_int-digits (c ∷ s) h k = let minus : (c == b'-') ≡ false = ground arith in rw minus refl

pub parse_port-to_string : (n : ℕ) → 1 ≤ n → n ≤ 65535 → parse_port (to_string n) ≡ some n
unfolding parse_port
parse_port-to_string n h k =
    rw
      (
        parse_port,
        from_chars_int-digits (to_string n) (is_empty-to_string n) (all-is_digit-to_string n),
        from_chars-to_string int_max n (omega arith),
      )
      (ground arith)
