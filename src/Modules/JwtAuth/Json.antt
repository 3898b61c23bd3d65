-- ===== src/Modules/JwtAuth/Json.antt =====
-- `extract_json_string` and `extract_json_int`, which search the text of a flat JSON object.
pub mod Numbers
use Prim.Native.String.{String}
use garcon.Prelude.{
  ℕ, Bool, true, false, Option, none, some, List, [], ◌∷◌, ◌++◌, ◌+◌, ◌-◌, ◌*◌, leb, ◌==◌,
  if◌then◌else◌, Result, ok, undefined, ◌>>=◌,
}
use garcon.Prelude.Integers.{ℤ, pos, negate}
use garcon.Text.{Bytes, bytes, cut_at, is_space, is_digit}

unfoldable pub read_string : Bool → Bytes → Bytes
read_string escape [] = []
read_string true (c ∷ cs) = c ∷ read_string false cs
read_string false (c ∷ cs) =
    let escaped = read_string true cs in
    let more = read_string false cs in
    if c == b'\\' then escaped else if c == b'"' then [] else c ∷ more

-- `"\"" + claim + end`
unfoldable pub searched : Bytes → String → Bytes
searched claim end = b'"' ∷ (claim ++ bytes end)

unfoldable pub extract_json_string : Bytes → Bytes → Bytes
unfolding read_string searched cut_at
extract_json_string payload claim = elim (cut_at (searched claim "\":\"") payload) [
  | some (before, after) ↦ read_string false after
  | none ↦ elim (cut_at (searched claim "\": \"") payload) [
    | some (before, after) ↦ read_string false after
    | none ↦ []
  ]
]

-- The greatest `long long`
abbrev pub long_max : ℕ
long_max = 9223372036854775807

unfoldable pub skip_spaces : Bytes → Bytes
unfolding is_space
skip_spaces [] = []
skip_spaces (c ∷ cs) = let rest = skip_spaces cs in if is_space c then rest else c ∷ cs

abbrev if_seen : Bool → ℕ → Option ℕ
if_seen true v = some v
if_seen false v = none

-- The loop over the digits; a value above `long_max` is undefined behaviour.
unfoldable pub read_digits : ℕ → Bool → Bytes → Result (Option ℕ)
unfolding is_digit
read_digits v seen [] = ok (if_seen seen v)
read_digits v seen (c ∷ cs) =
    let more = read_digits (v * 10 + (c - b'0')) true cs in
    if is_digit c
    then if leb (v * 10 + (c - b'0')) long_max then more else undefined
    else ok (if_seen seen v)

abbrev int_or : ℤ → (ℕ → ℤ) → Option ℕ → ℤ
int_or def sign none = def
int_or def sign (some v) = sign v

unfoldable pub read_int : ℤ → Bytes → Result ℤ
unfolding read_digits
read_int def [] = ok def
read_int def (c ∷ cs) =
    if c == b'-'
    then (read_digits 0 false cs >>= λ digits. ok (int_or def negate digits))
    else (read_digits 0 false (c ∷ cs) >>= λ digits. ok (int_or def pos digits))

unfoldable pub extract_json_int : Bytes → Bytes → ℤ → Result ℤ
unfolding searched read_int skip_spaces cut_at
extract_json_int payload claim def = elim (cut_at (searched claim "\":") payload) [
  | none ↦ ok def
  | some (before, after) ↦ read_int def (skip_spaces after)
]
