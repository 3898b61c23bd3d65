-- ===== src/Text.antt =====
-- Text as the program walks it: `std::string` and `std::string_view` as lists of bytes, a view as
-- the text that it shows. The helpers are those that request.cpp, module_config.cpp and the modules
-- under lib/ each define for themselves.
pub mod Search
pub mod Trim
pub mod Fields
pub mod Case
pub mod Decimal
pub mod Map
use Prim.Native.Char.{code}
use Prim.Native.String.{String}
use mathlib.Core.Option
use garcon.Prelude.{
  ℕ, zero, suc, ◌++◌, ◌/◌, ◌%◌, ◌+◌, ◌-◌, ◌*◌, ◌≡◌, Bool, true, false, ◌&&◌, ◌||◌, Option, none,
  some, List, [], ◌∷◌, map, length, take, drop, is_empty, all, any, leb, ltb, ◌==◌, if◌then◌else◌,
  Result, ok, throw, undefined,
}

abbrev pub Bytes : Type 0
Bytes = List ℕ

-- The bytes of an ASCII literal of the source.
abbrev pub bytes : String → Bytes
bytes String.[] = []
bytes (String.◌∷◌ c s) = code c ∷ bytes s

-- `left == right`
unfoldable pub equal : Bytes → Bytes → Bool
equal [] [] = true
equal [] (c ∷ cs) = false
equal (b ∷ bs) [] = false
equal (b ∷ bs) (c ∷ cs) = b == c && equal bs cs

-- `value.find(c) != npos`
unfoldable pub has : ℕ → Bytes → Bool
has c s = any (λ b. b == c) s

-- `value.substr(0, prefix.size()) == prefix`
unfoldable pub starts_with : Bytes → Bytes → Bool
starts_with prefix value = equal (take (length prefix) value) prefix

abbrev push_found : ℕ → Option (Bytes × Bytes) → Option (Bytes × Bytes)
push_found c none = none
push_found c (some (before, after)) = some (c ∷ before, after)

-- `value.find(needle)`, with the position given as the text before the first occurrence and the
-- text behind it.
unfoldable pub cut_at : Bytes → Bytes → Option (Bytes × Bytes)
unfolding starts_with equal
cut_at needle [] = if is_empty needle then some ([], []) else none
cut_at needle (c ∷ cs) =
    let later = push_found c (cut_at needle cs) in
    if starts_with needle (c ∷ cs) then some ([], drop (length needle) (c ∷ cs)) else later

abbrev pub push_piece : ℕ → List Bytes → List Bytes
push_piece c [] = (c ∷ []) ∷ []
push_piece c (field ∷ fields) = (c ∷ field) ∷ fields

-- The texts `value.substr(begin, end - begin)` of the rounds of the loops over lines and fields,
-- where `end` is the next delimiter or the end of the text.
unfoldable pub pieces : ℕ → Bytes → List Bytes
pieces delimiter [] = [] ∷ []
pieces delimiter (c ∷ cs) =
    let rest = pieces delimiter cs in if c == delimiter then [] ∷ rest else push_piece c rest

drop_begin : (ℕ → Bool) → Bytes → Bytes
drop_begin p [] = []
drop_begin p (c ∷ cs) = let rest = drop_begin p cs in if p c then rest else c ∷ cs

drop_end : (ℕ → Bool) → Bytes → Bytes
drop_end p [] = []
drop_end p (c ∷ cs) = let rest = drop_end p cs in if p c && is_empty rest then [] else c ∷ rest

-- The two loops that narrow `[begin, end)`.
unfoldable pub trim_by : (ℕ → Bool) → Bytes → Bytes
unfolding drop_begin drop_end
trim_by p value = drop_end p (drop_begin p value)

-- `std::isspace` in the C locale
unfoldable pub is_space : ℕ → Bool
is_space c = c == b' ' || leb 9 c && leb c 13

unfoldable pub trim : Bytes → Bytes
unfolding trim_by is_space
trim value = trim_by is_space value

unfoldable pub split_fields : Bytes → ℕ → List Bytes
unfolding pieces trim
split_fields value delimiter = map trim (pieces delimiter value)

unfoldable pub ascii_lower : ℕ → ℕ
ascii_lower ch = if leb b'A' ch && leb ch b'Z' then ch - b'A' + b'a' else ch

unfoldable pub ascii_lowercase : Bytes → Bytes
unfolding ascii_lower
ascii_lowercase value = map ascii_lower value

same_lower : Bytes → Bytes → Bool
unfolding ascii_lower
same_lower [] right = true
same_lower (l ∷ ls) [] = false
same_lower (l ∷ ls) (r ∷ rs) = ascii_lower l == ascii_lower r && same_lower ls rs

-- The sizes first, then the bytes one by one.
unfoldable pub ascii_iequals : Bytes → Bytes → Bool
unfolding same_lower
ascii_iequals left right = if length left == length right then same_lower left right else false

unfoldable pub is_digit : ℕ → Bool
is_digit ch = leb b'0' ch && leb ch b'9'

abbrev pub int_max : ℕ
int_max = 2147483647

-- `v = v * 10 + (ch - '0')` on `int`, for each byte. A sum above INT_MAX is undefined behaviour.
unfoldable pub parse_int : String → ℕ → Bytes → Result ℕ
unfolding is_digit
parse_int invalid v [] = ok v
parse_int invalid v (ch ∷ rest) =
    let more = parse_int invalid (v * 10 + (ch - b'0')) rest in
    if is_digit ch
    then if leb (v * 10 + (ch - b'0')) int_max then more else undefined
    else throw invalid

-- The decimal digits of a number, most significant first. A number has no more digits than its
-- value, so the fuel of `to_string` does not run out.
print_digits : ℕ → ℕ → Bytes
print_digits zero n = []
print_digits (suc fuel) n =
    let more = print_digits fuel (n / 10) ++ ((n % 10 + b'0') ∷ []) in
    if ltb n 10 then (n + b'0') ∷ [] else more

-- `std::to_string`, and `<<` of a number.
unfoldable pub to_string : ℕ → Bytes
unfolding print_digits
to_string n = print_digits (suc n) n
