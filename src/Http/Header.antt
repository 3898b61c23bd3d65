-- ===== src/Http/Header.antt =====
-- header.h, and the look-up that request.h and response.h share.
use mathlib.Core.Option
use garcon.Prelude.{
  ℕ, Bool, false, ◌&&◌, ◌||◌, Option, none, some, List, [], ◌∷◌, leb, is_empty, all, if◌then◌else◌,
}
use garcon.Text.{Bytes, bytes, has, is_digit, ascii_iequals}

pub record HeaderField : Type 0 where
  pub name : Bytes
  pub value : Bytes

-- The same loop as `ascii_iequals`.
unfoldable pub header_name_equals : Bytes → Bytes → Bool
unfolding ascii_iequals
header_name_equals left right = ascii_iequals left right

-- `std::find_if` over the fields.
unfoldable pub find_header : List HeaderField → Bytes → Option HeaderField
unfolding header_name_equals
find_header [] name = none
find_header (h ∷ hs) name = if header_name_equals h.name name then some h else find_header hs name

unfoldable pub header_value : List HeaderField → Bytes → Option Bytes
unfolding find_header
header_value headers name = Option.map (λ h. h.value) (find_header headers name)

unfoldable pub is_alpha : ℕ → Bool
is_alpha ch = leb b'A' ch && leb ch b'Z' || leb b'a' ch && leb ch b'z'

-- The `switch` of request.cpp and of response.cpp.
unfoldable pub is_token_char : ℕ → Bool
unfolding is_alpha is_digit has
is_token_char ch = has ch (bytes "!#$%&'*+-.^_`|~") || (is_alpha ch || is_digit ch)

-- `is_valid_header_name`, `is_valid_method` and `valid_header_name` have one body.
unfoldable pub is_valid_header_name : Bytes → Bool
unfolding is_token_char
is_valid_header_name name = if is_empty name then false else all is_token_char name
