-- ===== src/Http/Request/Printed.antt =====
-- A request as a client sends it, and its fields read back.
use garcon.Prelude.{
  ℕ, ◌≡◌, refl, ap, ◌∙◌, true, false, some, List, [], ◌∷◌, ◌++◌, map, All, all, arith, is_empty,
  ◌||◌, append-nil,
}
use garcon.Prelude.Expected.{expected}
use garcon.Text.{Bytes, has}
use garcon.Text.Search.{cut_at-append, all-has, has-append}
use garcon.Text.Trim.{IsTrimmed, trim_by-surrounded}
use garcon.Http.Header.{HeaderField, is_valid_header_name, is_token_char}
use garcon.Http.Request.{
  Request, is_target_char, parse_headers, parse_header_line, parse_header_parts, crlf_pieces,
  is_valid_header_value, is_value_char, is_optional_whitespace, trim_optional_whitespace,
  front_is_blank, version_string,
}
use garcon.Http.Request.Valid.{IsField}

abbrev pub crlf : Bytes
crlf = b'\r' ∷ b'\n' ∷ []

unfoldable pub print_field : HeaderField → Bytes
print_field h = h.name ++ (b':' ∷ b' ' ∷ h.value)

unfoldable pub print_headers : List HeaderField → Bytes
print_headers [] = crlf
print_headers (h ∷ hs) = print_field h ++ (crlf ++ print_headers hs)

-- A request as a client sends it.
unfoldable pub print : Request → Bytes
print r =
    (r.method ++ (b' ' ∷ (r.target ++ (b' ' ∷ version_string r))))
    ++ (crlf ++ print_headers r.headers)

-- The search for line ends stops at the first one.
pub crlf_pieces-append :
    (line rest : Bytes)
    → has b'\r' line ≡ false
    → crlf_pieces (line ++ (crlf ++ rest)) ≡ line ∷ crlf_pieces rest
unfolding crlf_pieces has
crlf_pieces-append [] rest h = refl
crlf_pieces-append (c ∷ []) rest h = ground arith
crlf_pieces-append (c ∷ d ∷ line) rest h = ground (arith, crlf_pieces-append (d ∷ line) rest)

name-has :
    (d : ℕ) (name : Bytes)
    → is_token_char d ≡ false
    → is_valid_header_name name ≡ true
    → has d name ≡ false
unfolding is_valid_header_name
name-has d name h k = all-has is_token_char d name h (ground arith)

value-has :
    (d : ℕ) (value : Bytes)
    → is_value_char d ≡ false
    → is_valid_header_value value ≡ true
    → has d value ≡ false
unfolding is_valid_header_value
value-has d value h k = all-has is_value_char d value h k

-- The bytes that the tests of names, values and targets refuse.
pub token_refuses :
    (is_token_char b' ' ≡ false)
    × (is_token_char b'\r' ≡ false)
    × (is_token_char b':' ≡ false)
    × (is_token_char b'\t' ≡ false)
unfolding is_token_char
token_refuses = (refl, refl, refl, refl)

value_refuses : is_value_char b'\r' ≡ false
unfolding is_value_char
value_refuses = refl

pub target_refuses : (is_target_char b' ' ≡ false) × (is_target_char b'\r' ≡ false)
unfolding is_target_char
target_refuses = (refl, refl)

print_field-has : (h : HeaderField) → IsField h → has b'\r' (print_field h) ≡ false
unfolding print_field has
print_field-has h v = ground (
  arith,
  has-append b'\r' h.name (b':' ∷ b' ' ∷ h.value),
  name-has b'\r' h.name token_refuses.1,
  value-has b'\r' h.value value_refuses,
)

front_not_blank :
    (name rest : Bytes)
    → is_valid_header_name name ≡ true
    → (is_empty (name ++ rest) || front_is_blank (name ++ rest)) ≡ false
unfolding is_valid_header_name is_optional_whitespace
front_not_blank [] rest h = cc
front_not_blank (c ∷ name) rest h = ground (arith, token_refuses)

trim-value :
    (value : Bytes)
    → IsTrimmed is_optional_whitespace value
    → trim_optional_whitespace (b' ' ∷ value) ≡ value
unfolding trim_optional_whitespace
trim-value value t =
    let whole = trim_by-surrounded is_optional_whitespace (b' ' ∷ []) value [] blank t refl in
    rw append-nil at whole
  where
    blank : all is_optional_whitespace (b' ' ∷ []) ≡ true
    blank = unfold is_optional_whitespace in refl

name_not_empty : (name : Bytes) → is_valid_header_name name ≡ true → is_empty name ≡ false
unfolding is_valid_header_name
name_not_empty [] h = cc
name_not_empty (c ∷ name) h = refl

parse_header_parts_valid :
    (h : HeaderField) → IsField h → parse_header_parts (some (h.name, b' ' ∷ h.value)) ≡ some h
unfolding parse_header_parts
parse_header_parts_valid h v =
    ground (arith, trim-value h.value v.trimmed, name_not_empty h.name v.name_valid)

parse_header_line-print_field :
    (h : HeaderField) → IsField h → parse_header_line (print_field h) ≡ some h
unfolding parse_header_line print_field
parse_header_line-print_field h v = ground (
  arith,
  front_not_blank h.name (b':' ∷ b' ' ∷ h.value) v.name_valid,
  cut_at-append b':' [] h.name (b' ' ∷ h.value) (name-has b':' h.name token_refuses.2 v.name_valid),
  parse_header_parts_valid h v,
)

pub crlf_pieces-print_headers :
    (hs : List HeaderField)
    → All IsField hs
    → crlf_pieces (print_headers hs) ≡ map print_field hs ++ ([] ∷ [] ∷ [])
unfolding print_headers
crlf_pieces-print_headers [] v = unfold crlf_pieces in refl
crlf_pieces-print_headers (h ∷ hs) v =
    crlf_pieces-append (print_field h) (print_headers hs) (print_field-has h v.0)
    ∙ ap (◌∷◌ (print_field h)) (crlf_pieces-print_headers hs v.1)

print_field-ne-nil : (h : HeaderField) → IsField h → is_empty (print_field h) ≡ false
unfolding print_field
print_field-ne-nil h v = nonempty h.name (b' ' ∷ h.value)
  where
    nonempty : (a : Bytes) (b : Bytes) → is_empty (a ++ (b':' ∷ b)) ≡ false
    nonempty [] b = refl
    nonempty (c ∷ a) b = refl

-- The lines of printed fields are read back, up to the empty line.
pub parse_headers-print_field :
    (hs : List HeaderField)
    → All IsField hs
    → parse_headers (map print_field hs ++ ([] ∷ [] ∷ [])) ≡ expected hs
unfolding parse_headers
parse_headers-print_field [] v = refl
parse_headers-print_field (h ∷ []) v =
    ground (arith, print_field-ne-nil h v.0, parse_header_line-print_field h v.0)
parse_headers-print_field (h ∷ g ∷ hs) v = ground (
  arith,
  print_field-ne-nil h v.0,
  parse_header_line-print_field h v.0,
  parse_headers-print_field (g ∷ hs) v.1,
)
