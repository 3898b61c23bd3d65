-- ===== src/Http/Request.antt =====
-- request.h and request.cpp: the parsed request, and the parser of a header block.
pub mod Valid
pub mod Printed
pub mod RoundTrip
pub mod KeepAlive
mod Tests
use garcon.Prelude.{
  ℕ, ◌-◌, Bool, true, false, ◌&&◌, ◌||◌, not, Option, none, some, List, [], ◌∷◌, ◌++◌, leb, ltb,
  length, take, drop, is_empty, all, any, ◌==◌, if◌then◌else◌,
}
use garcon.Prelude.Expected.{Expected, expected, unexpected, require, ◌>>=◌, ◌>>◌}
use garcon.Text.{
  Bytes, bytes, equal, has, cut_at, push_piece, pieces, trim_by, ascii_iequals, is_digit, to_string,
}
use garcon.Http.Header.{HeaderField, header_value, is_token_char, is_valid_header_name}

pub data RequestParseError : Type 0 where
  malformed_request_line invalid_method invalid_target invalid_version invalid_header :
      RequestParseError

pub record Request : Type 0 where
  pub version_major : ℕ
  pub version_minor : ℕ
  pub method : Bytes
  pub target : Bytes
  pub headers : List HeaderField

unfoldable pub is_valid_method : Bytes → Bool
unfolding is_token_char
is_valid_method method = if is_empty method then false else all is_token_char method

abbrev front_is : ℕ → Bytes → Bool
front_is c [] = false
front_is c (b ∷ bs) = b == c

pub is_target_char : ℕ → Bool
is_target_char ch =
    if leb ch 0x20 || leb 0x7f ch then false else if ch == b'#' || ch == b'\\' then false else true

unfoldable pub is_valid_target : Bytes → Bool
unfolding is_target_char
is_valid_target target =
    if is_empty target || not (front_is b'/' target) then false else all is_target_char target

unfoldable pub is_valid_version : Bytes → Bool
unfolding equal
is_valid_version version = equal version (bytes "HTTP/1.0") || equal version (bytes "HTTP/1.1")

-- `std::from_chars` on a view of one byte.
abbrev parse_component : Bytes → Option ℕ
parse_component (c ∷ []) = if leb b'0' c && leb c b'9' then some (c - b'0') else none
parse_component _ = none

abbrev both : Option ℕ → Option ℕ → Option (ℕ × ℕ)
both (some major) (some minor) = some (major, minor)
both _ _ = none

pub parse_version : Bytes → Option (ℕ × ℕ)
unfolding equal
parse_version version =
    if not (length version == 8) || not (equal (take 5 version) (bytes "HTTP/"))
    then none
    else if not (front_is b'.' (drop 6 version))
    then none
    else both (parse_component (take 1 (drop 5 version)))
        (parse_component (take 1 (drop 7 version)))

unfoldable pub is_optional_whitespace : ℕ → Bool
is_optional_whitespace ch = ch == b' ' || ch == b'\t'

unfoldable pub trim_optional_whitespace : Bytes → Bytes
unfolding trim_by is_optional_whitespace
trim_optional_whitespace value = trim_by is_optional_whitespace value

is_value_char : ℕ → Bool
is_value_char ch = if ch == b'\t' then true else if ltb ch 0x20 || ch == 0x7f then false else true

unfoldable pub is_valid_header_value : Bytes → Bool
unfolding is_value_char
is_valid_header_value value = all is_value_char value

-- `parse_header_line` behind the search for the colon.
parse_header_parts : Option (Bytes × Bytes) → Option HeaderField
parse_header_parts none = none
parse_header_parts (some (name, rest)) =
    if is_empty name
    then none
    else let value = trim_optional_whitespace rest in
      if not (is_valid_header_name name) || not (is_valid_header_value value)
      then none
      else some (record { name = name; value = value })

abbrev front_is_blank : Bytes → Bool
front_is_blank [] = false
front_is_blank (c ∷ cs) = is_optional_whitespace c

parse_header_line : Bytes → Option HeaderField
parse_header_line line =
    if is_empty line || front_is_blank line
    then none
    else parse_header_parts (cut_at (b':' ∷ []) line)

-- The texts between one CRLF and the next, which the successive `find("\r\n", …)` report; the last
-- is what stands behind the last CRLF.
unfoldable pub crlf_pieces : Bytes → List Bytes
crlf_pieces [] = [] ∷ []
crlf_pieces (c ∷ []) = (c ∷ []) ∷ []
crlf_pieces (c ∷ d ∷ cs) =
    let rest = crlf_pieces cs in
    let longer = push_piece c (crlf_pieces (d ∷ cs)) in
    if c == b'\r' && d == b'\n' then [] ∷ rest else longer

abbrev or_invalid : Option HeaderField → Expected RequestParseError HeaderField
or_invalid none = unexpected invalid_header
or_invalid (some h) = expected h

-- The loop over the header lines. Behind the last CRLF there is no line end left to find.
pub parse_headers : List Bytes → Expected RequestParseError (List HeaderField)
parse_headers [] = unexpected invalid_header
parse_headers (last ∷ []) = unexpected invalid_header
parse_headers (line ∷ next ∷ lines) =
    let more = parse_headers (next ∷ lines) in
    if is_empty line
    then expected []
    else or_invalid (parse_header_line line) >>= λ h. more >>= λ hs. expected (h ∷ hs)

abbrev or_malformed : Option (Bytes × Bytes) → Expected RequestParseError (Bytes × Bytes)
or_malformed none = unexpected malformed_request_line
or_malformed (some p) = expected p

abbrev or_bad_version : Option (ℕ × ℕ) → Expected RequestParseError (ℕ × ℕ)
or_bad_version none = unexpected invalid_version
or_bad_version (some v) = expected v

abbrev space : Bytes
space = b' ' ∷ []

-- `parse` from the three parts of the request line on.
build_request : Bytes → Bytes → Bytes → List Bytes → Expected RequestParseError Request
build_request method target version lines = do
  require (not (has b' ' version)) malformed_request_line
  require (is_valid_method method) invalid_method
  require (is_valid_target target) invalid_target
  require (is_valid_version version) invalid_version
  (major, minor) ← or_bad_version (parse_version version)
  headers ← parse_headers lines
  expected (record {
    version_major = major;
    version_minor = minor;
    method = method;
    target = target;
    headers = headers;
  })

-- `parse`, on the lines.
parse_lines : List Bytes → Expected RequestParseError Request
parse_lines [] = unexpected malformed_request_line
parse_lines (unended ∷ []) = unexpected malformed_request_line
parse_lines (line ∷ next ∷ lines) = do
  (method, behind) ← or_malformed (cut_at space line)
  (target, version) ← or_malformed (cut_at space behind)
  build_request method target version (next ∷ lines)

pub parse : Bytes → Expected RequestParseError Request
parse header_block = parse_lines (crlf_pieces header_block)

-- The loop of `connection_token_present`.
token_among : Bytes → List Bytes → Bool
token_among token [] = false
token_among token (part ∷ parts) =
    if ascii_iequals (trim_optional_whitespace part) token then true else token_among token parts

abbrev token_in : Bytes → Option Bytes → Bool
token_in token none = false
token_in token (some value) = token_among token (pieces b',' value)

pub connection_token_present : Request → Bytes → Bool
connection_token_present r token = token_in token (header_value r.headers (bytes "Connection"))

pub keep_alive_requested : Request → Bool
keep_alive_requested r =
    if r.version_major == 1 && r.version_minor == 0
    then connection_token_present r (bytes "keep-alive")
    else if r.version_major == 1 && r.version_minor == 1
    then not (connection_token_present r (bytes "close"))
    else false

pub version_string : Request → Bytes
version_string r =
    bytes "HTTP/" ++ (to_string r.version_major ++ (bytes "." ++ to_string r.version_minor))
