-- ===== src/Http/Request/RoundTrip.antt =====
-- A well-formed request, written out, is read back.
use garcon.Prelude.{
  ℕ, ◌≡◌, ◌⊎◌, refl, sym, ◌∙◌, inl, inr, true, false, some, List, [], ◌∷◌, ◌++◌, arith,
}
use garcon.Prelude.Expected.{expected, unexpected}
use garcon.Text.{Bytes, bytes, has, to_string}
use garcon.Text.Search.{cut_at-append, all-has, has-append}
use garcon.Http.Header.{is_token_char}
use garcon.Http.Request.{
  Request, is_valid_method, is_valid_target, is_target_char, is_valid_version, parse_version,
  parse_headers, parse_lines, parse, build_request, invalid_header, version_string,
}
use garcon.Http.Request.Valid.{WellFormed, parse-WellFormed, parse_http_1_0, parse_http_1_1}
use garcon.Http.Request.Printed.{
  print_headers, print, crlf_pieces-append, token_refuses, target_refuses,
  crlf_pieces-print_headers, parse_headers-print_field,
}

version_known :
    (r : Request)
    → WellFormed r
    → (version_string r ≡ bytes "HTTP/1.0") × (r.version_minor ≡ 0)
      ⊎ (version_string r ≡ bytes "HTTP/1.1") × (r.version_minor ≡ 1)
unfolding version_string to_string
version_known r w = elim w.minor_known [
  | inl e ↦ inl (rw (w.major_one, e) refl, e)
  | inr e ↦ inr (rw (w.major_one, e) refl, e)
]

-- A version string is accepted, stands for its number, and holds no blank and no line end.
record Version (v : Bytes) (minor : ℕ) : Type 0 where
  valid : is_valid_version v ≡ true
  parsed : parse_version v ≡ some (1, minor)
  no_space : has b' ' v ≡ false
  no_end : has b'\r' v ≡ false

http_1_0 : Version (bytes "HTTP/1.0") 0
unfolding is_valid_version has
http_1_0 = record { valid = refl; parsed = parse_http_1_0; no_space = refl; no_end = refl }

http_1_1 : Version (bytes "HTTP/1.1") 1
unfolding is_valid_version has
http_1_1 = record { valid = refl; parsed = parse_http_1_1; no_space = refl; no_end = refl }

version_string-Version : (r : Request) → WellFormed r → Version (version_string r) r.version_minor
version_string-Version r w = elim (version_known r w) [
  | inl (text, minor) ↦ rw (text, minor) http_1_0
  | inr (text, minor) ↦ rw (text, minor) http_1_1
]

method-has :
    (d : ℕ) (method : Bytes)
    → is_token_char d ≡ false
    → is_valid_method method ≡ true
    → has d method ≡ false
unfolding is_valid_method
method-has d method h k = all-has is_token_char d method h (ground arith)

target-has :
    (d : ℕ) (target : Bytes)
    → is_target_char d ≡ false
    → is_valid_target target ≡ true
    → has d target ≡ false
unfolding is_valid_target
target-has d target h k = all-has is_target_char d target h (ground arith)

abbrev request_line : Request → Bytes
request_line r = r.method ++ (b' ' ∷ (r.target ++ (b' ' ∷ version_string r)))

request_line-has : (r : Request) → WellFormed r → has b'\r' (request_line r) ≡ false
unfolding has
request_line-has r w = ground (
  arith,
  has-append b'\r' r.method (b' ' ∷ (r.target ++ (b' ' ∷ version_string r))),
  has-append b'\r' r.target (b' ' ∷ version_string r),
  method-has b'\r' r.method token_refuses.1 w.method_valid,
  target-has b'\r' r.target target_refuses.1 w.target_valid,
  (version_string-Version r w).no_end,
)

build_request-print :
    (r : Request) (lines : List Bytes)
    → WellFormed r
    → parse_headers lines ≡ expected r.headers
    → build_request r.method r.target (version_string r) lines ≡ expected r
unfolding build_request
build_request-print r lines w h =
    let v = version_string-Version r w in
    ground (arith, w.method_valid, w.target_valid, w.major_one, v.valid, v.parsed, v.no_space)

parse_headers_nil : parse_headers [] ≡ unexpected invalid_header
unfolding parse_headers
parse_headers_nil = refl

parse_lines-request_line :
    (r : Request) (lines : List Bytes)
    → WellFormed r
    → parse_headers lines ≡ expected r.headers
    → parse_lines (request_line r ∷ lines) ≡ expected r
unfolding parse_lines
parse_lines-request_line r [] w h = cc (parse_headers_nil)
parse_lines-request_line r (next ∷ lines) w h =
    rw
      (cut_at-append b' ' [] r.method (r.target ++ (b' ' ∷ version_string r))
        (method-has b' ' r.method token_refuses.0 w.method_valid))
      (rw
        (cut_at-append b' ' [] r.target (version_string r)
          (target-has b' ' r.target target_refuses.0 w.target_valid))
        (build_request-print r (next ∷ lines) w h))

-- `parse` reads a request that is written out in the wire format back as it was, when its method
-- and target pass their tests, its version is 1.0 or 1.1, and its fields are valid and trimmed.
pub parse-print : (r : Request) → WellFormed r → parse (print r) ≡ expected r
unfolding parse print
parse-print r w =
    rw (crlf_pieces-append (request_line r) (print_headers r.headers) (request_line-has r w)) (
      rw (crlf_pieces-print_headers r.headers w.fields)
        (parse_lines-request_line r _ w (parse_headers-print_field r.headers w.fields)))

-- A request that `parse` accepts, written out in the wire format, is accepted again as that request.
pub parse-print-parse :
    (block : Bytes) (r : Request) → parse block ≡ expected r → parse (print r) ≡ parse block
parse-print-parse block r e = parse-print r (parse-WellFormed block r e) ∙ sym e
