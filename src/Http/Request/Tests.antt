-- ===== src/Http/Request/Tests.antt =====
-- Requests written out.
use garcon.Prelude.{◌≡◌, ◌↔◌, refl, true, [], ◌∷◌}
use garcon.Prelude.Expected.{expected}
use garcon.Text.{Bytes, bytes, equal, starts_with, cut_at, has, trim_by, is_digit}
use garcon.Http.Header.{is_alpha, is_token_char, is_valid_header_name}
use garcon.Http.Request.{
  Request, parse, keep_alive_requested, is_valid_method, is_target_char, is_valid_target,
  is_valid_version, parse_version, is_optional_whitespace, trim_optional_whitespace, is_value_char,
  is_valid_header_value, parse_header_parts, parse_header_line, crlf_pieces, parse_headers,
  build_request, parse_lines,
}
use garcon.Http.Request.Valid.{IsClean, parse-IsClean, parse-WellFormed}
use garcon.Http.Request.Printed.{print}
use garcon.Http.Request.RoundTrip.{parse-print, parse-print-parse}
use garcon.Http.Request.KeepAlive.{Persists, keep_alive_requested_iff}

abbrev block : Bytes
block = bytes "GET /a?b HTTP/1.1\r\nHost:  x \r\nConnection: TE, close\r\n\r\n"

abbrev request : Request
request = record {
  method = bytes "GET";
  target = bytes "/a?b";
  version_major = 1;
  version_minor = 1;
  headers =
      record { name = bytes "Host"; value = bytes "x" }
      ∷ record { name = bytes "Connection"; value = bytes "TE, close" }
      ∷ [];
}

parse-block : parse block ≡ expected request
unfolding parse parse_lines build_request parse_headers crlf_pieces parse_header_line
    parse_header_parts is_valid_header_value is_value_char trim_optional_whitespace
    is_optional_whitespace parse_version is_valid_version is_valid_target is_target_char
    is_valid_method is_valid_header_name is_token_char is_alpha is_digit has cut_at starts_with
    equal trim_by
parse-block = refl

parse-IsClean_example : IsClean request
parse-IsClean_example = parse-IsClean block request parse-block

parse-print_example : parse (print request) ≡ expected request
parse-print_example = parse-print request (parse-WellFormed block request parse-block)

parse-print-parse_example : parse (print request) ≡ parse block
parse-print-parse_example = parse-print-parse block request parse-block

keep_alive_requested_iff_example : (keep_alive_requested request ≡ true) ↔ Persists request
keep_alive_requested_iff_example = keep_alive_requested_iff request
