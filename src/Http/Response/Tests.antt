-- ===== src/Http/Response/Tests.antt =====
-- A response written out.
use garcon.Prelude.{
  ◌≡◌, refl, true, none, [], ◌∷◌, ◌++◌, map, length, List, All, all, is_empty, false,
}
use mathlib.Core.Option
use garcon.Prelude.{ok}
use garcon.Text.{Bytes, bytes, has, is_digit}
use garcon.Text.Decimal.{decimal}
use garcon.Http.Header.{HeaderField, is_alpha, is_token_char, is_valid_header_name}
use garcon.Http.Request.{crlf_pieces}
use garcon.Http.Request.Printed.{print_field}
use garcon.Http.Response.{
  Response, close, keep_alive, serialize, set_header, valid_header_value, policy_text,
}
use garcon.Http.Response.Fields.{Sets, set_header-Sets}
use garcon.Http.Response.Written.{status_line, wire_fields, NotFraming}
use garcon.Http.Response.Wire.{serialize-lines, serialize-framing}

abbrev response : Response
response = record {
  status = 200;
  reason = bytes "OK";
  content_type = bytes "text/plain";
  headers =
      record { name = bytes "X-A"; value = bytes "1" }
      ∷ record { name = bytes "X-B"; value = bytes "1\r\nSet-Cookie: a" }
      ∷ record { name = bytes "content-length"; value = bytes "9" }
      ∷ [];
  body = bytes "hi";
  content_length = none;
}

serialize-lines_example :
    crlf_pieces (serialize response close)
    ≡ status_line response
      ∷ (map print_field (wire_fields response close) ++ ([] ∷ crlf_pieces response.body))
serialize-lines_example = serialize-lines response close (unfold has in refl)

serialize-framing_example :
    (digits : Bytes) × (others : List HeaderField) × (crlf_pieces (serialize response keep_alive)
      ≡ status_line response
        ∷ (bytes "Connection: " ++ policy_text keep_alive)
        ∷ (bytes "Content-Length: " ++ digits)
        ∷ (map print_field others ++ ([] ∷ crlf_pieces response.body)))
    × (all is_digit digits ≡ true)
    × (is_empty digits ≡ false)
    × (decimal 0 digits ≡ Option.get_or response.content_length (length response.body))
    × All NotFraming others
serialize-framing_example = serialize-framing response keep_alive (unfold has in refl)

name_valid : is_valid_header_name (bytes "x-a") ≡ true
unfolding is_valid_header_name is_token_char is_alpha is_digit has
name_valid = refl

value_valid : valid_header_value (bytes "2") ≡ true
unfolding valid_header_value has
value_valid = refl

set_header-Sets_example :
    (resp' : Response) × (set_header response (bytes "x-a") (bytes "2") ≡ ok resp')
    × Sets response (bytes "x-a") (bytes "2") resp'
set_header-Sets_example = set_header-Sets response (bytes "x-a") (bytes "2") name_valid value_valid
