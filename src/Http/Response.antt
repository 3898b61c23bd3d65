-- ===== src/Http/Response.antt =====
-- response.h and response.cpp: the response, its fields, and what is written to the wire.
pub mod Lookup
pub mod Fields
pub mod Written
pub mod Wire
mod Tests
use Prim.Native.String.{String}
use mathlib.Core.Option
use garcon.Prelude.{
  ℕ, Bool, true, false, ◌&&◌, ◌||◌, not, Option, none, some, List, [], ◌∷◌, ◌++◌, length, is_empty,
  all, if◌then◌else◌, Result, ok, throw, throw_if, ◌>>=◌, ◌>>◌,
}
use garcon.Text.{Bytes, bytes, has, to_string}
use garcon.Http.Header.{HeaderField, header_name_equals, find_header, is_valid_header_name}

pub data ConnectionPolicy : Type 0 where
  close keep_alive : ConnectionPolicy

pub record Response : Type 0 where
  pub status : ℕ
  pub reason : Bytes
  pub content_type : Bytes
  pub headers : List HeaderField
  pub body : Bytes
  pub content_length : Option ℕ

-- `response resp;`
abbrev pub default_response : Response
default_response = record {
  status = 200;
  reason = bytes "OK";
  content_type = [];
  headers = [];
  body = [];
  content_length = none;
}

unfoldable pub text : ℕ → Bytes → Bytes → Response
text s r msg = record default_response {
  status = s;
  reason = r;
  content_type = bytes "text/plain; charset=utf-8";
  body = msg;
}

-- `value.find_first_of("\r\n") == npos`
unfoldable pub valid_header_value : Bytes → Bool
unfolding has
valid_header_value value = not (has b'\r' value || has b'\n' value)

unfoldable pub validate_header : Bytes → Bytes → Result (Unit {0})
validate_header name value = do
  throw_if (not (is_valid_header_name name)) "invalid response header name"
  throw_if (not (valid_header_value value)) "invalid response header value"

unfoldable pub add_header : Response → Bytes → Bytes → Result Response
unfolding validate_header
add_header resp name value = do
  validate_header name value
  ok (record resp { headers = resp.headers ++ (record { name = name; value = value } ∷ []) })

-- The value of the first field of that name is replaced, if there is one.
unfoldable pub replace_first : List HeaderField → Bytes → Bytes → Option (List HeaderField)
unfolding header_name_equals
replace_first [] name value = none
replace_first (h ∷ hs) name value =
    let later = Option.map (λ t. h ∷ t) (replace_first hs name value) in
    if header_name_equals h.name name then some (record h { value = value } ∷ hs) else later

unfoldable pub set_header : Response → Bytes → Bytes → Result Response
unfolding validate_header
set_header resp name value = do
  validate_header name value
  elim (replace_first resp.headers name value) [
    | some hs ↦ ok (record resp { headers = hs })
    | none ↦ add_header resp name value
  ]

-- Named apart, since `serialize` writes these fields itself.
is_reserved_header : Bytes → Bool → Bool
is_reserved_header name content_type_written =
    if header_name_equals name (bytes "Connection")
    then true
    else if header_name_equals name (bytes "Content-Length")
    then true
    else if content_type_written && header_name_equals name (bytes "Content-Type")
    then true
    else false

pub is_content_type_written : Response → Bool
is_content_type_written resp =
    not (is_empty resp.content_type) && valid_header_value resp.content_type

abbrev pub line_end : Bytes
line_end = b'\r' ∷ b'\n' ∷ []

-- The loop over `headers`.
pub serialize_headers : Bool → List HeaderField → Bytes
serialize_headers content_type_written [] = []
serialize_headers content_type_written (h ∷ hs) =
    let rest = serialize_headers content_type_written hs in
    if is_reserved_header h.name content_type_written
    then rest
    else if not (is_valid_header_name h.name) || not (valid_header_value h.value)
    then rest
    else h.name ++ (bytes ": " ++ (h.value ++ (line_end ++ rest)))

abbrev pub policy_text : ConnectionPolicy → Bytes
policy_text keep_alive = bytes "keep-alive"
policy_text close = bytes "close"

abbrev pub wire_body_size : Response → ℕ
wire_body_size resp = Option.get_or resp.content_length (length resp.body)

unfoldable pub serialize : Response → ConnectionPolicy → Bytes
unfolding serialize_headers is_reserved_header is_content_type_written
serialize resp policy =
    bytes "HTTP/1.1 "
    ++ (to_string resp.status
        ++ (b' '
            ∷ (resp.reason
                ++ (line_end
                    ++ (bytes "Connection: "
                        ++ (policy_text policy
                            ++ (line_end
                                ++ (bytes "Content-Length: "
                                    ++ (to_string (wire_body_size resp)
                                        ++ (line_end
                                            ++ ((if is_content_type_written resp
                                                  then bytes "Content-Type: "
                                                    ++ (resp.content_type ++ line_end)
                                                  else [])
                                                ++ (serialize_headers (is_content_type_written resp)
                                                      resp.headers
                                                    ++ (line_end ++ resp.body)))))))))))))
