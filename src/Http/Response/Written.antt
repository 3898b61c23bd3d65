-- ===== src/Http/Response/Written.antt =====
-- The fields of a response that are written.
use garcon.Prelude.{
  ◌≡◌, refl, Bool, true, false, ◌||◌, not, List, [], ◌∷◌, ◌++◌, All, All-append, append_assoc,
  arith, inl, inr, Bool-cases, if◌then◌else◌,
}
use garcon.Text.{Bytes, bytes, has, to_string}
use garcon.Text.Search.{has-append, all-has}
use garcon.Http.Header.{HeaderField, header_name_equals, is_valid_header_name, is_token_char}
use garcon.Http.Request.Printed.{crlf, print_field, print_headers}
use garcon.Http.Response.{
  Response, ConnectionPolicy, valid_header_value, is_reserved_header, is_content_type_written,
  serialize_headers, policy_text, line_end, wire_body_size, serialize,
}

-- The fields of the response that are written: not those that `serialize` writes itself, and not
-- those that are malformed.
pub kept : Bool → List HeaderField → List HeaderField
kept content_type_written [] = []
kept content_type_written (h ∷ hs) =
    let rest = kept content_type_written hs in
    if is_reserved_header h.name content_type_written
    then rest
    else if not (is_valid_header_name h.name) || not (valid_header_value h.value)
    then rest
    else h ∷ rest

abbrev pub content_type_field : Bool → Bytes → List HeaderField
content_type_field true value = record { name = bytes "Content-Type"; value = value } ∷ []
content_type_field false value = []

-- The fields behind the two that frame the message.
pub other_fields : Response → List HeaderField
other_fields resp =
    content_type_field (is_content_type_written resp) resp.content_type
    ++ kept (is_content_type_written resp) resp.headers

unfoldable pub wire_fields : Response → ConnectionPolicy → List HeaderField
wire_fields resp policy =
    record { name = bytes "Connection"; value = policy_text policy }
    ∷ record { name = bytes "Content-Length"; value = to_string (wire_body_size resp) }
    ∷ other_fields resp

unfoldable pub status_line : Response → Bytes
status_line resp = bytes "HTTP/1.1 " ++ (to_string resp.status ++ (b' ' ∷ resp.reason))

regroup :
    (name value rest tail : Bytes)
    → (name ++ (bytes ": " ++ (value ++ (line_end ++ rest)))) ++ tail
      ≡ (name ++ (b':' ∷ b' ' ∷ value)) ++ (crlf ++ (rest ++ tail))
regroup name value rest tail = simp append_assoc

serialize_headers-kept :
    (t : Bool) (hs : List HeaderField) (body : Bytes)
    → serialize_headers t hs ++ (crlf ++ body) ≡ print_headers (kept t hs) ++ body
unfolding serialize_headers kept print_headers print_field
serialize_headers-kept t [] body = refl
serialize_headers-kept t (h ∷ hs) body = ground (
  arith,
  serialize_headers-kept t hs body,
  regroup h.name h.value (serialize_headers t hs) (crlf ++ body),
  append_assoc (print_field h) (crlf ++ print_headers (kept t hs)) body,
)

-- The message is the status line, the fields and the body.
pub serialize_lem :
    (resp : Response) (policy : ConnectionPolicy)
    → serialize resp policy
      ≡ status_line resp ++ (crlf ++ (print_headers (wire_fields resp policy) ++ resp.body))
unfolding serialize status_line wire_fields other_fields print_headers print_field
serialize_lem resp policy = elim (Bool-cases (is_content_type_written resp)) [
  | inl written ↦
      rw written (simp (append_assoc, serialize_headers-kept true resp.headers resp.body))
  | inr not_written ↦
      rw not_written (simp (append_assoc, serialize_headers-kept false resp.headers resp.body))
]

-- Of a field that is written: a token for its name, and a value without line ends.
abbrev pub IsLine : HeaderField → Type 0
IsLine h = has b'\r' (print_field h) ≡ false

abbrev pub NotFraming : HeaderField → Type 0
NotFraming h =
    (header_name_equals h.name (bytes "Connection") ≡ false)
    × (header_name_equals h.name (bytes "Content-Length") ≡ false)

token_refuses_end : is_token_char b'\r' ≡ false
unfolding is_token_char
token_refuses_end = refl

valid-IsLine :
    (h : HeaderField)
    → is_valid_header_name h.name ≡ true
    → valid_header_value h.value ≡ true
    → IsLine h
unfolding is_valid_header_name valid_header_value print_field
valid-IsLine h n v = ground (
  arith,
  has-append b'\r' h.name (b':' ∷ b' ' ∷ h.value),
  all-has is_token_char b'\r' h.name token_refuses_end,
  has_behind h.value,
)
  where
    has_behind : (v : Bytes) → has b'\r' (b':' ∷ b' ' ∷ v) ≡ has b'\r' v
    has_behind v = unfold has in refl

kept-IsLine : (t : Bool) (hs : List HeaderField) → All IsLine (kept t hs)
unfolding kept
kept-IsLine t [] = tt
kept-IsLine t (h ∷ hs) = ground (arith, kept-IsLine t hs, valid-IsLine h)

kept-NotFraming : (t : Bool) (hs : List HeaderField) → All NotFraming (kept t hs)
unfolding kept is_reserved_header
kept-NotFraming t [] = tt
kept-NotFraming t (h ∷ hs) = ground (arith, kept-NotFraming t hs)

content_type_not_framing :
    (header_name_equals (bytes "Content-Type") (bytes "Connection") ≡ false)
    × (header_name_equals (bytes "Content-Type") (bytes "Content-Length") ≡ false)
unfolding header_name_equals
content_type_not_framing = (refl, refl)

content_type_is_name : is_valid_header_name (bytes "Content-Type") ≡ true
unfolding is_valid_header_name
content_type_is_name = refl

content_type_field_lines :
    (resp : Response)
    → All
        (λ h. IsLine h × NotFraming h)
        (content_type_field (is_content_type_written resp) resp.content_type)
unfolding is_content_type_written
content_type_field_lines resp = elim (Bool-cases (is_content_type_written resp)) [
  | inl written ↦ rw written (
    (
      valid-IsLine (record { name = bytes "Content-Type"; value = resp.content_type })
          content_type_is_name (ground arith),
      content_type_not_framing,
    ),
    tt,
  )
  | inr skipped ↦ rw skipped tt
]

pub other_fields-lines : (resp : Response) → All (λ h. IsLine h × NotFraming h) (other_fields resp)
unfolding other_fields
other_fields-lines resp =
    All-append (λ h. IsLine h × NotFraming h) _ _ (content_type_field_lines resp)
      (both (kept t resp.headers) (kept-IsLine t resp.headers) (kept-NotFraming t resp.headers))
  where
    t : Bool
    t = is_content_type_written resp

    both :
        (hs : List HeaderField)
        → All IsLine hs
        → All NotFraming hs
        → All (λ h. IsLine h × NotFraming h) hs
    both [] l n = tt
    both (h ∷ hs) l n = ((l.0, n.0), both hs l.1 n.1)
