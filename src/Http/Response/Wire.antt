-- ===== src/Http/Response/Wire.antt =====
-- What `serialize` writes, line by line.
use mathlib.Core.Option
use garcon.Prelude.{
  ℕ, ◌≡◌, refl, ap, ◌∙◌, true, false, List, [], ◌∷◌, ◌++◌, map, All, All-imp, length, is_empty, all,
  append_assoc, arith,
}
use garcon.Text.{Bytes, bytes, has, to_string, is_digit}
use garcon.Text.Search.{has-append, all-has}
use garcon.Text.Decimal.{all-is_digit-to_string, decimal, decimal-to_string, is_empty-to_string}
use garcon.Http.Header.{HeaderField}
use garcon.Http.Request.{crlf_pieces}
use garcon.Http.Request.Printed.{crlf, print_field, print_headers, crlf_pieces-append}
use garcon.Http.Response.{
  Response, ConnectionPolicy, close, keep_alive, policy_text, wire_body_size, serialize,
}
use garcon.Http.Response.Written.{
  other_fields, wire_fields, status_line, serialize_lem, IsLine, NotFraming, other_fields-lines,
}

to_string-has : (n : ℕ) → has b'\r' (to_string n) ≡ false
to_string-has n = all-has is_digit b'\r' (to_string n) not_digit (all-is_digit-to_string n)
  where
    not_digit : is_digit b'\r' ≡ false
    not_digit = unfold is_digit in refl

policy_text-has : (policy : ConnectionPolicy) → has b'\r' (policy_text policy) ≡ false
unfolding has
policy_text-has close = refl
policy_text-has keep_alive = refl

-- A fixed text in front adds no line end.
has-front :
    (front s : Bytes)
    → has b'\r' front ≡ false
    → has b'\r' s ≡ false
    → has b'\r' (front ++ s) ≡ false
has-front front s f h = ground (arith, has-append b'\r' front s)

wire_fields-IsLine :
    (resp : Response) (policy : ConnectionPolicy) → All IsLine (wire_fields resp policy)
unfolding wire_fields print_field has
wire_fields-IsLine resp policy = (
  policy_text-has policy,
  (
    to_string-has (wire_body_size resp),
    All-imp (λ h. IsLine h × NotFraming h) IsLine (λ h p. p.0) (other_fields resp)
        (other_fields-lines resp),
  ),
)

status_line-has :
    (resp : Response) → has b'\r' resp.reason ≡ false → has b'\r' (status_line resp) ≡ false
unfolding status_line has
status_line-has resp h = ground (
  arith,
  has-append b'\r' (to_string resp.status) (b' ' ∷ resp.reason),
  to_string-has resp.status,
)

crlf_pieces-fields :
    (fs : List HeaderField) (body : Bytes)
    → All IsLine fs
    → crlf_pieces (print_headers fs ++ body) ≡ map print_field fs ++ ([] ∷ crlf_pieces body)
unfolding print_headers
crlf_pieces-fields [] body v = crlf_pieces-append [] body no_end
  where
    no_end : has b'\r' [] ≡ false
    no_end = unfold has in refl
crlf_pieces-fields (h ∷ fs) body v =
    ap crlf_pieces (regroup_line (print_field h) (print_headers fs) body)
    ∙ crlf_pieces-append (print_field h) (print_headers fs ++ body) v.0
    ∙ ap (◌∷◌ (print_field h)) (crlf_pieces-fields fs body v.1)
  where
    regroup_line : (a b c : Bytes) → (a ++ (crlf ++ b)) ++ c ≡ a ++ (crlf ++ (b ++ c))
    regroup_line a b c = append_assoc a (crlf ++ b) c

-- If the reason phrase holds no carriage return, the serialised response splits at its line ends
-- into the status line, one line for each field of `wire_fields`, the empty line, and the lines of
-- the body: no field's name, no field's value and no content type can add a line to the head.
pub serialize-lines :
    (resp : Response) (policy : ConnectionPolicy)
    → has b'\r' resp.reason ≡ false
    → crlf_pieces (serialize resp policy)
      ≡ status_line resp
        ∷ (map print_field (wire_fields resp policy) ++ ([] ∷ crlf_pieces resp.body))
serialize-lines resp policy h =
    ap crlf_pieces (serialize_lem resp policy)
    ∙ crlf_pieces-append (status_line resp) (print_headers (wire_fields resp policy) ++ resp.body)
        (status_line-has resp h)
    ∙ ap (◌∷◌ (status_line resp))
        (crlf_pieces-fields (wire_fields resp policy) resp.body (wire_fields-IsLine resp policy))

-- A response is framed once. If its reason phrase holds no carriage return, what `serialize` writes
-- splits at its line ends into the status line, `Connection` with the policy's text, `Content-Length`
-- with decimal digits for the content length where one is set and for the body's length where none
-- is, lines of fields of which none is named Connection or Content-Length in any case, the empty line,
-- and the body.
pub serialize-framing :
    (resp : Response) (policy : ConnectionPolicy)
    → has b'\r' resp.reason ≡ false
    → (digits : Bytes) × (others : List HeaderField) × (crlf_pieces (serialize resp policy)
        ≡ status_line resp
          ∷ (bytes "Connection: " ++ policy_text policy)
          ∷ (bytes "Content-Length: " ++ digits)
          ∷ (map print_field others ++ ([] ∷ crlf_pieces resp.body)))
      × (all is_digit digits ≡ true)
      × (is_empty digits ≡ false)
      × (decimal 0 digits ≡ Option.get_or resp.content_length (length resp.body))
      × All NotFraming others
unfolding wire_fields print_field
serialize-framing resp policy h = (
  to_string (wire_body_size resp),
  other_fields resp,
  serialize-lines resp policy h,
  all-is_digit-to_string (wire_body_size resp),
  is_empty-to_string (wire_body_size resp),
  decimal-to_string (wire_body_size resp),
  All-imp (λ f. IsLine f × NotFraming f) NotFraming (λ f p. p.1) (other_fields resp)
      (other_fields-lines resp),
)
