-- ===== src/Http/Request/Valid.antt =====
-- What `request::parse` lets through.
use garcon.Prelude.{
  ℕ, ◌<◌, ◌≤◌, ◌≡◌, ◌≢◌, ◌⊎◌, refl, ap, sym, ◌∙◌, inl, inr, true, none, some, Option, List, [], ◌∷◌,
  All, All-of_all, All-imp, arith, Bool-cases, is_empty,
}
use garcon.Prelude.Expected.{expected, >>=-eq-expected}
use garcon.Text.{Bytes, bytes, has, cut_at, equal, trim_by, is_digit}
use garcon.Text.Search.{equal_iff}
use garcon.Text.Trim.{IsTrimmed, trim_by-IsTrimmed}
use garcon.Http.Header.{HeaderField, is_valid_header_name, is_token_char, is_alpha}
use garcon.Http.Request.{
  Request, is_valid_method, is_valid_target, is_target_char, is_valid_version, parse_version,
  parse_headers, parse_header_line, parse_header_parts, parse_lines, parse, build_request,
  crlf_pieces, is_valid_header_value, is_value_char, is_optional_whitespace,
  trim_optional_whitespace, or_malformed, or_invalid, space,
}

-- A header field as the parser's tests see it.
pub record IsField (h : HeaderField) : Type 0 where
  pub name_valid : is_valid_header_name h.name ≡ true
  pub value_valid : is_valid_header_value h.value ≡ true
  pub trimmed : IsTrimmed is_optional_whitespace h.value

pub record WellFormed (r : Request) : Type 0 where
  pub method_valid : is_valid_method r.method ≡ true
  pub target_valid : is_valid_target r.target ≡ true
  pub major_one : r.version_major ≡ 1
  pub minor_known : (r.version_minor ≡ 0) ⊎ (r.version_minor ≡ 1)
  pub fields : All IsField r.headers

parse_header_parts-IsField :
    (o : Option (Bytes × Bytes)) (h : HeaderField) → parse_header_parts o ≡ some h → IsField h
unfolding parse_header_parts trim_optional_whitespace
parse_header_parts-IsField none h e = cc
parse_header_parts-IsField (some (name, rest)) h e =
    let value_eq : h.value ≡ trim_by is_optional_whitespace rest = ground arith in
    record {
      name_valid = ground arith;
      value_valid = ground arith;
      trimmed = rw value_eq (trim_by-IsTrimmed is_optional_whitespace rest);
    }

pub parse_http_1_0 : parse_version (bytes "HTTP/1.0") ≡ some (1, 0)
unfolding parse_version
parse_http_1_0 = refl

pub parse_http_1_1 : parse_version (bytes "HTTP/1.1") ≡ some (1, 1)
unfolding parse_version
parse_http_1_1 = refl

parse_version_known :
    (v : Bytes) (major minor : ℕ)
    → is_valid_version v ≡ true
    → parse_version v ≡ some (major, minor)
    → (major ≡ 1) × ((minor ≡ 0) ⊎ (minor ≡ 1))
unfolding is_valid_version
parse_version_known v major minor h e = elim (Bool-cases (equal v (bytes "HTTP/1.0"))) [
  | inl old ↦
      let same : v ≡ bytes "HTTP/1.0" = (equal_iff v (bytes "HTTP/1.0")).0 old in
      let read = sym (ap parse_version same ∙ parse_http_1_0) ∙ e in
      (ground arith, inl (ground arith))
  | inr other ↦
      let new : equal v (bytes "HTTP/1.1") ≡ true = ground arith in
      let same : v ≡ bytes "HTTP/1.1" = (equal_iff v (bytes "HTTP/1.1")).0 new in
      let read = sym (ap parse_version same ∙ parse_http_1_1) ∙ e in
      (ground arith, inr (ground arith))
]

or_invalid-eq-expected :
    (o : Option HeaderField) (h : HeaderField) → or_invalid o ≡ expected h → o ≡ some h
or_invalid-eq-expected none h e = cc
or_invalid-eq-expected (some g) h e = ground arith

parse_header_line-IsField :
    (line : Bytes) (h : HeaderField) → parse_header_line line ≡ some h → IsField h
unfolding parse_header_line
parse_header_line-IsField line h e =
    parse_header_parts-IsField (cut_at (b':' ∷ []) line) h (ground arith)

parse_headers-IsField :
    (lines : List Bytes) (hs : List HeaderField)
    → parse_headers lines ≡ expected hs
    → All IsField hs
unfolding parse_headers
parse_headers-IsField [] hs e = cc
parse_headers-IsField (last ∷ []) hs e = cc
parse_headers-IsField (line ∷ next ∷ lines) hs e = elim (Bool-cases (is_empty line)) [
  | inl end ↦ let nil : hs ≡ [] = ground arith in rw nil tt
  | inr field ↦
      let (h, read, behind) =
        >>=-eq-expected (or_invalid (parse_header_line line)) _ (rw field at e) in
      let (tail, more, last) = >>=-eq-expected (parse_headers (next ∷ lines)) _ behind in
      let both : hs ≡ h ∷ tail = ground arith in
      rw both (
        parse_header_line-IsField line h (or_invalid-eq-expected (parse_header_line line) h read),
        parse_headers-IsField (next ∷ lines) tail more,
      )
]

build_request-WellFormed :
    (method target version : Bytes) (lines : List Bytes) (r : Request)
    → build_request method target version lines ≡ expected r
    → WellFormed r
unfolding build_request
build_request-WellFormed method target version lines r e = record {
  method_valid = ground arith;
  target_valid = ground arith;
  major_one = ground (arith, parse_version_known version r.version_major r.version_minor);
  minor_known = ground (arith, parse_version_known version r.version_major r.version_minor);
  fields = ground (arith, parse_headers-IsField lines r.headers);
}

parse_lines-WellFormed :
    (lines : List Bytes) (r : Request) → parse_lines lines ≡ expected r → WellFormed r
unfolding parse_lines
parse_lines-WellFormed [] r e = cc
parse_lines-WellFormed (unended ∷ []) r e = cc
parse_lines-WellFormed (line ∷ next ∷ lines) r e =
    let ((method, behind), _, e1) = >>=-eq-expected (or_malformed (cut_at space line)) _ e in
    let ((target, version), _, e2) = >>=-eq-expected (or_malformed (cut_at space behind)) _ e1 in
    build_request-WellFormed method target version (next ∷ lines) r e2

-- Whatever the parser accepts is well formed.
pub parse-WellFormed : (block : Bytes) (r : Request) → parse block ≡ expected r → WellFormed r
unfolding parse
parse-WellFormed block r e = parse_lines-WellFormed (crlf_pieces block) r e

-- Visible ASCII but the colon, as in a method or in the name of a field.
abbrev pub Visible : ℕ → Type 0
Visible c = (0x20 < c) × (c < 0x7f) × (c ≢ b':')

-- A byte of a target.
abbrev pub TargetByte : ℕ → Type 0
TargetByte c = (0x20 < c) × (c < 0x7f) × (c ≢ b'#') × (c ≢ b'\\')

-- A byte of a field's value: neither a control byte, but the tab, nor DEL.
abbrev pub ValueByte : ℕ → Type 0
ValueByte c = ((c ≡ b'\t') ⊎ (0x20 ≤ c)) × (c ≢ 0x7f)

pub record CleanField (h : HeaderField) : Type 0 where
  pub name_ne_nil : h.name ≢ []
  pub name_visible : All Visible h.name
  pub value_bytes : All ValueByte h.value
  pub value_trimmed : IsTrimmed is_optional_whitespace h.value

-- What the rest of the server may rely on: no blank, line end or colon hides in a part of the
-- request.
pub record IsClean (r : Request) : Type 0 where
  pub method_ne_nil : r.method ≢ []
  pub method_visible : All Visible r.method
  pub rooted : (rest : Bytes) × (r.target ≡ b'/' ∷ rest)
  pub target_bytes : All TargetByte r.target
  pub fields_clean : All CleanField r.headers

token-Visible : (c : ℕ) → is_token_char c ≡ true → Visible c
unfolding is_token_char has is_alpha is_digit
token-Visible c h = (ground arith, ground arith, ground arith)

target_char-TargetByte : (c : ℕ) → is_target_char c ≡ true → TargetByte c
unfolding is_target_char
target_char-TargetByte c h = ground arith

value_char-ValueByte : (c : ℕ) → is_value_char c ≡ true → ValueByte c
unfolding is_value_char
value_char-ValueByte c h = ground arith

name-Visible : (name : Bytes) → is_valid_header_name name ≡ true → (name ≢ []) × All Visible name
unfolding is_valid_header_name
name-Visible [] h = cc
name-Visible (c ∷ cs) h = (λ e. cc, All-of_all is_token_char Visible token-Visible (c ∷ cs) h)

method-Visible : (name : Bytes) → is_valid_method name ≡ true → (name ≢ []) × All Visible name
unfolding is_valid_method
method-Visible [] h = cc
method-Visible (c ∷ cs) h = (λ e. cc, All-of_all is_token_char Visible token-Visible (c ∷ cs) h)

target_rooted :
    (target : Bytes) → is_valid_target target ≡ true → (rest : Bytes) × (target ≡ b'/' ∷ rest)
unfolding is_valid_target
target_rooted [] h = cc
target_rooted (c ∷ cs) h = (cs, ground arith)

target-TargetByte : (target : Bytes) → is_valid_target target ≡ true → All TargetByte target
unfolding is_valid_target
target-TargetByte target h =
    All-of_all is_target_char TargetByte target_char-TargetByte target (ground arith)

IsField-CleanField : (h : HeaderField) → IsField h → CleanField h
unfolding is_valid_header_value
IsField-CleanField h v = record {
  name_ne_nil = (name-Visible h.name v.name_valid).0;
  name_visible = (name-Visible h.name v.name_valid).1;
  value_bytes = All-of_all is_value_char ValueByte value_char-ValueByte h.value v.value_valid;
  value_trimmed = v.trimmed;
}

-- In every request that `parse` accepts the method is not empty, the target begins with a slash,
-- no name of a field is empty, the method and the names are visible ASCII without a colon, the
-- target is visible ASCII without a fragment sign or a backslash, and the values are trimmed and
-- hold no control byte but the tab.
pub parse-IsClean : (block : Bytes) (r : Request) → parse block ≡ expected r → IsClean r
parse-IsClean block r e =
    let w = parse-WellFormed block r e in
    record {
      method_ne_nil = (method-Visible r.method w.method_valid).0;
      method_visible = (method-Visible r.method w.method_valid).1;
      rooted = target_rooted r.target w.target_valid;
      target_bytes = target-TargetByte r.target w.target_valid;
      fields_clean = All_imp_fields r.headers w.fields;
    }
  where
    All_imp_fields : (hs : List HeaderField) → All IsField hs → All CleanField hs
    All_imp_fields = All-imp IsField CleanField IsField-CleanField
