-- ===== src/Http/Request/KeepAlive.antt =====
-- When a connection is kept open behind a request.
use garcon.Prelude.{
  ◌≡◌, ◌↔◌, inl, inr, true, ◌&&◌, some, List, [], ◌∷◌, Any, here, there, arith, Bool-cases,
  Option-cases, ◌==◌,
}
use garcon.Text.{Bytes, bytes, pieces, ascii_iequals, ascii_lowercase}
use garcon.Text.Case.{ascii_iequals_iff}
use garcon.Http.Header.{header_value}
use garcon.Http.Request.{
  Request, trim_optional_whitespace, token_among, token_in, connection_token_present,
  keep_alive_requested,
}

-- A part between commas names the token, blanks around it and case aside.
abbrev pub Names : Bytes → Bytes → Type 0
Names token part = ascii_lowercase (trim_optional_whitespace part) ≡ ascii_lowercase token

-- The first `Connection` field of the request lists the token.
pub record Lists (r : Request) (token : Bytes) : Type 0 where
  pub value : Bytes
  pub first_field : header_value r.headers (bytes "Connection") ≡ some value
  pub listed : Any (Names token) (pieces b',' value)

-- The persistence rule: asked for in 1.0, and not declined in 1.1.
pub data Persists (r : Request) : Type 0 where
  asked : r.version_major ≡ 1 → r.version_minor ≡ 0 → Lists r (bytes "keep-alive") → Persists r
  not_declined : r.version_major ≡ 1 → r.version_minor ≡ 1 → ¬ Lists r (bytes "close") → Persists r

token_among-Any :
    (token : Bytes) (parts : List Bytes) → token_among token parts ≡ true → Any (Names token) parts
unfolding token_among
token_among-Any token [] h = cc
token_among-Any token (part ∷ parts) h =
    elim (Bool-cases (ascii_iequals (trim_optional_whitespace part) token)) [
      | inl same ↦ here ((ascii_iequals_iff _ _).0 same)
      | inr other ↦ there (token_among-Any token parts (rw other at h))
    ]

Any-token_among :
    (token : Bytes) {parts : List Bytes} → Any (Names token) parts → token_among token parts ≡ true
unfolding token_among
Any-token_among token (here e) = rw ((ascii_iequals_iff _ _).1 e)
Any-token_among token (there {x} {xs} m) = ground (arith, Any-token_among token {parts = xs} m)

connection_token_present_iff :
    (r : Request) (token : Bytes) → (connection_token_present r token ≡ true) ↔ Lists r token
unfolding connection_token_present
connection_token_present_iff r token =
    elim (Option-cases (header_value r.headers (bytes "Connection"))) [
      | inl absent ↦ (λ h. cc (rw (absent, token_in) at h), λ l. cc (l.first_field))
      | inr (value, found) ↦ (
        λ h. record {
          value = value;
          first_field = found;
          listed = token_among-Any token (pieces b',' value) (rw (found, token_in) at h);
        },
        λ l. rw (l.first_field, token_in) (Any-token_among token l.listed),
      )
    ]

-- `keep_alive_requested` answers true exactly when the request is of version 1.0 and its first
-- Connection field lists keep-alive, or of version 1.1 and that field does not list close.
pub keep_alive_requested_iff : (r : Request) → (keep_alive_requested r ≡ true) ↔ Persists r
unfolding keep_alive_requested
keep_alive_requested_iff r = (to, from)
  where
    keeps : (connection_token_present r (bytes "keep-alive") ≡ true) ↔ Lists r (bytes "keep-alive")
    keeps = connection_token_present_iff r (bytes "keep-alive")

    closes : (connection_token_present r (bytes "close") ≡ true) ↔ Lists r (bytes "close")
    closes = connection_token_present_iff r (bytes "close")

    to : keep_alive_requested r ≡ true → Persists r
    to h = elim (Bool-cases (r.version_major == 1 && r.version_minor == 0)) [
      | inl old ↦ asked (ground arith) (ground arith) (keeps.0 (ground arith))
      | inr other ↦
          not_declined (ground arith) (ground arith) (λ l. let c = closes.1 l in ground arith)
    ]

    from : Persists r → keep_alive_requested r ≡ true
    from (asked major minor l) = let k = keeps.1 l in ground arith
    from (not_declined major minor n) =
        elim (Bool-cases (connection_token_present r (bytes "close"))) [
          | inl c ↦ absurd (n (closes.0 c))
          | inr c ↦ ground arith
        ]
