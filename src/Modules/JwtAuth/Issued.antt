-- ===== src/Modules/JwtAuth/Issued.antt =====
-- A request with a token that an issuer with the secret wrote.
use garcon.Prelude.{
  ℕ, ◌≢◌, ◌≡◌, refl, Bool, true, not, some, [], ◌∷◌, ◌++◌, all, all-append, arith, Result, ok,
  throw, undefined, ◌>>=◌,
}
use garcon.Text.{Bytes, bytes, has, equal, is_space, trim, ascii_lowercase, ascii_lower, cut_at}
use garcon.Text.Search.{cut_at-append}
use garcon.Text.Trim.{all-IsTrimmed, trim_by_eq}
use garcon.Http.Header.{header_value}
use garcon.Http.Request.{Request}
use garcon.Modules.JwtAuth.{
  JwtAuthModule, extract_bearer_token, enforced, request_token, verdict_reply, handle,
}
use garcon.Modules.JwtAuth.Base64.RoundTrip.{is_plain, all-is_plain-encode}
use garcon.Modules.JwtAuth.Tokens.{Outside, is_hs256, to_sign, extract_claims, check_claims}
use garcon.Modules.JwtAuth.Tokens.Accepted.{token_of}
use garcon.Modules.JwtAuth.Tokens.Issued.{IsText, parts_of, validate_and_extract-issued}

abbrev no_space : Bytes → Bool
no_space s = all (λ c. not (is_space c)) s

trim-no_space : (s : Bytes) → no_space s ≡ true → trim s ≡ s
unfolding trim
trim-no_space s h = trim_by_eq is_space s (all-IsTrimmed is_space s h)

bearer_split : (s : Bytes) → cut_at (bytes " ") (bytes "Bearer " ++ s) ≡ some (bytes "Bearer", s)
bearer_split s = cut_at-append b' ' [] (bytes "Bearer") s (unfold has in refl)

trim-bearer :
    (c : ℕ) (token : Bytes)
    → no_space (c ∷ token) ≡ true
    → trim (bytes "Bearer " ++ (c ∷ token)) ≡ bytes "Bearer " ++ (c ∷ token)
unfolding trim is_space
trim-bearer c token h =
    trim_by_eq is_space (bytes "Bearer " ++ (c ∷ token))
      (refl, (all-IsTrimmed is_space (c ∷ token) h).1)

extract_bearer_token-Bearer :
    (c : ℕ) (token : Bytes)
    → no_space (c ∷ token) ≡ true
    → extract_bearer_token (bytes "Bearer " ++ (c ∷ token)) ≡ some (c ∷ token)
unfolding extract_bearer_token equal ascii_lowercase ascii_lower
extract_bearer_token-Bearer c token h =
    let scheme : trim (bytes "Bearer") ≡ bytes "Bearer" = unfold trim in unfold is_space in refl in
    rw
      (
        extract_bearer_token,
        trim-bearer c token h,
        bearer_split (c ∷ token),
        scheme,
        trim-no_space (c ∷ token) h,
      )
      refl

token_read :
    (token : Bytes)
    → token ≢ []
    → no_space token ≡ true
    → extract_bearer_token (bytes "Bearer " ++ token) ≡ some token
token_read [] n h = absurd (n refl)
token_read (c ∷ token) n h = extract_bearer_token-Bearer c token h

plain_no_space : (s : Bytes) → all is_plain s ≡ true → no_space s ≡ true
unfolding is_plain
plain_no_space [] h = refl
plain_no_space (c ∷ s) h = ground (arith, plain_no_space s (ground arith))

no_space-token_of :
    (header payload mac : Bytes)
    → IsText header
    → IsText payload
    → IsText mac
    → no_space (token_of (parts_of header payload mac)) ≡ true
unfolding is_space
no_space-token_of header payload mac h p m =
    let parts = parts_of header payload mac in
    let no : ℕ → Bool = λ c. not (is_space c) in
    rw
      (
        all-append no parts.h64 (bytes "." ++ (parts.p64 ++ (bytes "." ++ parts.s64))),
        all-append no parts.p64 (bytes "." ++ parts.s64),
        plain_no_space parts.h64 (all-is_plain-encode header h.1),
        plain_no_space parts.p64 (all-is_plain-encode payload p.1),
        plain_no_space parts.s64 (all-is_plain-encode mac m.1),
      )
      refl

append-ne-nil : (a b : Bytes) (c : ℕ) → a ++ (c ∷ b) ≢ []
append-ne-nil [] b c e = cc
append-ne-nil (d ∷ a) b c e = cc

mapped_twice :
    {X Y Z : Type 0} (run : Result X) (f : X → Y) (g : Y → Z)
    → ((run >>= λ x. ok (f x)) >>= λ y. ok (g y)) ≡ (run >>= λ x. ok (g (f x)))
mapped_twice (ok x) f g = refl
mapped_twice (throw message) f g = refl
mapped_twice undefined f g = refl

-- A request that the rules are for, with `Bearer` and a token of a header that says HS256, a payload
-- and their mac under the secret (each of them bytes and not empty), is answered by the claims of
-- the payload alone: their headers where they are the required ones and not expired, else a 401.
pub handle-issued :
    (outside : Outside) (m : JwtAuthModule) (request : Request) (header payload mac : Bytes)
    → IsText header
    → IsText payload
    → IsText mac
    → is_hs256 header ≡ true
    → outside.hmac m.secret (to_sign (parts_of header payload mac)) ≡ some mac
    → enforced m request ≡ true
    → header_value request.headers (bytes "Authorization")
      ≡ some (bytes "Bearer " ++ token_of (parts_of header payload mac))
    → handle outside m request ≡ (
        extract_claims payload >>= λ claims.
        ok (verdict_reply (check_claims outside m.issuer m.audience claims)))
unfolding handle request_token
handle-issued outside m request header payload mac h p s alg sig e value =
    let token : Bytes = token_of (parts_of header payload mac) in
    let read =
      token_read token (append-ne-nil _ _ b'.') (no_space-token_of header payload mac h p s) in
    let t : request_token request ≡ some token = rw (request_token, value) read in
    rw
      (
        e,
        t,
        validate_and_extract-issued outside m.secret m.issuer m.audience header payload mac h p s
            alg sig,
      )
      (mapped_twice (extract_claims payload) (check_claims outside m.issuer m.audience)
        verdict_reply)
