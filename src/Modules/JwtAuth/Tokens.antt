-- ===== src/Modules/JwtAuth/Tokens.antt =====
-- `validate_and_extract`: what a token has to be, and what is read from it. `HMAC` of OpenSSL and
-- the clock are parameters.
pub mod Accepted
pub mod Issued
use mathlib.Core.Option
use garcon.Prelude.{
  ℕ, Bool, true, false, ◌&&◌, ◌||◌, not, Option, none, some, List, [], ◌∷◌, ◌++◌, is_empty,
  if◌then◌else◌, Result, ok, ◌>>=◌,
}
use garcon.Prelude.Integers.{ℤ, pos, lebℤ, is_zero}
use garcon.Text.{Bytes, bytes, equal, has, cut_at}
use garcon.Modules.JwtAuth.Base64.{base64url_decode}
use garcon.Modules.JwtAuth.Json.{extract_json_string, extract_json_int}

-- `HMAC(EVP_sha256(), secret, message)`, which is null where it fails, and `std::time`.
pub record Outside : Type 0 where
  pub hmac : Bytes → Bytes → Option Bytes
  pub now : ℤ

pub record JwtClaims : Type 0 where
  pub sub : Bytes
  pub roles : Bytes
  pub iss : Bytes
  pub aud : Bytes
  pub exp : ℤ

-- The text of `out_failure`
pub data Failure : Type 0 where
  malformed bad_signature issuer_mismatch audience_mismatch expired : Failure

pub data Verdict : Type 0 where
  accepted : JwtClaims → Verdict
  rejected : Failure → Verdict

pub record Parts : Type 0 where
  pub h64 : Bytes
  pub p64 : Bytes
  pub s64 : Bytes

abbrev last_part : Bytes → Bytes → Bytes → Option Parts
last_part h p s =
    if has b'.' s || (is_empty h || (is_empty p || is_empty s))
    then none
    else some (record { h64 = h; p64 = p; s64 = s })

-- The three texts around exactly two dots, none of them empty.
pub token_parts : Bytes → Option Parts
token_parts token = elim (cut_at (bytes ".") token) [
  | none ↦ none
  | some (h, rest) ↦ elim (cut_at (bytes ".") rest) [ none ↦ none | some (p, s) ↦ last_part h p s ]
]

abbrev found : Option (Bytes × Bytes) → Bool
found none = false
found (some at) = true

unfoldable pub is_hs256 : Bytes → Bool
unfolding cut_at
is_hs256 header =
    found (cut_at (bytes "\"alg\":\"HS256\"") header)
    || found (cut_at (bytes "\"alg\": \"HS256\"") header)

pub to_sign : Parts → Bytes
to_sign parts = parts.h64 ++ (bytes "." ++ parts.p64)

pub signature_matches : Option Bytes → Bytes → Bool
signature_matches none sig = false
signature_matches (some mac) sig = equal mac sig

-- The first text of an array: between the first two quotes behind `"aud":[`.
first_audience : Bytes → Bytes
unfolding cut_at
first_audience payload = elim (cut_at (bytes "\"aud\":[") payload) [
  | none ↦ []
  | some (before, after) ↦ elim (cut_at (bytes "\"") after) [
    | none ↦ []
    | some (gap, opened) ↦ elim (cut_at (bytes "\"") opened) [
      | none ↦ []
      | some (text, rest) ↦ text
    ]
  ]
]

abbrev or_else : Bytes → Bytes → Bytes
or_else value otherwise = if is_empty value then otherwise else value

unfoldable pub extract_claims : Bytes → Result JwtClaims
unfolding extract_json_string extract_json_int first_audience
extract_claims payload = extract_json_int payload (bytes "exp") (pos 0) >>= λ exp. ok (record {
  sub = extract_json_string payload (bytes "sub");
  roles =
      or_else (extract_json_string payload (bytes "roles"))
        (extract_json_string payload (bytes "role"));
  iss = extract_json_string payload (bytes "iss");
  aud = or_else (extract_json_string payload (bytes "aud")) (first_audience payload);
  exp = exp;
})

-- A claim that is required to have a value has it.
unfoldable pub meets : Option Bytes → Bytes → Bool
unfolding equal
meets none claim = true
meets (some required) claim = is_empty required || equal claim required

unfoldable pub is_expired : ℤ → ℤ → Bool
is_expired now exp = not (is_zero exp) && lebℤ exp now

unfoldable pub check_claims : Outside → Option Bytes → Option Bytes → JwtClaims → Verdict
unfolding meets is_expired
check_claims outside required_issuer required_audience claims =
    if not (meets required_issuer claims.iss)
    then rejected issuer_mismatch
    else if not (meets required_audience claims.aud)
    then rejected audience_mismatch
    else if is_expired outside.now claims.exp
    then rejected expired
    else accepted claims

abbrev signed : Outside → Bytes → Parts → Bool
signed outside secret parts =
    signature_matches (outside.hmac secret (to_sign parts)) (base64url_decode parts.s64)

abbrev judged : Outside → Bytes → Option Bytes → Option Bytes → Parts → Result Verdict
judged outside secret required_issuer required_audience parts =
    if not (is_hs256 (base64url_decode parts.h64))
    then ok (rejected malformed)
    else if not (signed outside secret parts)
    then ok (rejected bad_signature)
    else (extract_claims (base64url_decode parts.p64) >>= λ claims.
        ok (check_claims outside required_issuer required_audience claims))

pub validate_and_extract : Outside → Bytes → Bytes → Option Bytes → Option Bytes → Result Verdict
validate_and_extract outside token secret required_issuer required_audience =
    elim (token_parts token) [
      | none ↦ ok (rejected malformed)
      | some parts ↦ judged outside secret required_issuer required_audience parts
    ]
