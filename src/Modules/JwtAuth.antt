-- ===== src/Modules/JwtAuth.antt =====
-- jwt_auth_module.cpp: a request that a rule is for carries a token signed with the secret.
pub mod Base64
pub mod Json
pub mod Tokens
pub mod Guards
pub mod Issued
pub mod Shield
mod Tests
use garcon.Prelude.{
  ℕ, Bool, true, false, ◌&&◌, ◌||◌, not, Option, none, some, List, [], ◌∷◌, ◌++◌, is_empty, drop,
  any, Result, ok, throw, throw_if, ◌>>=◌, ◌>>◌, if◌then◌else◌,
}
use garcon.Text.{Bytes, bytes, equal, cut_at, trim, split_fields, ascii_lowercase}
use garcon.Http.Header.{header_value}
use garcon.Http.Request.{Request}
use garcon.Http.Response.{Response, text}
use garcon.Modules.Abi.{Reply, Module, pass_reply, respond_reply, add_response_header}
use garcon.Modules.Config.{
  PatternKind, classify_target_pattern, method_matches, target_matches, parse_config,
}
use garcon.Modules.KeyValue.{get}
use garcon.Modules.JwtAuth.Tokens.{
  Outside, JwtClaims, Verdict, Failure, accepted, rejected, expired, validate_and_extract,
}

pub record AuthRule : Type 0 where
  pub method_pattern : Bytes
  pub target_pattern : Bytes
  pub target_kind : PatternKind

pub record JwtAuthModule : Type 0 where
  pub secret : Bytes
  pub alg : Bytes
  pub issuer : Option Bytes
  pub audience : Option Bytes
  pub rules : List AuthRule

parse_rule_fields : List Bytes → Result AuthRule
parse_rule_fields (method ∷ target ∷ []) =
    let (kind, pattern) = classify_target_pattern target in
    do
      throw_if (is_empty method) "jwt_auth: method pattern must not be empty"
      throw_if (is_empty pattern) "jwt_auth: target pattern must not be empty"
      ok (record { method_pattern = method; target_pattern = pattern; target_kind = kind })
parse_rule_fields fields = throw "jwt_auth: rule requires 2 fields (method|target)"

parse_rule_line : Bytes → Result AuthRule
parse_rule_line line = parse_rule_fields (split_fields (drop 5 line) b'|')

pub parse_rules : Bytes → Result (List AuthRule)
parse_rules config_text = parse_config (bytes "rule=") parse_rule_line config_text

abbrev non_empty : Bytes → Option Bytes
non_empty [] = none
non_empty (c ∷ cs) = some (c ∷ cs)

abbrev bearer_of : Option (Bytes × Bytes) → Option Bytes
bearer_of none = none
bearer_of (some (before, after)) =
    if equal (ascii_lowercase (trim before)) (bytes "bearer") then non_empty (trim after) else none

pub extract_bearer_token : Bytes → Option Bytes
extract_bearer_token auth_value =
    let value = trim auth_value in
    if is_empty value then none else bearer_of (cut_at (bytes " ") value)

pub make_unauthorized : Bytes → Response
make_unauthorized body = text 401 (bytes "Unauthorized") body

-- The constructor's reading of a key that has to be there, and of one that may be.
abbrev required : Option Bytes → Result Bytes
required none = throw "jwt_auth: secret must not be empty"
required (some []) = throw "jwt_auth: secret must not be empty"
required (some (c ∷ cs)) = ok (c ∷ cs)

abbrev value_or : Option Bytes → Bytes → Bytes
value_or none d = d
value_or (some v) d = v

abbrev optional : Option Bytes → Option Bytes
optional none = none
optional (some v) = non_empty v

pub create : Bytes → Result JwtAuthModule
create config_text =
    let alg = value_or (get config_text (bytes "alg")) (bytes "HS256") in
    do
      rules ← parse_rules config_text
      secret ← required (get config_text (bytes "secret"))
      throw_if (not (equal alg (bytes "HS256"))) "jwt_auth: only alg=HS256 is supported"
      ok (record {
        secret = secret;
        alg = alg;
        issuer = optional (get config_text (bytes "issuer"));
        audience = optional (get config_text (bytes "audience"));
        rules = rules;
      })

pub rule_applies : Request → AuthRule → Bool
rule_applies request rule =
    method_matches rule.method_pattern request.method
    && target_matches rule.target_kind rule.target_pattern request.target

pub enforced : JwtAuthModule → Request → Bool
enforced m request = is_empty m.rules || any (rule_applies request) m.rules

pub request_token : Request → Option Bytes
request_token request = elim (header_value request.headers (bytes "Authorization")) [
  | none ↦ none
  | some value ↦ extract_bearer_token value
]

abbrev with_header : Bytes → Bytes → Reply → Reply
with_header name value reply =
    if is_empty value then reply else add_response_header reply name value

pub claims_reply : JwtClaims → Reply
claims_reply claims = with_header (bytes "X-Garcon-Claim-aud") claims.aud (
    with_header (bytes "X-Garcon-Claim-iss") claims.iss (
      with_header (bytes "X-Garcon-Roles") claims.roles
        (with_header (bytes "X-Garcon-User-Id") claims.sub pass_reply)))

abbrev pub failure_body : Failure → Bytes
failure_body expired = bytes "token expired\n"
failure_body failure = bytes "invalid token\n"

-- `text(401, "Unauthorized", body)`, or the claims that were read.
abbrev pub verdict_reply : Verdict → Reply
verdict_reply (accepted claims) = claims_reply claims
verdict_reply (rejected failure) = respond_reply (make_unauthorized (failure_body failure))

abbrev pub token_reply : Outside → JwtAuthModule → Option Bytes → Result Reply
token_reply outside m none = ok (respond_reply (make_unauthorized (bytes "missing token\n")))
token_reply outside m (some token) = do
  verdict ← validate_and_extract outside token m.secret m.issuer m.audience
  ok (verdict_reply verdict)

pub handle : Outside → JwtAuthModule → Module
handle outside m request =
    if enforced m request then token_reply outside m (request_token request) else ok pass_reply
