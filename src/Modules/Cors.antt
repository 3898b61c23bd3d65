-- ===== src/Modules/Cors.antt =====
-- cors_module.cpp: which origins a browser may let use an answer.
pub mod Granted
pub mod Grants
mod Tests
use mathlib.Core.Option
use Prim.Native.String.{String}
use garcon.Prelude.{
  ℕ, Bool, true, false, ◌&&◌, ◌||◌, not, Option, none, some, List, [], ◌∷◌, is_empty, drop, any,
  map, Result, ok, throw, throw_if, ◌>>=◌, ◌>>◌, if◌then◌else◌,
}
use garcon.Text.{Bytes, bytes, equal, split_fields, ascii_lowercase}
use garcon.Http.Header.{header_value}
use garcon.Http.Request.{Request}
use garcon.Http.Response.{Response, default_response, text, set_header, add_header}
use garcon.Modules.Abi.{Reply, Module, pass_reply, respond_reply, add_response_header}
use garcon.Modules.Config.{PatternKind, classify_target_pattern, target_matches, parse_config}

pub record OriginPattern : Type 0 where
  pub value : Bytes
  pub allow_any : Bool

pub record Rule : Type 0 where
  pub target_pattern : Bytes
  pub target_kind : PatternKind
  pub allowed_origins : List OriginPattern
  pub allowed_methods : List Bytes
  pub allow_methods_header : Bytes
  pub allow_headers_header : Bytes

parse_origin_pattern : Bytes → Result OriginPattern
parse_origin_pattern value = do
  throw_if (is_empty value) "cors: origin pattern must not be empty"
  ok (record { value = value; allow_any = equal value (bytes "*") })

parse_origin_fields : List Bytes → Result (List OriginPattern)
parse_origin_fields [] = ok []
parse_origin_fields (field ∷ fields) =
    let rest = parse_origin_fields fields in
    if is_empty field
    then rest
    else (parse_origin_pattern field >>= λ pattern. rest >>= λ patterns. ok (pattern ∷ patterns))

parse_origin_patterns : Bytes → Result (List OriginPattern)
parse_origin_patterns value = do
  patterns ← parse_origin_fields (split_fields value b',')
  throw_if (is_empty patterns) "cors: rule requires at least one origin"
  ok patterns

method_fields : List Bytes → List Bytes
method_fields [] = []
method_fields (field ∷ fields) =
    let rest = method_fields fields in if is_empty field then rest else ascii_lowercase field ∷ rest

parse_allowed_methods : Bytes → Result (List Bytes)
parse_allowed_methods value =
    let methods = method_fields (split_fields value b',') in
    do throw_if (is_empty methods) "cors: rule requires at least one method"; ok methods

parse_rule_fields : List Bytes → Result Rule
parse_rule_fields (target ∷ origins ∷ methods ∷ headers ∷ []) =
    let (kind, pattern) = classify_target_pattern target in
    do
      allowed ← parse_origin_patterns origins
      allowed_names ← parse_allowed_methods methods
      throw_if (is_empty pattern) "cors: target pattern must not be empty"
      ok (record {
        target_pattern = pattern;
        target_kind = kind;
        allowed_origins = allowed;
        allowed_methods = allowed_names;
        allow_methods_header = methods;
        allow_headers_header = headers;
      })
parse_rule_fields fields = throw "cors: rule requires 4 fields"

pub parse_rule_line : Bytes → Result Rule
parse_rule_line line = parse_rule_fields (split_fields (drop 5 line) b'|')

pub parse_rules : Bytes → Result (List Rule)
parse_rules config_text = parse_config (bytes "rule=") parse_rule_line config_text

abbrev has_value : Option Bytes → Bool
has_value none = false
has_value (some v) = true

abbrev value_or_empty : Option Bytes → Bytes
value_or_empty none = []
value_or_empty (some v) = v

is_preflight_request : Request → Bool
is_preflight_request request =
    equal request.method (bytes "OPTIONS")
    && has_value (header_value request.headers (bytes "Origin"))
    && has_value (header_value request.headers (bytes "Access-Control-Request-Method"))

pub origin_matches : OriginPattern → Bytes → Bool
origin_matches pattern origin = pattern.allow_any || equal pattern.value origin

pub origin_allowed : Rule → Bytes → Bool
origin_allowed rule origin = any (λ pattern. origin_matches pattern origin) rule.allowed_origins

pub any_origin_allowed : Rule → Bool
any_origin_allowed rule = any (λ pattern. pattern.allow_any) rule.allowed_origins

method_allowed : Rule → Bytes → Bool
method_allowed rule method =
    any (λ allowed. equal allowed (ascii_lowercase method)) rule.allowed_methods

pub allowed_origin_value : Rule → Bytes → Bytes
allowed_origin_value rule request_origin =
    if any_origin_allowed rule then bytes "*" else request_origin

pub add_vary : Rule → Response → Result Response
add_vary rule response =
    if any_origin_allowed rule
    then ok response
    else add_header response (bytes "Vary") (bytes "Origin")

add_cors_headers : Response → Rule → Bytes → Result Response
add_cors_headers response rule request_origin = do
  response ←
      set_header response (bytes "Access-Control-Allow-Origin")
        (allowed_origin_value rule request_origin)
  add_vary rule response

pub add_allow_headers : Rule → Response → Result Response
add_allow_headers rule response =
    if is_empty rule.allow_headers_header
    then ok response
    else set_header response (bytes "Access-Control-Allow-Headers") rule.allow_headers_header

pub make_preflight_response : Rule → Bytes → Result Response
make_preflight_response rule request_origin = do
  response ←
      add_cors_headers
        (record default_response {
          status = 204;
          reason = bytes "No Content";
          content_length = some 0;
        })
        rule request_origin
  response ← set_header response (bytes "Access-Control-Allow-Methods") rule.allow_methods_header
  add_allow_headers rule response

pub make_cors_error : ℕ → String → String → Response
make_cors_error status reason body = text status (bytes reason) (bytes body)

method_error : Result Reply
method_error =
    ok (respond_reply (make_cors_error 405 "Method Not Allowed" "cors method not allowed\n"))

pub shared_reply : Rule → Bytes → Reply
shared_reply rule request_origin =
    let result =
      add_response_header pass_reply (bytes "Access-Control-Allow-Origin")
        (allowed_origin_value rule request_origin) in
    if any_origin_allowed rule
    then result
    else add_response_header result (bytes "Vary") (bytes "Origin")

-- The body of the loop behind its test of the target.
answer_by : Rule → Bytes → Request → Result Reply
answer_by rule request_origin request =
    if not (origin_allowed rule request_origin)
    then if is_preflight_request request
      then ok (respond_reply (make_cors_error 403 "Forbidden" "cors origin not allowed\n"))
      else ok pass_reply
    else if is_preflight_request request
    then if not (
        method_allowed rule
          (value_or_empty (header_value request.headers (bytes "Access-Control-Request-Method"))))
      then method_error
      else (make_preflight_response rule request_origin >>= λ r. ok (respond_reply r))
    else if not (method_allowed rule request.method)
    then method_error
    else ok (shared_reply rule request_origin)

each_rule : List Rule → Bytes → Request → Result Reply
each_rule [] request_origin request = ok pass_reply
each_rule (rule ∷ rules) request_origin request =
    let later = each_rule rules request_origin request in
    if target_matches rule.target_kind rule.target_pattern request.target
    then answer_by rule request_origin request
    else later

abbrev with_origin : List Rule → Request → Option Bytes → Result Reply
with_origin rules request none = ok pass_reply
with_origin rules request (some origin) = each_rule rules origin request

pub handle : List Rule → Module
handle rules request = with_origin rules request (header_value request.headers (bytes "Origin"))

pub create : Bytes → Result Module
create config_text = parse_rules config_text >>= λ rules. ok (handle rules)
