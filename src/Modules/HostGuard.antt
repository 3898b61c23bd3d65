-- ===== src/Modules/HostGuard.antt =====
-- host_guard_module.cpp: a request that a rule is for names one of the rule's hosts.
pub mod Guards
pub mod Hosts
mod Tests
use Prim.Native.String.{String}
use garcon.Prelude.{
  ℕ, Bool, true, false, ◌&&◌, ◌||◌, not, ◌-◌, Option, none, some, List, [], ◌∷◌, ◌++◌, length,
  is_empty, drop, all, any, Result, ok, throw, throw_if, ◌>>=◌, ◌>>◌, if◌then◌else◌, ltb, ◌==◌,
  reverse,
}
use garcon.Text.{
  Bytes, bytes, equal, has, cut_at, trim, split_fields, is_digit, ascii_lowercase, ascii_iequals,
}
use garcon.Http.Header.{header_value}
use garcon.Http.Request.{Request}
use garcon.Http.Response.{Response, text}
use garcon.Modules.Abi.{Reply, Module, respond_reply}
use garcon.Modules.Config.{
  PatternKind, classify_target_pattern, method_matches, target_matches, case_of, parse_status_code,
  parse_config, first_reply,
}

pub data HostPatternKind : Type 0 where
  exact_host suffix_host : HostPatternKind

pub record HostPattern : Type 0 where
  pub kind : HostPatternKind
  pub value : Bytes

pub record GuardRule : Type 0 where
  pub method_pattern : Bytes
  pub target_pattern : Bytes
  pub target_kind : PatternKind
  pub allowed_hosts : List HostPattern
  pub failure_status : ℕ
  pub failure_body : Bytes

unfoldable pub reason_phrase_for_status : ℕ → Bytes
unfolding case_of
reason_phrase_for_status status =
    case_of status
      ((200, bytes "OK")
        ∷ (400, bytes "Bad Request")
        ∷ (404, bytes "Not Found")
        ∷ (405, bytes "Method Not Allowed")
        ∷ (421, bytes "Misdirected Request")
        ∷ (429, bytes "Too Many Requests")
        ∷ (500, bytes "Internal Server Error")
        ∷ (503, bytes "Service Unavailable")
        ∷ [])
      (bytes "Misdirected Request")

-- On the lower-cased value: `*.` with more behind it is a suffix, kept from its dot on.
host_pattern : Bytes → HostPattern
host_pattern (a ∷ b ∷ c ∷ rest) =
    if a == b'*' && b == b'.'
    then record { kind = suffix_host; value = b ∷ c ∷ rest }
    else record { kind = exact_host; value = a ∷ b ∷ c ∷ rest }
host_pattern value = record { kind = exact_host; value = value }

pub parse_host_pattern : Bytes → Result HostPattern
parse_host_pattern value = do
  throw_if (is_empty value) "host_guard: host pattern must not be empty"
  ok (host_pattern (ascii_lowercase value))

parse_host_fields : List Bytes → Result (List HostPattern)
parse_host_fields [] = ok []
parse_host_fields (field ∷ fields) =
    let rest = parse_host_fields fields in
    if is_empty field
    then rest
    else (parse_host_pattern field >>= λ pattern. rest >>= λ patterns. ok (pattern ∷ patterns))

pub parse_host_patterns : Bytes → Result (List HostPattern)
parse_host_patterns value = do
  patterns ← parse_host_fields (split_fields value b',')
  throw_if (is_empty patterns) "host_guard: rule requires at least one host pattern"
  ok patterns

parse_rule_fields : List Bytes → Result GuardRule
parse_rule_fields (method ∷ target ∷ hosts ∷ status ∷ body ∷ []) =
    let (kind, pattern) = classify_target_pattern target in
    do
      allowed ← parse_host_patterns hosts
      throw_if (is_empty method) "host_guard: method pattern must not be empty"
      throw_if (is_empty pattern) "host_guard: target pattern must not be empty"
      code ← parse_status_code "host_guard: " status
      ok (record {
        method_pattern = method;
        target_pattern = pattern;
        target_kind = kind;
        allowed_hosts = allowed;
        failure_status = code;
        failure_body = body;
      })
parse_rule_fields fields = throw "host_guard: rule requires 5 fields"

pub parse_rule_line : Bytes → Result GuardRule
parse_rule_line line = parse_rule_fields (split_fields (drop 5 line) b'|')

pub parse_rules : Bytes → Result (List GuardRule)
parse_rules config_text = parse_config (bytes "rule=") parse_rule_line config_text

-- The text up to the first `]`, with it, or all of it.
abbrev bracketed : Bytes → Option (Bytes × Bytes) → Bytes
bracketed host none = host
bracketed host (some (before, after)) = before ++ (b']' ∷ [])

-- `host.rfind(':')` is also the first colon, and a number stands behind it: that is cut off.
abbrev without_port : Bytes → Option (Bytes × Bytes) → Bytes
without_port host none = host
without_port host (some (before, after)) =
    if not (has b':' after) && not (is_empty after) && all is_digit after then before else host

abbrev front_is : ℕ → Bytes → Bool
front_is c [] = false
front_is c (b ∷ bs) = b == c

pub normalize_host_header : Bytes → Bytes
normalize_host_header value =
    let host = trim value in
    if is_empty host
    then []
    else if front_is b'[' host
    then ascii_lowercase (bracketed host (cut_at (bytes "]") host))
    else ascii_lowercase (without_port host (cut_at (bytes ":") host))

pub host_matches : HostPattern → Bytes → Bool
host_matches pattern actual_host = elim pattern.kind [
  | exact_host ↦ ascii_iequals pattern.value actual_host
  | suffix_host ↦
      if ltb (length pattern.value) (length actual_host)
      then equal (drop (length actual_host - length pattern.value) actual_host) pattern.value
      else false
]

host_allowed : GuardRule → Option Bytes → Bool
host_allowed rule none = false
host_allowed rule (some host) =
    let normalized_host = normalize_host_header host in
    if is_empty normalized_host
    then false
    else any (λ pattern. host_matches pattern normalized_host) rule.allowed_hosts

pub request_satisfies_rule : GuardRule → Request → Bool
request_satisfies_rule rule request =
    host_allowed rule (header_value request.headers (bytes "Host"))

pub failure_response : GuardRule → Response
failure_response rule =
    text rule.failure_status (reason_phrase_for_status rule.failure_status) rule.failure_body

pub rule_applies : Request → GuardRule → Bool
rule_applies request rule =
    method_matches rule.method_pattern request.method
    && target_matches rule.target_kind rule.target_pattern request.target

pub rule_step : Request → GuardRule → Option Reply
rule_step request rule =
    if rule_applies request rule && not (request_satisfies_rule rule request)
    then some (respond_reply (failure_response rule))
    else none

pub handle : List GuardRule → Module
handle rules request = ok (first_reply (rule_step request) rules)

pub create : Bytes → Result Module
create config_text = parse_rules config_text >>= λ rules. ok (handle rules)
