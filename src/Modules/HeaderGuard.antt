-- ===== src/Modules/HeaderGuard.antt =====
-- header_guard_module.cpp: a request that a rule is for has the header that the rule asks for.
pub mod Guards
mod Tests
use Prim.Native.String.{String, ◌++◌}
use garcon.Prelude.{
  ℕ, Bool, true, false, ◌&&◌, not, Option, none, some, List, [], ◌∷◌, is_empty, drop, Result, ok,
  throw, throw_if, ◌>>=◌, ◌>>◌, if◌then◌else◌,
}
use garcon.Text.{Bytes, bytes, equal, split_fields}
use garcon.Http.Header.{header_value}
use garcon.Http.Request.{Request}
use garcon.Http.Response.{Response, text}
use garcon.Modules.Abi.{Reply, Module, respond_reply}
use garcon.Modules.Config.{
  PatternKind, classify_target_pattern, method_matches, target_matches, case_of, parse_status_code,
  parse_config, first_reply,
}

pub record GuardRule : Type 0 where
  pub method_pattern : Bytes
  pub target_pattern : Bytes
  pub target_kind : PatternKind
  pub header_name : Bytes
  pub expected_value : Option Bytes
  pub failure_status : ℕ
  pub failure_body : Bytes

unfoldable pub reason_phrase_for_status : ℕ → Bytes
unfolding case_of
reason_phrase_for_status status =
    case_of status
      ((200, bytes "OK")
        ∷ (400, bytes "Bad Request")
        ∷ (401, bytes "Unauthorized")
        ∷ (403, bytes "Forbidden")
        ∷ (404, bytes "Not Found")
        ∷ (405, bytes "Method Not Allowed")
        ∷ (429, bytes "Too Many Requests")
        ∷ (500, bytes "Internal Server Error")
        ∷ (503, bytes "Service Unavailable")
        ∷ [])
      (bytes "Unauthorized")

-- `parse_rule_line` behind its test of the number of fields.
parse_rule : Bytes → Bytes → Bytes → Option Bytes → Bytes → Bytes → Result GuardRule
parse_rule method target name expected status body =
    let (kind, pattern) = classify_target_pattern target in
    do
      throw_if (is_empty method) "header_guard: method pattern must not be empty"
      throw_if (is_empty pattern) "header_guard: target pattern must not be empty"
      throw_if (is_empty name) "header_guard: header name must not be empty"
      code ← parse_status_code "header_guard: " status
      ok (record {
        method_pattern = method;
        target_pattern = pattern;
        target_kind = kind;
        header_name = name;
        expected_value = expected;
        failure_status = code;
        failure_body = body;
      })

-- Five fields, or six with the expected value.
parse_rule_fields : List Bytes → Result GuardRule
parse_rule_fields (method ∷ target ∷ name ∷ status ∷ body ∷ []) =
    parse_rule method target name none status body
parse_rule_fields (method ∷ target ∷ name ∷ expected ∷ status ∷ body ∷ []) =
    parse_rule method target name (some expected) status body
parse_rule_fields fields = throw "header_guard: rule requires 5 or 6 fields"

pub parse_rule_line : Bytes → Result GuardRule
parse_rule_line line = parse_rule_fields (split_fields (drop 5 line) b'|')

pub parse_rules : Bytes → Result (List GuardRule)
parse_rules config_text = parse_config (bytes "rule=") parse_rule_line config_text

abbrev pub value_accepted : Option Bytes → Option Bytes → Bool
value_accepted expected none = false
value_accepted none (some actual) = true
value_accepted (some expected) (some actual) = equal actual expected

pub request_satisfies_rule : GuardRule → Request → Bool
request_satisfies_rule rule request =
    value_accepted rule.expected_value (header_value request.headers rule.header_name)

pub failure_response : GuardRule → Response
failure_response rule =
    text rule.failure_status (reason_phrase_for_status rule.failure_status) rule.failure_body

pub rule_applies : Request → GuardRule → Bool
rule_applies request rule =
    method_matches rule.method_pattern request.method
    && target_matches rule.target_kind rule.target_pattern request.target

pub rule_step : Request → GuardRule → Option Reply
rule_step request rule =
    if rule_applies request rule && not (request_satisfies_rule rule request)
    then some (respond_reply (failure_response rule))
    else none

pub handle : List GuardRule → Module
handle rules request = ok (first_reply (rule_step request) rules)

pub create : Bytes → Result Module
create config_text = parse_rules config_text >>= λ rules. ok (handle rules)
