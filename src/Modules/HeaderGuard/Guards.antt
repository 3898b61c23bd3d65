-- ===== src/Modules/HeaderGuard/Guards.antt =====
-- What a header guard lets through.
use garcon.Prelude.{[], ◌≡◌, ◌↔◌, refl, ap, sym, true, Option, none, some, List, ok, >>=-eq-ok}
use garcon.Text.{Bytes}
use garcon.Text.Search.{equal_iff}
use garcon.Http.Header.{header_value}
use garcon.Http.Request.{Request}
use garcon.Modules.Abi.{Reply, Module}
use garcon.Modules.Config.{first_reply}
use garcon.Http.Response.{Response, text}
use garcon.Modules.Config.Patterns.{IsFor, matches_iff}
use garcon.Modules.Config.Scan.{IsGuarded, first_IsGuarded, first_reply-IsFirst}
use garcon.Modules.HeaderGuard.{
  GuardRule, parse_rules, request_satisfies_rule, failure_response, rule_applies, rule_step, handle,
  create, value_accepted,
}

-- The header is there, with the value that the rule expects, if it expects one.
abbrev pub HasExpected : Option Bytes → Option Bytes → Type 0
HasExpected none actual = (value : Bytes) × (actual ≡ some value)
HasExpected (some expected) actual = actual ≡ some expected

value_accepted_iff :
    (expected actual : Option Bytes)
    → (value_accepted expected actual ≡ true) ↔ HasExpected expected actual
value_accepted_iff none none = ((λ h. absurd cc), (λ h. absurd (let (v, e) = h in cc)))
value_accepted_iff none (some a) = ((λ h. (a, refl)), (λ h. refl))
value_accepted_iff (some e) none = ((λ h. absurd cc), (λ h. absurd cc))
value_accepted_iff (some e) (some a) = (
  (λ h. let p : a ≡ e = (equal_iff a e).0 h in ap some p),
  (λ h. let p : a ≡ e = cc in (equal_iff a e).1 p),
)

pub request_satisfies_rule_iff :
    (rule : GuardRule) (request : Request)
    → (request_satisfies_rule rule request ≡ true)
      ↔ HasExpected rule.expected_value (header_value request.headers rule.header_name)
unfolding request_satisfies_rule
request_satisfies_rule_iff rule request =
    value_accepted_iff rule.expected_value (header_value request.headers rule.header_name)

-- The rule is for the request's method and target.
abbrev pub Applies : Request → GuardRule → Type 0
Applies request rule = IsFor rule.method_pattern rule.target_kind rule.target_pattern request

-- The header that the rule names is as it expects.
abbrev pub Satisfies : Request → GuardRule → Type 0
Satisfies request rule =
    HasExpected rule.expected_value (header_value request.headers rule.header_name)

-- The status and the body that the rule names.
abbrev pub IsFailure : GuardRule → Response → Type 0
IsFailure rule r =
    (r.status ≡ rule.failure_status) × (r.body ≡ rule.failure_body) × (r.headers ≡ [])

rule_applies_iff :
    (request : Request) (rule : GuardRule)
    → (rule_applies request rule ≡ true) ↔ Applies request rule
unfolding rule_applies
rule_applies_iff request rule =
    matches_iff rule.method_pattern rule.target_kind rule.target_pattern request

failure_response-IsFailure : (rule : GuardRule) → IsFailure rule (failure_response rule)
unfolding failure_response text
failure_response-IsFailure rule = (refl, refl, refl)

-- A guard that was made from a configuration passes a request where for every rule whose method is
-- `*` or the request's and whose target pattern covers the request's target, the header that the
-- rule names is there, with the value that the rule expects, if any. Else it answers with the status
-- and the body of the first such rule of which that is not so.
pub create_header_guard-IsGuarded :
    (config_text : Bytes) (m : Module)
    → create config_text ≡ ok m
    → (rules : List GuardRule) × (parse_rules config_text ≡ ok rules)
      × ((request : Request)
          → (reply : Reply) × (m request ≡ ok reply)
            × IsGuarded (Applies request) (Satisfies request) IsFailure rules reply)
unfolding create handle rule_step
create_header_guard-IsGuarded config_text m h =
    let (rules, e, h1) = >>=-eq-ok (parse_rules config_text) _ h in
    let g : handle rules ≡ m = cc in
    (
      rules,
      e,
      λ request. (
        first_reply (rule_step request) rules,
        ap (λ k. k request) (sym g),
        first_IsGuarded (Applies request) (Satisfies request) IsFailure (rule_applies request)
            (λ rule. request_satisfies_rule rule request) failure_response
            (rule_applies_iff request) (λ rule. request_satisfies_rule_iff rule request)
            failure_response-IsFailure rules (first_reply-IsFirst (rule_step request) rules),
      ),
    )
