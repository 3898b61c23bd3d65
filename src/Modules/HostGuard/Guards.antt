-- ===== src/Modules/HostGuard/Guards.antt =====
-- What a host guard lets through.
use garcon.Prelude.{
  ◌≡◌, ◌≢◌, ◌↔◌, refl, ap, sym, true, false, Bool-cases, inl, inr, Option, none, some, List, [],
  ◌++◌, Any, is_empty, ok, >>=-eq-ok,
}
use garcon.Text.{Bytes, bytes, ascii_lowercase}
use garcon.Text.Case.{ascii_iequals_iff}
use garcon.Http.Header.{header_value}
use garcon.Http.Request.{Request}
use garcon.Http.Response.{Response, text}
use garcon.Modules.Abi.{Reply, Module}
use garcon.Modules.Config.{first_reply}
use garcon.Modules.Config.Patterns.{IsFor, matches_iff}
use garcon.Modules.Config.Scan.{IsGuarded, first_IsGuarded, first_reply-IsFirst, any_iff}
use garcon.Modules.HostGuard.{
  GuardRule, HostPattern, HostPatternKind, exact_host, suffix_host, parse_rules, host_matches,
  host_allowed, normalize_host_header, request_satisfies_rule, failure_response, rule_applies,
  rule_step, handle, create,
}
use garcon.Modules.HostGuard.Hosts.{host_matches-suffix, nonempty}

-- The rule is for the request's method and target.
abbrev pub Applies : Request → GuardRule → Type 0
Applies request rule = IsFor rule.method_pattern rule.target_kind rule.target_pattern request

-- An exact pattern is the host in any case; a suffix has at least one byte in front of it.
abbrev pub IsHost : HostPatternKind → Bytes → Bytes → Type 0
IsHost exact_host value host = ascii_lowercase value ≡ ascii_lowercase host
IsHost suffix_host value host = (front : Bytes) × (front ≢ []) × (host ≡ front ++ value)

-- There is a Host field that names a host, and one of the rule's patterns is for this host.
abbrev pub Satisfies : Request → GuardRule → Type 0
Satisfies request rule =
    (value : Bytes) × (header_value request.headers (bytes "Host") ≡ some value)
    × (normalize_host_header value ≢ [])
    × Any (λ pattern. IsHost pattern.kind pattern.value (normalize_host_header value))
        rule.allowed_hosts

-- The status and the body that the rule names.
abbrev pub IsFailure : GuardRule → Response → Type 0
IsFailure rule r =
    (r.status ≡ rule.failure_status) × (r.body ≡ rule.failure_body) × (r.headers ≡ [])

rule_applies_iff :
    (request : Request) (rule : GuardRule)
    → (rule_applies request rule ≡ true) ↔ Applies request rule
unfolding rule_applies
rule_applies_iff request rule =
    matches_iff rule.method_pattern rule.target_kind rule.target_pattern request

failure_response-IsFailure : (rule : GuardRule) → IsFailure rule (failure_response rule)
unfolding failure_response text
failure_response-IsFailure rule = (refl, refl, refl)

kind_iff :
    (kind : HostPatternKind) (value host : Bytes)
    → (host_matches (record { kind = kind; value = value }) host ≡ true) ↔ IsHost kind value host
unfolding host_matches
kind_iff exact_host value host = ascii_iequals_iff value host
kind_iff suffix_host value host = host_matches-suffix value host

host_matches_iff :
    (host : Bytes) (pattern : HostPattern)
    → (host_matches pattern host ≡ true) ↔ IsHost pattern.kind pattern.value host
host_matches_iff host pattern = kind_iff pattern.kind pattern.value host

allowed_sound :
    (rule : GuardRule) (found : Option Bytes)
    → host_allowed rule found ≡ true
    → (value : Bytes) × (found ≡ some value)
      × (normalize_host_header value ≢ [])
      × Any
          (λ pattern. IsHost pattern.kind pattern.value (normalize_host_header value))
          rule.allowed_hosts
unfolding host_allowed
allowed_sound rule none h = absurd cc
allowed_sound rule (some value) h = elim (Bool-cases (is_empty (normalize_host_header value))) [
  | inl e ↦ absurd (let k : false ≡ true = rw e at h in cc)
  | inr e ↦ (
    value,
    refl,
    (λ k. let g : is_empty (normalize_host_header value) ≡ true = rw k refl in cc),
    (any_iff _ _ (host_matches_iff (normalize_host_header value)) rule.allowed_hosts).0 (rw e at h),
  )
]

allowed_complete :
    (rule : GuardRule) (value : Bytes)
    → normalize_host_header value ≢ []
    → Any
        (λ pattern. IsHost pattern.kind pattern.value (normalize_host_header value))
        rule.allowed_hosts
    → host_allowed rule (some value) ≡ true
unfolding host_allowed
allowed_complete rule value n k =
    rw (nonempty (normalize_host_header value) n)
      ((any_iff _ _ (host_matches_iff (normalize_host_header value)) rule.allowed_hosts).1 k)

request_satisfies_rule_iff :
    (request : Request) (rule : GuardRule)
    → (request_satisfies_rule rule request ≡ true) ↔ Satisfies request rule
unfolding request_satisfies_rule
request_satisfies_rule_iff request rule = (
  allowed_sound rule (header_value request.headers (bytes "Host")),
  λ (value, e, n, k). rw e (allowed_complete rule value n k),
)

-- A guard that was made from a configuration passes a request where for every rule whose method is
-- `*` or the request's and whose target pattern covers the request's target, there is a Host field
-- that names a host for which the rule has a pattern: the host itself in any case, or a suffix of it
-- that is not all of it. Else it answers with the status and the body of the first such rule of which
-- that is not so.
pub create_host_guard-IsGuarded :
    (config_text : Bytes) (m : Module)
    → create config_text ≡ ok m
    → (rules : List GuardRule) × (parse_rules config_text ≡ ok rules)
      × ((request : Request)
          → (reply : Reply) × (m request ≡ ok reply)
            × IsGuarded (Applies request) (Satisfies request) IsFailure rules reply)
unfolding create handle rule_step
create_host_guard-IsGuarded config_text m h =
    let (rules, e, h1) = >>=-eq-ok (parse_rules config_text) _ h in
    let g : handle rules ≡ m = cc in
    (
      rules,
      e,
      λ request. (
        first_reply (rule_step request) rules,
        ap (λ k. k request) (sym g),
        first_IsGuarded (Applies request) (Satisfies request) IsFailure (rule_applies request)
            (λ rule. request_satisfies_rule rule request) failure_response
            (rule_applies_iff request) (request_satisfies_rule_iff request)
            failure_response-IsFailure rules (first_reply-IsFirst (rule_step request) rules),
      ),
    )
