-- ===== src/Modules/Cors/Grants.antt =====
-- To which origins the CORS module grants an answer.
use garcon.Prelude.{
  ◌≡◌, refl, ap, sym, ◌∙◌, true, Bool-cases, inl, inr, none, some, Option-cases, List, [], ◌∷◌,
  append-nil, Any, here, there, ok, ◌>>=◌, >>=-eq-ok,
}
use garcon.Text.{Bytes, bytes}
use garcon.Http.Header.{header_value}
use garcon.Http.Request.{Request}
use garcon.Http.Response.{Response}
use garcon.Modules.Abi.{Reply, pass_reply, respond_reply}
use garcon.Modules.Config.{target_matches}
use garcon.Modules.Config.Patterns.{target_matches_sound}
use garcon.Modules.Cors.{
  Rule, origin_allowed, allowed_origin_value, make_preflight_response, method_error, shared_reply,
  answer_by, each_rule, is_preflight_request, method_allowed, value_or_empty, handle,
}
use garcon.Modules.Cors.Granted.{
  allow_origin, granted, Allows, allowed_origin_value-cases, origin_allowed-Any,
  make_preflight_response_grants, shared_reply_grants, pass_grants, error_grants,
}

no_grant :
    (r reply : Reply) (value : Bytes)
    → granted r ≡ none
    → ok r ≡ ok reply
    → granted reply ≡ some value
    → ⊥
no_grant r reply value n h g =
    let e : r ≡ reply = cc in
    let k : granted r ≡ some value = ap granted e ∙ g in let m : none ≡ some value = sym n ∙ k in cc

respond_grants : (r : Response) → granted (respond_reply r) ≡ header_value r.headers allow_origin
unfolding granted respond_reply
respond_grants r = rw (append-nil r.headers) refl

preflight_grants :
    (rule : Rule) (origin : Bytes) (reply : Reply)
    → (make_preflight_response rule origin >>= λ r. ok (respond_reply r)) ≡ ok reply
    → granted reply ≡ some (allowed_origin_value rule origin)
preflight_grants rule origin reply h =
    let (r, e, k) = >>=-eq-ok (make_preflight_response rule origin) _ h in
    let f : respond_reply r ≡ reply = cc in
    ap granted (sym f) ∙ respond_grants r ∙ make_preflight_response_grants rule origin r e

shared_grants :
    (rule : Rule) (origin : Bytes) (reply : Reply)
    → ok (shared_reply rule origin) ≡ ok reply
    → granted reply ≡ some (allowed_origin_value rule origin)
shared_grants rule origin reply h =
    let f : shared_reply rule origin ≡ reply = cc in
    ap granted (sym f) ∙ shared_reply_grants rule origin

abbrev requested_method : Request → Bytes
requested_method request =
    value_or_empty (header_value request.headers (bytes "Access-Control-Request-Method"))

answer_by_grants :
    (rule : Rule) (origin : Bytes) (request : Request) (reply : Reply) (value : Bytes)
    → answer_by rule origin request ≡ ok reply
    → granted reply ≡ some value
    → (origin_allowed rule origin ≡ true) × (allowed_origin_value rule origin ≡ value)
unfolding answer_by method_error
answer_by_grants rule origin request reply value h g =
    elim (Bool-cases (origin_allowed rule origin)) [
      | inl a ↦ (
        a,
        elim (Bool-cases (is_preflight_request request)) [
          | inl p ↦ elim (Bool-cases (method_allowed rule (requested_method request))) [
            | inl m ↦ same (preflight_grants rule origin reply (rw (a, p, m) at h))
            | inr m ↦ absurd (
                no_grant _ reply value
                  (error_grants 405 "Method Not Allowed" "cors method not allowed\n")
                  (rw (a, p, m) at h) g)
          ]
          | inr p ↦ elim (Bool-cases (method_allowed rule request.method)) [
            | inl m ↦ same (shared_grants rule origin reply (rw (a, p, m) at h))
            | inr m ↦ absurd (
                no_grant _ reply value
                  (error_grants 405 "Method Not Allowed" "cors method not allowed\n")
                  (rw (a, p, m) at h) g)
          ]
        ],
      )
      | inr a ↦ absurd (elim (Bool-cases (is_preflight_request request)) [
        | inl p ↦
            no_grant _ reply value (error_grants 403 "Forbidden" "cors origin not allowed\n")
              (rw (a, p) at h) g
        | inr p ↦ no_grant _ reply value pass_grants (rw (a, p) at h) g
      ])
    ]
  where
    same :
        granted reply ≡ some (allowed_origin_value rule origin)
        → allowed_origin_value rule origin ≡ value
    same e = let k : some (allowed_origin_value rule origin) ≡ some value = sym e ∙ g in cc

each_rule_grants :
    (rules : List Rule) (origin : Bytes) (request : Request) (reply : Reply) (value : Bytes)
    → each_rule rules origin request ≡ ok reply
    → granted reply ≡ some value
    → Any (Allows request.target origin value) rules
unfolding each_rule
each_rule_grants [] origin request reply value h g =
    absurd (no_grant pass_reply reply value pass_grants h g)
each_rule_grants (rule ∷ rules) origin request reply value h g =
    elim (Bool-cases (target_matches rule.target_kind rule.target_pattern request.target)) [
      | inl t ↦
          let (a, v) = answer_by_grants rule origin request reply value (rw t at h) g in
          here (
            target_matches_sound rule.target_kind rule.target_pattern request.target t,
            origin_allowed-Any rule origin a,
            allowed_origin_value-cases rule origin value v,
          )
      | inr t ↦ there (each_rule_grants rules origin request reply value (rw t at h) g)
    ]

-- An answer grants an origin only to a request that names its own origin, by a rule whose target
-- pattern covers the request's target and that lists this origin or a star: the granted value is a
-- star exactly where the rule lists a star, and else the request's own origin.
pub handle_grants :
    (rules : List Rule) (request : Request) (reply : Reply) (value : Bytes)
    → handle rules request ≡ ok reply
    → granted reply ≡ some value
    → (origin : Bytes) × (header_value request.headers (bytes "Origin") ≡ some origin)
      × Any (Allows request.target origin value) rules
unfolding handle
handle_grants rules request reply value h g =
    elim (Option-cases (header_value request.headers (bytes "Origin"))) [
      | inl e ↦ absurd (no_grant pass_reply reply value pass_grants (rw e at h) g)
      | inr (origin, e) ↦
          (origin, e, each_rule_grants rules origin request reply value (rw e at h) g)
    ]
