-- ===== src/Modules/JwtAuth/Guards.antt =====
-- Whom the module lets through.
use garcon.Prelude.{
  ◌≡◌, ◌↔◌, ◌⊎◌, ◌||◌, ap, sym, refl, true, Option, none, some, List, [], ◌∷◌, ◌++◌, append-nil,
  any, Any, is_empty, Bool-cases, inl, inr, ok, >>=-eq-ok, subst,
}
use garcon.Text.{Bytes, bytes}
use garcon.Http.Header.{HeaderField}
use garcon.Http.Request.{Request}
use garcon.Modules.Abi.{Reply, pass_reply, respond_reply, add_response_header}
use garcon.Modules.Config.Patterns.{IsFor, matches_iff}
use garcon.Modules.Config.Scan.{any_iff}
use garcon.Modules.JwtAuth.{
  JwtAuthModule, AuthRule, rule_applies, enforced, request_token, with_header, claims_reply,
  make_unauthorized, failure_body, verdict_reply, token_reply, handle,
}
use garcon.Modules.JwtAuth.Tokens.{
  Outside, JwtClaims, Verdict, accepted, rejected, validate_and_extract,
}
use garcon.Modules.JwtAuth.Tokens.Accepted.{IsAccepted, validate_and_extract_iff}

-- The rules are for the request: there are none, or one is for its method and target.
abbrev pub IsScoped : JwtAuthModule → Request → Type 0
IsScoped m request =
    (m.rules ≡ [])
    ⊎ Any (λ rule. IsFor rule.method_pattern rule.target_kind rule.target_pattern request) m.rules

scoped_iff :
    (request : Request) (rules : List AuthRule)
    → (is_empty rules || any (rule_applies request) rules ≡ true) ↔ (
        (rules ≡ [])
        ⊎ Any
            (λ rule. IsFor rule.method_pattern rule.target_kind rule.target_pattern request)
            rules)
unfolding rule_applies
scoped_iff request [] = ((λ h. inl refl), (λ h. refl))
scoped_iff request (rule ∷ rules) = (λ h. inr (some_rule.0 h), back)
  where
    some_rule :
        (any (rule_applies request) (rule ∷ rules) ≡ true)
        ↔ Any (λ r. IsFor r.method_pattern r.target_kind r.target_pattern request) (rule ∷ rules)
    some_rule =
        any_iff (rule_applies request)
          (λ r. IsFor r.method_pattern r.target_kind r.target_pattern request)
          (λ r. matches_iff r.method_pattern r.target_kind r.target_pattern request) (rule ∷ rules)

    back :
        ((rule ∷ rules ≡ [])
          ⊎ Any (λ r. IsFor r.method_pattern r.target_kind r.target_pattern request) (rule ∷ rules))
        → any (rule_applies request) (rule ∷ rules) ≡ true
    back (inl e) = absurd cc
    back (inr k) = some_rule.1 k

pub enforced_iff :
    (m : JwtAuthModule) (request : Request) → (enforced m request ≡ true) ↔ IsScoped m request
unfolding enforced
enforced_iff m request = scoped_iff request m.rules

-- The field of a claim, where the token has it.
pub claim_field : Bytes → Bytes → List HeaderField
claim_field name [] = []
claim_field name (c ∷ value) = record { name = name; value = c ∷ value } ∷ []

-- A pass with a field for each claim that the token has.
pub claims_pass : JwtClaims → Reply
claims_pass claims = record pass_reply {
  response_headers =
      ((claim_field (bytes "X-Garcon-User-Id") claims.sub
          ++ claim_field (bytes "X-Garcon-Roles") claims.roles)
        ++ claim_field (bytes "X-Garcon-Claim-iss") claims.iss)
      ++ claim_field (bytes "X-Garcon-Claim-aud") claims.aud;
}

with_header_eq :
    (name value : Bytes) (reply : Reply)
    → with_header name value reply
      ≡ record reply { response_headers = reply.response_headers ++ claim_field name value }
unfolding claim_field add_response_header
with_header_eq name [] reply =
    ap (λ hs. record reply { response_headers = hs }) (sym (append-nil reply.response_headers))
with_header_eq name (c ∷ value) reply = refl

claims_reply_eq : (claims : JwtClaims) → claims_reply claims ≡ claims_pass claims
unfolding claims_reply claims_pass pass_reply
claims_reply_eq claims = simp (
  with_header_eq (bytes "X-Garcon-User-Id") claims.sub,
  with_header_eq (bytes "X-Garcon-Roles") claims.roles,
  with_header_eq (bytes "X-Garcon-Claim-iss") claims.iss,
  with_header_eq (bytes "X-Garcon-Claim-aud") claims.aud,
)

module _ (outside : Outside) (m : JwtAuthModule) (request : Request) where
  -- The request is none that the rules are for; or it carries an accepted token, and the reply is a
  -- pass with its claims; or it carries none, and the reply is a 401.
  pub data IsAuthorized : Reply → Type 0 where
    unscoped : (IsScoped m request → ⊥) → IsAuthorized pass_reply
    authorized :
        (token : Bytes) (claims : JwtClaims)
        → request_token request ≡ some token
        → IsAccepted outside m.secret m.issuer m.audience token claims
        → IsAuthorized (claims_pass claims)
    unauthorized :
        (body : Bytes)
        → IsScoped m request
        → ((token : Bytes) (claims : JwtClaims)
            → request_token request ≡ some token
            → IsAccepted outside m.secret m.issuer m.audience token claims
            → ⊥)
        → IsAuthorized (respond_reply (make_unauthorized body))

  verdict_IsAuthorized :
      (token : Bytes) (verdict : Verdict)
      → enforced m request ≡ true
      → request_token request ≡ some token
      → validate_and_extract outside token m.secret m.issuer m.audience ≡ ok verdict
      → IsAuthorized (verdict_reply verdict)
  verdict_IsAuthorized token (accepted claims) h t e =
      subst IsAuthorized (sym (claims_reply_eq claims)) (
        authorized token claims t
          ((validate_and_extract_iff outside m.secret m.issuer m.audience token claims).0 e))
  verdict_IsAuthorized token (rejected failure) h t e =
      unauthorized (failure_body failure) ((enforced_iff m request).0 h) (λ other claims u accepts.
        let same : other ≡ token = cc in
        let sound =
          (validate_and_extract_iff outside m.secret m.issuer m.audience other claims).1 accepts in
        let taken : validate_and_extract outside token m.secret m.issuer m.audience
            ≡ ok (accepted claims) =
          rw same at sound in
        cc)

  token_IsAuthorized :
      (token : Option Bytes) (reply : Reply)
      → enforced m request ≡ true
      → request_token request ≡ token
      → token_reply outside m token ≡ ok reply
      → IsAuthorized reply
  token_IsAuthorized none reply h t e =
      let g : respond_reply (make_unauthorized (bytes "missing token\n")) ≡ reply = cc in
      subst IsAuthorized g (
        unauthorized (bytes "missing token\n") ((enforced_iff m request).0 h)
          (λ other claims u accepts. cc))
  token_IsAuthorized (some token) reply h t e =
      let (verdict, f, e1) =
        >>=-eq-ok (validate_and_extract outside token m.secret m.issuer m.audience) _ e in
      let g : verdict_reply verdict ≡ reply = cc in
      subst IsAuthorized g (verdict_IsAuthorized token verdict h t f)

  -- Where the handler returns, there are rules and none is for the request's method and target, and
  -- it passes as it is; or it carries a token that is accepted and passes with a field for each of
  -- the claims sub, roles, iss and aud that the token has; or there are no rules or one is for the
  -- request, it carries no such token, and it is answered with a 401.
  pub handle-IsAuthorized :
      (reply : Reply) → handle outside m request ≡ ok reply → IsAuthorized reply
  unfolding handle
  handle-IsAuthorized reply h = elim (Bool-cases (enforced m request)) [
    | inl e ↦ token_IsAuthorized (request_token request) reply e refl (rw e at h)
    | inr e ↦
        let k : ok pass_reply ≡ ok reply = rw e at h in
        let g : pass_reply ≡ reply = cc in
        subst IsAuthorized g (
          unscoped
            (λ w. let again : enforced m request ≡ true = (enforced_iff m request).1 w in cc))
  ]
