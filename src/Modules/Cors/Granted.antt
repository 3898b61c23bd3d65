-- ===== src/Modules/Cors/Granted.antt =====
-- What an answer of the CORS module grants, and what a rule allows.
use Prim.Native.String.{String}
use garcon.Prelude.{
  ◌↔◌, ℕ, ◌≡◌, refl, ap, sym, ◌∙◌, true, false, Bool-cases, inl, inr, ◌⊎◌, Option, none, some, List,
  [], ◌∷◌, ◌++◌, any, Any, here, there, ok, >>=-eq-ok, arith, is_empty,
}
use garcon.Text.{Bytes, bytes, equal}
use garcon.Text.Search.{equal_iff}
use garcon.Http.Header.{HeaderField, header_name_equals, find_header, header_value}
use garcon.Http.Response.{Response, text, set_header}
use garcon.Http.Response.Fields.{set_header_returned, add_header_returned}
use garcon.Modules.Abi.{Reply, pass_reply, respond_reply, add_response_header}
use garcon.Modules.Config.Patterns.{Covers}
use garcon.Modules.Config.Scan.{any_iff}
use garcon.Modules.Cors.{
  OriginPattern, Rule, origin_matches, origin_allowed, any_origin_allowed, allowed_origin_value,
  add_vary, add_cors_headers, add_allow_headers, make_preflight_response, make_cors_error,
  shared_reply,
}

abbrev pub allow_origin : Bytes
allow_origin = bytes "Access-Control-Allow-Origin"

abbrev pub response_fields : Option Response → List HeaderField
response_fields none = []
response_fields (some r) = r.headers

-- The origin that the fields of an answer grant.
unfoldable pub granted : Reply → Option Bytes
granted reply =
    header_value (response_fields reply.response_value ++ reply.response_headers) allow_origin

-- One of the rule's origins is a star.
abbrev pub AllowsAny : Rule → Type 0
AllowsAny rule = Any (λ pattern. pattern.allow_any ≡ true) rule.allowed_origins

-- A rule for this target names the origin or a star; the value is a star where one of its origins is
-- a star, and else the origin itself.
abbrev pub Allows : Bytes → Bytes → Bytes → Rule → Type 0
Allows target origin value rule =
    Covers rule.target_kind rule.target_pattern target
    × Any (λ pattern. (pattern.allow_any ≡ true) ⊎ (pattern.value ≡ origin)) rule.allowed_origins
    × ((AllowsAny rule × (value ≡ bytes "*")) ⊎ ((AllowsAny rule → ⊥) × (value ≡ origin)))

any_origin_allowed_iff : (rule : Rule) → (any_origin_allowed rule ≡ true) ↔ AllowsAny rule
unfolding any_origin_allowed
any_origin_allowed_iff rule =
    any_iff (λ pattern. pattern.allow_any) (λ pattern. pattern.allow_any ≡ true)
      (λ pattern. ((λ h. h), (λ h. h))) rule.allowed_origins

pub allowed_origin_value-cases :
    (rule : Rule) (origin value : Bytes)
    → allowed_origin_value rule origin ≡ value
    → (AllowsAny rule × (value ≡ bytes "*")) ⊎ ((AllowsAny rule → ⊥) × (value ≡ origin))
unfolding allowed_origin_value
allowed_origin_value-cases rule origin value e = elim (Bool-cases (any_origin_allowed rule)) [
  | inl a ↦ inl ((any_origin_allowed_iff rule).0 a, sym (rw a at e))
  | inr a ↦ inr (
    (λ k. let b : any_origin_allowed rule ≡ true = (any_origin_allowed_iff rule).1 k in cc),
    sym (rw a at e),
  )
]

any-origin_matches :
    (patterns : List OriginPattern) (origin : Bytes)
    → any (λ pattern. origin_matches pattern origin) patterns ≡ true
    → Any (λ pattern. (pattern.allow_any ≡ true) ⊎ (pattern.value ≡ origin)) patterns
unfolding origin_matches
any-origin_matches [] origin h = absurd cc
any-origin_matches (p ∷ ps) origin h = elim (Bool-cases p.allow_any) [
  | inl a ↦ here (inl a)
  | inr a ↦ elim (Bool-cases (equal p.value origin)) [
    | inl e ↦ here (inr ((equal_iff p.value origin).0 e))
    | inr e ↦ there (any-origin_matches ps origin (rw (a, e) at h))
  ]
]

apart_vary : header_name_equals (bytes "Vary") allow_origin ≡ false
apart_vary = unfold header_name_equals in refl

apart_methods : header_name_equals (bytes "Access-Control-Allow-Methods") allow_origin ≡ false
apart_methods = unfold header_name_equals in refl

apart_headers : header_name_equals (bytes "Access-Control-Allow-Headers") allow_origin ≡ false
apart_headers = unfold header_name_equals in refl

add_vary_keeps :
    (rule : Rule) (resp r : Response)
    → add_vary rule resp ≡ ok r
    → header_value r.headers allow_origin ≡ header_value resp.headers allow_origin
unfolding add_vary
add_vary_keeps rule resp r h = elim (Bool-cases (any_origin_allowed rule)) [
  | inl a ↦
      let k : ok resp ≡ ok r = rw a at h in
      let e : resp ≡ r = cc in ap (λ x. header_value x.headers allow_origin) (sym e)
  | inr a ↦
      add_header_returned resp (bytes "Vary") (bytes "Origin") r allow_origin (rw a at h) apart_vary
]

add_allow_headers_keeps :
    (rule : Rule) (resp r : Response)
    → add_allow_headers rule resp ≡ ok r
    → header_value r.headers allow_origin ≡ header_value resp.headers allow_origin
unfolding add_allow_headers
add_allow_headers_keeps rule resp r h = elim (Bool-cases (is_empty rule.allow_headers_header)) [
  | inl a ↦
      let k : ok resp ≡ ok r = rw a at h in
      let e : resp ≡ r = cc in ap (λ x. header_value x.headers allow_origin) (sym e)
  | inr a ↦
      (set_header_returned resp (bytes "Access-Control-Allow-Headers") rule.allow_headers_header r
          (rw a at h)).others_kept
        allow_origin apart_headers
]

pub origin_allowed-Any :
    (rule : Rule) (origin : Bytes)
    → origin_allowed rule origin ≡ true
    → Any (λ pattern. (pattern.allow_any ≡ true) ⊎ (pattern.value ≡ origin)) rule.allowed_origins
unfolding origin_allowed
origin_allowed-Any rule origin h = any-origin_matches rule.allowed_origins origin h

pub make_preflight_response_grants :
    (rule : Rule) (origin : Bytes) (r : Response)
    → make_preflight_response rule origin ≡ ok r
    → header_value r.headers allow_origin ≡ some (allowed_origin_value rule origin)
unfolding make_preflight_response add_cors_headers
make_preflight_response_grants rule origin r h =
    let (r2, e2, h2) = >>=-eq-ok (add_cors_headers _ rule origin) _ h in
    let (r1, e1, f1) =
      >>=-eq-ok
        (set_header _ (bytes "Access-Control-Allow-Origin") (allowed_origin_value rule origin)) _
        e2 in
    let (r3, e3, h3) =
      >>=-eq-ok (set_header r2 (bytes "Access-Control-Allow-Methods") rule.allow_methods_header) _
        h2 in
    add_allow_headers_keeps rule r3 r h3
    ∙ (set_header_returned r2 (bytes "Access-Control-Allow-Methods") rule.allow_methods_header r3
          e3).others_kept
        allow_origin apart_methods
    ∙ add_vary_keeps rule r1 r2 f1
    ∙ (set_header_returned _ (bytes "Access-Control-Allow-Origin")
        (allowed_origin_value rule origin) r1 e1).value_set

pub shared_reply_grants :
    (rule : Rule) (origin : Bytes)
    → granted (shared_reply rule origin) ≡ some (allowed_origin_value rule origin)
unfolding shared_reply add_response_header pass_reply header_value find_header header_name_equals
    granted
shared_reply_grants rule origin = ground arith

-- The answers of the module without a grant.
pub pass_grants : granted pass_reply ≡ none
pass_grants = unfold granted header_value find_header pass_reply in refl

pub error_grants :
    (status : ℕ) (reason body : String)
    → granted (respond_reply (make_cors_error status reason body)) ≡ none
unfolding granted header_value find_header respond_reply text make_cors_error
error_grants status reason body = refl
