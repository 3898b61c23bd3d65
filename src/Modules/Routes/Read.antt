-- ===== src/Modules/Routes/Read.antt =====
-- What the routes that are read are.
use Prim.Native.String.{String}
use garcon.Prelude.{
  ℕ, ◌≡◌, ◌≢◌, ◌≤◌, refl, false, Bool-cases, inl, inr, Option, none, some, List, [], ◌∷◌, All, ok,
  not, throw_if, is_empty, arith, >>=-eq-ok, throw_if-eq-ok, subst, drop,
}
use garcon.Text.{Bytes, bytes, equal, split_fields}
use garcon.Http.Response.{Response, default_response}
use garcon.Modules.Abi.{Outcome, pass, respond, upgrade, error}
use garcon.Modules.Config.{classify_target_pattern, parse_status_code, case_of}
use garcon.Modules.Config.Status.{parse_status_code_sound}
use garcon.Modules.Config.Entries.{parse_config-All}
use garcon.Modules.Routes.{
  parse_respond, parse_action, parse_route_fields, RouteEntry, reason_phrase_for_status,
  parse_routes, parse_route_line,
}

-- A route passes and holds no response, or it holds the response that it answers with.
abbrev pub HoldsResponse : Outcome → Option Response → Type 0
HoldsResponse pass response = response ≡ none
HoldsResponse respond none = ⊥
HoldsResponse respond (some r) = (100 ≤ r.status) × (r.status ≤ 999) × (r.reason ≢ [])
HoldsResponse upgrade response = ⊥
HoldsResponse error response = ⊥

abbrev pub IsRoute : RouteEntry → Type 0
IsRoute route =
    (route.method_pattern ≢ [])
    × (route.target_pattern ≢ [])
    × HoldsResponse route.outcome route.response

reason_phrase_for_status-ne-nil : (status : ℕ) → reason_phrase_for_status status ≢ []
unfolding reason_phrase_for_status case_of
reason_phrase_for_status-ne-nil status = ground arith

parse_respond-IsRoute :
    (name : String) (entry : RouteEntry) (more : List Bytes) (route : RouteEntry)
    → entry.method_pattern ≢ []
    → entry.target_pattern ≢ []
    → parse_respond name entry more ≡ ok route
    → IsRoute route
unfolding parse_respond
parse_respond-IsRoute name entry [] route m t h = absurd cc
parse_respond-IsRoute name entry (a ∷ []) route m t h = absurd cc
parse_respond-IsRoute name entry (a ∷ b ∷ []) route m t h = absurd cc
parse_respond-IsRoute name entry (s ∷ c ∷ b ∷ []) route m t h =
    let (code, e, h1) = >>=-eq-ok (parse_status_code name s) _ h in
    let (d, v, l, u) = parse_status_code_sound name s code e in
    let g : (record entry {
      outcome = respond;
      response = some (record default_response {
        status = code;
        reason = reason_phrase_for_status code;
        content_type = c;
        body = b;
      });
    })
        ≡ route =
      cc in
    subst IsRoute g (m, t, (l, u, reason_phrase_for_status-ne-nil code))
parse_respond-IsRoute name entry (s ∷ c ∷ b ∷ d ∷ more) route m t h = absurd cc

parse_action-IsRoute :
    (name : String) (entry : RouteEntry) (action : Bytes) (more : List Bytes) (route : RouteEntry)
    → entry.method_pattern ≢ []
    → entry.target_pattern ≢ []
    → entry.response ≡ none
    → parse_action name entry action more ≡ ok route
    → IsRoute route
unfolding parse_action
parse_action-IsRoute name entry action more route m t n h =
    elim (Bool-cases (equal action (bytes "pass"))) [
      | inl p ↦
          let e : ok (record entry { outcome = pass }) ≡ ok route = rw p at h in
          let g : (record entry { outcome = pass }) ≡ route = cc in subst IsRoute g (m, t, n)
      | inr p ↦
          let (u, e, h1) =
            >>=-eq-ok (throw_if (not (equal action (bytes "respond"))) _)
              (λ _. parse_respond name entry more) (rw p at h) in
          parse_respond-IsRoute name entry more route m t h1
    ]

parse_route_fields-IsRoute :
    (name : String) (fields : List Bytes) (route : RouteEntry)
    → parse_route_fields name fields ≡ ok route
    → IsRoute route
unfolding parse_route_fields
parse_route_fields-IsRoute name [] route h = absurd cc
parse_route_fields-IsRoute name (a ∷ []) route h = absurd cc
parse_route_fields-IsRoute name (a ∷ b ∷ []) route h = absurd cc
parse_route_fields-IsRoute name (method ∷ target ∷ action ∷ more) route h =
    let (kind, pattern) = classify_target_pattern target in
    let (u, e1, h1) = >>=-eq-ok (throw_if (is_empty method) _) _ h in
    let (v, e2, h2) = >>=-eq-ok (throw_if (is_empty pattern) _) _ h1 in
    parse_action-IsRoute name _ action more route (filled method (throw_if-eq-ok _ _ e1))
      (filled pattern (throw_if-eq-ok _ _ e2)) refl h2
  where
    filled : (s : Bytes) → is_empty s ≡ false → s ≢ []
    filled s h e = ground arith

-- Whatever configuration the routes are read from, each of them has a method and a target, and
-- passes or holds a response whose status has three digits and whose reason is not empty.
pub parse_routes-IsRoute :
    (name : String) (config_text : Bytes) (routes : List RouteEntry)
    → parse_routes name config_text ≡ ok routes
    → All IsRoute routes
unfolding parse_routes parse_route_line
parse_routes-IsRoute name config_text routes h =
    parse_config-All (bytes "route=") (parse_route_line name) IsRoute
      (λ line route e.
        parse_route_fields-IsRoute name (split_fields (drop 6 line) b'|') route
          (unfold parse_route_line in e))
      config_text routes h
