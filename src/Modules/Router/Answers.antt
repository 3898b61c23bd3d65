-- ===== src/Modules/Router/Answers.antt =====
-- What a router answers.
use mathlib.Core.Option
use garcon.Prelude.{
  ◌≡◌, refl, ap, sym, ◌∙◌, true, Bool-cases, inl, inr, Option, none, some, List, [], ◌∷◌, ◌++◌, map,
  append-nil, append_assoc, All, All-middle, ok, >>=-eq-ok, subst, Option-cases,
}
use garcon.Text.{Bytes}
use garcon.Http.Request.{Request}
use garcon.Http.Response.{Response}
use garcon.Modules.Abi.{
  Outcome, pass, respond, upgrade, error, Reply, Module, pass_reply, respond_reply,
  add_response_header,
}
use garcon.Modules.Config.{method_matches, first_reply}
use garcon.Modules.Config.Scan.{IsFirst, nothing, found, first_reply-IsFirst}
use garcon.Modules.Routes.{RouteEntry, parse_routes}
use garcon.Modules.Routes.Read.{IsRoute, HoldsResponse, parse_routes-IsRoute}
use garcon.Modules.Router.{
  CapturedParam, match_target, param_header, add_params, outcome_reply, route_step, handle, create,
}

-- The route does not match the request.
abbrev pub Misses : Request → RouteEntry → Type 0
Misses request route =
    method_matches route.method_pattern request.method ≡ true
    → match_target route.target_kind route.target_pattern request.target ≡ none

abbrev pub Captures : Request → RouteEntry → List CapturedParam → Type 0
Captures request route caps =
    (method_matches route.method_pattern request.method ≡ true)
    × (match_target route.target_kind route.target_pattern request.target ≡ some caps)

-- A pass with these fields.
abbrev pub pass_with : List CapturedParam → Reply
pass_with caps = record pass_reply { response_headers = map param_header caps }

-- The answer of the first route that matches: a pass with a field for each capture, or the response.
pub data IsRouted (request : Request) : List RouteEntry → Reply → Type 0 where
  unrouted :
      {routes : List RouteEntry} → All (Misses request) routes → IsRouted request routes pass_reply
  let_through :
      (before : List RouteEntry) (route : RouteEntry) (after : List RouteEntry)
      (caps : List CapturedParam)
      → All (Misses request) before
      → Captures request route caps
      → route.outcome ≡ pass
      → IsRouted request (before ++ (route ∷ after)) (pass_with caps)
  answered :
      (before : List RouteEntry) (route : RouteEntry) (after : List RouteEntry)
      (caps : List CapturedParam) (r : Response)
      → All (Misses request) before
      → Captures request route caps
      → route.outcome ≡ respond
      → route.response ≡ some r
      → IsRouted request (before ++ (route ∷ after)) (respond_reply r)

add_params_eq :
    (res : Reply) (caps : List CapturedParam)
    → add_params res caps
      ≡ record res { response_headers = res.response_headers ++ map param_header caps }
unfolding add_params add_response_header
add_params_eq res [] = rw (append-nil res.response_headers) refl
add_params_eq res (cp ∷ cps) =
    add_params_eq (add_response_header res (param_header cp).name (param_header cp).value) cps
    ∙ ap (λ hs. record res { response_headers = hs })
        (append_assoc res.response_headers (param_header cp ∷ []) (map param_header cps))

nothing_mapped {ℓ κ} :
    {A : Type ℓ} {B : Type κ} (f : A → B) (o : Option A) → Option.map f o ≡ none → o ≡ none
nothing_mapped f none e = refl
nothing_mapped f (some a) e = cc

missed :
    (request : Request) (routes : List RouteEntry)
    → All (λ r. route_step request r ≡ none) routes
    → All (Misses request) routes
unfolding route_step
missed request [] h = tt
missed request (r ∷ rs) (e, h) = (
  (λ m. nothing_mapped _ (match_target r.target_kind r.target_pattern request.target) (rw m at e)),
  missed request rs h,
)

captured :
    (request : Request) (route : RouteEntry) (reply : Reply)
    → route_step request route ≡ some reply
    → (caps : List CapturedParam) × Captures request route caps
      × (outcome_reply route.outcome route.response caps ≡ reply)
unfolding route_step
captured request route reply h =
    elim (Bool-cases (method_matches route.method_pattern request.method)) [
      | inl m ↦
          elim (Option-cases (match_target route.target_kind route.target_pattern request.target)) [
            | inl n ↦ absurd (let k : none ≡ some reply = rw (m, n) at h in cc)
            | inr (caps, s) ↦
                let k : some (outcome_reply route.outcome route.response caps) ≡ some reply =
                  rw (m, s) at h in
                (caps, (m, s), cc)
          ]
      | inr m ↦ absurd (let k : none ≡ some reply = rw m at h in cc)
    ]

at_route :
    (request : Request) (before : List RouteEntry) (route : RouteEntry) (after : List RouteEntry)
    (caps : List CapturedParam) (outcome : Outcome) (response : Option Response)
    → HoldsResponse outcome response
    → route.outcome ≡ outcome
    → route.response ≡ response
    → All (Misses request) before
    → Captures request route caps
    → IsRouted request (before ++ (route ∷ after)) (outcome_reply outcome response caps)
unfolding pass_reply
at_route request before route after caps pass response w o p u m =
    subst (IsRouted request (before ++ (route ∷ after))) (sym (add_params_eq pass_reply caps))
      (let_through before route after caps u m o)
at_route request before route after caps respond none w o p u m = absurd w
at_route request before route after caps respond (some r) w o p u m =
    answered before route after caps r u m o p
at_route request before route after caps upgrade response w o p u m = absurd w
at_route request before route after caps error response w o p u m = absurd w

first_IsRouted :
    (request : Request) (routes : List RouteEntry) {reply : Reply}
    → All IsRoute routes
    → IsFirst (route_step request) routes reply
    → IsRouted request routes reply
first_IsRouted request routes w (nothing h) = unrouted (missed request routes h)
first_IsRouted request _ w (found {reply} before route after u e) =
    let (m, t, held) = All-middle IsRoute before route after w in
    let (caps, c, same) = captured request route reply e in
    subst (IsRouted request (before ++ (route ∷ after))) same (
      at_route request before route after caps route.outcome route.response held refl refl
        (missed request before u) c)

-- A router that was made from a configuration answers every request by the first route that matches
-- its method and target: with the route's response, or with a pass that has a field for each captured
-- parameter, in their order. Where none matches it passes. It never reports an error.
pub create_router-IsRouted :
    (config_text : Bytes) (m : Module)
    → create config_text ≡ ok m
    → (routes : List RouteEntry) × (parse_routes "router: " config_text ≡ ok routes)
      × ((request : Request)
          → (reply : Reply) × (m request ≡ ok reply) × IsRouted request routes reply)
unfolding create handle
create_router-IsRouted config_text m h =
    let (routes, e, h1) = >>=-eq-ok (parse_routes "router: " config_text) _ h in
    let w = parse_routes-IsRoute "router: " config_text routes e in
    let g : handle routes ≡ m = cc in
    (
      routes,
      e,
      λ request. (
        first_reply (route_step request) routes,
        ap (λ k. k request) (sym g),
        first_IsRouted request routes w (first_reply-IsFirst (route_step request) routes),
      ),
    )
