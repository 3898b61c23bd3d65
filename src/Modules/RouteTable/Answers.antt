-- ===== src/Modules/RouteTable/Answers.antt =====
-- What a route table answers.
use garcon.Prelude.{
  ◌↔◌, ◌≡◌, refl, ap, sym, true, false, Option, none, some, List, [], ◌∷◌, ◌++◌, All, All-middle,
  ok, >>=-eq-ok, arith, subst,
}
use garcon.Text.{Bytes}
use garcon.Http.Request.{Request}
use garcon.Http.Response.{Response}
use garcon.Modules.Abi.{
  Outcome, pass, respond, upgrade, error, Reply, Module, pass_reply, respond_reply,
}
use garcon.Modules.Config.{first_reply}
use garcon.Modules.Config.Patterns.{IsFor, matches_iff}
use garcon.Modules.Config.Scan.{IsFirst, nothing, found, first_reply-IsFirst}
use garcon.Modules.Routes.{RouteEntry, parse_routes}
use garcon.Modules.Routes.Read.{IsRoute, HoldsResponse, parse_routes-IsRoute}
use garcon.Modules.RouteTable.{route_matches, route_step, handle, create, outcome_reply}

-- The route is for the request's method and target.
abbrev pub Matches : Request → RouteEntry → Type 0
Matches request route = IsFor route.method_pattern route.target_kind route.target_pattern request

route_matches_iff :
    (request : Request) (route : RouteEntry)
    → (route_matches request route ≡ true) ↔ Matches request route
unfolding route_matches
route_matches_iff request route =
    matches_iff route.method_pattern route.target_kind route.target_pattern request

-- The answer of an ordered table: the first route that matches decides.
pub data IsRouted (request : Request) : List RouteEntry → Reply → Type 0 where
  unrouted :
      {routes : List RouteEntry}
      → All (λ r. Matches request r → ⊥) routes
      → IsRouted request routes pass_reply
  let_through :
      (before : List RouteEntry) (route : RouteEntry) (after : List RouteEntry)
      → All (λ r. Matches request r → ⊥) before
      → Matches request route
      → route.outcome ≡ pass
      → IsRouted request (before ++ (route ∷ after)) pass_reply
  answered :
      (before : List RouteEntry) (route : RouteEntry) (after : List RouteEntry) (r : Response)
      → All (λ r. Matches request r → ⊥) before
      → Matches request route
      → route.outcome ≡ respond
      → route.response ≡ some r
      → IsRouted request (before ++ (route ∷ after)) (respond_reply r)

unmatched :
    (request : Request) (routes : List RouteEntry)
    → All (λ r. route_step request r ≡ none) routes
    → All (λ r. Matches request r → ⊥) routes
unfolding route_step
unmatched request [] h = tt
unmatched request (r ∷ rs) (e, h) =
    let no : route_matches request r ≡ false = ground arith in
    (
      λ m. let yes : route_matches request r ≡ true = (route_matches_iff request r).1 m in cc,
      unmatched request rs h,
    )

at_route :
    (request : Request) (before : List RouteEntry) (route : RouteEntry) (after : List RouteEntry)
    (outcome : Outcome) (response : Option Response)
    → HoldsResponse outcome response
    → route.outcome ≡ outcome
    → route.response ≡ response
    → All (λ r. Matches request r → ⊥) before
    → Matches request route
    → IsRouted request (before ++ (route ∷ after)) (outcome_reply outcome response)
at_route request before route after pass response w o p u m = let_through before route after u m o
at_route request before route after respond none w o p u m = absurd w
at_route request before route after respond (some r) w o p u m =
    answered before route after r u m o p
at_route request before route after upgrade response w o p u m = absurd w
at_route request before route after error response w o p u m = absurd w

first_IsRouted :
    (request : Request) (routes : List RouteEntry) {reply : Reply}
    → All IsRoute routes
    → IsFirst (route_step request) routes reply
    → IsRouted request routes reply
unfolding route_step
first_IsRouted request routes w (nothing h) = unrouted (unmatched request routes h)
first_IsRouted request _ w (found {reply} before route after u e) =
    let (m, t, held) = All-middle IsRoute before route after w in
    let matched : route_matches request route ≡ true = ground arith in
    let same : outcome_reply route.outcome route.response ≡ reply = ground arith in
    subst (IsRouted request (before ++ (route ∷ after))) same (
      at_route request before route after route.outcome route.response held refl refl
        (unmatched request before u) ((route_matches_iff request route).0 matched))

-- A table that was made from a configuration answers every request with the response of the first
-- route whose method is `*` or the request's and whose target pattern covers the request's target, or
-- passes where that route says so or there is none: it never reports an error.
pub create_table-IsRouted :
    (config_text : Bytes) (m : Module)
    → create config_text ≡ ok m
    → (routes : List RouteEntry) × (parse_routes "route_table: " config_text ≡ ok routes)
      × ((request : Request)
          → (reply : Reply) × (m request ≡ ok reply) × IsRouted request routes reply)
unfolding create handle
create_table-IsRouted config_text m h =
    let (routes, e, h1) = >>=-eq-ok (parse_routes "route_table: " config_text) _ h in
    let w = parse_routes-IsRoute "route_table: " config_text routes e in
    let g : handle routes ≡ m = cc in
    (
      routes,
      e,
      λ request. (
        first_reply (route_step request) routes,
        ap (λ k. k request) (sym g),
        first_IsRouted request routes w (first_reply-IsFirst (route_step request) routes),
      ),
    )
