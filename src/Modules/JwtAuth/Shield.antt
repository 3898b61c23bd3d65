-- ===== src/Modules/JwtAuth/Shield.antt =====
-- The module in front of others in a pipeline.
use garcon.Prelude.{
  ◌≡◌, refl, ap, arith, ◌∙◌, true, some, List, [], ◌∷◌, Result, ok, throw, undefined, ◌⊎◌, inl, inr,
}
use garcon.Text.{Bytes}
use garcon.Http.Request.{Request}
use garcon.Http.Response.{Response, text}
use garcon.App.Pipeline.{RequestModule, module_error, handle as pipeline_handle}
use garcon.App.Pipeline.Order.{handle-responded, handle-failed}
use garcon.Modules.Abi.{Reply, to_http_request, respond_reply, dynamic_handle}
use garcon.Modules.Abi.Bridge.{IsDefined, dynamic_handle-respond, dynamic_handle_throw}
use garcon.Modules.JwtAuth.{JwtAuthModule, enforced, request_token, make_unauthorized, handle}
use garcon.Modules.JwtAuth.Guards.{
  IsAuthorized, unscoped, authorized, unauthorized, enforced_iff, handle-IsAuthorized,
}
use garcon.Modules.JwtAuth.Tokens.{Outside, JwtClaims}
use garcon.Modules.JwtAuth.Tokens.Accepted.{IsAccepted}

-- The answer is a 401, or the host's 500 where the module threw.
abbrev pub IsTurnedAway : Response → Type 0
IsTurnedAway answer = (answer.status ≡ 401) ⊎ (answer.status ≡ 500)

module _ (outside : Outside) (m : JwtAuthModule) (request : Request) where
  -- The rules are for the request, and it carries no token that is accepted.
  abbrev pub IsUnwelcome : Type 0
  IsUnwelcome =
      (enforced m request ≡ true)
      × ((token : Bytes) (claims : JwtClaims)
          → request_token request ≡ some token
          → IsAccepted outside m.secret m.issuer m.audience token claims
          → ⊥)

  refusal :
      (reply : Reply)
      → IsAuthorized outside m request reply
      → IsUnwelcome
      → (body : Bytes) × (reply ≡ respond_reply (make_unauthorized body))
  refusal _ (unscoped e) (h, n) = absurd (e ((enforced_iff m request).0 h))
  refusal _ (authorized token claims t a) (h, n) = absurd (n token claims t a)
  refusal _ (unauthorized body e k) (h, n) = (body, refl)

module _ (outside : Outside) (m : JwtAuthModule) (request : Request) where
  -- The answer that stands whatever modules follow.
  abbrev pub IsFinal : Response → Type 0
  IsFinal answer =
      (modules : List RequestModule)
      → pipeline_handle (dynamic_handle (handle outside m) ∷ modules) request ≡ ok answer

  refused_first :
      (reply : Reply)
      → handle outside m (to_http_request request) ≡ ok reply
      → IsUnwelcome outside m (to_http_request request)
      → (answer : Response) × IsTurnedAway answer × IsFinal answer
  unfolding make_unauthorized respond_reply text
  refused_first reply e w =
      let (body, g) =
        refusal outside m (to_http_request request) reply
          (handle-IsAuthorized outside m (to_http_request request) reply e) w in
      let d =
        dynamic_handle-respond (handle outside m) request (make_unauthorized body) [] (e ∙ ap ok g)
          (λ k. omega arith) (λ k. cc) in
      (
        make_unauthorized body,
        inl refl,
        λ modules.
            handle-responded (dynamic_handle (handle outside m)) modules request
              (make_unauthorized body) d refl,
      )

  -- Where the module stands first in a pipeline and gives the request a meaning, a request that its
  -- rules are for and that carries no accepted token is answered with a 401 (or the host's 500 for an
  -- exception), and no module behind it has a say.
  pub handle-IsFinal :
      IsDefined request (handle outside m)
      → IsUnwelcome outside m (to_http_request request)
      → (answer : Response) × IsTurnedAway answer × IsFinal answer
  handle-IsFinal d w = by_result (handle outside m (to_http_request request)) refl
    where
      by_result :
          (r : Result Reply)
          → handle outside m (to_http_request request) ≡ r
          → (answer : Response) × IsTurnedAway answer × IsFinal answer
      by_result (ok reply) e = refused_first reply e w
      by_result (throw message) e = (
        module_error,
        inr (unfold text in refl),
        λ modules.
            handle-failed (dynamic_handle (handle outside m)) modules request
              (dynamic_handle_throw (handle outside m) request message e),
      )
      by_result undefined e = absurd (d e)
