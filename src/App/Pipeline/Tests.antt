-- ===== src/App/Pipeline/Tests.antt =====
-- A pipeline of two modules.
use garcon.Prelude.{◌≡◌, ◌↔◌, [], ◌∷◌, ok}
use garcon.Text.{bytes}
use garcon.Http.Request.{Request}
use garcon.Http.Response.{Response, default_response}
use garcon.App.Pipeline.{RequestModule, passed, responded, handle}
use garcon.App.Pipeline.Order.{Answers, handle-Answers}

abbrev tag : RequestModule
tag request = ok (passed (record { name = bytes "X-Path"; value = request.target } ∷ []))

abbrev greet : RequestModule
greet request = ok (responded (record default_response { body = bytes "hello" }))

abbrev request : Request
request = record {
  method = bytes "GET";
  target = bytes "/";
  version_major = 1;
  version_minor = 1;
  headers = [];
}

abbrev answer : Response
answer = record default_response {
  headers = record { name = bytes "X-Path"; value = bytes "/" } ∷ [];
  body = bytes "hello";
}

handle-Answers_example :
    (handle (tag ∷ greet ∷ []) request ≡ ok answer) ↔ Answers request (tag ∷ greet ∷ []) answer
handle-Answers_example = handle-Answers (tag ∷ greet ∷ []) request answer
