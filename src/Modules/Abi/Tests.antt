-- ===== src/Modules/Abi/Tests.antt =====
-- A module that throws and one that answers.
use garcon.Prelude.{◌≡◌, refl, [], ◌∷◌, ◌++◌, some, map, ok, throw}
use garcon.Text.{bytes}
use garcon.Http.Header.{HeaderField}
use garcon.Http.Request.{Request}
use garcon.Http.Response.{Response, default_response}
use garcon.App.Pipeline.{responded, handle}
use garcon.Modules.Abi.{Module, respond, dynamic_handle}
use garcon.Modules.Abi.Bridge.{dynamic_handle-respond, dynamic_pipeline_total}

abbrev throwing : Module
throwing request = throw "broken"

abbrev tag : HeaderField
tag = record { name = bytes "X-A"; value = bytes "1" }

abbrev greeting : Response
greeting = record default_response { body = bytes "hello"; headers = tag ∷ [] }

abbrev greet : Module
greet request =
    ok (record { next = respond; response_value = some greeting; response_headers = tag ∷ [] })

abbrev request : Request
request = record {
  method = bytes "GET";
  target = bytes "/";
  version_major = 1;
  version_minor = 0;
  headers = [];
}

dynamic_handle-respond_example :
    dynamic_handle greet request
    ≡ ok (responded (record greeting { headers = greeting.headers ++ (tag ∷ []) }))
dynamic_handle-respond_example =
    dynamic_handle-respond greet request greeting (tag ∷ []) refl (λ e. cc) (λ e. cc)

dynamic_pipeline_total_example :
    (answer : Response) × (handle (map dynamic_handle (greet ∷ throwing ∷ [])) request ≡ ok answer)
dynamic_pipeline_total_example =
    dynamic_pipeline_total (greet ∷ throwing ∷ []) request ((λ e. cc), ((λ e. cc), tt))
