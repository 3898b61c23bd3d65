-- ===== src/Modules/Abi/Bridge.antt =====
-- What a module says reaches the pipeline, and what it throws does not.
use Prim.Native.String.{String}
use garcon.Prelude.{
  ◌≡◌, ◌≢◌, refl, none, some, List, [], ◌∷◌, ◌++◌, map, arith, Result, ok, throw, undefined, All,
}
use garcon.Http.Header.{HeaderField}
use garcon.Http.Request.{Request}
use garcon.Http.Response.{Response}
use garcon.App.Pipeline.{ModuleResult, passed, responded, failed, handle}
use garcon.App.Pipeline.Order.{handle_total}
use garcon.Modules.Abi.{
  pass, respond, error, Reply, Module, publish, publish_response, empty_view, to_http_request,
  module_handle, to_http_response, to_module_result, dynamic_handle,
}

-- A pass crosses with its fields.
pub dynamic_handle-pass :
    (m : Module) (request : Request) (hs : List HeaderField)
    → m (to_http_request request)
      ≡ ok (record { next = pass; response_value = none; response_headers = hs })
    → dynamic_handle m request ≡ ok (passed hs)
unfolding dynamic_handle module_handle to_module_result publish
dynamic_handle-pass m request [] e = rw e
dynamic_handle-pass m request (h ∷ hs) e = rw e

-- A response with a status and a reason crosses as it is, the reply's fields behind its own.
pub dynamic_handle-respond :
    (m : Module) (request : Request) (r : Response) (hs : List HeaderField)
    → m (to_http_request request)
      ≡ ok (record { next = respond; response_value = some r; response_headers = hs })
    → r.status ≢ 0
    → r.reason ≢ []
    → dynamic_handle m request ≡ ok (responded (record r { headers = r.headers ++ hs }))
unfolding dynamic_handle module_handle to_module_result publish publish_response to_http_response
dynamic_handle-respond m request r hs e s n = rw e (ground arith)

-- An exception in a module becomes an error result.
pub dynamic_handle_throw :
    (m : Module) (request : Request) (message : String)
    → m (to_http_request request) ≡ throw message
    → dynamic_handle m request ≡ ok (failed [])
unfolding dynamic_handle module_handle to_module_result
dynamic_handle_throw m request message e = rw e

-- The module gives this request a meaning.
abbrev pub IsDefined : Request → Module → Type 0
IsDefined request m = m (to_http_request request) ≢ undefined

dynamic_handle_total :
    (m : Module) (request : Request)
    → IsDefined request m
    → (result : ModuleResult) × (dynamic_handle m request ≡ ok result)
unfolding dynamic_handle module_handle
dynamic_handle_total m request d = go (m (to_http_request request)) refl
  where
    go :
        (r : Result Reply)
        → m (to_http_request request) ≡ r
        → (result : ModuleResult) × (dynamic_handle m request ≡ ok result)
    go (ok r) e = (to_module_result (publish r.response_value r.response_headers, r.next), rw e)
    go (throw message) e = (to_module_result (empty_view, error), rw e)
    go undefined e = absurd (d e)

-- A pipeline of loaded modules answers every request to which each module gives a meaning: no
-- exception that a module throws reaches the host.
pub dynamic_pipeline_total :
    (ms : List Module) (request : Request)
    → All (IsDefined request) ms
    → (answer : Response) × (handle (map dynamic_handle ms) request ≡ ok answer)
dynamic_pipeline_total ms request d = handle_total (map dynamic_handle ms) request (returning ms d)
  where
    returning :
        (ms : List Module)
        → All (IsDefined request) ms
        → All (λ m. (result : ModuleResult) × (m request ≡ ok result)) (map dynamic_handle ms)
    returning [] d = tt
    returning (m ∷ ms) (d, ds) = (dynamic_handle_total m request d, returning ms ds)
