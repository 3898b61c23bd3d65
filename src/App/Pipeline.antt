-- ===== src/App/Pipeline.antt =====
-- request_module.h and request_pipeline.cpp: the outcomes of a module, and the ordered pipeline.
pub mod Order
mod Tests
use garcon.Prelude.{
  ℕ, Bool, true, false, Option, none, some, List, [], ◌∷◌, ◌++◌, Result, ok, throw, undefined,
  ◌>>=◌,
}
use garcon.Text.{Bytes, bytes}
use garcon.Http.Header.{HeaderField}
use garcon.Http.Request.{Request}
use garcon.Http.Response.{Response, text}

-- `module_result`: the variant of pass_result, respond_result, upgrade_result and error_result.
pub data ModuleResult : Type 0 where
  passed : List HeaderField → ModuleResult
  responded : Response → ModuleResult
  upgraded : List HeaderField → ModuleResult
  failed : List HeaderField → ModuleResult

pub pass : ModuleResult
pass = passed []

pub respond : Response → ModuleResult
respond r = responded r

pub upgrade : ModuleResult
upgrade = upgraded []

pub error : ModuleResult
error = failed []

pub add_response_header : ModuleResult → Bytes → Bytes → ModuleResult
add_response_header (responded r) name value =
    responded (record r { headers = r.headers ++ record { name = name; value = value } ∷ [] })
add_response_header (passed hs) name value =
    passed (hs ++ record { name = name; value = value } ∷ [])
add_response_header (upgraded hs) name value =
    upgraded (hs ++ record { name = name; value = value } ∷ [])
add_response_header (failed hs) name value =
    failed (hs ++ record { name = name; value = value } ∷ [])

-- A module is what its `handle` does, which may throw.
abbrev pub RequestModule : Type 0
RequestModule = Request → Result ModuleResult

pub finalize_response : Response → List HeaderField → Response
finalize_response response pending = record response { headers = response.headers ++ pending }

abbrev pub not_implemented : Response
not_implemented = text 501 (bytes "Not Implemented") (bytes "connection upgrade not implemented\n")

abbrev pub module_error : Response
module_error = text 500 (bytes "Internal Server Error") (bytes "module error\n")

abbrev pub not_found : Response
not_found = text 404 (bytes "Not Found") (bytes "not found\n")

-- The visitor of a module's result; `again` is the rest of the loop.
visit : List HeaderField → (List HeaderField → Result Response) → ModuleResult → Result Response
visit pending again (passed hs) = again (pending ++ hs)
visit pending again (responded r) = ok (finalize_response r pending)
visit pending again (upgraded hs) = ok (finalize_response not_implemented (pending ++ hs))
visit pending again (failed hs) = ok (finalize_response module_error (pending ++ hs))

-- The loop over the modules, with the header fields gathered so far.
handle_from : List HeaderField → List RequestModule → Request → Result Response
handle_from pending [] request = ok (finalize_response not_found pending)
handle_from pending (m ∷ ms) request =
    m request >>= visit pending (λ gathered. handle_from gathered ms request)

pub handle : List RequestModule → Request → Result Response
handle modules request = handle_from [] modules request
