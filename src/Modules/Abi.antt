-- ===== src/Modules/Abi.antt =====
-- include/garcon/module_cpp.h and src/app/dynamic_module.cpp: a module's result crosses the C
-- interface into the host. The views of the interface show texts that live until the next call of
-- the module on the thread, and the host copies them, so a view is the text that it shows.
pub mod Bridge
mod Tests
use garcon.Prelude.{
  ℕ, Bool, true, false, Option, none, some, List, [], ◌∷◌, ◌++◌, length, is_empty, ◌==◌,
  if◌then◌else◌, Result, ok, throw, undefined, ◌>>=◌,
}
use garcon.Text.{Bytes, bytes}
use garcon.Http.Header.{HeaderField}
use garcon.Http.Request.{Request}
use garcon.Http.Response.{Response}
use garcon.App.Pipeline.{ModuleResult, passed, responded, upgraded, failed, RequestModule}

pub data Outcome : Type 0 where
  pass respond upgrade error : Outcome

-- `garcon::module::result`
pub record Reply : Type 0 where
  pub next : Outcome
  pub response_value : Option Response
  pub response_headers : List HeaderField

unfoldable pub pass_reply : Reply
pass_reply = record { next = pass; response_value = none; response_headers = [] }

unfoldable pub respond_reply : Response → Reply
respond_reply r = record { next = respond; response_value = some r; response_headers = [] }

unfoldable pub error_reply : Reply
error_reply = record { next = error; response_value = none; response_headers = [] }

unfoldable pub add_response_header : Reply → Bytes → Bytes → Reply
add_response_header r name value = record r {
  response_headers = r.response_headers ++ record { name = name; value = value } ∷ [];
}

-- A module of lib/, as its `handle`.
abbrev pub Module : Type 0
Module = Request → Result Reply

-- `garcon_response_view`
pub record ResponseView : Type 0 where
  pub status : ℕ
  pub reason : Bytes
  pub content_type : Bytes
  pub headers : List HeaderField
  pub body : Bytes
  pub has_content_length : Bool
  pub content_length : ℕ

-- `.response = {}`
abbrev pub empty_view : ResponseView
empty_view = record {
  status = 0;
  reason = [];
  content_type = [];
  headers = [];
  body = [];
  has_content_length = false;
  content_length = 0;
}

abbrev has_value : Option ℕ → Bool
has_value none = false
has_value (some n) = true

abbrev value_or : Option ℕ → ℕ → ℕ
value_or none d = d
value_or (some n) d = n

publish_response : Response → ResponseView
publish_response r = record {
  status = r.status;
  reason = r.reason;
  content_type = r.content_type;
  headers = r.headers;
  body = r.body;
  has_content_length = has_value r.content_length;
  content_length = value_or r.content_length (length r.body);
}

-- `publish_response_headers` runs for headers without a response; with none there is nothing to
-- publish.
publish : Option Response → List HeaderField → ResponseView
publish (some r) headers = publish_response (record r { headers = r.headers ++ headers })
publish none [] = empty_view
publish none (h ∷ hs) = record empty_view { headers = h ∷ hs }

-- `to_http_request`: the version does not cross, and the copy has the default one.
unfoldable pub to_http_request : Request → Request
to_http_request r = record r { version_major = 1; version_minor = 1 }

-- An exception is caught, and leaves the exchange as it was.
abbrev catch : Result Reply → Result (ResponseView × Outcome)
catch (ok r) = ok (publish r.response_value r.response_headers, r.next)
catch (throw message) = ok (empty_view, error)
catch undefined = undefined

-- `detail::handle`, for an instance and an exchange that are there.
module_handle : Module → Request → Result (ResponseView × Outcome)
module_handle m request = catch (m (to_http_request request))

pub to_http_response : ResponseView → Response
to_http_response v = record {
  status = if v.status == 0 then 200 else v.status;
  reason = if is_empty v.reason then bytes "OK" else v.reason;
  content_type = v.content_type;
  headers = v.headers;
  body = v.body;
  content_length = if v.has_content_length then some v.content_length else none;
}

-- `dynamic_module::handle`, on what the module left in the exchange.
to_module_result : ResponseView × Outcome → ModuleResult
to_module_result (v, pass) = passed v.headers
to_module_result (v, respond) = responded (to_http_response v)
to_module_result (v, upgrade) = upgraded v.headers
to_module_result (v, error) =
    if v.status == 0 then failed v.headers else responded (to_http_response v)

pub dynamic_handle : Module → RequestModule
dynamic_handle m request = module_handle m request >>= λ exchange. ok (to_module_result exchange)
