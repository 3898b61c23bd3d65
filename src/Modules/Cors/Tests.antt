-- ===== src/Modules/Cors/Tests.antt =====
-- One rule that names one origin.
use garcon.Prelude.{◌≡◌, refl, false, none, some, [], ◌∷◌, Any, ok}
use garcon.Text.{Bytes, bytes, equal, ascii_lower, ascii_lowercase, ascii_iequals}
use garcon.Http.Header.{header_name_equals, find_header, header_value}
use garcon.Http.Request.{Request}
use garcon.Modules.Abi.{Reply, pass, pass_reply, add_response_header}
use garcon.Modules.Config.{exact, target_matches}
use garcon.Modules.Cors.{
  Rule, handle, each_rule, answer_by, origin_allowed, origin_matches, any_origin_allowed,
  allowed_origin_value, is_preflight_request, method_allowed, shared_reply,
}
use garcon.Modules.Cors.Granted.{granted, Allows}
use garcon.Modules.Cors.Grants.{handle_grants}

abbrev rule : Rule
rule = record {
  target_pattern = bytes "/api";
  target_kind = exact;
  allowed_origins = record { value = bytes "http://a"; allow_any = false } ∷ [];
  allowed_methods = bytes "get" ∷ [];
  allow_methods_header = bytes "GET";
  allow_headers_header = [];
}

abbrev request : Request
request = record {
  method = bytes "GET";
  target = bytes "/api";
  version_major = 1;
  version_minor = 1;
  headers = record { name = bytes "Origin"; value = bytes "http://a" } ∷ [];
}

abbrev reply : Reply
reply = record {
  next = pass;
  response_value = none;
  response_headers =
      record { name = bytes "Access-Control-Allow-Origin"; value = bytes "http://a" }
      ∷ record { name = bytes "Vary"; value = bytes "Origin" }
      ∷ [];
}

handled : handle (rule ∷ []) request ≡ ok reply
unfolding handle each_rule answer_by origin_allowed origin_matches any_origin_allowed
    allowed_origin_value is_preflight_request method_allowed shared_reply pass_reply
    add_response_header target_matches header_value find_header header_name_equals ascii_iequals
    equal ascii_lowercase ascii_lower
handled = refl

reply-granted : granted reply ≡ some (bytes "http://a")
unfolding granted header_value find_header header_name_equals ascii_iequals
reply-granted = refl

handle_grants_example :
    (origin : Bytes) × (header_value request.headers (bytes "Origin") ≡ some origin)
    × Any (Allows request.target origin (bytes "http://a")) (rule ∷ [])
handle_grants_example =
    handle_grants (rule ∷ []) request reply (bytes "http://a") handled reply-granted
