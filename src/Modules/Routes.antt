-- ===== src/Modules/Routes.antt =====
-- The routes of lib/route_table and lib/router: route_table_module.cpp and router_module.cpp read
-- them with the same code, but for the module's name in the messages.
pub mod Read
use Prim.Native.String.{String, ◌++◌}
use garcon.Prelude.{
  ℕ, Bool, true, false, Option, none, some, List, [], ◌∷◌, is_empty, drop, length, not, Result, ok,
  throw, throw_if, ◌>>=◌, ◌>>◌, if◌then◌else◌,
}
use garcon.Text.{Bytes, bytes, equal, split_fields}
use garcon.Http.Response.{Response, default_response}
use garcon.Modules.Abi.{Outcome, pass, respond, upgrade, error}
use garcon.Modules.Config.{
  PatternKind, exact, prefix, classify_target_pattern, case_of, parse_status_code, parse_config,
}

pub record RouteEntry : Type 0 where
  pub method_pattern : Bytes
  pub target_pattern : Bytes
  pub target_kind : PatternKind
  pub outcome : Outcome
  pub response : Option Response

unfoldable pub reason_phrase_for_status : ℕ → Bytes
unfolding case_of
reason_phrase_for_status status =
    case_of status
      ((200, bytes "OK")
        ∷ (201, bytes "Created")
        ∷ (202, bytes "Accepted")
        ∷ (204, bytes "No Content")
        ∷ (400, bytes "Bad Request")
        ∷ (401, bytes "Unauthorized")
        ∷ (403, bytes "Forbidden")
        ∷ (404, bytes "Not Found")
        ∷ (405, bytes "Method Not Allowed")
        ∷ (409, bytes "Conflict")
        ∷ (429, bytes "Too Many Requests")
        ∷ (500, bytes "Internal Server Error")
        ∷ (501, bytes "Not Implemented")
        ∷ (503, bytes "Service Unavailable")
        ∷ [])
      (bytes "OK")

-- `fields[3]` to `fields[5]`, where there are six fields.
unfoldable pub parse_respond : String → RouteEntry → List Bytes → Result RouteEntry
parse_respond name entry (status ∷ content_type ∷ body ∷ []) = do
  code ← parse_status_code name status
  ok (record entry {
    outcome = respond;
    response = some (record default_response {
      status = code;
      reason = reason_phrase_for_status code;
      content_type = content_type;
      body = body;
    });
  })
parse_respond name entry more = throw (name ++ "respond route requires 6 fields")

-- `fields[2]` is the action. Fields behind the action of a pass are not looked at.
unfoldable pub parse_action : String → RouteEntry → Bytes → List Bytes → Result RouteEntry
parse_action name entry action more =
    if equal action (bytes "pass")
    then ok (record entry { outcome = pass })
    else (throw_if (not (equal action (bytes "respond"))) (name ++ "unsupported route action")
        >> parse_respond name entry more)

unfoldable pub parse_route_fields : String → List Bytes → Result RouteEntry
parse_route_fields name (method ∷ target ∷ action ∷ more) =
    let (kind, pattern) = classify_target_pattern target in
    do
      throw_if (is_empty method) (name ++ "route method pattern must not be empty")
      throw_if (is_empty pattern) (name ++ "route target pattern must not be empty")
      parse_action name
          (record {
            method_pattern = method;
            target_pattern = pattern;
            target_kind = kind;
            outcome = pass;
            response = none;
          })
          action more
parse_route_fields name fields = throw (name ++ "route requires at least 3 fields")

unfoldable pub parse_route_line : String → Bytes → Result RouteEntry
parse_route_line name line = parse_route_fields name (split_fields (drop 6 line) b'|')

unfoldable pub parse_routes : String → Bytes → Result (List RouteEntry)
parse_routes name config_text = parse_config (bytes "route=") (parse_route_line name) config_text
