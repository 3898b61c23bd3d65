-- ===== src/Modules/RouteTable.antt =====
-- route_table_module.cpp: the first route that matches answers.
pub mod Answers
mod Tests
use garcon.Prelude.{
  Bool, true, false, ◌&&◌, Option, none, some, List, if◌then◌else◌, Result, ok, ◌>>=◌,
}
use garcon.Text.{Bytes}
use garcon.Http.Request.{Request}
use garcon.Http.Response.{Response}
use garcon.Modules.Abi.{
  Outcome, pass, respond, upgrade, error, Reply, Module, pass_reply, respond_reply, error_reply,
}
use garcon.Modules.Config.{method_matches, target_matches, first_reply}
use garcon.Modules.Routes.{RouteEntry, parse_routes}

-- A route that is not a pass, by the response that it holds.
abbrev pub stored_reply : Option Response → Reply
stored_reply none = error_reply
stored_reply (some r) = respond_reply r

abbrev pub outcome_reply : Outcome → Option Response → Reply
outcome_reply pass response = pass_reply
outcome_reply _ response = stored_reply response

pub route_matches : Request → RouteEntry → Bool
route_matches request route =
    method_matches route.method_pattern request.method
    && target_matches route.target_kind route.target_pattern request.target

-- The body of the loop; where it gives nothing, it continues.
pub route_step : Request → RouteEntry → Option Reply
route_step request route =
    if route_matches request route then some (outcome_reply route.outcome route.response) else none

pub handle : List RouteEntry → Module
handle routes request = ok (first_reply (route_step request) routes)

-- The constructor: what `garcon_module_create` makes of the configuration.
pub create : Bytes → Result Module
create config_text = parse_routes "route_table: " config_text >>= λ routes. ok (handle routes)
