-- ===== src/Modules/Router/Tests.antt =====
-- A router with one route.
use garcon.Prelude.{◌≡◌, ◌↔◌, some, refl, none, [], ◌∷◌, List, ok}
use garcon.Text.{Bytes, bytes, equal, pieces, trim, trim_by, is_space, starts_with, split_fields}
use garcon.Http.Request.{Request}
use garcon.Modules.Abi.{Reply, pass}
use garcon.Modules.Config.{
  prefix, is_keyword_line, parse_each, parse_config, classify_target_pattern,
}
use garcon.Modules.Routes.{
  RouteEntry, parse_action, parse_route_fields, parse_route_line, parse_routes,
}
use garcon.Modules.Router.{CapturedParam, extract_path, match_target, create, handle}
use garcon.Modules.Router.Segments.{Fits}
use garcon.Modules.Router.Fits.{AllowsRest, match_target_iff}
use garcon.Modules.Router.Answers.{IsRouted, create_router-IsRouted}

abbrev config_text : Bytes
config_text = bytes "# routes\nroute=GET|/open*|pass\n"

abbrev routes_read : List RouteEntry
routes_read =
    record {
      method_pattern = bytes "GET";
      target_pattern = bytes "/open";
      target_kind = prefix;
      outcome = pass;
      response = none;
    }
    ∷ []

created : create config_text ≡ ok (handle routes_read)
unfolding create parse_routes parse_route_line parse_route_fields parse_action parse_config
    parse_each is_keyword_line classify_target_pattern pieces trim trim_by is_space starts_with
    split_fields equal
created = refl

create_router-IsRouted_example :
    (routes : List RouteEntry) × (parse_routes "router: " config_text ≡ ok routes)
    × ((request : Request)
        → (reply : Reply) × (handle routes_read request ≡ ok reply) × IsRouted request routes reply)
create_router-IsRouted_example = create_router-IsRouted config_text (handle routes_read) created

abbrev users : Bytes
users = bytes "/users/{id}/"

abbrev ids : List CapturedParam
ids = record { name = bytes "id"; value = bytes "7" } ∷ []

match_target_iff_example : (match_target prefix users (bytes "/users/7/edit?a=b") ≡ some ids) ↔ (
    (rest : Bytes) × Fits users ids (extract_path (bytes "/users/7/edit?a=b")) rest
    × AllowsRest prefix rest)
match_target_iff_example = match_target_iff prefix users (bytes "/users/7/edit?a=b") ids
