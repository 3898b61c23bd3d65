-- ===== src/Modules/Router.antt =====
-- router_module.cpp: an ordered table whose targets have parameters.
pub mod Segments
pub mod Fits
pub mod Answers
mod Tests
use mathlib.Core.Option
use garcon.Prelude.{
  ℕ, zero, suc, ◌-◌, ◌+◌, Bool, true, false, ◌&&◌, Option, none, some, List, [], ◌∷◌, ◌++◌, map,
  length, is_empty, Result, ok, ◌>>=◌, if◌then◌else◌, leb, ◌==◌,
}
use garcon.Text.{Bytes, bytes, cut_at}
use garcon.Http.Header.{HeaderField}
use garcon.Http.Request.{Request}
use garcon.Http.Response.{Response}
use garcon.Modules.Abi.{
  Outcome, pass, respond, upgrade, error, Reply, Module, pass_reply, respond_reply, error_reply,
  add_response_header,
}
use garcon.Modules.Config.{PatternKind, exact, prefix, method_matches, first_reply}
use garcon.Modules.Routes.{RouteEntry, parse_routes}

pub record CapturedParam : Type 0 where
  pub name : Bytes
  pub value : Bytes

-- `std::toupper` in the C locale
to_upper : ℕ → ℕ
to_upper ch = if leb b'a' ch && leb ch b'z' then ch - b'a' + b'A' else ch

-- The loop of `make_route_param_header`, by its flag `next_upper`.
header_words : Bool → Bytes → Bytes
unfolding to_upper
header_words next_upper [] = []
header_words next_upper (ch ∷ rest) =
    if ch == b'_'
    then b'-' ∷ header_words true rest
    else if next_upper
    then to_upper ch ∷ header_words false rest
    else ch ∷ header_words false rest

make_route_param_header : Bytes → Bytes
unfolding header_words
make_route_param_header param_name =
    let out = header_words true param_name in if is_empty out then bytes "Param" else out

abbrev before_query : Bytes → Option (Bytes × Bytes) → Bytes
before_query target none = target
before_query target (some (before, after)) = before

pub extract_path : Bytes → Bytes
extract_path target = before_query target (cut_at (bytes "?") target)

-- The loop over `t` up to a slash or the end: what it passes, and what is left.
pub segment : Bytes → Bytes × Bytes
segment [] = ([], [])
segment (c ∷ cs) =
    let (value, rest) = segment cs in if c == b'/' then ([], c ∷ cs) else (c ∷ value, rest)

abbrev push_capture :
    Bytes → Bytes → Option (List CapturedParam × Bytes) → Option (List CapturedParam × Bytes)
push_capture name value none = none
push_capture name value (some (caps, rest)) =
    some (record { name = name; value = value } ∷ caps, rest)

-- The loop of `match_target`, on what is left of the pattern and of the path. The number counts the
-- bytes of the pattern that `p = close + 1` passes. With the captures comes what is left of the path
-- at the end of the pattern.
pub match_from : ℕ → Bytes → Bytes → Option (List CapturedParam × Bytes)
match_from skip [] path = some ([], path)
match_from (suc skip) (c ∷ pattern) path = match_from skip pattern path
match_from zero (c ∷ pattern) path = elim (c == b'{') [
  | true ↦ elim (cut_at (bytes "}") pattern) [
    | none ↦ none
    | some (name, after) ↦ elim (is_empty name) [
      | true ↦ none
      | false ↦
          push_capture name (segment path).0
            (match_from (suc (length name)) pattern (segment path).1)
    ]
  ]
  | false ↦ elim path [
    | [] ↦ none
    | t ∷ ts ↦ elim (c == t) [ true ↦ match_from 0 pattern ts | false ↦ none ]
  ]
]

abbrev pub at_end : PatternKind → Option (List CapturedParam × Bytes) → Option (List CapturedParam)
at_end kind none = none
at_end prefix (some (caps, rest)) = some caps
at_end exact (some (caps, rest)) = if is_empty rest then some caps else none

pub match_target : PatternKind → Bytes → Bytes → Option (List CapturedParam)
match_target kind pattern target = at_end kind (match_from 0 pattern (extract_path target))

pub param_header : CapturedParam → HeaderField
param_header cp = record {
  name = bytes "X-Garcon-Route-Param-" ++ make_route_param_header cp.name;
  value = cp.value;
}

-- The loop over the captures, on the result so far.
pub add_params : Reply → List CapturedParam → Reply
add_params res [] = res
add_params res (cp ∷ cps) =
    add_params (add_response_header res (param_header cp).name (param_header cp).value) cps

abbrev pub stored_reply : Option Response → Reply
stored_reply none = error_reply
stored_reply (some r) = respond_reply r

abbrev pub outcome_reply : Outcome → Option Response → List CapturedParam → Reply
outcome_reply pass response caps = add_params pass_reply caps
outcome_reply _ response caps = stored_reply response

pub route_step : Request → RouteEntry → Option Reply
route_step request route =
    if method_matches route.method_pattern request.method
    then Option.map (outcome_reply route.outcome route.response)
        (match_target route.target_kind route.target_pattern request.target)
    else none

pub handle : List RouteEntry → Module
handle routes request = ok (first_reply (route_step request) routes)

pub create : Bytes → Result Module
create config_text = parse_routes "router: " config_text >>= λ routes. ok (handle routes)
