-- ===== src/Modules/Config.antt =====
-- What the modules under lib/ share in reading their configuration: the loop over its lines, the
-- patterns of methods and targets, and status codes. Each module has its own copy in the source.
pub mod Patterns
pub mod Status
pub mod Scan
pub mod Entries
mod Tests
use Prim.Native.String.{String, ◌++◌}
use garcon.Prelude.{
  ℕ, Bool, true, false, ◌&&◌, ◌||◌, not, Option, none, some, List, [], ◌∷◌, length, take, is_empty,
  leb, ltb, if◌then◌else◌, Result, ok, throw, throw_if, ◌>>=◌, ◌>>◌, ◌==◌,
}
use garcon.Modules.Abi.{Reply, pass_reply}
use garcon.Text.{Bytes, bytes, equal, pieces, trim, parse_int, starts_with}

pub data PatternKind : Type 0 where
  exact prefix : PatternKind

-- A target with a trailing `*` is a prefix. The result is the kind and the text without the star.
unfoldable pub classify_target_pattern : Bytes → PatternKind × Bytes
classify_target_pattern [] = (exact, [])
classify_target_pattern (c ∷ []) = if c == b'*' then (prefix, []) else (exact, c ∷ [])
classify_target_pattern (c ∷ d ∷ pattern) =
    let (kind, rest) = classify_target_pattern (d ∷ pattern) in (kind, c ∷ rest)

unfoldable pub method_matches : Bytes → Bytes → Bool
unfolding equal
method_matches pattern actual = equal pattern (bytes "*") || equal pattern actual

unfoldable pub target_matches : PatternKind → Bytes → Bytes → Bool
unfolding equal
target_matches exact pattern actual = equal pattern actual
target_matches prefix pattern actual = equal (take (length pattern) actual) pattern

-- A message begins with the name of the module.
unfoldable pub parse_status_code : String → Bytes → Result ℕ
parse_status_code module_name value = do
  throw_if (is_empty value) (module_name ++ "empty status code")
  status ← parse_int (module_name ++ "invalid status code") 0 value
  throw_if (ltb status 100 || ltb 999 status) (module_name ++ "status code out of range")
  ok status

-- A `switch` over numbers that returns a text in each case.
unfoldable pub case_of : ℕ → List (ℕ × Bytes) → Bytes → Bytes
case_of n [] otherwise = otherwise
case_of n ((m, text) ∷ cases) otherwise =
    let rest = case_of n cases otherwise in if n == m then text else rest

abbrev pub reply_or : Option Reply → Reply → Reply
reply_or none later = later
reply_or (some reply) later = reply

abbrev front_is : ℕ → Bytes → Bool
front_is c [] = false
front_is c (b ∷ bs) = b == c

unfoldable pub is_keyword_line : Bytes → Bytes → Bool
is_keyword_line keyword line =
    not (is_empty line) && not (front_is b'#' line) && starts_with keyword line

-- The loop over the lines: a line that is not empty, not a comment and begins with the keyword is
-- parsed and its result kept; the first exception ends the loop.
module _ {A : Type 0} (keyword : Bytes) (parse_line : Bytes → Result A) where
  unfoldable pub parse_each : List Bytes → Result (List A)
  parse_each [] = ok []
  parse_each (raw ∷ raws) =
      let rest = parse_each raws in
      if is_keyword_line keyword (trim raw)
      then (parse_line (trim raw) >>= λ entry. rest >>= λ entries. ok (entry ∷ entries))
      else rest

  unfoldable pub parse_config : Bytes → Result (List A)
  parse_config config_text = parse_each (pieces b'\n' config_text)

-- The loop of a `handle`: `continue` where the step gives nothing, `return` where it gives a result,
-- and a pass behind the loop.
unfoldable pub first_reply {ℓ} : {A : Type ℓ} → (A → Option Reply) → List A → Reply
first_reply step [] = pass_reply
first_reply step (x ∷ xs) = reply_or (step x) (first_reply step xs)
