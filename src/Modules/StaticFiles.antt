-- ===== src/Modules/StaticFiles.antt =====
-- static_files.cpp: files under a root. A path is the list of its elements, as the iterators of
-- `std::filesystem::path` give them, and the file system is a parameter.
pub mod Names
pub mod Inside
pub mod Root
mod Tests
use mathlib.Core.Option
use garcon.Prelude.{
  ℕ, Bool, true, false, ◌&&◌, ◌||◌, not, Option, none, some, List, [], ◌∷◌, ◌++◌, is_empty, length,
  take, any, map, Result, ok, ◌>>=◌, if◌then◌else◌, ltb, ◌==◌, ◌*◌,
}
use garcon.Text.{Bytes, bytes, equal, has, cut_at, pieces}
use garcon.Http.Request.{Request}
use garcon.Http.Response.{Response, default_response, text}

abbrev pub FilePath : Type 0
FilePath = List Bytes

-- What is asked of `std::filesystem`, and the bytes that `std::ifstream` finds, where it opens. The two tests of an entry that take no
-- error code throw where the system fails.
pub record FileSystem : Type 0 where
  pub canonical : FilePath → Option FilePath
  pub entry_error : FilePath → Bool
  pub is_regular_file : FilePath → Result Bool
  pub file_size : FilePath → Result ℕ
  pub extension : FilePath → Bytes
  pub contents : FilePath → Option Bytes

-- `garcon::config::max_file_bytes`
abbrev pub max_file_bytes : ℕ
max_file_bytes = 8 * 1024 * 1024

type_table : List (Bytes × Bytes)
type_table =
    (bytes ".html", bytes "text/html; charset=utf-8")
    ∷ (bytes ".htm", bytes "text/html; charset=utf-8")
    ∷ (bytes ".css", bytes "text/css; charset=utf-8")
    ∷ (bytes ".js", bytes "text/javascript; charset=utf-8")
    ∷ (bytes ".txt", bytes "text/plain; charset=utf-8")
    ∷ (bytes ".png", bytes "image/png")
    ∷ (bytes ".jpg", bytes "image/jpeg")
    ∷ (bytes ".jpeg", bytes "image/jpeg")
    ∷ (bytes ".gif", bytes "image/gif")
    ∷ (bytes ".svg", bytes "image/svg+xml")
    ∷ []

type_of : List (Bytes × Bytes) → Bytes → Bytes
type_of [] ext = bytes "application/octet-stream"
type_of ((e, t) ∷ more) ext = let rest = type_of more ext in if equal ext e then t else rest

pub guess_content_type : Bytes → Bytes
guess_content_type ext = type_of type_table ext

abbrev before_query : Bytes → Option (Bytes × Bytes) → Bytes
before_query target none = target
before_query target (some (before, after)) = before

-- The rounds of the loop over the segments: one that is empty is passed over, and one that could
-- leave the directory ends it.
relative_of : List Bytes → Option FilePath
relative_of [] = some []
relative_of (segment ∷ segments) =
    let rest = relative_of segments in
    if is_empty segment
    then rest
    else if equal segment (bytes ".") || (equal segment (bytes "..") || has 0 segment)
    then none
    else Option.map (λ path. segment ∷ path) rest

abbrev with_component : Option FilePath → Option FilePath
with_component none = none
with_component (some []) = none
with_component (some (c ∷ path)) = some (c ∷ path)

-- Behind the first byte, which has to be a slash.
abbrev below_slash : Bytes → Option FilePath
below_slash [] = none
below_slash (c ∷ []) =
    if c == b'/' then with_component (relative_of (pieces b'/' (bytes "index.html"))) else none
below_slash (c ∷ d ∷ rest) =
    if c == b'/' then with_component (relative_of (pieces b'/' (d ∷ rest))) else none

pub map_to_relative_path : Bytes → Option FilePath
map_to_relative_path target = below_slash (before_query target (cut_at (bytes "?") target))

pub is_within_root : FilePath → FilePath → Bool
is_within_root [] candidate = true
is_within_root (r ∷ root) [] = false
is_within_root (r ∷ root) (c ∷ candidate) = equal r c && is_within_root root candidate

abbrev checked_within : FilePath → Option FilePath → Option FilePath
checked_within root none = none
checked_within root (some resolved) = if is_within_root root resolved then some resolved else none

pub not_found : Response
not_found = text 404 (bytes "Not Found") (bytes "not found\n")

pub too_large : Response
too_large = text 413 (bytes "Payload Too Large") (bytes "file too large\n")

pub not_allowed : Response
not_allowed = text 405 (bytes "Method Not Allowed") (bytes "method not allowed\n")

-- The read asks for `size` bytes, and has to give as many. A `std::size_t` holds every size.
abbrev pub read_exactly : Option Bytes → ℕ → Option Bytes
read_exactly none size = none
read_exactly (some stream) size =
    if length (take size stream) == size then some (take size stream) else none

module _ (system : FileSystem) (root : FilePath) where
  resolve_under_root : FilePath → Option FilePath
  resolve_under_root relative =
      if is_empty root then none else checked_within root (system.canonical (root ++ relative))

  pub read_file_bytes : FilePath → ℕ → Option Bytes
  read_file_bytes p size = read_exactly (system.contents p) size

  -- The response of a file but for its body.
  pub file_head : FilePath → ℕ → Response
  file_head resolved size = record default_response {
    status = 200;
    reason = bytes "OK";
    content_type = guess_content_type (system.extension resolved);
    content_length = some size;
  }

  abbrev with_body : Response → Option Bytes → Response
  with_body resp none = not_found
  with_body resp (some bytes_read) = record resp { body = bytes_read }

  sized_file : FilePath → Bool → ℕ → Response
  sized_file resolved include_body size =
      if ltb max_file_bytes size
      then too_large
      else if include_body
      then with_body (file_head resolved size) (read_file_bytes resolved size)
      else file_head resolved size

  regular_file : FilePath → Bool → Bool → Result Response
  regular_file resolved include_body false = ok not_found
  regular_file resolved include_body true =
      system.file_size resolved >>= λ size. ok (sized_file resolved include_body size)

  resolved_file : Bool → Option FilePath → Result Response
  resolved_file include_body none = ok not_found
  resolved_file include_body (some resolved) =
      if system.entry_error resolved
      then ok not_found
      else (system.is_regular_file resolved >>= λ r. regular_file resolved include_body r)

  abbrev relative_file : Bool → Option FilePath → Result Response
  relative_file include_body none = ok not_found
  relative_file include_body (some relative) =
      resolved_file include_body (resolve_under_root relative)

  serve_file : Bytes → Bool → Result Response
  serve_file target include_body = relative_file include_body (map_to_relative_path target)

  pub handle : Request → Result Response
  handle req =
      let is_get = equal req.method (bytes "GET") in
      let is_head = equal req.method (bytes "HEAD") in
      if not is_get && not is_head then ok not_allowed else serve_file req.target is_get
