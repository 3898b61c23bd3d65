-- ===== src/Modules/KeyValue.antt =====
-- include/garcon/module_cpp.h: `key_value_config`, the reader of `key = value` lines.
pub mod Entries
mod Tests
use garcon.Prelude.{
  ℕ, Bool, true, false, ◌||◌, Option, none, some, List, [], ◌∷◌, is_empty, if◌then◌else◌, ◌==◌,
}
use garcon.Text.{Bytes, bytes, equal, cut_at, pieces, trim}

abbrev pub front_is : ℕ → Bytes → Bool
front_is c [] = false
front_is c (b ∷ bs) = b == c

-- The key and the value around the first `=`, of a line that has one and is not a comment.
abbrev pub sides : Option (Bytes × Bytes) → Option (Bytes × Bytes)
sides none = none
sides (some (before, after)) = some (trim before, trim after)

unfoldable pub entry_of : Bytes → Option (Bytes × Bytes)
unfolding cut_at
entry_of line =
    if is_empty line || front_is b'#' line then none else sides (cut_at (bytes "=") line)

abbrev pub value_if : Bytes → Option (Bytes × Bytes) → Option Bytes → Option Bytes
value_if key none later = later
value_if key (some (found_key, value)) later = if equal found_key key then some value else later

unfoldable pub get_from : Bytes → List Bytes → Option Bytes
unfolding entry_of trim equal
get_from key [] = none
get_from key (raw ∷ raws) =
    let later = get_from key raws in value_if key (entry_of (trim raw)) later

unfoldable pub get : Bytes → Bytes → Option Bytes
unfolding get_from
get text key = get_from key (pieces b'\n' text)

-- `resolve_path`, where a path is a text: `is_absolute` and `/` are those of `std::filesystem::path`.
module _ (is_absolute : Bytes → Bool) (joined : Bytes → Bytes → Bytes) where
  abbrev resolved : Bytes → Bytes → Bytes
  resolved config_directory path =
      if is_absolute path
      then path
      else if is_empty config_directory
      then path
      else joined config_directory path

  abbrev resolved_or : Bytes → Bytes → Option Bytes → Bytes
  resolved_or config_directory fallback none = fallback
  resolved_or config_directory fallback (some value) =
      if is_empty value then fallback else resolved config_directory value

  pub resolve_path : Bytes → Bytes → Bytes → Bytes → Bytes
  resolve_path text key config_directory fallback =
      resolved_or config_directory fallback (get text key)
