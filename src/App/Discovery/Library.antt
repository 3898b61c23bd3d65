-- ===== src/App/Discovery/Library.antt =====
-- The library of a configuration file.
use garcon.Prelude.{◌≡◌, refl, Option, none, some, List, [], ◌∷◌, ◌++◌, Bool-cases, inl, inr}
use garcon.Prelude.Expected.{Expected, unexpected}
use garcon.Text.{Bytes, bytes, equal, pieces, trim}
use garcon.Modules.KeyValue.{entry_of, get, get_from, value_if}
use garcon.App.Discovery.{
  FilePath, FileSystem, library_of, path_entry, library_in, parse_library_path,
}

module _ (fs : FileSystem) (file : FilePath) where
  abbrev pub library_or_missing : Option Bytes → Expected Bytes FilePath
  library_or_missing none = unexpected (bytes "missing path= entry in module config file: " ++ file)
  library_or_missing (some value) = library_of fs file value

  entry_step :
      (entry : Option (Bytes × Bytes)) (later : Option Bytes)
      → path_entry fs file entry (library_or_missing later)
        ≡ library_or_missing (value_if (bytes "path") entry later)
  entry_step none later = refl
  entry_step (some (key, value)) later = elim (Bool-cases (equal key (bytes "path"))) [
    | inl e ↦ rw e refl
    | inr e ↦ rw e refl
  ]

  library_in-get_from :
      (raws : List Bytes)
      → library_in fs file raws ≡ library_or_missing (get_from (bytes "path") raws)
  unfolding library_in get_from
  library_in-get_from [] = refl
  library_in-get_from (raw ∷ raws) =
      rw (library_in-get_from raws)
        (entry_step (entry_of (trim raw)) (get_from (bytes "path") raws))

  -- The library of a configuration text is the path of the value that `key_value_config::get` reads
  -- for `path`: an error where there is none and where it is empty.
  pub parse_library_path-get :
      (config_text : Bytes)
      → parse_library_path fs file config_text ≡ library_or_missing (get config_text (bytes "path"))
  unfolding parse_library_path get
  parse_library_path-get config_text = library_in-get_from (pieces b'\n' config_text)
