-- ===== src/App/Discovery.antt =====
-- module_config.cpp: the modules that the .conf files of a directory name, in the order of the
-- files' paths. A path is its text, and the file system is a parameter.
pub mod Library
pub mod Sorting
pub mod Loaded
mod Tests
use garcon.Prelude.{
  ℕ, Bool, true, false, ◌&&◌, not, Option, none, some, List, [], ◌∷◌, ◌++◌, is_empty, Result, ok,
  ◌>>=◌, if◌then◌else◌,
}
use garcon.Prelude.Expected.{Expected, expected, unexpected, and_then}
use garcon.Text.{Bytes, bytes, equal, pieces, trim}
use garcon.Modules.KeyValue.{entry_of}

abbrev pub FilePath : Type 0
FilePath = Bytes

-- What is asked of `std::filesystem`, where the walk over the directory and the test of its entries
-- may throw and `absolute` may give an error, and the bytes that `std::ifstream` reads, where it
-- opens. `less` is the `<` of paths.
pub record FileSystem : Type 0 where
  pub exists : FilePath → Bool
  pub is_directory : FilePath → Bool
  pub entries : FilePath → Result (List FilePath)
  pub is_regular_file : FilePath → Result Bool
  pub extension : FilePath → Bytes
  pub contents : FilePath → Option Bytes
  pub parent_path : FilePath → FilePath
  pub is_relative : FilePath → Bool
  pub joined : FilePath → FilePath → FilePath
  pub absolute : FilePath → Option FilePath
  pub less : FilePath → FilePath → Bool

pub record ConfiguredModule : Type 0 where
  pub library_file : FilePath
  pub config_directory : FilePath
  pub config_text : Bytes

module _ (fs : FileSystem) where
  pub read_text_file : FilePath → Expected Bytes Bytes
  read_text_file file = elim (fs.contents file) [
    | none ↦ unexpected (bytes "failed to open module config file: " ++ file)
    | some content ↦ expected content
  ]

  abbrev or_path : FilePath → Option FilePath → FilePath
  or_path path none = path
  or_path path (some absolute) = absolute

  -- The path of a value that is not empty.
  pub located : FilePath → Bytes → FilePath
  located file value =
      let path = if fs.is_relative value then fs.joined (fs.parent_path file) value else value in
      or_path path (fs.absolute path)

  abbrev pub library_of : FilePath → Bytes → Expected Bytes FilePath
  library_of file value =
      if is_empty value
      then unexpected (bytes "empty path= entry in module config file: " ++ file)
      else expected (located file value)

  abbrev path_entry :
      FilePath → Option (Bytes × Bytes) → Expected Bytes FilePath → Expected Bytes FilePath
  path_entry file none later = later
  path_entry file (some (key, value)) later =
      if equal key (bytes "path") then library_of file value else later

  library_in : FilePath → List Bytes → Expected Bytes FilePath
  library_in file [] = unexpected (bytes "missing path= entry in module config file: " ++ file)
  library_in file (raw ∷ raws) =
      let later = library_in file raws in path_entry file (entry_of (trim raw)) later

  pub parse_library_path : FilePath → Bytes → Expected Bytes FilePath
  parse_library_path file config_text = library_in file (pieces b'\n' config_text)

  abbrev kept : FilePath → List FilePath → Bool → Bool → List FilePath
  kept entry found regular conf = if regular && conf then entry ∷ found else found

  pub conf_files : List FilePath → Result (List FilePath)
  conf_files [] = ok []
  conf_files (entry ∷ entries) =
      let rest = conf_files entries in
      (fs.is_regular_file entry >>= λ regular.
      rest >>= λ found. ok (kept entry found regular (equal (fs.extension entry) (bytes ".conf"))))

  -- `std::sort`
  pub insert : FilePath → List FilePath → List FilePath
  insert file [] = file ∷ []
  insert file (other ∷ files) =
      let later = insert file files in
      if fs.less other file then other ∷ later else file ∷ other ∷ files

  pub sort : List FilePath → List FilePath
  sort [] = []
  sort (file ∷ files) = insert file (sort files)

  -- One round of the loop, whose exceptions are caught.
  pub load_file : FilePath → Expected Bytes ConfiguredModule
  load_file file = and_then (read_text_file file) (λ config_text.
      and_then (parse_library_path file config_text) (λ library_file. expected (record {
        library_file = library_file;
        config_directory = fs.parent_path file;
        config_text = config_text;
      })))

  pub load_each : List FilePath → Expected Bytes (List ConfiguredModule)
  load_each [] = expected []
  load_each (file ∷ files) =
      let rest = load_each files in
      and_then (load_file file) (λ m. and_then rest (λ modules. expected (m ∷ modules)))

  abbrev not_none : FilePath → List ConfiguredModule → Expected Bytes (List ConfiguredModule)
  not_none directory [] = unexpected (bytes "no module config files found in: " ++ directory)
  not_none directory (m ∷ modules) = expected (m ∷ modules)

  pub load_configured_modules : FilePath → Result (Expected Bytes (List ConfiguredModule))
  load_configured_modules directory =
      if fs.exists directory && fs.is_directory directory
      then (fs.entries directory >>= λ entries. conf_files entries >>= λ files.
          ok (and_then (load_each (sort files)) (not_none directory)))
      else ok (unexpected (bytes "module config directory does not exist: " ++ directory))
