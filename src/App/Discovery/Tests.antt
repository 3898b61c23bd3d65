-- ===== src/App/Discovery/Tests.antt =====
-- A directory of two configuration files and another file, where a shorter path is less.
use garcon.Prelude.{
  ◌≡◌, ◌≢◌, refl, true, none, some, List, [], ◌∷◌, ◌++◌, ltb, ok, if◌then◌else◌, length, arith,
}
use mathlib.Core.List.{Permᴰ}
use garcon.Prelude.Expected.{expected}
use garcon.Text.{Bytes, bytes, equal, pieces, trim, trim_by, is_space, starts_with, cut_at}
use garcon.Modules.KeyValue.{entry_of}
use garcon.App.Discovery.{
  FilePath, FileSystem, ConfiguredModule, read_text_file, located, library_in, parse_library_path,
  conf_files, insert, sort, load_file, load_each, load_configured_modules,
}
use garcon.App.Discovery.Loaded.{Selects, AreLoaded, load_configured_modules-AreLoaded}
use garcon.App.Discovery.Sorting.{IsSorted}

abbrev content : FilePath → Bytes
content file =
    if equal file (bytes "m/9.conf") then bytes "path=/a.so" else bytes "x=1\npath = b.so"

abbrev files_there : FileSystem
files_there = record {
  exists = λ path. true;
  is_directory = λ path. true;
  entries = λ path. ok (bytes "m/10.conf" ∷ bytes "m/x.txt" ∷ bytes "m/9.conf" ∷ []);
  is_regular_file = λ path. ok true;
  extension = λ path. if equal path (bytes "m/x.txt") then bytes ".txt" else bytes ".conf";
  contents = λ path. some (content path);
  parent_path = λ path. bytes "m";
  is_relative = λ path. equal path (bytes "b.so");
  joined = λ directory path. directory ++ (bytes "/" ++ path);
  absolute = λ path. none;
  less = λ a b. ltb (length a) (length b);
}

abbrev modules_loaded : List ConfiguredModule
modules_loaded =
    record {
      library_file = bytes "/a.so";
      config_directory = bytes "m";
      config_text = bytes "path=/a.so";
    }
    ∷ record {
      library_file = bytes "m/b.so";
      config_directory = bytes "m";
      config_text = bytes "x=1\npath = b.so";
    }
    ∷ []

loaded : load_configured_modules files_there (bytes "m") ≡ ok (expected modules_loaded)
unfolding load_configured_modules load_each load_file read_text_file parse_library_path library_in
    located conf_files insert sort entry_of pieces trim trim_by is_space starts_with equal cut_at
loaded = refl

load_configured_modules-AreLoaded_example :
    (entries files sorted : List FilePath) × (files_there.entries (bytes "m") ≡ ok entries)
    × Selects files_there entries files
    × Permᴰ files sorted
    × IsSorted files_there sorted
    × AreLoaded files_there sorted modules_loaded
    × (modules_loaded ≢ [])
load_configured_modules-AreLoaded_example =
    load_configured_modules-AreLoaded files_there (λ a b h. ground arith) (bytes "m") modules_loaded
      loaded
