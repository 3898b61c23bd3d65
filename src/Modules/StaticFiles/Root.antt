-- ===== src/Modules/StaticFiles/Root.antt =====
-- static_files_module.cpp and the constructor of static_files.cpp: the root that files are served
-- from. What is asked of `std::filesystem` is a parameter.
use garcon.Prelude.{
  ◌≡◌, refl, Bool, true, false, Option, none, some, [], is_empty, Result, ok, throw, ◌>>=◌,
  if◌then◌else◌, Bool-cases, inl, inr, >>=-eq-ok,
}
use garcon.Text.{Bytes, bytes}
use garcon.Modules.KeyValue.{resolve_path}
use garcon.Modules.StaticFiles.{FilePath}

-- `absolute` and `weakly_canonical` may give an error; `is_directory` may throw. `path_of` reads the
-- elements of a text.
pub record Paths : Type 0 where
  pub absolute : FilePath → Option FilePath
  pub weakly_canonical : FilePath → Option FilePath
  pub is_directory : FilePath → Result Bool
  pub path_of : Bytes → FilePath
  pub is_absolute : Bytes → Bool
  pub joined : Bytes → Bytes → Bytes

-- The empty path where an error was given.
abbrev or_empty : Option FilePath → FilePath
or_empty none = []
or_empty (some path) = path

module _ (paths : Paths) where
  pub canonicalize_path : FilePath → FilePath
  canonicalize_path p = elim (paths.absolute p) [
    | none ↦ []
    | some absolute ↦ or_empty (paths.weakly_canonical absolute)
  ]

  -- The constructor of `static_files`, as the root that it keeps.
  abbrev pub directory_or_throw : FilePath → Bool → Result FilePath
  directory_or_throw root false = throw "static_files: invalid or non-existent root directory"
  directory_or_throw root true = ok root

  pub make_static_files : FilePath → Result FilePath
  make_static_files root =
      let canonical = canonicalize_path root in
      if is_empty canonical
      then throw "static_files: invalid or non-existent root directory"
      else (paths.is_directory canonical >>= directory_or_throw canonical)

  -- The constructor of the module: the `root` of its configuration, or the host's default.
  pub create_root : Bytes → Bytes → Bytes → Result FilePath
  create_root config_text config_directory default_document_root =
      let fallback =
        if is_empty default_document_root then bytes "www" else default_document_root in
      make_static_files (
        paths.path_of (
          resolve_path paths.is_absolute paths.joined config_text (bytes "root") config_directory
            fallback))

  directory_sound :
      (root kept : FilePath) (d : Bool)
      → directory_or_throw root d ≡ ok kept
      → (root ≡ kept) × (d ≡ true)
  directory_sound root kept false h = cc
  directory_sound root kept true h = (cc, refl)

  -- The root of a module that was made is a path in canonical form that is a directory.
  pub make_static_files_sound :
      (root kept : FilePath)
      → make_static_files root ≡ ok kept
      → (canonicalize_path root ≡ kept) × (paths.is_directory kept ≡ ok true)
  unfolding make_static_files
  make_static_files_sound root kept h = elim (Bool-cases (is_empty (canonicalize_path root))) [
    | inl e ↦ cc (rw e at h)
    | inr e ↦
        let (d, f, h1) = >>=-eq-ok (paths.is_directory (canonicalize_path root)) _ (rw e at h) in
        let (g, t) = directory_sound (canonicalize_path root) kept d h1 in
        (
          g,
          (let k : paths.is_directory (canonicalize_path root) ≡ ok true = rw t at f in rw g at k),
        )
  ]
