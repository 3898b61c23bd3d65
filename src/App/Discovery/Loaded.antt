-- ===== src/App/Discovery/Loaded.antt =====
-- What is loaded from a directory.
use garcon.Prelude.{
  ◌⊎◌, Bool, false, ◌≡◌, ◌≢◌, refl, ap, true, false, ◌&&◌, Option, none, some, List, [], ◌∷◌,
  Bool-cases, Option-cases, inl, inr, ok, >>=-eq-ok, subst, sym, ◌∙◌,
}
use mathlib.Core.List.{Permᴰ}
use garcon.Prelude.Expected.{expected, and_then, >>=-eq-expected}
use garcon.Text.{Bytes, bytes, equal}
use garcon.Text.Search.{equal_iff}
use garcon.Modules.KeyValue.{get}
use garcon.App.Discovery.{
  FilePath, FileSystem, ConfiguredModule, read_text_file, located, or_path, kept,
  parse_library_path, conf_files, sort, load_file, load_each, not_none, load_configured_modules,
}
use garcon.App.Discovery.Library.{library_or_missing, parse_library_path-get}
use garcon.App.Discovery.Sorting.{IsSorted, sort-Perm, sort-IsSorted}

module _ (fs : FileSystem) where
  -- The files among the entries: an entry is taken exactly where it is a regular file with the
  -- extension .conf.
  pub data Selects : List FilePath → List FilePath → Type 0 where
    at_end : Selects [] []
    takes :
        {entry : FilePath} {entries files : List FilePath}
        → fs.is_regular_file entry ≡ ok true
        → fs.extension entry ≡ bytes ".conf"
        → Selects entries files
        → Selects (entry ∷ entries) (entry ∷ files)
    skips :
        {entry : FilePath} {entries files : List FilePath}
        → (fs.is_regular_file entry ≡ ok false) ⊎ (fs.extension entry ≢ bytes ".conf")
        → Selects entries files
        → Selects (entry ∷ entries) files

  conf_files_sound :
      (entries files : List FilePath) → conf_files fs entries ≡ ok files → Selects entries files
  unfolding conf_files
  conf_files_sound [] files h = let g : [] ≡ files = cc in subst (Selects []) g at_end
  conf_files_sound (entry ∷ entries) files h =
      let (regular, e, h1) = >>=-eq-ok (fs.is_regular_file entry) _ h in
      let (found, f, h2) = >>=-eq-ok (conf_files fs entries) _ h1 in
      let rest = conf_files_sound entries found f in kept_sound regular found e h2 rest
    where
      kept_sound :
          (regular : Bool) (found : List FilePath)
          → fs.is_regular_file entry ≡ ok regular
          → ok (kept fs entry found regular (equal (fs.extension entry) (bytes ".conf"))) ≡ ok files
          → Selects entries found
          → Selects (entry ∷ entries) files
      kept_sound false found e h rest =
          let g : found ≡ files = cc in subst (Selects (entry ∷ entries)) g (skips (inl e) rest)
      kept_sound true found e h rest =
          elim (Bool-cases (equal (fs.extension entry) (bytes ".conf"))) [
            | inl c ↦
                let k : ok (entry ∷ found) ≡ ok files = rw c at h in
                let g : entry ∷ found ≡ files = cc in
                subst (Selects (entry ∷ entries)) g
                  (takes e ((equal_iff (fs.extension entry) (bytes ".conf")).0 c) rest)
            | inr c ↦
                let k : ok found ≡ ok files = rw c at h in
                let g : found ≡ files = cc in
                let other : fs.extension entry ≢ bytes ".conf" = λ q.
                  let y : equal (fs.extension entry) (bytes ".conf") ≡ true =
                    (equal_iff (fs.extension entry) (bytes ".conf")).1 q in
                  cc in
                subst (Selects (entry ∷ entries)) g (skips (inr other) rest)
          ]

  -- A relative path is taken from the file's directory; the path is made absolute where that can be
  -- done.
  abbrev pub IsLocated : FilePath → Bytes → FilePath → Type 0
  IsLocated file value library =
      (path : FilePath) × (((fs.is_relative value ≡ true)
          × (path ≡ fs.joined (fs.parent_path file) value))
        ⊎ ((fs.is_relative value ≡ false) × (path ≡ value)))
      × ((fs.absolute path ≡ some library) ⊎ ((fs.absolute path ≡ none) × (library ≡ path)))

  or_path_sound :
      (path : FilePath)
      → (fs.absolute path ≡ some (or_path fs path (fs.absolute path)))
        ⊎ ((fs.absolute path ≡ none) × (or_path fs path (fs.absolute path) ≡ path))
  or_path_sound path = elim (Option-cases (fs.absolute path)) [
    | inl e ↦ rw e (inr (refl, refl))
    | inr (a, e) ↦ rw e (inl refl)
  ]

  located_sound : (file : FilePath) (value : Bytes) → IsLocated file value (located fs file value)
  unfolding located
  located_sound file value = elim (Bool-cases (fs.is_relative value)) [
    | inl e ↦
        let path = fs.joined (fs.parent_path file) value in
        rw e (path, inl (refl, refl), or_path_sound path)
    | inr e ↦ rw e (value, inr (refl, refl), or_path_sound value)
  ]

  -- The module of a file: the file's text, the path that its `path` entry gives, and the directory
  -- of the file.
  abbrev pub IsLoaded : FilePath → ConfiguredModule → Type 0
  IsLoaded file m =
      (fs.contents file ≡ some m.config_text)
      × ((value : Bytes) × (get m.config_text (bytes "path") ≡ some value)
          × (value ≢ [])
          × IsLocated file value m.library_file)
      × (m.config_directory ≡ fs.parent_path file)

  -- One module for each file, in the files' order.
  abbrev pub AreLoaded : List FilePath → List ConfiguredModule → Type 0
  AreLoaded [] [] = Unit
  AreLoaded [] (m ∷ modules) = ⊥
  AreLoaded (file ∷ files) [] = ⊥
  AreLoaded (file ∷ files) (m ∷ modules) = IsLoaded file m × AreLoaded files modules

  read_text_file_sound :
      (file : FilePath) (text : Bytes)
      → read_text_file fs file ≡ expected text
      → fs.contents file ≡ some text
  unfolding read_text_file
  read_text_file_sound file text h = elim (Option-cases (fs.contents file)) [
    | inl e ↦ cc (rw (e, read_text_file) at h)
    | inr (t, e) ↦
        let k : expected t ≡ expected text = rw (e, read_text_file) at h in
        let g : t ≡ text = cc in e ∙ ap some g
  ]

  library_sound :
      (file : FilePath) (found : Option Bytes) (library : FilePath)
      → library_or_missing fs file found ≡ expected library
      → (value : Bytes) × (found ≡ some value) × (value ≢ []) × IsLocated file value library
  library_sound file none library h = cc
  library_sound file (some []) library h = cc
  library_sound file (some (c ∷ value)) library h =
      let g : located fs file (c ∷ value) ≡ library = cc in
      (
        c ∷ value,
        refl,
        (λ e. cc),
        subst (IsLocated file (c ∷ value)) g (located_sound file (c ∷ value)),
      )

  load_file_sound :
      (file : FilePath) (m : ConfiguredModule) → load_file fs file ≡ expected m → IsLoaded file m
  unfolding load_file
  load_file_sound file m h =
      let (text, e, h1) = >>=-eq-expected (read_text_file fs file) _ h in
      let (library, f, h2) = >>=-eq-expected (parse_library_path fs file text) _ h1 in
      let g : record {
        library_file = library;
        config_directory = fs.parent_path file;
        config_text = text;
      }
          ≡ m =
        cc in
      let found =
        library_sound file (get text (bytes "path")) library
          (sym (parse_library_path-get fs file text) ∙ f) in
      subst (IsLoaded file) g ((read_text_file_sound file text e, found, refl))

  load_each_sound :
      (files : List FilePath) (modules : List ConfiguredModule)
      → load_each fs files ≡ expected modules
      → AreLoaded files modules
  unfolding load_each
  load_each_sound [] modules h = let g : [] ≡ modules = cc in subst (AreLoaded []) g tt
  load_each_sound (file ∷ files) modules h =
      let (m, e, h1) = >>=-eq-expected (load_file fs file) _ h in
      let (rest, f, h2) = >>=-eq-expected (load_each fs files) _ h1 in
      let g : (m ∷ rest) ≡ modules = cc in
      subst (AreLoaded (file ∷ files)) g ((load_file_sound file m e, load_each_sound files rest f))

  not_none_sound :
      (directory : FilePath) (found modules : List ConfiguredModule)
      → not_none fs directory found ≡ expected modules
      → (found ≡ modules) × (modules ≢ [])
  not_none_sound directory [] modules h = cc
  not_none_sound directory (m ∷ rest) modules h = let g : (m ∷ rest) ≡ modules = cc in (g, λ e. cc)

  -- What is loaded is one module for each entry of the directory that is a regular file with the
  -- extension .conf, and at least one, in the order of the files' paths, where `less` is asymmetric.
  -- Each module has its file's text, the file's directory, and the library that the file's `path`
  -- entry names: from that directory if it is relative, and made absolute where that can be done.
  pub load_configured_modules-AreLoaded :
      ((a b : FilePath) → fs.less a b ≡ true → fs.less b a ≡ false)
      → (directory : FilePath) (modules : List ConfiguredModule)
      → load_configured_modules fs directory ≡ ok (expected modules)
      → (entries files sorted : List FilePath) × (fs.entries directory ≡ ok entries)
        × Selects entries files
        × Permᴰ files sorted
        × IsSorted fs sorted
        × AreLoaded sorted modules
        × (modules ≢ [])
  unfolding load_configured_modules
  load_configured_modules-AreLoaded asymmetric directory modules h =
      elim (Bool-cases (fs.exists directory && fs.is_directory directory)) [
        | inl there ↦
            let (entries, e, h1) = >>=-eq-ok (fs.entries directory) _ (rw there at h) in
            let (files, f, h2) = >>=-eq-ok (conf_files fs entries) _ h1 in
            let k : and_then (load_each fs (sort fs files)) (not_none fs directory)
                ≡ expected modules =
              cc in
            let (found, l, h3) = >>=-eq-expected (load_each fs (sort fs files)) _ k in
            let (g, n) = not_none_sound directory found modules h3 in
            (
              entries,
              files,
              sort fs files,
              e,
              conf_files_sound entries files f,
              sort-Perm fs files,
              sort-IsSorted fs asymmetric files,
              subst (AreLoaded (sort fs files)) g (load_each_sound (sort fs files) found l),
              n,
            )
        | inr missing ↦ cc (rw missing at h)
      ]
