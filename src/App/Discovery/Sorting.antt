-- ===== src/App/Discovery/Sorting.antt =====
-- The order of the files.
use garcon.Prelude.{◌≡◌, refl, true, false, Bool-cases, inl, inr, List, [], ◌∷◌}
use mathlib.Core.List.{Permᴰ}
use mathlib.Core.List.Permᴰ as Permᴰ
use garcon.App.Discovery.{FilePath, FileSystem, insert, sort}

module _ (fs : FileSystem) where
  -- No file stands behind one that is greater.
  abbrev pub IsSorted : List FilePath → Type 0
  IsSorted [] = Unit
  IsSorted (file ∷ []) = Unit
  IsSorted (file ∷ next ∷ files) = (fs.less next file ≡ false) × IsSorted (next ∷ files)

  insert-Perm :
      (file : FilePath) (files : List FilePath) → Permᴰ (file ∷ files) (insert fs file files)
  unfolding insert
  insert-Perm file [] = Permᴰ.refl (file ∷ [])
  insert-Perm file (other ∷ files) = elim (Bool-cases (fs.less other file)) [
    | inl e ↦ rw e (Permᴰ.trans (Permᴰ.swap refl refl) (Permᴰ.cons refl (insert-Perm file files)))
    | inr e ↦ rw e (Permᴰ.refl (file ∷ other ∷ files))
  ]

  pub sort-Perm : (files : List FilePath) → Permᴰ files (sort fs files)
  unfolding sort
  sort-Perm [] = Permᴰ.refl []
  sort-Perm (file ∷ files) =
      Permᴰ.trans (Permᴰ.cons refl (sort-Perm files)) (insert-Perm file (sort fs files))

  module _ (less_asymmetric : (a b : FilePath) → fs.less a b ≡ true → fs.less b a ≡ false) where
    insert_behind :
        (first file : FilePath) (files : List FilePath)
        → fs.less first file ≡ true
        → IsSorted (first ∷ files)
        → IsSorted (insert fs file files)
        → IsSorted (first ∷ insert fs file files)
    unfolding insert
    insert_behind first file [] e h k = (less_asymmetric first file e, tt)
    insert_behind first file (next ∷ files) e h k = elim (Bool-cases (fs.less next file)) [
      | inl f ↦ rw f ((h.0, rw f at k))
      | inr f ↦ rw f ((less_asymmetric first file e, rw f at k))
    ]

    tail_IsSorted :
        (file : FilePath) (files : List FilePath) → IsSorted (file ∷ files) → IsSorted files
    tail_IsSorted file [] h = tt
    tail_IsSorted file (next ∷ files) h = h.1

    insert-IsSorted :
        (file : FilePath) (files : List FilePath) → IsSorted files → IsSorted (insert fs file files)
    unfolding insert
    insert-IsSorted file [] h = tt
    insert-IsSorted file (other ∷ files) h = elim (Bool-cases (fs.less other file)) [
      | inl e ↦ rw e (
          insert_behind other file files e h
            (insert-IsSorted file files (tail_IsSorted other files h)))
      | inr e ↦ rw e ((e, h))
    ]

    pub sort-IsSorted : (files : List FilePath) → IsSorted (sort fs files)
    unfolding sort
    sort-IsSorted [] = tt
    sort-IsSorted (file ∷ files) = insert-IsSorted file (sort fs files) (sort-IsSorted files)
